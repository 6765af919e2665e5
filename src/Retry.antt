-- ===== src/Retry.antt =====
-- queue.go: retryQueue, and container/heap as far as it uses it. Each method runs under the queue's
-- lock. `none` is a run-time panic, and also what a loop gives when its fuel runs out.
pub mod Array
pub mod Order
pub mod Up
pub mod Down
pub mod Heap
pub mod Queue
mod Tests
use sse_eventbus_go.Prelude.{
  ℕ, zero, suc, ◌+◌, ◌-◌, ◌*◌, ◌/◌, Bool, true, false, ◌&&◌, ◌||◌, List, [], ◌∷◌, ◌++◌, Option,
  none, some, ◌==◌, ltb, leb, if◌then◌else◌, length, get_elem?, set, take,
}
use sse_eventbus_go.Errors.{Error, is, closed}
use sse_eventbus_go.Client.Turns.{succ64}

-- The fields of a ClientEvent that the retry queue reads; the event itself is known by a number, and
-- a time is in nanoseconds.
pub record RetryEvent : Type 0 where
  pub event : ℕ
  pub retry_after : ℕ
  pub retry_order : ℕ

infixl 5 ◌>>=◌
abbrev pub ◌>>=◌ {ℓ κ} : {A : Type ℓ} {B : Type κ} → Option A → (A → Option B) → Option B
none >>= f = none
some a >>= f = f a

-- retryHeap.Less on two events
pub before : RetryEvent → RetryEvent → Bool
before x y =
    if x.retry_after == y.retry_after
    then ltb x.retry_order y.retry_order
    else ltb x.retry_after y.retry_after

pub less : List RetryEvent → ℕ → ℕ → Option Bool
less h i j = do x ← get_elem? h i; y ← get_elem? h j; some (before x y)

pub swap : List RetryEvent → ℕ → ℕ → Option (List RetryEvent)
swap h i j = do y ← get_elem? h j; x ← get_elem? h i; some (set (set h i y) j x)

abbrev pub parent : ℕ → ℕ
parent j = (j - 1) / 2

-- heap.up: the loop ends at the root, where `(j - 1) / 2` is `j`.
pub up_loop : ℕ → List RetryEvent → ℕ → Option (List RetryEvent)
unfolding less swap
up_loop zero h j = none
up_loop (suc fuel) h j =
    let rise = swap h (parent j) j >>= λ h'. up_loop fuel h' (parent j) in
    let step = less h j (parent j) >>= λ below. if below then rise else some h in
    if parent j == j then some h else step

pub up : List RetryEvent → ℕ → Option (List RetryEvent)
unfolding up_loop
up h j = up_loop (j + 1) h j

-- The child of `i` that heap.down compares with it.
pub smaller_child : List RetryEvent → ℕ → ℕ → Option ℕ
unfolding less
smaller_child h i n =
    let left = 2 * i + 1 in
    let right = left + 1 in
    if ltb right n
    then less h right left >>= (λ smaller. some (if smaller then right else left))
    else some left

-- heap.down over the first `n` events
pub down_loop : ℕ → List RetryEvent → ℕ → ℕ → Option (List RetryEvent)
unfolding smaller_child less swap
down_loop zero h i n = none
down_loop (suc fuel) h i n =
    let step : Option (List RetryEvent) = smaller_child h i n >>= λ j.
    let sink = swap h i j >>= λ h'. down_loop fuel h' j n in
    less h j i >>= λ below. if below then sink else some h in
    if ltb (2 * i + 1) n then step else some h

pub down : List RetryEvent → ℕ → ℕ → Option (List RetryEvent)
unfolding down_loop
down h i n = down_loop (n + 1) h i n

-- The loop of heap.Init, with `i` the rounds left.
pub init_loop : ℕ → List RetryEvent → Option (List RetryEvent)
unfolding down
init_loop zero h = some h
init_loop (suc i) h = down h i (length h) >>= init_loop i

pub heap_init : List RetryEvent → Option (List RetryEvent)
unfolding init_loop
heap_init h = init_loop (length h / 2) h

pub heap_push : RetryEvent → List RetryEvent → Option (List RetryEvent)
unfolding up
heap_push x h = let grown = h ++ x ∷ [] in up grown (length grown - 1)

-- retryHeap.Pop: the last event, and the slice without it.
pub pop_last : List RetryEvent → Option (RetryEvent × List RetryEvent)
pop_last h = get_elem? h (length h - 1) >>= λ value. some (value, take (length h - 1) h)

unfoldable pub heap_pop : List RetryEvent → Option (RetryEvent × List RetryEvent)
unfolding swap down pop_last
heap_pop h = do
  swapped ← swap h 0 (length h - 1)
  sifted ← down swapped 0 (length h - 1)
  pop_last sifted

-- `changed` is a channel with room for one signal.
pub record RetryQueue : Type 0 where
  pub items : List RetryEvent
  pub capacity : ℕ
  pub sequence : ℕ
  pub changed : Bool
  pub is_closed : Bool

abbrev pub new_retry_queue : ℕ → RetryQueue
new_retry_queue capacity = record {
  items = [];
  capacity = capacity;
  sequence = 0;
  changed = false;
  is_closed = false;
}

-- How schedule returns: with nil, with the event handed back, or with ErrClosed.
pub data Scheduled : Type 0 where
  kept : Scheduled
  handed_back : RetryEvent → Scheduled
  refused : Error → Scheduled

unfoldable pub schedule : ℕ → ℕ → RetryQueue → Option (Scheduled × RetryQueue)
unfolding heap_push heap_pop succ64
schedule event retry_after q =
    if q.is_closed
    then some (refused (is closed), q)
    else (let sequence = succ64 q.sequence in
        let e : RetryEvent = record {
          event = event;
          retry_after = retry_after;
          retry_order = sequence;
        } in
        heap_push e q.items >>= λ pushed.
        let q' : RetryQueue = record q { items = pushed; sequence = sequence; changed = true } in
        if ltb q.capacity (length pushed)
        then (heap_pop pushed >>= λ (first, rest).
            some (handed_back first, record q' { items = rest }))
        else some (kept, q'))

-- How popDue returns: closed, empty, with the time of the next event, or with a due event.
pub data Due : Type 0 where
  shut : Due
  empty : Due
  not_before : ℕ → Due
  due : RetryEvent → Due

unfoldable pub pop_due : ℕ → RetryQueue → Option (Due × RetryQueue)
pop_due now q =
    if q.is_closed
    then some (shut, q)
    else if length q.items == 0
    then some (empty, q)
    else (get_elem? q.items 0 >>= λ next.
        if ltb now next.retry_after
        then some (not_before next.retry_after, q)
        else (heap_pop q.items >>= λ (event, rest). some (due event, record q { items = rest })))

-- The events that remove keeps.
pub unmatched : (RetryEvent → Bool) → List RetryEvent → List RetryEvent
unmatched match [] = []
unmatched match (e ∷ events) =
    let rest = unmatched match events in if match e then rest else e ∷ rest

unfoldable pub remove : (RetryEvent → Bool) → RetryQueue → Option RetryQueue
unfolding unmatched heap_init
remove match q = heap_init (unmatched match q.items) >>= λ items.
    some (record q { items = items; changed = true })

unfoldable pub close : RetryQueue → RetryQueue
close q = record q { is_closed = true }

unfoldable pub len : RetryQueue → ℕ
len q = length q.items

unfoldable pub clear : RetryQueue → RetryQueue
clear q = record q { items = [] }
