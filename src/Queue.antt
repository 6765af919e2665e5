-- ===== src/Queue.antt =====
-- queue.go: the bounded send queue, a slice with a head index. Each method runs under the queue's
-- lock between two waits, so one round of its loop is one function; `blocked` is a wait.
pub mod View
pub mod Rounds
pub mod Signals
pub mod Wakeups
mod Tests
use sse_eventbus_go.Prelude.{
  ℕ, zero, suc, ◌+◌, ◌-◌, ◌*◌, ◌≤◌, ◌<◌, Bool, true, false, ◌&&◌, List, [], ◌∷◌, ◌++◌, Option, none,
  some, ◌≡◌, ◌==◌, ltb, leb, if◌then◌else◌, length, get_elem?, set, take, drop, map, replicate,
}
use sse_eventbus_go.Errors.{Error, Fallible, is, closed}

-- A slot of the slice is `none` where the code stores nil. `item_ready` and `space_ready` are
-- channels with room for one signal; `closed_ch` is closed with the queue.
pub record EventQueue {ℓ} (A : Type ℓ) : Type ℓ where
  pub items : List (Option A)
  pub head : ℕ
  pub capacity : ℕ
  pub item_ready : Bool
  pub space_ready : Bool
  pub is_closed : Bool

-- How a round of push or pop ends.
pub data Round {ℓ} (R : Type ℓ) : Type ℓ where
  done : R → Round R
  failed : Error → Round R
  blocked : Round R

module _ {ℓ} {A : Type ℓ} where
  pub new_event_queue : ℕ → EventQueue A
  new_event_queue capacity = record {
    items = [];
    head = 0;
    capacity = capacity;
    item_ready = false;
    space_ready = false;
    is_closed = false;
  }

  pub size_locked : EventQueue A → ℕ
  size_locked q = length q.items - q.head

  pub signal_item : EventQueue A → EventQueue A
  signal_item q = record q { item_ready = true }

  pub signal_space : EventQueue A → EventQueue A
  signal_space q = record q { space_ready = true }

  pub compact_locked : EventQueue A → EventQueue A
  compact_locked q =
      if q.head == length q.items
      then record q { items = []; head = 0 }
      else if leb 1024 q.head && leb (length q.items) (q.head * 2)
      then record q { items = drop q.head q.items; head = 0 }
      else q

  -- push passes a signal on while there is still room, and pop while there is still an event.
  pub pass_on_space : EventQueue A → EventQueue A
  pass_on_space q = if ltb (size_locked q) q.capacity then signal_space q else q

  pub pass_on_item : EventQueue A → EventQueue A
  pass_on_item q = if ltb 0 (size_locked q) then signal_item q else q

  -- The part of push under the lock, for an event that has its order.
  pub append_locked : A → EventQueue A → EventQueue A
  append_locked event q =
      pass_on_space (signal_item (record q { items = q.items ++ some event ∷ [] }))

  -- One round of push. `ctx_err` is ctx.Err(); `assign` gives the event its order in the state `w`.
  pub push {κ} :
      {W : Type κ} → (A → W → A × W) → Fallible → A → W → EventQueue A → Round (W × EventQueue A)
  push assign (some e) event w q = failed e
  push assign none event w q =
      if q.is_closed
      then failed (is closed)
      else if ltb (size_locked q) q.capacity
      then (let (event', w') = assign event w in done (w', append_locked event' q))
      else blocked

  -- What pop does to a queue that is not empty.
  pub take_head : EventQueue A → EventQueue A
  take_head q =
      let q' = record q { items = set q.items q.head none; head = q.head + 1 } in
      pass_on_item (signal_space (compact_locked q'))

  -- The slot read is `none` for an index out of range, which panics, and `some none` for nil.
  -- `failed (is closed)` stands for the result (nil, false).
  -- One round of pop.
  pub pop : EventQueue A → Round (Option (Option A) × EventQueue A)
  pop q =
      if q.is_closed
      then failed (is closed)
      else if ltb 0 (size_locked q)
      then done (get_elem? q.items q.head, take_head q)
      else blocked

  pub close : EventQueue A → EventQueue A
  close q = record q { is_closed = true }

  pub len : EventQueue A → ℕ
  unfolding size_locked
  len q = size_locked q

  pub drain : EventQueue A → List (Option A) × EventQueue A
  unfolding signal_space
  drain q = (drop q.head q.items, signal_space (record q { items = []; head = 0 }))

  -- The loop of remove over the slots from the head. A nil slot, which `match` would dereference,
  -- is skipped here; a queue that represents a list has none there.
  pub remove_loop {κ} :
      {W : Type κ}
      → (A → Bool)
      → (A → W → W)
      → List (Option A)
      → List (Option A)
      → W
      → List (Option A) × W
  remove_loop match cancel [] kept w = (kept, w)
  remove_loop match cancel (none ∷ slots) kept w = remove_loop match cancel slots kept w
  remove_loop match cancel (some event ∷ slots) kept w =
      let matched = match event in
      remove_loop match cancel slots (if matched then kept else kept ++ some event ∷ [])
        (if matched then cancel event w else w)

  unfoldable pub remove {κ} :
      {W : Type κ} → (A → Bool) → (A → W → W) → W → EventQueue A → W × EventQueue A
  unfolding remove_loop signal_space
  remove match cancel w q =
      let (kept, w') = remove_loop match cancel (drop q.head q.items) [] w in
      (w', signal_space (record q { items = kept; head = 0 }))
