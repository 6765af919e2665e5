-- ===== src/Retry/Queue.antt =====
-- schedule, popDue and remove of the retry queue.
use sse_eventbus_go.Prelude.{false}
use mathlib.Core.List.{mem-cons_self}
use mathlib.Core.List.Perm
use sse_eventbus_go.Prelude.{
  ℕ, zero, suc, ◌≤◌, ◌<◌, ◌≡◌, refl, Bool, true, List, [], ◌∷◌, some, Perm, Mem, arith, ltb, ◌==◌,
  if◌then◌else◌, length, Bool-cases, inl, inr,
}
use sse_eventbus_go.Errors.{is, closed}
use sse_eventbus_go.Client.Turns.{succ64}
use sse_eventbus_go.Retry.{
  RetryEvent, RetryQueue, Scheduled, kept, handed_back, refused, schedule, Due, shut, empty,
  not_before, due, pop_due, unmatched, remove, heap_pop, ◌>>=◌,
}
use sse_eventbus_go.Retry.Array.{at, get_elem?-at}
use sse_eventbus_go.Retry.Order.{Gives, gives, Gives-bind, Gives-if, AllBounded}
use sse_eventbus_go.Retry.Down.{heap_init_restores}
use sse_eventbus_go.Retry.Heap.{
  IsRetryHeap, heap_push-Pushed, heap_pop-Popped, IsEarliest, root-IsEarliest,
}

pub record IsValid (q : RetryQueue) : Type 0 where
  pub heap : IsRetryHeap q.items
  pub bounded : length q.items ≤ q.capacity

-- What schedule does with the event `e`: a closed queue refuses it, and an open one keeps it, or is full
-- and hands the first of all events back to the worker.
abbrev pub IsScheduled : RetryEvent → RetryQueue → Scheduled × RetryQueue → Type 0
IsScheduled e q (kept, r) =
    (q.is_closed ≡ false) × (length q.items < q.capacity) × Perm r.items (e ∷ q.items)
IsScheduled e q (handed_back x, r) =
    (q.is_closed ≡ false)
    × (length q.items ≡ q.capacity)
    × Perm (x ∷ r.items) (e ∷ q.items)
    × IsEarliest x (e ∷ q.items)
IsScheduled e q (refused err, r) = (err ≡ is closed) × (q.is_closed ≡ true) × (r ≡ q)

-- The event as schedule puts it in the queue.
abbrev pub entry : ℕ → ℕ → RetryQueue → RetryEvent
entry event retry_after q = record {
  event = event;
  retry_after = retry_after;
  retry_order = succ64 q.sequence;
}

succ64-lt : (n : ℕ) → succ64 n < 18446744073709551616
unfolding succ64
succ64-lt n = omega arith

-- On a valid queue, schedule never panics and leaves a valid queue of the same capacity. A closed queue
-- refuses the event and stays as it is; an open one adds it, or is full and hands the earliest
-- event back.
pub schedule-IsScheduled :
    (event retry_after : ℕ) (q : RetryQueue)
    → IsValid q
    → Gives
        (λ r.
          IsScheduled (entry event retry_after q) q r × IsValid r.1 × (r.1.capacity ≡ q.capacity))
        (schedule event retry_after q)
unfolding schedule
schedule-IsScheduled event retry_after q v =
    Gives-if q.is_closed (λ shut_. gives ((refl, shut_, refl), v, refl))
      λ open_.
        Gives-bind
          (heap_push-Pushed (entry event retry_after q) q.items v.heap (succ64-lt q.sequence))
          λ pushed p.
            Gives-if (ltb q.capacity (length pushed))
              (λ full. Gives-bind (heap_pop-Popped pushed p.heap (omega (arith, p.size))) λ r o.
                gives (
                  (
                    open_,
                    ground (arith, v.bounded, p.size),
                    Perm.trans o.same p.same,
                    λ y m.
                        rw (← o.root) at
                          (root-IsEarliest pushed p.heap y ((Perm.mem_iff p.same).1 m)),
                  ),
                  record { heap = o.heap; bounded = omega (arith, o.size, p.size, v.bounded) },
                  refl,
                ))
              (λ room. gives (
                (open_, ground (arith, p.size), p.same),
                record { heap = p.heap; bounded = ground arith },
                refl,
              ))

-- How popDue answers at the time `now`.
abbrev pub IsDue : ℕ → RetryQueue → Due × RetryQueue → Type 0
IsDue now q (shut, r) = (q.is_closed ≡ true) × (r ≡ q)
IsDue now q (empty, r) = (q.is_closed ≡ false) × (q.items ≡ []) × (r ≡ q)
IsDue now q (not_before time, r) =
    (q.is_closed ≡ false)
    × (now < time)
    × ((x : RetryEvent) × Mem x q.items × (x.retry_after ≡ time) × IsEarliest x q.items)
    × (r ≡ q)
IsDue now q (due x, r) =
    (q.is_closed ≡ false)
    × (x.retry_after ≤ now)
    × Perm (x ∷ r.items) q.items
    × IsEarliest x q.items
    × IsValid r
    × (r.capacity ≡ q.capacity)

root-mem : (h : List RetryEvent) → 0 < length h → Mem (at h 0) h
root-mem [] p = absurd (omega arith)
root-mem (x ∷ h) p = mem-cons_self

nil_of_length : (h : List RetryEvent) → length h ≡ 0 → h ≡ []
nil_of_length [] e = refl
nil_of_length (x ∷ h) e = absurd (omega arith)

module _ (now : ℕ) (q : RetryQueue) (v : IsValid q) (open_ : q.is_closed ≡ false)
    (some_left : 0 < length q.items) where
  abbrev root : RetryEvent
  root = at q.items 0

  wait_or_pop : Gives (IsDue now q) (
      if ltb now root.retry_after
      then some (not_before root.retry_after, q)
      else (heap_pop q.items >>= λ (event, rest). some (due event, record q { items = rest })))
  wait_or_pop =
      Gives-if (ltb now root.retry_after)
        (λ early. gives (
          open_,
          ground arith,
          (root, root-mem q.items some_left, refl, root-IsEarliest q.items v.heap),
          refl,
        ))
        (λ late. Gives-bind (heap_pop-Popped q.items v.heap some_left) λ r o. gives (
          open_,
          rw o.root (ground arith),
          o.same,
          rw o.root (root-IsEarliest q.items v.heap),
          record { heap = o.heap; bounded = omega (arith, o.size, v.bounded) },
          refl,
        ))

-- On a valid queue, popDue never panics: it reports a closed queue exactly if it is closed, and of an open
-- one that it is empty, or the time of the earliest event if that is still to come, or hands out
-- the earliest event, which is due.
pub pop_due-IsDue : (now : ℕ) (q : RetryQueue) → IsValid q → Gives (IsDue now q) (pop_due now q)
unfolding pop_due
pop_due-IsDue now q v =
    Gives-if q.is_closed (λ shut_. gives (shut_, refl))
      λ open_.
        Gives-if (length q.items == 0)
          (λ none_left. gives (open_, nil_of_length q.items (ground arith), refl))
          λ more.
            let some_left : 0 < length q.items = ground arith in
            rw (get_elem?-at q.items 0 some_left) (wait_or_pop now q v open_ some_left)

cons-AllBounded :
    (e : RetryEvent) (h : List RetryEvent)
    → e.retry_order < 18446744073709551616
    → AllBounded h
    → AllBounded (e ∷ h)
cons-AllBounded e h p b zero = p
cons-AllBounded e h p b (suc i) = b i

unmatched-AllBounded :
    (match : RetryEvent → Bool) (h : List RetryEvent)
    → AllBounded h
    → AllBounded (unmatched match h)
unfolding unmatched
unmatched-AllBounded match [] b = b
unmatched-AllBounded match (e ∷ h) b = elim (Bool-cases (match e)) [
  | inl out ↦ rw out (unmatched-AllBounded match h (λ i. b (suc i)))
  | inr kept_ ↦ rw kept_ (cons-AllBounded e _ (b 0) (unmatched-AllBounded match h (λ i. b (suc i))))
]

length-unmatched-le :
    (match : RetryEvent → Bool) (h : List RetryEvent) → length (unmatched match h) ≤ length h
unfolding unmatched
length-unmatched-le match [] = omega arith
length-unmatched-le match (e ∷ h) = ground (arith, length-unmatched-le match h)

-- On a valid queue, remove never panics: it leaves a valid queue of exactly the events that do not
-- match, and wakes the loop that waits for a change.
pub remove-unmatched :
    (match : RetryEvent → Bool) (q : RetryQueue)
    → IsValid q
    → Gives
        (λ r.
          IsValid r
          × Perm r.items (unmatched match q.items)
          × (r.capacity ≡ q.capacity)
          × (r.changed ≡ true))
        (remove match q)
unfolding remove
remove-unmatched match q v =
    Gives-bind
      (heap_init_restores (unmatched match q.items)
        (unmatched-AllBounded match q.items v.heap.bounded))
      λ items s. gives (
        record {
          heap = record { ordered = rw s.size (s.ordered); bounded = s.bounded };
          bounded = omega (arith, s.size, length-unmatched-le match q.items, v.bounded);
        },
        s.same,
        refl,
        refl,
      )
