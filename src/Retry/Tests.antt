-- ===== src/Retry/Tests.antt =====
-- A retry queue with room for one event, which holds one.
use sse_eventbus_go.Prelude.{
  ℕ, zero, suc, Bool, ◌∷◌, [], ◌<◌, false, ◌≡◌, refl, true, some, Perm, arith, ◌==◌,
}
use sse_eventbus_go.Retry.{
  RetryEvent, RetryQueue, before, handed_back, schedule, due, pop_due, unmatched, remove, heap_pop,
}
use sse_eventbus_go.Retry.Array.{at}
use sse_eventbus_go.Retry.Order.{Gives}
use sse_eventbus_go.Retry.Queue.{
  IsValid, IsScheduled, entry, schedule-IsScheduled, IsDue, pop_due-IsDue, remove-unmatched,
}

abbrev late : RetryEvent
late = record { event = 1; retry_after = 90; retry_order = 1 }

abbrev full : RetryQueue
full = record { items = late ∷ []; capacity = 1; sequence = 1; changed = false; is_closed = false }

orders : (i : ℕ) → (at (late ∷ []) i).retry_order < 18446744073709551616
orders zero = omega arith
orders (suc i) = omega arith

full-IsValid : IsValid full
full-IsValid = record {
  heap = record { ordered = λ c p q r. absurd (omega arith); bounded = orders };
  bounded = omega arith;
}

-- The earlier of the two goes back to the worker.
earlier_goes_back :
    schedule 2 50 full
    ≡ some (
      handed_back (record { event = 2; retry_after = 50; retry_order = 2 }),
      record full { sequence = 2; changed = true },
    )
unfolding schedule before
earlier_goes_back = refl

waits_no_more : pop_due 90 full ≡ some (due late, record full { items = [] })
unfolding pop_due heap_pop
waits_no_more = refl

schedule-IsScheduled_example :
    Gives
      (λ r. IsScheduled (entry 2 50 full) full r × IsValid r.1 × (r.1.capacity ≡ full.capacity))
      (schedule 2 50 full)
schedule-IsScheduled_example = schedule-IsScheduled 2 50 full full-IsValid

pop_due-IsDue_example : Gives (IsDue 90 full) (pop_due 90 full)
pop_due-IsDue_example = pop_due-IsDue 90 full full-IsValid

abbrev is_first : RetryEvent → Bool
is_first e = e.event == 1

remove-unmatched_example :
    Gives
      (λ r.
        IsValid r
        × Perm r.items (unmatched is_first full.items)
        × (r.capacity ≡ full.capacity)
        × (r.changed ≡ true))
      (remove is_first full)
remove-unmatched_example = remove-unmatched is_first full full-IsValid
