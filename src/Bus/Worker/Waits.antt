-- ===== src/Bus/Worker/Waits.antt =====
-- The waits of a worker and of the retry loop.
use mathlib.Core.Bool.{not}
use sse_eventbus_go.Prelude.{
  ℕ, ◌+◌, ◌≤◌, Bool, true, false, ◌&&◌, ◌||◌, List, [], ◌∷◌, Option, none, some, ◌≡◌, refl, ◌⊎◌,
  inl, inr, arith, leb, is_some, Bool-cases,
}
use sse_eventbus_go.Bus.Worker.{
  WaitLook, Wait, wait_for_retry, RetryRound, ends, drops, passes_on, refused_by_queue, after_push,
  waits, after_popped, retry_round,
}
use sse_eventbus_go.Errors.{Fallible}
use sse_eventbus_go.Retry.{RetryEvent, RetryQueue, Due, shut, empty, not_before, due}
use sse_eventbus_go.Retry.Order.{Gives, gives, Gives-bind}
use sse_eventbus_go.Retry.Queue.{IsValid, IsDue, pop_due-IsDue}

-- What a round of retryLoop does on a queue at the time `now`: the event that it takes is due and the
-- earliest one, and it waits no longer than to the time of the earliest event and than the scheduler's
-- delay.
abbrev pub IsRetryRound :
    (RetryEvent → Bool)
    → (RetryEvent → Fallible)
    → ℕ
    → ℕ
    → ℕ
    → RetryQueue
    → RetryRound × RetryQueue
    → Type 0
IsRetryRound current push now later scheduler_delay q (ends, r) = (q.is_closed ≡ true) × (r ≡ q)
IsRetryRound current push now later scheduler_delay q (drops e, r) =
    (current e ≡ false) × IsDue now q (due e, r)
IsRetryRound current push now later scheduler_delay q (passes_on e, r) =
    (current e ≡ true) × (push e ≡ none) × IsDue now q (due e, r)
IsRetryRound current push now later scheduler_delay q (refused_by_queue e err, r) =
    (current e ≡ true) × (push e ≡ some err) × IsDue now q (due e, r)
IsRetryRound current push now later scheduler_delay q (waits none, r) =
    (q.is_closed ≡ false) × (q.items ≡ []) × (r ≡ q)
IsRetryRound current push now later scheduler_delay q (waits (some delay), r) =
    (q.is_closed ≡ false)
    × (r ≡ q)
    × (delay ≤ scheduler_delay)
    × ((time : ℕ) × IsDue now q (not_before time, r) × ((later + delay ≤ time) ⊎ (delay ≡ 0)))

after_push-IsRetryRound :
    (current : RetryEvent → Bool) (push : RetryEvent → Fallible) (now later scheduler_delay : ℕ)
    (q : RetryQueue) (e : RetryEvent) (r : RetryQueue)
    → current e ≡ true
    → IsDue now q (due e, r)
    → (err : Fallible) → push e ≡ err
    → IsRetryRound current push now later scheduler_delay q (after_push e err, r)
after_push-IsRetryRound current push now later scheduler_delay q e r fresh p none same =
    (fresh, same, p)
after_push-IsRetryRound current push now later scheduler_delay q e r fresh p (some err) same =
    (fresh, same, p)

after_popped-IsRetryRound :
    (current : RetryEvent → Bool) (push : RetryEvent → Fallible) (now later scheduler_delay : ℕ)
    (q : RetryQueue) (d : Due) (r : RetryQueue)
    → IsDue now q (d, r)
    → IsRetryRound current push now later scheduler_delay q
        (after_popped current push later scheduler_delay (d, r))
after_popped-IsRetryRound current push now later scheduler_delay q shut r p = p
after_popped-IsRetryRound current push now later scheduler_delay q empty r p = p
after_popped-IsRetryRound current push now later scheduler_delay q (not_before time) r
      (open_, early, first, same) =
    (open_, same, omega arith, (time, (open_, early, first, same), ground arith))
after_popped-IsRetryRound current push now later scheduler_delay q (due e) r p =
    elim (Bool-cases (current e)) [
      | inl fresh ↦ rw fresh (
          after_push-IsRetryRound current push now later scheduler_delay q e r fresh p (push e)
            refl)
      | inr stale ↦ rw stale (stale, p)
    ]

-- On a valid queue a round of retryLoop never panics. It ends exactly on a closed queue, or if the send
-- queue refuses a due event. Otherwise it passes the earliest event on if that is due and current,
-- drops it if it is due and stale, and waits if there is none or it is not due.
pub retry_round-IsRetryRound :
    (current : RetryEvent → Bool) (push : RetryEvent → Fallible) (now later scheduler_delay : ℕ)
    (q : RetryQueue)
    → IsValid q
    → Gives
        (IsRetryRound current push now later scheduler_delay q)
        (retry_round current push now later scheduler_delay q)
unfolding retry_round
retry_round-IsRetryRound current push now later scheduler_delay q v =
    Gives-bind (pop_due-IsDue now q v)
      λ r p. gives (after_popped-IsRetryRound current push now later scheduler_delay q r.0 r.1 p)

-- A look at which the event may be sent: current, its client active, the bus not stopped, and due.
abbrev pub is_ready_look : ℕ → WaitLook → Bool
is_ready_look retry_after look =
    look.current && look.active && not look.stopped && leb retry_after look.now

pub any_look : (WaitLook → Bool) → List WaitLook → Bool
any_look test [] = false
any_look test (look ∷ looks) = test look || any_look test looks

pub all_at_most : ℕ → List ℕ → Bool
all_at_most limit [] = true
all_at_most limit (n ∷ ns) = leb n limit && all_at_most limit ns

abbrev pub is_ready : Option Bool → Bool
is_ready none = false
is_ready (some ready) = ready

-- waitForRetry returns true only at a look at which the event is current, its client active and the
-- time reached, returns at the latest at the first look after that time, and sleeps no longer at a
-- time than the scheduler's delay.
pub record IsWait (scheduler_delay retry_after : ℕ) (looks : List WaitLook) (w : Wait)
    : Type 0 where
  pub due : not (is_ready w.ready) || any_look (is_ready_look retry_after) looks ≡ true
  pub ended : not (any_look (λ look. leb retry_after look.now) looks) || is_some w.ready ≡ true
  pub short : all_at_most scheduler_delay w.sleeps ≡ true

pub wait_for_retry-IsWait :
    (scheduler_delay retry_after : ℕ) (looks : List WaitLook)
    → IsWait scheduler_delay retry_after looks (wait_for_retry scheduler_delay retry_after looks)
unfolding wait_for_retry any_look all_at_most
wait_for_retry-IsWait scheduler_delay retry_after [] = record {
  due = refl;
  ended = refl;
  short = refl;
}
wait_for_retry-IsWait scheduler_delay retry_after (look ∷ looks) =
    let w = wait_for_retry-IsWait scheduler_delay retry_after looks in
    record {
      due = ground (arith, w.due);
      ended = ground (arith, w.ended);
      short = ground (arith, w.short);
    }
