-- ===== src/Bus/Worker/Tests.antt =====
-- A client whose connection fails every time, with at most three attempts, and a full retry queue.
use sse_eventbus_go.Prelude.{none}
use sse_eventbus_go.Prelude.{ℕ, zero, suc, ◌<◌, true, false, [], ◌∷◌, some, ◌≡◌, refl, arith}
use sse_eventbus_go.Errors.{is, short_write}
use sse_eventbus_go.Client.Lifecycle.{registered}
use sse_eventbus_go.Bus.Worker.{
  Look, attempt_all, WaitLook, wait_for_retry, waits, passes_on, retry_round,
}
use sse_eventbus_go.Bus.Worker.Attempts.{
  IsLast, attempt_all-IsLast, is_failing, attempt_all_failing,
}
use sse_eventbus_go.Bus.Worker.Waits.{IsRetryRound, retry_round-IsRetryRound}
use sse_eventbus_go.Retry.{RetryEvent, RetryQueue, new_retry_queue}
use sse_eventbus_go.Retry.Array.{at}
use sse_eventbus_go.Retry.Order.{Gives}
use sse_eventbus_go.Retry.Queue.{IsValid}

abbrev looks : ℕ → Look
looks i = record {
  current = true;
  active = true;
  client = registered 7 0 false;
  err = some (is short_write);
  now = 5;
  current_after = true;
  active_after = true;
  inactive_at_end = false;
}

three_sends :
    attempt_all 3 looks 4 0 0
    ≡ some (record {
      retry = false;
      attempts = 3;
      notified = some (some (is short_write));
      unregisters = true;
    })
unfolding attempt_all
three_sends = refl

attempt_all-IsLast_example : Gives (IsLast 3) (attempt_all 3 looks 4 0 0)
attempt_all-IsLast_example =
    attempt_all-IsLast 3 looks 4 0 0 (omega arith) (omega arith) (omega arith)

failing : (i : ℕ) → is_failing (looks i) ≡ true
unfolding is_failing
failing i = refl

attempt_all_failing_example :
    Gives (λ a. (a.attempts ≡ 3) × (a.unregisters ≡ true)) (attempt_all 3 looks 4 0 0)
attempt_all_failing_example =
    attempt_all_failing 3 looks 4 0 0 (omega arith) (omega arith) (omega arith) failing

abbrev late : RetryEvent
late = record { event = 1; retry_after = 90; retry_order = 1 }

abbrev one_left : RetryQueue
one_left = record {
  items = late ∷ [];
  capacity = 4;
  sequence = 1;
  changed = false;
  is_closed = false;
}

orders : (i : ℕ) → (at (late ∷ []) i).retry_order < 18446744073709551616
orders zero = omega arith
orders (suc i) = omega arith

one_left-IsValid : IsValid one_left
one_left-IsValid = record {
  heap = record { ordered = λ c p q r. absurd (omega arith); bounded = orders };
  bounded = omega arith;
}

too_early : retry_round (λ e. true) (λ e. none) 50 50 30 one_left ≡ some (waits (some 30), one_left)
unfolding retry_round
too_early = refl

in_time :
    retry_round (λ e. true) (λ e. none) 90 90 30 one_left
    ≡ some (passes_on late, record one_left { items = [] })
unfolding retry_round sse_eventbus_go.Retry.heap_pop
in_time = refl

retry_round-IsRetryRound_example :
    Gives
      (IsRetryRound (λ e. true) (λ e. none) 90 91 30 one_left)
      (retry_round (λ e. true) (λ e. none) 90 91 30 one_left)
retry_round-IsRetryRound_example =
    retry_round-IsRetryRound (λ e. true) (λ e. none) 90 91 30 one_left one_left-IsValid

abbrev at_time : ℕ → WaitLook
at_time now = record {
  current = true;
  active = true;
  stopped = false;
  now = now;
  stopped_asleep = false;
}

sleeps_twice :
    wait_for_retry 30 90 (at_time 40 ∷ at_time 70 ∷ at_time 90 ∷ [])
    ≡ record { ready = some true; sleeps = 30 ∷ 20 ∷ [] }
unfolding wait_for_retry
sleeps_twice = refl
