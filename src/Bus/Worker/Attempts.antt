-- ===== src/Bus/Worker/Attempts.antt =====
-- The attempts of one event, from its first send to its last.
use mathlib.Core.Bool.{not}
use sse_eventbus_go.Prelude.{
  ℕ, zero, suc, ◌+◌, ◌≤◌, ◌<◌, Bool, true, false, ◌&&◌, some, ◌≡◌, ◌⊎◌, arith, ltb,
}
use sse_eventbus_go.Client.Lifecycle.{send_locked, no_error}
use sse_eventbus_go.Bus.Worker.{Look, Attempted, attempt, attempt_all}
use sse_eventbus_go.Retry.Order.{Gives, gives, Gives-if}

-- What an attempt of an event with `attempts` attempts may return.
pub record IsAttempt (max_attempts attempts : ℕ) (a : Attempted) : Type 0 where
  pub bounded : a.attempts ≤ max_attempts
  pub once : (a.attempts ≡ attempts) ⊎ (a.attempts ≡ attempts + 1)
  pub retried : (a.retry ≡ false) ⊎ ((a.attempts ≡ attempts + 1) × (a.attempts < max_attempts))
  pub removed : (a.unregisters ≡ false) ⊎ (a.attempts ≡ max_attempts)

attempt-IsAttempt :
    (max_attempts : ℕ) (look : Look) (attempts : ℕ)
    → max_attempts < 2147483648
    → attempts ≤ max_attempts
    → IsAttempt max_attempts attempts (attempt max_attempts look attempts)
unfolding attempt send_locked
attempt-IsAttempt max_attempts look attempts small within = record {
  bounded = ground arith;
  once = ground arith;
  retried = ground arith;
  removed = ground arith;
}

-- How the last attempt of an event ends.
pub record IsLast (max_attempts : ℕ) (a : Attempted) : Type 0 where
  pub bounded : a.attempts ≤ max_attempts
  pub no_retry : a.retry ≡ false
  pub removed : (a.unregisters ≡ false) ⊎ (a.attempts ≡ max_attempts)

-- Whatever each attempt meets, an event is attempted no more often than the limit, its attempts come to
-- an end, and its client is removed only when the limit is reached.
pub attempt_all-IsLast :
    (max_attempts : ℕ) (looks : ℕ → Look) (fuel i attempts : ℕ)
    → max_attempts < 2147483648
    → attempts ≤ max_attempts
    → max_attempts < attempts + fuel
    → Gives (IsLast max_attempts) (attempt_all max_attempts looks fuel i attempts)
unfolding attempt_all
attempt_all-IsLast max_attempts looks zero i attempts small within enough = absurd (omega arith)
attempt_all-IsLast max_attempts looks (suc fuel) i attempts small within enough =
    let s = attempt-IsAttempt max_attempts (looks i) attempts small within in
    Gives-if ((attempt max_attempts (looks i) attempts).retry)
      (λ again.
        attempt_all-IsLast max_attempts looks fuel (suc i) _ small s.bounded
          (ground (arith, s.retried)))
      (λ last. gives (record { bounded = s.bounded; no_retry = last; removed = s.removed }))

-- A look at a client that stays current and active while every send fails.
unfoldable pub is_failing : Look → Bool
is_failing look =
    look.current
    && look.active
    && not look.client.inactive
    && not (no_error look.err)
    && look.current_after
    && look.active_after
    && not look.inactive_at_end

failing_attempt :
    (max_attempts : ℕ) (look : Look) (attempts : ℕ)
    → max_attempts < 2147483648
    → attempts < max_attempts
    → is_failing look ≡ true
    → attempt max_attempts look attempts ≡ record {
      retry = ltb (attempts + 1) max_attempts;
      attempts = attempts + 1;
      notified = some look.err;
      unregisters = not (ltb (attempts + 1) max_attempts);
    }
unfolding attempt send_locked is_failing
failing_attempt max_attempts look attempts small within failing = ground arith

-- If every send fails and the client stays current and active, the event is attempted exactly as often
-- as the limit says, and then the client is removed.
pub attempt_all_failing :
    (max_attempts : ℕ) (looks : ℕ → Look) (fuel i attempts : ℕ)
    → max_attempts < 2147483648
    → attempts < max_attempts
    → max_attempts < attempts + fuel
    → ((j : ℕ) → is_failing (looks j) ≡ true)
    → Gives
        (λ a. (a.attempts ≡ max_attempts) × (a.unregisters ≡ true))
        (attempt_all max_attempts looks fuel i attempts)
unfolding attempt_all
attempt_all_failing max_attempts looks zero i attempts small within enough failing =
    absurd (omega arith)
attempt_all_failing max_attempts looks (suc fuel) i attempts small within enough failing =
    rw (failing_attempt max_attempts (looks i) attempts small within (failing i)) (
      Gives-if (ltb (attempts + 1) max_attempts)
        (λ again.
          attempt_all_failing max_attempts looks fuel (suc i) (attempts + 1) small (ground arith)
            (omega arith) failing)
        (λ last. gives (ground arith, ground arith)))
