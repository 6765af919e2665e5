-- ===== src/Bus/Worker.antt =====
-- bus.go: what a worker and the retry loop do with an event (attempt, waitForRetry, the end of a round
-- of worker, a round of retryLoop). What they read of the shared state at each look is an argument.
pub mod Attempts
pub mod Waits
mod Tests
use Prim.Native.Nat.{min}
use mathlib.Core.Bool.{not}
use sse_eventbus_go.Prelude.{
  ℕ, zero, suc, ◌+◌, ◌-◌, ◌^◌, Bool, true, false, ◌&&◌, ◌||◌, List, [], ◌∷◌, Option, none, some,
  if◌then◌else◌, ltb, leb,
}
use sse_eventbus_go.Errors.{Error, Fallible}
use sse_eventbus_go.Client.Lifecycle.{Client, send_locked, no_error}
use sse_eventbus_go.Bus.Backoff.{retry_delay}
use sse_eventbus_go.Retry.{
  RetryEvent, RetryQueue, Scheduled, schedule, Due, shut, empty, not_before, due, pop_due, ◌>>=◌,
}

-- What attempt meets: isCurrentEvent and isActive before the send, the client under its lock with what
-- Send returns, both again after it, and the client's `inactive` at the end.
pub record Look : Type 0 where
  pub current : Bool
  pub active : Bool
  pub client : Client
  pub err : Fallible
  pub now : ℕ
  pub current_after : Bool
  pub active_after : Bool
  pub inactive_at_end : Bool

-- What attempt returns, the attempts of the event after it, the error with which notifySent is called,
-- and whether it makes the client inactive and starts its removal.
pub record Attempted : Type 0 where
  pub retry : Bool
  pub attempts : ℕ
  pub notified : Option Fallible
  pub unregisters : Bool

-- Attempts() < config.attempts, where the attempts are the bit pattern of an int32.
abbrev pub fewer : ℕ → ℕ → Bool
fewer attempts max_attempts = leb (2 ^ 31) attempts || ltb attempts max_attempts

abbrev pub drop_event : ℕ → Attempted
drop_event attempts = record {
  retry = false;
  attempts = attempts;
  notified = none;
  unregisters = false;
}

abbrev pub give_up : ℕ → Look → Option Fallible → Attempted
give_up attempts look notified = record {
  retry = false;
  attempts = attempts;
  notified = notified;
  unregisters = not look.inactive_at_end;
}

pub attempt : ℕ → Look → ℕ → Attempted
unfolding send_locked
attempt max_attempts look attempts =
    let sent = (send_locked look.err look.now attempts look.client).0 in
    if not look.current || not look.active
    then drop_event attempts
    else if fewer attempts max_attempts
    then (if not sent.attempted
        then drop_event sent.attempts
        else if no_error sent.err || not look.current_after || not look.active_after
        then record {
          retry = false;
          attempts = sent.attempts;
          notified = some sent.err;
          unregisters = false;
        }
        else if fewer sent.attempts max_attempts
        then record {
          retry = true;
          attempts = sent.attempts;
          notified = some sent.err;
          unregisters = false;
        }
        else give_up sent.attempts look (some sent.err))
    else give_up attempts look none

-- The attempts of one event, which is retried as long as attempt asks for it; `looks` has what attempt i
-- meets.
pub attempt_all : ℕ → (ℕ → Look) → ℕ → ℕ → ℕ → Option Attempted
unfolding attempt
attempt_all max_attempts looks zero i attempts = none
attempt_all max_attempts looks (suc fuel) i attempts =
    let a = attempt max_attempts (looks i) attempts in
    let rest = attempt_all max_attempts looks fuel (suc i) a.attempts in
    if a.retry then rest else some a

-- The end of a round of worker after a failed attempt: the event is scheduled for its next attempt.
unfoldable pub schedule_retry : ℕ → ℕ → ℕ → ℕ → ℕ → RetryQueue → Option (Scheduled × RetryQueue)
unfolding retry_delay schedule
schedule_retry retry_base retry_max now event attempts q =
    schedule event (now + retry_delay retry_base retry_max attempts) q

-- One look of waitForRetry: the time, and whether `stop` is closed then or ends the sleep.
pub record WaitLook : Type 0 where
  pub current : Bool
  pub active : Bool
  pub stopped : Bool
  pub now : ℕ
  pub stopped_asleep : Bool

-- How waitForRetry ends, if the looks are enough, and how long it sleeps before that.
pub record Wait : Type 0 where
  pub ready : Option Bool
  pub sleeps : List ℕ

pub wait_for_retry : ℕ → ℕ → List WaitLook → Wait
wait_for_retry scheduler_delay retry_after [] = record { ready = none; sleeps = [] }
wait_for_retry scheduler_delay retry_after (look ∷ looks) =
    let rest = wait_for_retry scheduler_delay retry_after looks in
    let sleep = min (retry_after - look.now) scheduler_delay in
    if not (look.current && look.active) || look.stopped
    then record { ready = some false; sleeps = [] }
    else if leb retry_after look.now
    then record { ready = some true; sleeps = [] }
    else if look.stopped_asleep
    then record { ready = some false; sleeps = sleep ∷ [] }
    else record { ready = rest.ready; sleeps = sleep ∷ rest.sleeps }

-- What a round of retryLoop does: it ends the loop on a closed queue, drops a stale event, passes a due one
-- on to the send queue and calls notifyQueued for it, ends the loop since that queue refuses it, or
-- waits for a change and at most for the given time.
pub data RetryRound : Type 0 where
  ends : RetryRound
  drops : RetryEvent → RetryRound
  passes_on : RetryEvent → RetryRound
  refused_by_queue : RetryEvent → Error → RetryRound
  waits : Option ℕ → RetryRound

abbrev pub after_push : RetryEvent → Fallible → RetryRound
after_push e none = passes_on e
after_push e (some err) = refused_by_queue e err

-- `push` is what push of the send queue returns for the event, and `later` the time when the delay is
-- computed.
abbrev pub after_pop : (RetryEvent → Bool) → (RetryEvent → Fallible) → ℕ → ℕ → Due → RetryRound
after_pop current push later scheduler_delay shut = ends
after_pop current push later scheduler_delay empty = waits none
after_pop current push later scheduler_delay (not_before time) =
    waits (some (min (time - later) scheduler_delay))
after_pop current push later scheduler_delay (due e) =
    if current e then after_push e (push e) else drops e

abbrev pub after_popped :
    (RetryEvent → Bool)
    → (RetryEvent → Fallible)
    → ℕ
    → ℕ
    → Due × RetryQueue
    → RetryRound × RetryQueue
after_popped current push later scheduler_delay (d, q) =
    (after_pop current push later scheduler_delay d, q)

pub retry_round :
    (RetryEvent → Bool)
    → (RetryEvent → Fallible)
    → ℕ
    → ℕ
    → ℕ
    → RetryQueue
    → Option (RetryRound × RetryQueue)
unfolding pop_due
retry_round current push now later scheduler_delay q =
    pop_due now q >>= λ popped. some (after_popped current push later scheduler_delay popped)
