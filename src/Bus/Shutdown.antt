-- ===== src/Bus/Shutdown.antt =====
-- bus.go: Close after the background work has ended: the scheduled retries are discarded, the events of
-- the send queue are flushed, and the clients are retired. Calls of other threads meanwhile are taken
-- before or after it.
pub mod Ends
mod Tests
use mathlib.Core.Bool.{not}
use sse_eventbus_go.Prelude.{
  ℕ, Bool, true, false, ◌&&◌, List, [], ◌∷◌, ◌++◌, Option, none, some, if◌then◌else◌, Str, Dict,
}
use sse_eventbus_go.Errors.{Error, Fallible, wrap, join_all}
use sse_eventbus_go.Client.Lifecycle.{send_locked}
use sse_eventbus_go.Registry.Interface.{SubscriptionRegistry}
use sse_eventbus_go.Bus.State.{Bus, store_object, retire}
use sse_eventbus_go.Bus.Clients.{is_current_event}
use sse_eventbus_go.Bus.Worker.{fewer}

-- An event of the send queue, whether its turn comes, and what Send returns for it.
pub record Drained : Type 0 where
  pub client_id : Str
  pub client : ℕ
  pub id : Str
  pub generation : ℕ
  pub attempts : ℕ
  pub send_order : ℕ
  pub has_turn : Bool
  pub err : Fallible
  pub now : ℕ

-- The calls of notifySent and finishTurn, and the errors so far.
pub record Flush : Type 0 where
  pub notified : List (Drained × Fallible)
  pub finished : List ℕ
  pub shutdown_errors : List Error

abbrev pub add_error : Str → Fallible → List Error → List Error
add_error client_id none errors = errors
add_error client_id (some e) errors = errors ++ wrap client_id e ∷ []

module _ {reg : SubscriptionRegistry} where
  -- One event of the flush.
  pub flush_event : ℕ → Drained → Flush × Bus reg → Flush × Bus reg
  unfolding send_locked is_current_event
  flush_event max_attempts event (f, b) =
      let sent = send_locked event.err event.now event.attempts (b.objects event.client) in
      let finished = f.finished ++ event.send_order ∷ [] in
      if not event.has_turn
      then (f, b)
      else if is_current_event event.client_id event.client event.id event.generation b
          && fewer event.attempts max_attempts
          && sent.0.attempted
      then (
        record {
          notified = f.notified ++ (event, sent.0.err) ∷ [];
          finished = finished;
          shutdown_errors = add_error event.client_id sent.0.err f.shutdown_errors;
        },
        store_object event.client (sent.0.closes, sent.1) b,
      )
      else (record f { finished = finished }, b)

  pub flush_all : ℕ → List Drained → Flush × Bus reg → Flush × Bus reg
  unfolding flush_event
  flush_all max_attempts [] s = s
  flush_all max_attempts (event ∷ events) s =
      flush_all max_attempts events (flush_event max_attempts event s)

  -- The loop that retires the clients of the map; `close_err` is what Close of a client's connection
  -- returns, if it is called.
  pub retire_all : (ℕ → Fallible) → Dict ℕ → List Error × Bus reg → List Error × Bus reg
  unfolding retire
  retire_all close_err [] s = s
  retire_all close_err ((id, o) ∷ clients) (errors, b) =
      let err = if (b.objects o).connection_closed then none else close_err o in
      retire_all close_err clients (add_error id err errors, retire o b)

  abbrev pub retire_clients : (ℕ → Fallible) → Flush × Bus reg → List Error × Bus reg
  retire_clients close_err (f, b) = retire_all close_err b.clients (f.shutdown_errors, b)

  abbrev pub with_shutdown_err : List Error × Bus reg → Fallible × Bus reg
  with_shutdown_err (errors, b) = (join_all errors, b)

  -- The first section of Close, and its goroutine once the workers and loops have ended; `drained` is what
  -- drain of the send queue hands out.
  pub close_bus : ℕ → List Drained → (ℕ → Fallible) → Bus reg → Fallible × Bus reg
  unfolding flush_all retire_all join_all
  close_bus max_attempts drained close_err b = with_shutdown_err (
      retire_clients close_err (
        flush_all max_attempts drained (
          record { notified = []; finished = []; shutdown_errors = [] },
          record b { is_closed = true; retry_queue = []; send_queue = [] },
        )))
