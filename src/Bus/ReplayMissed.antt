-- ===== src/Bus/ReplayMissed.antt =====
-- bus.go: replayMissedEventsLocked and ReplayMissedEvents. What the loop reads of the shared state at
-- each retained event, and what deliver returns for it, are arguments.
pub mod Order
pub mod Effect
pub mod Reconnect
mod Tests
use mathlib.Core.Bool.{not}
use sse_eventbus_go.Prelude.{
  ℕ, ◌+◌, Bool, true, false, ◌&&◌, ◌||◌, List, [], ◌∷◌, ◌++◌, Option, none, some, if◌then◌else◌,
  Str, lookup, ltb, is_empty,
}
use sse_eventbus_go.Errors.{Error, Fallible, is, wrap, closed, inactive_client, errors_is, join_all}
use sse_eventbus_go.Event.{Event, validate_event}
use sse_eventbus_go.Replay.{ReplayEvent, Store, normalized, events_since}
use sse_eventbus_go.Registry.Interface.{SubscriptionRegistry}
use sse_eventbus_go.Bus.Publish.{ClientEvent}
use sse_eventbus_go.Client.Lifecycle.{no_error}
use sse_eventbus_go.Bus.Registration.{RegistrationOption, configure_registration, no_registration}
use sse_eventbus_go.Bus.State.{
  Bus, Outcome, success, noop, error, Observation, observation, replay_events, update,
  remove_pending, observe,
}
use sse_eventbus_go.Bus.Clients.{Registration, refused, done, register}

pub record DeliveryNotification : Type 0 where
  pub event : ClientEvent
  pub sent : Bool
  pub err : Fallible

-- isActive before the event, the subscriptions when the registry is asked, and what deliver returns.
pub record ReplayRound (reg : SubscriptionRegistry) : Type 0 where
  pub active : Bool
  pub subscriptions : reg.State
  pub outcome : Bool × Fallible

-- The variables of the loop, and the events given to deliver.
pub record ReplayProgress : Type 0 where
  pub delivery_count : ℕ
  pub replay_errors : List Error
  pub notifications : List DeliveryNotification
  pub delivered : List ClientEvent

pub data ReplayNext : Type 0 where
  goes_on stops : ReplayProgress → ReplayNext
  fails : Error → ReplayProgress → ReplayNext

-- What the call returns, less the fields of the observation that do not depend on the run.
pub record Replayed : Type 0 where
  pub outcome : Outcome
  pub err : Fallible
  pub progress : ReplayProgress

abbrev pub begin_replay : ReplayProgress
begin_replay = record { delivery_count = 0; replay_errors = []; notifications = []; delivered = [] }

abbrev pub replayed_event : Str → ℕ → ℕ → ReplayEvent → ClientEvent
replayed_event client_id target generation retained = record {
  client_id = client_id;
  event = retained.event;
  message = record {
    event = retained.event.name;
    payload = retained.converted_value;
    has_data = retained.has_converted;
    retry = retained.event.retry;
    id = retained.event.id;
    comment = retained.event.comment;
  };
  client = target;
  generation = generation;
}

abbrev pub after_replayed : Bool → Str → Fallible → ReplayProgress → ReplayNext
after_replayed synchronous client_id none p =
    goes_on (record p { delivery_count = p.delivery_count + 1 })
after_replayed true client_id (some e) p = goes_on (record p {
  delivery_count = p.delivery_count + 1;
  replay_errors = p.replay_errors ++ wrap client_id e ∷ [];
})
after_replayed false client_id (some e) p = fails e p

abbrev pub after_redelivery : Bool → ClientEvent → Bool × Fallible → ReplayProgress → ReplayNext
after_redelivery synchronous event (sent, err) p =
    if errors_is err inactive_client
    then stops p
    else after_replayed synchronous event.client_id err (
        if no_error err || sent
        then record p {
          notifications = p.notifications ++ record { event = event; sent = sent; err = err } ∷ [];
        }
        else p)

abbrev pub deliver_valid :
    Bool → ClientEvent → Bool × Fallible → Fallible → ReplayProgress → ReplayNext
deliver_valid synchronous event outcome (some e) p = fails e p
deliver_valid synchronous event outcome none p =
    after_redelivery synchronous event outcome (record p { delivered = p.delivered ++ event ∷ [] })

-- One round of the loop, at an event of the store.
pub round :
    {reg : SubscriptionRegistry}
    → Bool
    → ℕ
    → Str
    → (ReplayEvent → ClientEvent)
    → ReplayEvent
    → ReplayRound reg
    → ReplayProgress
    → ReplayNext
unfolding errors_is validate_event
round {reg} synchronous cutoff client_id to_client retained r p =
    if not r.active
    then stops p
    else if ltb retained.stored_at cutoff
    then goes_on p
    else let event = normalized retained in
      if reg.is_subscribed client_id event.event.name r.subscriptions
      then deliver_valid synchronous (to_client event) r.outcome (validate_event event.event) p
      else goes_on p

abbrev pub outcome_of_errors : Fallible → Outcome
outcome_of_errors none = success
outcome_of_errors (some e) = error

-- From the end of the loop.
abbrev pub finish_replay : ReplayProgress → Replayed
finish_replay p =
    let err = join_all p.replay_errors in
    record { outcome = outcome_of_errors err; err = err; progress = p }

abbrev pub resume_replay : (ReplayProgress → Replayed) → ReplayNext → Replayed
resume_replay rest (goes_on p) = rest p
resume_replay rest (stops p) = finish_replay p
resume_replay rest (fails e p) = record { outcome = error; err = some e; progress = p }

-- The loop; `rounds` has what round i meets.
pub replay_loop :
    {reg : SubscriptionRegistry}
    → Bool
    → ℕ
    → Str
    → (ReplayEvent → ClientEvent)
    → (ℕ → ReplayRound reg)
    → ℕ
    → List ReplayEvent
    → ReplayProgress
    → Replayed
unfolding round join_all
replay_loop synchronous cutoff client_id to_client rounds i [] p = finish_replay p
replay_loop synchronous cutoff client_id to_client rounds i (retained ∷ events) p =
    resume_replay (λ q. replay_loop synchronous cutoff client_id to_client rounds (i + 1) events q)
      (round synchronous cutoff client_id to_client retained (rounds i) p)

-- The observation of a replay.
abbrev pub replay_observation : Str → Str → Replayed → Observation
replay_observation client_id last_event_id r =
    record (observation replay_events r.outcome client_id) {
      replay = true;
      last_event_id_present = not (is_empty last_event_id);
      delivery_count = r.progress.delivery_count;
      err = r.err;
    }

module _ {reg : SubscriptionRegistry} where
  -- replayGeneration.Add(1) and removePending of the events with an ID
  abbrev pub supersede : ℕ → Bus reg → Bus reg
  supersede o b =
      remove_pending o true (record b {
        replay_generations = update o (b.replay_generations o + 1) b.replay_generations;
      })

  abbrev pub without_replay : Outcome → Fallible → Bus reg → Replayed × Bus reg
  without_replay outcome err b =
      (record { outcome = outcome; err = err; progress = begin_replay }, b)

  abbrev pub replay_to :
      Bool → ℕ → (ℕ → ReplayRound reg) → Str → Str → Store → Option ℕ → Bus reg → Replayed × Bus reg
  replay_to synchronous cutoff rounds client_id last_event_id s none b = without_replay noop none b
  replay_to synchronous cutoff rounds client_id last_event_id s (some o) b =
      if (b.objects o).inactive then without_replay noop none b else (
        replay_loop synchronous cutoff client_id
            (replayed_event client_id o (b.replay_generations o + 1)) rounds 0
            (events_since client_id last_event_id s) begin_replay,
        supersede o b,
      )

  abbrev pub replay_from_store :
      Bool → ℕ → (ℕ → ReplayRound reg) → Str → Str → Option Store → Bus reg → Replayed × Bus reg
  replay_from_store synchronous cutoff rounds client_id last_event_id none b =
      without_replay noop none b
  replay_from_store synchronous cutoff rounds client_id last_event_id (some s) b =
      replay_to synchronous cutoff rounds client_id last_event_id s (lookup client_id b.clients) b

  abbrev pub replay_in_context :
      Bool → ℕ → (ℕ → ReplayRound reg) → Fallible → Str → Str → Bus reg → Replayed × Bus reg
  replay_in_context synchronous cutoff rounds (some e) client_id last_event_id b =
      without_replay error (some e) b
  replay_in_context synchronous cutoff rounds none client_id last_event_id b =
      replay_from_store synchronous cutoff rounds client_id last_event_id b.replay_store b

  -- replayMissedEventsLocked; the bus is as the loop finds it, with what deliver does to it left to the
  -- send queue and to the client.
  pub replay_missed_events_locked :
      Bool → ℕ → (ℕ → ReplayRound reg) → Fallible → Str → Str → Bus reg → Replayed × Bus reg
  unfolding replay_loop events_since remove_pending
  replay_missed_events_locked synchronous cutoff rounds ctx_err client_id last_event_id b =
      replay_in_context synchronous cutoff rounds ctx_err client_id last_event_id b

  abbrev pub observe_replay : Str → Str → Replayed × Bus reg → Fallible × Bus reg
  observe_replay client_id last_event_id (r, b) =
      (r.err, observe (replay_observation client_id last_event_id r) b)

  abbrev pub replay_after_lock :
      Bool
      → ℕ
      → (ℕ → ReplayRound reg)
      → Fallible
      → Fallible
      → Str
      → Str
      → Bus reg
      → Fallible × Bus reg
  replay_after_lock synchronous cutoff rounds (some e) ctx_err client_id last_event_id b =
      (some e, b)
  replay_after_lock synchronous cutoff rounds none ctx_err client_id last_event_id b =
      observe_replay client_id last_event_id
        (replay_missed_events_locked synchronous cutoff rounds ctx_err client_id last_event_id b)

  abbrev pub replay_checked :
      Bool
      → ℕ
      → (ℕ → ReplayRound reg)
      → Fallible
      → Fallible
      → Str
      → Str
      → Bus reg
      → Option Store
      → Fallible × Bus reg
  replay_checked synchronous cutoff rounds lock_err ctx_err client_id last_event_id b none =
      observe_replay client_id last_event_id (without_replay noop none b)
  replay_checked synchronous cutoff rounds lock_err ctx_err client_id last_event_id b (some s) =
      replay_after_lock synchronous cutoff rounds lock_err ctx_err client_id last_event_id b

  -- ReplayMissedEvents; `early_err` is the error of the context at the start, and `ctx_err` its error
  -- under the lock.
  pub replay_missed_events :
      Bool
      → ℕ
      → (ℕ → ReplayRound reg)
      → Fallible
      → Bool
      → Fallible
      → Fallible
      → Str
      → Str
      → Bus reg
      → Fallible × Bus reg
  unfolding replay_missed_events_locked observe
  replay_missed_events synchronous cutoff rounds (some e) stopped lock_err ctx_err client_id
        last_event_id b =
      observe_replay client_id last_event_id (without_replay error (some e) b)
  replay_missed_events synchronous cutoff rounds none stopped lock_err ctx_err client_id
        last_event_id b =
      if stopped
      then (some (is closed), b)
      else replay_checked synchronous cutoff rounds lock_err ctx_err client_id last_event_id b
          b.replay_store

  -- RegisterContext after register: a refusal is returned, and the replay that was asked for follows.
  abbrev pub continue_registration :
      Bool
      → ℕ
      → (ℕ → ReplayRound reg)
      → Fallible
      → Str
      → Str
      → Registration × Bus reg
      → Fallible × Bus reg
  continue_registration synchronous cutoff rounds ctx_err client_id last_event_id (refused e, b) =
      (some e, b)
  continue_registration synchronous cutoff rounds ctx_err client_id last_event_id (done false, b) =
      (none, b)
  continue_registration synchronous cutoff rounds ctx_err client_id last_event_id (done true, b) =
      observe_replay client_id last_event_id
        (replay_missed_events_locked synchronous cutoff rounds ctx_err client_id last_event_id b)

  -- RegisterContext
  pub register_context :
      (ℕ → ℕ → Bool)
      → List (Option RegistrationOption)
      → Str
      → Option ℕ
      → Fallible
      → Fallible
      → ℕ
      → Bool
      → Bool
      → ℕ
      → (ℕ → ReplayRound reg)
      → Fallible
      → Bus reg
      → Fallible × Bus reg
  unfolding register configure_registration replay_missed_events_locked observe
  register_context same options client_id connection ctx_err lock_err now closes_meanwhile
        synchronous cutoff rounds replay_ctx_err b =
      continue_registration synchronous cutoff rounds replay_ctx_err client_id
        (configure_registration options no_registration).last_event_id
        (register same options client_id connection ctx_err lock_err now closes_meanwhile b)
