-- ===== src/Bus/Clients.antt =====
-- bus.go: the clients of the bus (RegisterContext, Disconnect, unregister). Each runs under the lock
-- of its client ID, so that no other of them touches the entry of this ID meanwhile; what else other
-- threads may change is an argument.
pub mod Invariant
pub mod Register
pub mod Effects
pub mod Removal
pub mod Disconnect
pub mod Steps
pub mod Later
pub mod Generations
pub mod Owns
pub mod Ownership
mod Tests
use mathlib.Core.Bool.{not}
use sse_eventbus_go.Prelude.{
  ℕ, ◌+◌, Bool, true, false, ◌&&◌, ◌||◌, List, [], ◌∷◌, ◌++◌, Option, none, some, ◌==◌, ltb,
  if◌then◌else◌, Str, Dict, lookup, insert, delete, keys, is_empty, is_some, length,
}
use sse_eventbus_go.Bus.Registration.{
  RegistrationConfig, no_registration, RegistrationOption, subscribe_to, replace_subscriptions,
  complete_after_message, replay_from, apply_registration, configure_registration,
}
use sse_eventbus_go.Bus.State.{
  Pending, Operation, register_client, unregister_client, handle_event, send_event, replay_events,
  publish_remote, receive_remote, Outcome, success, noop, error, Observation, observation, update,
  Bus, matches, remove_pending, store_object, retire, replace_with, observe,
}
use sse_eventbus_go.Errors.{Error, Fallible, is, closed, invalid_client_id, nil_connection}
use sse_eventbus_go.Client.Lifecycle.{Client, registered, deactivate, retire_locked, replace_locked}
use sse_eventbus_go.Registry.Interface.{SubscriptionRegistry}
use sse_eventbus_go.Bus.Subscriptions.{unsubscribe_from_all, subscribe}
use sse_eventbus_go.Queue.View.{keep}
use sse_eventbus_go.Replay.{Store, clear_client}

-- How a registration ends: refused, or done, with a replay to follow under the same lock or not.
pub data Registration : Type 0 where
  refused : Error → Registration
  done : Bool → Registration

abbrev pub is_target : Option ℕ → ℕ → Bool
is_target none o = false
is_target (some p) o = p == o

abbrev pub expects : Option ℕ → Option ℕ → Bool
expects none found = true
expects (some o) found = is_target found o

-- staleBefore: whether the client was seen too lately to be removed.
abbrev pub is_fresh : Option ℕ → Client → Bool
is_fresh none c = false
is_fresh (some cutoff) c = not (ltb c.last_transfer cutoff)

abbrev pub clear_history : Str → Option Store → Option Store
clear_history client_id none = none
clear_history client_id (some s) = some (clear_client client_id s)

abbrev pub outcome_of : Fallible → Outcome
outcome_of none = success
outcome_of (some e) = error

module _ (reg : SubscriptionRegistry) where
  -- The loop of RegisterContext over the events to subscribe to; each is one call of Subscribe.
  pub subscribe_all : Str → List Str → reg.State → reg.State
  unfolding subscribe
  subscribe_all client_id [] r = r
  subscribe_all client_id (event ∷ events) r =
      subscribe_all client_id events (subscribe reg client_id (event ∷ []) r)

  pub change_subscriptions : Str → RegistrationConfig → reg.State → reg.State
  unfolding subscribe_all unsubscribe_from_all
  change_subscriptions client_id config r =
      subscribe_all client_id config.events
        (if config.replace then unsubscribe_from_all reg client_id config.events r else r)

module _ {reg : SubscriptionRegistry} where
  abbrev pub replace_existing : (ℕ → ℕ → Bool) → ℕ → Option ℕ → Bus reg → Bus reg
  replace_existing same connection none b = b
  replace_existing same connection (some o) b =
      remove_pending o false (replace_with same connection o b)

  abbrev pub new_object : Client → Bus reg → Bus reg
  new_object c b = record b {
    objects = update b.next_object c b.objects;
    replay_generations = update b.next_object 0 b.replay_generations;
    next_object = b.next_object + 1;
  }

  -- isCurrentEvent of an event of client generation `o`; `id` is Event.ID, and `generation` the replay
  -- generation that the event was made in.
  unfoldable pub is_current_event : Str → ℕ → Str → ℕ → Bus reg → Bool
  unfolding is_empty
  is_current_event client_id o id generation b =
      let current = is_target (lookup client_id b.clients) o in
      if not current || is_empty id then current else generation == b.replay_generations o

  -- From the first check of `closed` on. `closes_meanwhile` says whether Close runs before the second
  -- check.
  pub register_locked :
      (ℕ → ℕ → Bool) → RegistrationConfig → Str → ℕ → ℕ → Bool → Bus reg → Registration × Bus reg
  unfolding remove_pending replace_with change_subscriptions retire observe
  register_locked same config client_id connection now closes_meanwhile b =
      if b.is_closed
      then (refused (is closed), b)
      else (let target = b.next_object in
          let made = new_object (registered connection now config.complete) b in
          let replaced = replace_existing same connection (lookup client_id b.clients) made in
          let changed = record replaced {
            subscriptions = change_subscriptions reg client_id config replaced.subscriptions;
            is_closed = closes_meanwhile;
          } in
          if closes_meanwhile then (refused (is closed), retire target changed) else (
            done config.replay,
            observe
                (record (observation register_client success client_id) {
                  complete_after_message = config.complete;
                })
                (record changed { clients = insert client_id target changed.clients }),
          ))

  abbrev pub after_lock : Fallible → Registration × Bus reg → Bus reg → Registration × Bus reg
  after_lock (some e) r b = (refused e, b)
  after_lock none r b = r

  abbrev pub with_connection :
      Option ℕ → (ℕ → Registration × Bus reg) → Bus reg → Registration × Bus reg
  with_connection none f b = (refused (is nil_connection), b)
  with_connection (some connection) f b = f connection

  -- RegisterContext; a nil connection is `none`.
  unfoldable pub register :
      (ℕ → ℕ → Bool)
      → List (Option RegistrationOption)
      → Str
      → Option ℕ
      → Fallible
      → Fallible
      → ℕ
      → Bool
      → Bus reg
      → Registration × Bus reg
  unfolding register_locked configure_registration is_empty
  register same options client_id connection ctx_err lock_err now closes_meanwhile b =
      if is_empty client_id
      then (refused (is invalid_client_id), b)
      else with_connection connection
          (λ c.
            after_lock ctx_err
              (after_lock lock_err
                (register_locked same (configure_registration options no_registration) client_id c
                  now closes_meanwhile b)
                b)
              b)
          b

  -- Disconnect after its look at the map without the lock, which found `found`, a client with the same
  -- connection.
  unfoldable pub disconnect_locked : Str → ℕ → Bus reg → Bool × Bus reg
  unfolding retire remove_pending
  disconnect_locked client_id found b =
      if is_target (lookup client_id b.clients) found
      then (true, remove_pending found false (retire found b))
      else (false, b)

  abbrev pub disconnect_found :
      (ℕ → ℕ → Bool) → Str → ℕ → Option ℕ → Bus reg → Bus reg → Bool × Bus reg
  disconnect_found same client_id connection none early b = (false, b)
  disconnect_found same client_id connection (some o) early b =
      if same (early.objects o).connection connection
      then disconnect_locked client_id o b
      else (false, b)

  -- Disconnect; `early` is the bus at the look without the lock.
  unfoldable pub disconnect : (ℕ → ℕ → Bool) → Str → Option ℕ → Bus reg → Bus reg → Bool × Bus reg
  unfolding disconnect_locked
  disconnect same client_id none early b = (false, b)
  disconnect same client_id (some connection) early b =
      disconnect_found same client_id connection (lookup client_id early.clients) early b

  -- The sections of unregister for a client that goes: the entry is deleted under the lock of the map,
  -- and what the bus has for the client is discarded before it is retired.
  abbrev pub take_out : Str → Bus reg → Bus reg
  take_out client_id b = record b { clients = delete client_id b.clients }

  abbrev pub discard : Str → ℕ → Bus reg → Bus reg
  discard client_id o b =
      let unsubscribed =
        remove_pending o false
          (record b { subscriptions = reg.unsubscribe_all client_id b.subscriptions }) in
      record unsubscribed { replay_store = clear_history client_id unsubscribed.replay_store }

  -- unregister of a client that is there and goes; `close_err` is what Close of its connection returns,
  -- if it is called.
  unfoldable pub unregister_client_locked : Str → ℕ → Fallible → Bus reg → Bus reg
  unfolding retire remove_pending observe clear_client
  unregister_client_locked client_id o close_err b =
      let err = if (b.objects o).connection_closed then none else close_err in
      observe (record (observation unregister_client (outcome_of err) client_id) { err = err })
        (retire o (discard client_id o (take_out client_id b)))

  abbrev pub unregister_found :
      Str → Option ℕ → Option ℕ → Bool → Fallible → Option ℕ → Bus reg → Bool × Bus reg
  unregister_found client_id expected stale_before observe_noop close_err none b =
      if expects expected none && observe_noop
      then (false, observe (observation unregister_client noop client_id) b)
      else (false, b)
  unregister_found client_id expected stale_before observe_noop close_err (some o) b =
      if not (expects expected (some o)) || is_fresh stale_before (b.objects o)
      then (false, b)
      else (true, unregister_client_locked client_id o close_err b)

  unfoldable pub unregister : Str → Option ℕ → Option ℕ → Bool → Fallible → Bus reg → Bool × Bus reg
  unfolding unregister_client_locked observe
  unregister client_id expected stale_before observe_noop close_err b =
      unregister_found client_id expected stale_before observe_noop close_err
        (lookup client_id b.clients) b

  -- IsClientRegistered and ClientCount
  pub is_client_registered : Str → Bus reg → Bool
  is_client_registered client_id b = is_some (lookup client_id b.clients)

  pub client_count : Bus reg → ℕ
  client_count b = length b.clients
