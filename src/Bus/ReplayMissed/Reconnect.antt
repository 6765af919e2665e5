-- ===== src/Bus/ReplayMissed/Reconnect.antt =====
-- A registration with a replay: RegisterContext from its start to its end.
use sse_eventbus_go.Prelude.{ℕ, Bool, List, Option, ◌≡◌, Str}
use sse_eventbus_go.Errors.{Fallible}
use sse_eventbus_go.Replay.{Store, events_since}
use sse_eventbus_go.Registry.Interface.{SubscriptionRegistry}
use sse_eventbus_go.Bus.Registration.{RegistrationOption, configure_registration, no_registration}
use sse_eventbus_go.Bus.State.{Bus, observe}
use sse_eventbus_go.Bus.Clients.{Registration}
use sse_eventbus_go.Bus.Clients.Effects.{Registered}
use sse_eventbus_go.Bus.ReplayMissed.{
  ReplayRound, Replayed, begin_replay, replayed_event, replay_observation,
}
use sse_eventbus_go.Bus.ReplayMissed.Order.{IsReplay, replayable, finds_inactive}
use sse_eventbus_go.Bus.ReplayMissed.Effect.{Superseded}

module _ {reg : SubscriptionRegistry} (same : ℕ → ℕ → Bool)
    (options : List (Option RegistrationOption)) (client_id : Str) (connection now : ℕ)
    (synchronous : Bool) (cutoff : ℕ) (rounds : ℕ → ReplayRound reg) (b : Bus reg) (s : Store) where
  -- What a registration with a replay leaves: the client is registered, and the events of its history
  -- after the given ID are replayed to the new generation as IsReplay says, and no older event with
  -- an ID is current for it.
  pub record IsReconnected (r : Fallible × Bus reg) : Type 0 where
    pub registered_bus : Bus reg
    pub replayed : Replayed
    pub replay_bus : Bus reg
    pub registers :
        Registered same
          (configure_registration options no_registration)
          client_id
          connection
          now
          b
          registered_bus
    pub replays :
        IsReplay
          (replayed_event client_id b.next_object 1)
          begin_replay
          (replayable cutoff rounds client_id 0 (
            events_since client_id
              (configure_registration options no_registration).last_event_id
              s))
          (finds_inactive rounds 0 (
            events_since client_id
              (configure_registration options no_registration).last_event_id
              s))
          replayed
    pub supersedes : Superseded client_id b.next_object registered_bus replay_bus
    pub result : r ≡ (
      replayed.err,
      observe
          (replay_observation client_id
            (configure_registration options no_registration).last_event_id
            replayed)
          replay_bus,
    )
