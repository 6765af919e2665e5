-- ===== src/Bus/ReplayMissed/Tests.antt =====
-- A client c1 with one retained event that registers with a replay.
use sse_eventbus_go.Prelude.{
  ℕ, Bool, true, false, ◌==◌, List, [], ◌∷◌, Option, none, some, ◌≡◌, refl, Str, codes, lookup,
}
use sse_eventbus_go.Event.{Event, Value, new_named_event_with_data}
use sse_eventbus_go.Replay.{ReplayEvent, Store, store}
use sse_eventbus_go.Registry.{new_memory_subscription_registry}
use sse_eventbus_go.Registry.Interface.{memory}
use sse_eventbus_go.Registry.Laws
use sse_eventbus_go.Bus.Registration.{RegistrationOption, subscribe_to, replay_from}
use sse_eventbus_go.Bus.State.{Bus}
use sse_eventbus_go.Bus.Clients.{register}
use sse_eventbus_go.Bus.Clients.Steps.{new_bus}
use sse_eventbus_go.Bus.ReplayMissed.{
  ReplayRound, replay_missed_events_locked, replay_missed_events,
}

abbrev c1 : Str
c1 = codes "c1"

abbrev same : ℕ → ℕ → Bool
same left right = left == right

abbrev one : ReplayEvent
one = record {
  client_id = c1;
  event = record (new_named_event_with_data (codes "news") (Value.string (codes "a"))) {
    id = codes "1";
  };
  converted_value = codes "a";
  has_converted = true;
  stored_at = 50;
}

abbrev history : Store
history = store one []

abbrev start : Bus memory
start = new_bus memory new_memory_subscription_registry (some history)

abbrev options : List (Option RegistrationOption)
options = some (subscribe_to (codes "news" ∷ [])) ∷ some (replay_from []) ∷ []

abbrev once : Bus memory
once = (register same options c1 (some 7) none none 60 false start).1

abbrev rounds : ℕ → ReplayRound memory
rounds i = record { active = true; subscriptions = once.subscriptions; outcome = (false, none) }

one_delivered :
    (replay_missed_events_locked false 40 rounds none c1 [] once).0.progress.delivery_count ≡ 1
unfolding replay_missed_events_locked register sse_eventbus_go.Prelude.insert
    sse_eventbus_go.Prelude.str_eq store sse_eventbus_go.Event.normalize_event
    new_named_event_with_data sse_eventbus_go.Prelude.elem sse_eventbus_go.Registry.is_subscribed
    sse_eventbus_go.Registry.subscribe
one_delivered = refl

expired :
    (replay_missed_events_locked false 51 rounds none c1 [] once).0.progress.delivery_count ≡ 0
unfolding replay_missed_events_locked register sse_eventbus_go.Prelude.insert
    sse_eventbus_go.Prelude.str_eq store
expired = refl

no_store :
    (replay_missed_events false 40 rounds none false none none c1 []
      (record once { replay_store = none })).0
    ≡ none
unfolding replay_missed_events
no_store = refl

active : (once.objects 0).inactive ≡ false
unfolding register lookup
active = refl
