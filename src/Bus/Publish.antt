-- ===== src/Bus/Publish.antt =====
-- bus.go: handle and convert. What handle reads of the shared state for one client, before and under
-- that client's lock, and what deliver returns, are arguments, so that other threads may have changed
-- the state in between in any way.
pub mod Deliveries
pub mod Sweep
pub mod Recipients
pub mod Messages
mod Tests
use mathlib.Core.Bool.{not}
use sse_eventbus_go.Prelude.{
  ℕ, ◌+◌, Bool, true, false, ◌&&◌, ◌||◌, List, [], ◌∷◌, ◌++◌, Option, none, some, if◌then◌else◌,
  Str, codes, has, is_empty, is_some,
}
use sse_eventbus_go.Errors.{
  Error, Fallible, is, text, wrap, closed, inactive_client, errors_is, join_all,
}
use sse_eventbus_go.Event.{Event, Value, Message, normalize_event, validate_event}
use sse_eventbus_go.Replay.{ReplayEvent}

-- DataConverter, as an application implements it
pub record DataConverter : Type 0 where
  pub supports : Event → Bool
  pub convert : Event → Str × Fallible

pub record Converted : Type 0 where
  pub converted : Str
  pub has_converted : Bool
  pub err : Fallible

abbrev by_converter : Str × Fallible → Converted
by_converter (value, none) = record { converted = value; has_converted = true; err = none }
by_converter (value, some e) = record { converted = value; has_converted = false; err = some e }

-- The loop of convert over the converters.
pub first_converter : List DataConverter → Event → Converted
first_converter [] event = record {
  converted = [];
  has_converted = false;
  err = some (text (codes "no data converter supports event"));
}
first_converter (converter ∷ converters) event =
    let rest = first_converter converters event in
    if converter.supports event then by_converter (converter.convert event) else rest

abbrev convert_value : Value → List DataConverter → Event → Converted
convert_value Value.nil converters event = record {
  converted = [];
  has_converted = false;
  err = none;
}
convert_value (Value.string s) converters event = record {
  converted = s;
  has_converted = true;
  err = none;
}
convert_value (Value.other n) converters event = first_converter converters event

pub convert : List DataConverter → Event → Converted
unfolding first_converter
convert converters event = convert_value event.payload converters event

-- What handle reads for one client: IsSubscribed and the client in the map, before the lock and
-- under it; a client generation is known by a number.
pub record View : Type 0 where
  pub subscribed : Bool
  pub target : Option ℕ

-- `locked` is nil or the error of lockClientContext, `stopped` is whether `stop` is closed, `active`
-- is isActive, and `outcome` is what deliver returns.
pub record Reads : Type 0 where
  pub before : View
  pub lock_err : Fallible
  pub locked : View
  pub stopped : Bool
  pub generation : ℕ
  pub now : ℕ
  pub active : Bool
  pub outcome : Bool × Fallible

-- The fields that handle sets; the others are zero until the event is queued or sent.
pub record ClientEvent : Type 0 where
  pub client_id : Str
  pub event : Event
  pub message : Message
  pub client : ℕ
  pub generation : ℕ

-- The calls that handle makes, in order.
pub data Action : Type 0 where
  converts : Action
  stores : ReplayEvent → Action
  delivers : ClientEvent → Action
  notifies_queued : ClientEvent → Action
  notifies_sent : ClientEvent → Fallible → Action
  observes : ℕ → Fallible → Action

pub record Settings : Type 0 where
  pub synchronous : Bool
  pub has_replay_store : Bool
  pub converters : List DataConverter

-- The variables of the loop, and the calls so far.
pub record Progress : Type 0 where
  pub conversion : Option Converted
  pub delivery_count : ℕ
  pub delivery_errors : List Error
  pub actions : List Action

pub data Next : Type 0 where
  goes_on : Progress → Next
  returns : Error → Progress → Next

abbrev pub act : Action → Progress → Progress
act a p = record p { actions = p.actions ++ a ∷ [] }

abbrev pub act_if : Bool → Action → Progress → Progress
act_if true a p = act a p
act_if false a p = p

abbrev no_error : Fallible → Bool
no_error none = true
no_error (some e) = false

-- After deliver and the notifications: an error is collected in synchronous mode, and otherwise ends
-- the call.
abbrev pub after_notify : Bool → Str → Fallible → Progress → Next
after_notify synchronous id none p = goes_on (record p { delivery_count = p.delivery_count + 1 })
after_notify true id (some e) p = goes_on (record p {
  delivery_count = p.delivery_count + 1;
  delivery_errors = p.delivery_errors ++ wrap id e ∷ [];
})
after_notify false id (some e) p = returns e (act (Action.observes p.delivery_count (some e)) p)

abbrev pub after_deliver : Bool → ClientEvent → Bool × Fallible → Progress → Next
after_deliver synchronous event (sent, err) p =
    if errors_is err inactive_client
    then goes_on p
    else after_notify synchronous event.client_id err (
        act_if sent (Action.notifies_sent event err)
          (act_if (no_error err || sent) (Action.notifies_queued event) p))

abbrev pub client_event : Event → Converted → Str → ℕ → Reads → ClientEvent
client_event event c id target r = record {
  client_id = id;
  event = event;
  message = record {
    event = event.name;
    payload = c.converted;
    has_data = c.has_converted;
    retry = event.retry;
    id = event.id;
    comment = event.comment;
  };
  client = target;
  generation = r.generation;
}

abbrev pub replay_event : Event → Converted → Str → Reads → ReplayEvent
replay_event event c id r = record {
  client_id = id;
  event = event;
  converted_value = c.converted;
  has_converted = c.has_converted;
  stored_at = r.now;
}

-- From the second look at the client, under its lock.
abbrev pub visit_target : Settings → Event → Converted → Str → Reads → Option ℕ → Progress → Next
visit_target s event c id r none p = goes_on p
visit_target s event c id r (some target) p =
    if r.stopped
    then returns (is closed) p
    else (let stored =
          act_if (s.has_replay_store && not (is_empty event.id))
            (Action.stores (replay_event event c id r)) p in
        let sent = client_event event c id target r in
        if r.active
        then after_deliver s.synchronous sent r.outcome (act (Action.delivers sent) stored)
        else goes_on stored)

abbrev pub visit_locked : Settings → Event → Converted → Str → Reads → Fallible → Progress → Next
visit_locked s event c id r (some e) p = returns e p
visit_locked s event c id r none p =
    if r.locked.subscribed then visit_target s event c id r (r.locked.target) p else goes_on p

abbrev pub visit_converted : Settings → Event → Converted → Str → Reads → Fallible → Progress → Next
visit_converted s event c id r (some e) p = returns e (act (Action.observes 0 (some e)) p)
visit_converted s event c id r none p =
    visit_locked s event c id r r.lock_err (record p { conversion = some c })

-- The first client that is reached has the data converted, for all.
abbrev pub visit_found : Settings → Event → Str → Reads → Option Converted → Progress → Next
visit_found s event id r (some c) p = visit_locked s event c id r r.lock_err p
visit_found s event id r none p =
    let c = convert s.converters event in
    visit_converted s event c id r c.err (act Action.converts p)

-- One round of the loop of handle.
pub visit : Settings → Event → List Str → Str → Reads → Progress → Next
unfolding has
visit s event excluded id r p =
    if has id excluded
    then goes_on p
    else if r.before.subscribed && is_some r.before.target
    then visit_found s event id r p.conversion p
    else goes_on p

-- The rest of handle from the end of the loop.
abbrev pub finish : Progress → Fallible × Progress
finish p =
    let err = join_all p.delivery_errors in (err, act (Action.observes p.delivery_count err) p)

abbrev pub resume : (Progress → Fallible × Progress) → Next → Fallible × Progress
resume rest (goes_on p) = rest p
resume rest (returns e p) = (some e, p)

-- The loop of handle. Each ID is visited once.
pub visits : Settings → Event → List Str → (Str → Reads) → List Str → Progress → Fallible × Progress
unfolding visit join_all
visits s event excluded reads [] p = finish p
visits s event excluded reads (id ∷ ids) p =
    resume (λ q. visits s event excluded reads ids q) (visit s event excluded id (reads id) p)

abbrev pub begin : Progress
begin = record { conversion = none; delivery_count = 0; delivery_errors = []; actions = [] }

abbrev pub handle_valid :
    Settings → (Str → Reads) → List Str → Event → Fallible → Fallible × Progress
handle_valid s reads subscribers event (some e) = (some e, act (Action.observes 0 (some e)) begin)
handle_valid s reads subscribers event none =
    if is_empty event.client_ids
    then visits s event event.exclude_client_ids reads subscribers begin
    else visits s event [] reads event.client_ids begin

-- handle; `subscribers` is what the registry answers for a name.
unfoldable pub handle :
    Settings → Bool → (Str → Reads) → (Str → List Str) → Event → Fallible × Progress
unfolding visits normalize_event validate_event
handle s stopped reads subscribers event =
    if stopped
    then (some (is closed), begin)
    else (let event' = normalize_event event in
        handle_valid s reads (subscribers event'.name) event' (validate_event event'))
