-- ===== src/Replay/Tests.antt =====
-- The replay store of one client with two events.
use sse_eventbus_go.Prelude.{
  [], ◌∷◌, ◌++◌, ◌≡◌, refl, inl, codes, str_eq, is_empty, true, false, if◌then◌else◌, lookup,
  insert,
}
use sse_eventbus_go.Event.{new_event, string, normalize_event}
use sse_eventbus_go.Replay.{ReplayEvent, Store, normalized, store, events_since}
use sse_eventbus_go.Replay.Laws.{IsValid, history, store-IsValid}
use sse_eventbus_go.Replay.Since.{events_since-found}

abbrev old : ReplayEvent
old = record {
  client_id = codes "c1";
  event = record (new_event (string (codes "a"))) { id = codes "1" };
  converted_value = [];
  has_converted = false;
  stored_at = 10;
}

abbrev new : ReplayEvent
new = record old {
  event = record (new_event (string (codes "b"))) { id = codes "2" };
  stored_at = 20;
}

abbrev two : Store
two = store new (store old [])

two-IsValid : IsValid two
unfolding sse_eventbus_go.Prelude.keys
two-IsValid = store-IsValid new _ (store-IsValid old [] (record { distinct = tt; normal = tt }))

history-two : history (codes "c1") two ≡ (normalized old ∷ []) ++ normalized new ∷ []
unfolding history store lookup insert str_eq
history-two = refl

old_id : (normalized old).event.id ≡ codes "1"
unfolding normalize_event new_event
old_id = refl

new_id : str_eq (normalized new).event.id (codes "1") ≡ false
unfolding normalize_event new_event str_eq
new_id = refl

named : is_empty (codes "1") ≡ false
unfolding is_empty
named = refl

blank : is_empty (codes "") ≡ true
unfolding is_empty
blank = refl

events_since-found_example : events_since (codes "c1") (codes "1") two ≡ normalized new ∷ []
events_since-found_example =
    events_since-found (codes "c1") (codes "1") two [] (normalized old) (normalized new ∷ [])
      two-IsValid named history-two old_id (new_id, tt)
