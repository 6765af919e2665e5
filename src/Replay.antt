-- ===== src/Replay.antt =====
-- replay.go: the in-memory replay store, a map from client IDs to retained events. Each operation
-- runs under the store's lock. Times are nanoseconds from an instant before all that are stored.
pub mod Laws
pub mod Since
mod Tests
use sse_eventbus_go.Prelude.{
  ℕ, zero, suc, ◌<◌, Bool, true, false, List, [], ◌∷◌, ◌++◌, map, Option, none, some, Str, Dict,
  str_eq, is_empty, lookup, insert, delete, ltb, length, get_elem?, drop, if◌then◌else◌,
}
use sse_eventbus_go.Event.{Event, normalize_event}

pub record ReplayEvent : Type 0 where
  pub client_id : Str
  pub event : Event
  pub converted_value : Str
  pub has_converted : Bool
  pub stored_at : ℕ

abbrev pub Store : Type 0
Store = Dict (List ReplayEvent)

-- NewMemoryReplayStore
abbrev pub new_memory_replay_store : Store
new_memory_replay_store = []

-- `s.events[clientID]`: a nil slice for a client that is not there.
abbrev pub or_nil : Option (List ReplayEvent) → List ReplayEvent
or_nil none = []
or_nil (some events) = events

abbrev pub normalized : ReplayEvent → ReplayEvent
normalized e = record e { event = normalize_event e.event }

-- MemoryReplayStore.Store
unfoldable pub store : ReplayEvent → Store → Store
unfolding lookup insert
store e s = insert e.client_id (or_nil (lookup e.client_id s) ++ normalized e ∷ []) s

abbrev pub has_id : Str → Option ReplayEvent → Bool
has_id id none = false
has_id id (some e) = str_eq e.event.id id

-- The loop of EventsSince over the indices below `i`, from the last: one more than the index of the
-- last event with the ID, or 0.
pub start_after : Str → List ReplayEvent → ℕ → ℕ
start_after id events zero = 0
start_after id events (suc i) =
    let rest = start_after id events i in if has_id id (get_elem? events i) then suc i else rest

unfoldable pub events_since : Str → Str → Store → List ReplayEvent
unfolding lookup is_empty start_after
events_since client_id last_event_id s =
    let events = or_nil (lookup client_id s) in
    let start =
      if is_empty last_event_id then 0 else start_after last_event_id events (length events) in
    if is_empty events then [] else map normalized (drop start events)

unfoldable pub clear_client : Str → Store → Store
unfolding delete
clear_client client_id s = delete client_id s

-- The events that PurgeExpired keeps of one client.
pub retained : ℕ → List ReplayEvent → List ReplayEvent
retained before [] = []
retained before (e ∷ events) =
    let rest = retained before events in if ltb e.stored_at before then rest else e ∷ rest

unfoldable pub purge_expired : ℕ → Store → Store
unfolding retained is_empty
purge_expired before [] = []
purge_expired before ((id, events) ∷ s) =
    let rest = purge_expired before s in
    let kept = retained before events in if is_empty kept then rest else (id, kept) ∷ rest
