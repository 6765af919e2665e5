-- ===== src/Event.antt =====
-- event.go: events, their normalisation and validation, and the message that a transport gets.
pub mod Unique
pub mod Valid
mod Tests
use sse_eventbus_go.Prelude.{
  ℕ, Bool, true, false, List, [], ◌∷◌, ◌++◌, Option, none, some, if◌then◌else◌, Str, codes, has,
  add, is_empty, contains_any,
}
use sse_eventbus_go.Prelude.Int.{ℤ, pos, ltb_ℤ}
use sse_eventbus_go.Errors.{Error, Fallible, is, wrap, invalid_event}

-- DefaultEvent
abbrev pub default_event : Str
default_event = codes "message"

-- `any`: nil, a string, or a value of another type, known by a number.
pub data Value : Type 0 where
  nil : Value
  string : Str → Value
  other : ℕ → Value

-- `retry` is a time.Duration in nanoseconds.
pub record Event : Type 0 where
  pub client_ids : List Str
  pub exclude_client_ids : List Str
  pub name : Str
  pub payload : Value
  pub retry : ℤ
  pub id : Str
  pub comment : Str

abbrev zero_event : Event
zero_event = record {
  client_ids = [];
  exclude_client_ids = [];
  name = [];
  payload = nil;
  retry = pos 0;
  id = [];
  comment = [];
}

unfoldable pub new_event : Value → Event
new_event payload = record zero_event { name = default_event; payload = payload }

unfoldable pub new_named_event : Str → Event
new_named_event name = record zero_event { name = name; payload = string [] }

unfoldable pub new_named_event_with_data : Str → Value → Event
new_named_event_with_data name payload = record zero_event { name = name; payload = payload }

-- The loop of uniqueStrings over the values, with its set `seen` and its slice `result`.
pub unique_loop : List Str → List Str → List Str → List Str
unfolding has add
unique_loop [] seen result = result
unique_loop (value ∷ values) seen result =
    let exists = has value seen in
    unique_loop values (if exists then seen else add value seen)
      (if exists then result else result ++ value ∷ [])

pub unique_strings : List Str → List Str
unfolding unique_loop
unique_strings values = unique_loop values [] []

unfoldable pub normalize_event : Event → Event
unfolding unique_strings is_empty
normalize_event event = record event {
  name = if is_empty event.name then default_event else event.name;
  client_ids = unique_strings event.client_ids;
  exclude_client_ids = unique_strings event.exclude_client_ids;
}

abbrev pub line_breaks : List ℕ
line_breaks = 13 ∷ 10 ∷ []

abbrev pub null_or_line_breaks : List ℕ
null_or_line_breaks = 0 ∷ 13 ∷ 10 ∷ []

-- nil for an event that may go on the wire
unfoldable pub validate_event : Event → Fallible
unfolding contains_any
validate_event event =
    if contains_any event.name line_breaks
    then some (wrap (codes "name contains a line break") (is invalid_event))
    else if contains_any event.id null_or_line_breaks
    then some (wrap (codes "ID contains a null or line break") (is invalid_event))
    else if ltb_ℤ event.retry (pos 0)
    then some (wrap (codes "retry duration is negative") (is invalid_event))
    else none

pub record Message : Type 0 where
  pub event : Str
  pub payload : Str
  pub has_data : Bool
  pub retry : ℤ
  pub id : Str
  pub comment : Str
