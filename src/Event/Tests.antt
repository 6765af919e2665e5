-- ===== src/Event/Tests.antt =====
-- event.go on small inputs.
use sse_eventbus_go.Prelude.{
  List, [], ◌∷◌, ◌≡◌, refl, ◌↔◌, ◌⊎◌, none, true, Str, codes, has, Distinct,
}
use sse_eventbus_go.Prelude.Int.{negsuc}
use sse_eventbus_go.Errors.{errors_is, invalid_event}
use sse_eventbus_go.Event.{
  Event, string, new_event, unique_strings, normalize_event, validate_event, default_event,
}

abbrev names : List Str
names = codes "a" ∷ codes "b" ∷ codes "a" ∷ []

abbrev sample : Event
sample = record (new_event (string (codes "hi"))) { client_ids = names; name = [] }

abbrev negative : Event
negative = record sample { retry = negsuc 0 }

unique_names : unique_strings names ≡ codes "a" ∷ codes "b" ∷ []
unfolding unique_strings sse_eventbus_go.Prelude.str_eq
unique_names = refl

default_name : (normalize_event sample).name ≡ default_event
unfolding normalize_event new_event
default_name = refl

negative_refused : errors_is (validate_event negative) invalid_event ≡ true
unfolding validate_event errors_is new_event
negative_refused = refl
