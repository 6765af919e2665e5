-- ===== src/Bus/Publish/Tests.antt =====
-- An event for two both in synchronous mode, where every delivery fails.
use sse_eventbus_go.Prelude.{true, false, List, [], ◌∷◌, none, some, ◌≡◌, refl, Str, codes}
use sse_eventbus_go.Errors.{text}
use sse_eventbus_go.Event.{Event, Value, new_named_event_with_data, normalize_event, validate_event}
use sse_eventbus_go.Bus.Publish.{View, Reads, Settings, begin, handle, convert}
use sse_eventbus_go.Bus.Publish.Deliveries.{deliveries}
use sse_eventbus_go.Bus.Publish.Sweep.{IsSweep}
use sse_eventbus_go.Bus.Publish.Messages.{AllAccepted, handle-AllAccepted}
use sse_eventbus_go.Bus.Publish.Recipients.{
  recipients, handle-IsSweep, IsCalm, failures_are_isolated,
}

abbrev settings : Settings
settings = record { synchronous = true; has_replay_store = true; converters = [] }

abbrev news : Event
news = new_named_event_with_data (codes "news") (Value.string (codes "a"))

abbrev known : View
known = record { subscribed = true; target = some 7 }

abbrev reads : Str → Reads
reads id = record {
  before = known;
  lock_err = none;
  locked = known;
  stopped = false;
  generation = 0;
  now = 5;
  active = true;
  outcome = (true, some (text (codes "broken pipe")));
}

abbrev both : Str → List Str
both name = codes "c1" ∷ codes "c2" ∷ []

both_get_it : recipients reads both (normalize_event news) ≡ both (codes "news")
unfolding recipients sse_eventbus_go.Prelude.is_empty normalize_event new_named_event_with_data
both_get_it = refl

handle-IsSweep_example :
    IsSweep begin
      (recipients reads both (normalize_event news))
      (handle settings false reads both news)
handle-IsSweep_example = handle-IsSweep settings false reads both news

calm : IsCalm settings reads (normalize_event news)
unfolding convert normalize_event new_named_event_with_data
calm = record { synchronous = refl; running = λ id. refl; locked = λ id. refl; converted = refl }

valid : validate_event (normalize_event news) ≡ none
unfolding validate_event normalize_event new_named_event_with_data sse_eventbus_go.Prelude.elem
valid = refl

failures_are_isolated_example :
    deliveries (handle settings false reads both news).1.actions
    ≡ recipients reads both (normalize_event news)
failures_are_isolated_example = failures_are_isolated settings reads both news calm valid

handle-AllAccepted_example : AllAccepted (handle settings false reads both news).1.actions
handle-AllAccepted_example = handle-AllAccepted settings false reads both news
