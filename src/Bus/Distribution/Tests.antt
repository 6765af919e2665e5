-- ===== src/Bus/Distribution/Tests.antt =====
-- Publish on a bus without clients, with a transport that fails.
use sse_eventbus_go.Prelude.{true, false, List, [], ◌∷◌, Option, none, some, ◌≡◌, refl, Str, codes}
use sse_eventbus_go.Errors.{Fallible, is, closed, short_write}
use sse_eventbus_go.Event.{Event, Value, new_named_event_with_data}
use sse_eventbus_go.Bus.Publish.{View, Reads, Settings}
use sse_eventbus_go.Bus.Distribution.{publish}

abbrev settings : Settings
settings = record { synchronous = false; has_replay_store = false; converters = [] }

abbrev news : Event
news = new_named_event_with_data (codes "news") (Value.string (codes "a"))

abbrev nobody : View
nobody = record { subscribed = false; target = none }

abbrev reads : Str → Reads
reads id = record {
  before = nobody;
  lock_err = none;
  locked = nobody;
  stopped = false;
  generation = 0;
  now = 5;
  active = true;
  outcome = (false, none);
}

abbrev no_subscribers : Str → List Str
no_subscribers name = []

abbrev transport : Option (Event → Fallible)
transport = some (λ event. some (is short_write))

failed_there :
    (publish transport settings none false reads no_subscribers false news).err
    ≡ some (is short_write)
unfolding publish new_named_event_with_data sse_eventbus_go.Prelude.elem
failed_there = refl

stopped_meanwhile :
    (publish transport settings none false reads no_subscribers true news).err ≡ some (is closed)
unfolding publish new_named_event_with_data sse_eventbus_go.Prelude.elem
stopped_meanwhile = refl
