-- ===== src/Bus/Distribution.antt =====
-- bus.go: Publish, the delivery on this bus and then to the distributed transport.
pub mod Order
mod Tests
use sse_eventbus_go.Prelude.{◌++◌}
use sse_eventbus_go.Prelude.{map}
use sse_eventbus_go.Prelude.{
  ℕ, Bool, true, false, ◌&&◌, ◌||◌, List, [], ◌∷◌, Option, none, some, if◌then◌else◌, Str,
}
use sse_eventbus_go.Errors.{Error, Fallible, is, closed, invalid_event, errors_is, join}
use sse_eventbus_go.Event.{Event, normalize_event}
use sse_eventbus_go.Client.Lifecycle.{no_error}
use sse_eventbus_go.Bus.Publish.{Reads, Settings, Progress, Action, handle}

-- The calls of Publish, in order: those of handle, PublishRemote, and the observation of what that returned.
pub data PublishStep : Type 0 where
  here : Action → PublishStep
  remote : Event → PublishStep
  observes_remote : Fallible → PublishStep

pub record Published : Type 0 where
  pub err : Fallible
  pub steps : List PublishStep

abbrev pub local_steps : Progress → List PublishStep
local_steps p = map here p.actions

abbrev pub publish_remote : Option (Event → Fallible) → Event → Fallible × Progress → Published
publish_remote none event (local_err, p) = record {
  err = join local_err none;
  steps = local_steps p;
}
publish_remote (some transport) event (local_err, p) =
    let remote_err = transport event in
    record {
      err = join local_err remote_err;
      steps = local_steps p ++ remote event ∷ observes_remote remote_err ∷ [];
    }

-- The rest of Publish after handle; `stopped` is whether `stop` is closed then.
abbrev pub after_handle : Option (Event → Fallible) → Bool → Event → Fallible × Progress → Published
after_handle transport stopped event (local_err, p) =
    if errors_is local_err invalid_event
    then record { err = local_err; steps = local_steps p }
    else if stopped
    then record { err = join local_err (some (is closed)); steps = local_steps p }
    else publish_remote transport event (local_err, p)

-- Publish; `transport` is PublishRemote, if there is one, and the other arguments are those of handle.
pub publish :
    Option (Event → Fallible)
    → Settings
    → Fallible
    → Bool
    → (Str → Reads)
    → (Str → List Str)
    → Bool
    → Event
    → Published
unfolding handle normalize_event errors_is join
publish transport s (some e) stopped reads subscribers stopped_after event = record {
  err = some e;
  steps = [];
}
publish transport s none stopped reads subscribers stopped_after event =
    let event' = normalize_event event in
    after_handle transport stopped_after event' (handle s stopped reads subscribers event')
