-- ===== src/Bus/Distribution/Order.antt =====
-- What Publish gives to this bus and to the transport.
use sse_eventbus_go.Prelude.{◌∷◌, ◌++◌}
use sse_eventbus_go.Prelude.{[]}
use sse_eventbus_go.Prelude.{Bool, ◌||◌, List, Option, none, some, ◌≡◌, if◌then◌else◌}
use sse_eventbus_go.Errors.{Fallible, is, closed, invalid_event, errors_is, parts}
use sse_eventbus_go.Event.{Event}
use sse_eventbus_go.Bus.Publish.{Progress}
use sse_eventbus_go.Bus.Distribution.{Published, PublishStep, remote, observes_remote, local_steps}

-- Whether the error of the local delivery, or that the bus stopped, keeps the event from the transport.
abbrev pub is_kept_back : Bool → Fallible → Bool
is_kept_back stopped local_err = errors_is local_err invalid_event || stopped

-- What comes after the calls of handle.
abbrev pub remote_steps : Option (Event → Fallible) → Bool → Event → List PublishStep
remote_steps none kept_back event = []
remote_steps (some transport) kept_back event =
    if kept_back then [] else remote event ∷ observes_remote (transport event) ∷ []

abbrev pub remote_err : Option (Event → Fallible) → Event → Fallible
remote_err none event = none
remote_err (some transport) event = transport event

-- The error besides that of handle.
abbrev pub other_err : Option (Event → Fallible) → Bool → Event → Fallible → Fallible
other_err transport stopped event local_err =
    if errors_is local_err invalid_event
    then none
    else if stopped
    then some (is closed)
    else remote_err transport event

-- What Publish does for the normalised event, from what handle does for it.
pub record IsPublished (transport : Option (Event → Fallible)) (stopped : Bool) (event : Event)
    (handled : Fallible × Progress) (r : Published) : Type 0 where
  -- all calls of handle come first, then the transport gets the event, whatever became of the local
  -- deliveries, unless the event is invalid or the bus stopped
  pub in_order :
      r.steps
      ≡ local_steps handled.1 ++ remote_steps transport (is_kept_back stopped handled.0) event
  -- every error of handle is returned, and after it the other one, if there is one
  pub errors : parts r.err ≡ parts handled.0 ++ parts (other_err transport stopped event handled.0)
