-- ===== src/Bus/Registration.antt =====
-- options.go: the options of one registration, and the loop of RegisterContext in bus.go over them.
use sse_eventbus_go.Prelude.{Bool, true, false, List, [], ◌∷◌, ◌++◌, Option, none, some, Str}

-- registrationConfig
pub record RegistrationConfig : Type 0 where
  pub events : List Str
  pub replace : Bool
  pub complete : Bool
  pub last_event_id : Str
  pub replay : Bool

abbrev pub no_registration : RegistrationConfig
no_registration = record {
  events = [];
  replace = false;
  complete = false;
  last_event_id = [];
  replay = false;
}

pub data RegistrationOption : Type 0 where
  subscribe_to : List Str → RegistrationOption
  replace_subscriptions : List Str → RegistrationOption
  complete_after_message : RegistrationOption
  replay_from : Str → RegistrationOption

pub apply_registration : RegistrationOption → RegistrationConfig → RegistrationConfig
apply_registration (subscribe_to events) c = record c { events = c.events ++ events }
apply_registration (replace_subscriptions events) c = record c {
  replace = true;
  events = c.events ++ events;
}
apply_registration complete_after_message c = record c { complete = true }
apply_registration (replay_from id) c = record c { last_event_id = id; replay = true }

-- The loop of RegisterContext over its options, a nil option being skipped.
unfoldable pub configure_registration :
    List (Option RegistrationOption) → RegistrationConfig → RegistrationConfig
unfolding apply_registration
configure_registration [] c = c
configure_registration (none ∷ options) c = configure_registration options c
configure_registration (some option ∷ options) c =
    configure_registration options (apply_registration option c)
