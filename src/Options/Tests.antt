-- ===== src/Options/Tests.antt =====
-- A configuration by two options.
use sse_eventbus_go.Prelude.{true, List, [], ◌∷◌, ◌≡◌, refl}
use sse_eventbus_go.Prelude.Int.{pos}
use sse_eventbus_go.Options.{
  Config, default_config, ok, BusOption, configure, with_worker_count, with_heartbeat,
}
use sse_eventbus_go.Options.Sound.{IsUsable, configure-IsUsable}

abbrev options : List BusOption
options = BusOption.worker_count (pos 4) ∷ BusOption.synchronous_delivery ∷ []

abbrev expected : Config
expected = record default_config { workers = pos 4; synchronous = true }

accepted : configure options ≡ ok expected
unfolding configure sse_eventbus_go.Options.apply with_worker_count
    sse_eventbus_go.Options.with_synchronous_delivery
accepted = refl

configure-IsUsable_example : IsUsable expected
configure-IsUsable_example = configure-IsUsable options expected accepted
