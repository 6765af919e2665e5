-- ===== src/Bus/Shutdown/Tests.antt =====
-- A bus with one client that Close retires.
use sse_eventbus_go.Prelude.{
  ℕ, Bool, true, false, ◌==◌, List, [], ◌∷◌, Option, none, some, ◌≡◌, refl, Str, codes, is_some,
  lookup,
}
use sse_eventbus_go.Errors.{Fallible, is, short_write}
use sse_eventbus_go.Registry.{new_memory_subscription_registry}
use sse_eventbus_go.Registry.Interface.{memory}
use sse_eventbus_go.Bus.State.{Bus}
use sse_eventbus_go.Bus.Clients.{register}
use sse_eventbus_go.Bus.Clients.Steps.{new_bus}
use sse_eventbus_go.Bus.Shutdown.{Drained, close_bus}

abbrev c1 : Str
c1 = codes "c1"

abbrev same : ℕ → ℕ → Bool
same left right = left == right

abbrev once : Bus memory
once =
    (register same [] c1 (some 7) none none 5 false
      (new_bus memory new_memory_subscription_registry none)).1

abbrev last : Drained
last = record {
  client_id = c1;
  client = 0;
  id = [];
  generation = 0;
  attempts = 0;
  send_order = 1;
  has_turn = true;
  err = some (is short_write);
  now = 9;
}

abbrev close_err : ℕ → Fallible
close_err o = none

failure_reported : is_some (close_bus 40 (last ∷ []) close_err once).0 ≡ true
unfolding close_bus lookup register sse_eventbus_go.Prelude.insert sse_eventbus_go.Prelude.str_eq
failure_reported = refl

closed_once : (close_bus 40 (last ∷ []) close_err once).1.closes ≡ 7 ∷ []
unfolding close_bus lookup register sse_eventbus_go.Prelude.insert sse_eventbus_go.Prelude.str_eq
closed_once = refl
