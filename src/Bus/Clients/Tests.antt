-- ===== src/Bus/Clients/Tests.antt =====
-- A client c1 that registers, and registers again with another connection.
use sse_eventbus_go.Bus.Clients.{is_target}
use sse_eventbus_go.Prelude.{◌⊎◌}
use sse_eventbus_go.Prelude.{
  ℕ, ◌<◌, Bool, true, false, ◌==◌, List, [], ◌∷◌, Option, none, some, ◌≡◌, refl, ◌≢◌, arith, Str,
  codes, lookup, str_eq,
}
use sse_eventbus_go.Registry
use sse_eventbus_go.Registry.{new_memory_subscription_registry}
use sse_eventbus_go.Registry.Interface.{memory}
use sse_eventbus_go.Registry.Laws
use sse_eventbus_go.Bus.Registration.{RegistrationOption, subscribe_to, no_registration}
use sse_eventbus_go.Bus.State.{Bus}
use sse_eventbus_go.Bus.Clients.{
  done, register, register_locked, unregister, disconnect, is_current_event, is_client_registered,
  client_count, take_out,
}
use sse_eventbus_go.Bus.Clients.Invariant.{IsValid}
use sse_eventbus_go.Bus.Clients.Effects.{Registered, register_locked-Registered}
use sse_eventbus_go.Bus.Clients.Removal.{Unregisters, unregister-Unregisters}
use sse_eventbus_go.Bus.Clients.Disconnect.{Disconnects, disconnect-Disconnects}
use sse_eventbus_go.Bus.Clients.Steps.{
  new_bus, new_bus-IsValid, Reach, here, step, registers, takes_out, Reach-IsValid,
}
use sse_eventbus_go.Bus.Clients.Ownership.{is_taken, taken_by, active_is_current}
use sse_eventbus_go.Bus.Clients.Generations.{is_current_event-stale}

abbrev c1 : Str
c1 = codes "c1"

abbrev same : ℕ → ℕ → Bool
same left right = left == right

abbrev to_news : List (Option RegistrationOption)
to_news = some (subscribe_to (codes "news" ∷ [])) ∷ []

abbrev start : Bus memory
start = new_bus memory new_memory_subscription_registry none

abbrev once : Bus memory
once = (register same to_news c1 (some 7) none none 5 false start).1

abbrev twice : Bus memory
twice = (register same [] c1 (some 8) none none 9 false once).1

abbrev to_once : Reach start once
to_once = step here (registers same to_news c1 (some 7) none none 5 false)

abbrev to_twice : Reach start twice
to_twice = step to_once (registers same [] c1 (some 8) none none 9 false)

abbrev with_news : Registry.Subs
with_news = Registry.subscribe c1 (codes "news") new_memory_subscription_registry

once_subscriptions : once.subscriptions ≡ with_news
unfolding register lookup
once_subscriptions = refl

once-IsValid : IsValid once
once-IsValid = Reach-IsValid to_once (new_bus-IsValid new_memory_subscription_registry none)

once_subscriptions-IsValid : memory.IsValid once.subscriptions
once_subscriptions-IsValid =
    rw once_subscriptions
      (Laws.subscribe-IsValid c1 (codes "news") new_memory_subscription_registry Laws.new-IsValid)

once_open : once.is_closed ≡ false
unfolding register
once_open = refl

c1_seen : is_client_registered c1 twice ≡ true
unfolding register is_client_registered lookup sse_eventbus_go.Prelude.insert str_eq
c1_seen = refl

one_client : client_count twice ≡ 1
unfolding register client_count lookup sse_eventbus_go.Prelude.insert str_eq
one_client = refl

first_closed : twice.closes ≡ 7 ∷ []
unfolding register lookup sse_eventbus_go.Prelude.insert str_eq
first_closed = refl

stale_does_nothing : (disconnect same c1 (some 7) twice twice).0 ≡ false
unfolding register disconnect lookup sse_eventbus_go.Prelude.insert str_eq
stale_does_nothing = refl

removed : (unregister c1 none none true none twice).0 ≡ true
unfolding register unregister lookup sse_eventbus_go.Prelude.insert str_eq
removed = refl

register_locked-Registered_example :
    ((register_locked same no_registration c1 8 9 false once).0 ≡ done false)
    × Registered same no_registration c1 8 9 once
        (register_locked same no_registration c1 8 9 false once).1
register_locked-Registered_example =
    register_locked-Registered same no_registration c1 8 9 once once-IsValid
      once_subscriptions-IsValid once_open

unregister-Unregisters_example :
    Unregisters c1 none none true once (unregister c1 none none true none once)
unregister-Unregisters_example =
    unregister-Unregisters c1 none none true none once once_subscriptions-IsValid

disconnect-Disconnects_example :
    Disconnects same c1 7 once twice (disconnect same c1 (some 7) once twice)
disconnect-Disconnects_example = disconnect-Disconnects same c1 7 once twice

abbrev gone : Bus memory
gone = take_out c1 twice

second_there : lookup c1 twice.clients ≡ some 1
unfolding register lookup sse_eventbus_go.Prelude.insert str_eq
second_there = refl

to_gone : Reach twice gone
to_gone = step here (takes_out c1 none none 1 second_there refl refl)

made : 0 < twice.next_object
unfolding register lookup sse_eventbus_go.Prelude.insert str_eq
made = omega arith

replaced_there : lookup c1 twice.clients ≢ some 0
unfolding register lookup sse_eventbus_go.Prelude.insert
replaced_there e = ground arith

is_current_event-stale_example : is_current_event c1 0 (codes "1") 0 gone ≡ false
is_current_event-stale_example =
    is_current_event-stale c1 0 (codes "1") 0 to_gone made replaced_there

second_made : 1 < twice.next_object
unfolding register lookup sse_eventbus_go.Prelude.insert str_eq
second_made = omega arith

second_active : (twice.objects 1).inactive ≡ false
unfolding register lookup sse_eventbus_go.Prelude.insert str_eq
second_active = refl

second_not_taken : is_taken to_twice 1 ≡ false
unfolding is_taken taken_by
second_not_taken = refl

active_is_current_example :
    (is_taken to_twice 1 ≡ true)
    ⊎ ((id : Str) × ((id' : Str) → is_target (lookup id' twice.clients) 1 ≡ str_eq id' id))
active_is_current_example =
    active_is_current new_memory_subscription_registry none twice 1 to_twice second_made
      second_active
