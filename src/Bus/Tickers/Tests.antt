-- ===== src/Bus/Tickers/Tests.antt =====
-- A tick of expirationLoop with one client that was last seen too long ago.
use sse_eventbus_go.Prelude.{
  ℕ, Bool, true, false, ◌==◌, List, [], ◌∷◌, Option, none, some, ◌≡◌, refl, if◌then◌else◌, Str,
  codes, lookup,
}
use sse_eventbus_go.Errors.{Fallible}
use sse_eventbus_go.Registry.{new_memory_subscription_registry}
use sse_eventbus_go.Registry.Interface.{memory}
use sse_eventbus_go.Bus.State.{Bus}
use sse_eventbus_go.Bus.Clients.{register}
use sse_eventbus_go.Bus.Clients.Steps.{new_bus}
use sse_eventbus_go.Bus.Tickers.{expire, beat_all, clean_up}
use sse_eventbus_go.Bus.Tickers.Expiration.{is_stale, lookup-expire}

abbrev c1 : Str
c1 = codes "c1"

abbrev same : ℕ → ℕ → Bool
same left right = left == right

abbrev once : Bus memory
once =
    (register same [] c1 (some 7) none none 5 false
      (new_bus memory new_memory_subscription_registry none)).1

abbrev close_err : Str → Fallible
close_err id = none

removed_late : (expire close_err 9 once).0 ≡ c1 ∷ []
unfolding expire register sse_eventbus_go.Prelude.insert lookup sse_eventbus_go.Prelude.str_eq
removed_late = refl

kept_in_time : (expire close_err 5 once).0 ≡ []
unfolding expire register sse_eventbus_go.Prelude.insert lookup
kept_in_time = refl

seen_again : ((beat_all (λ o. none) 20 once.clients once).objects 0).last_transfer ≡ 20
unfolding beat_all register sse_eventbus_go.Prelude.insert lookup
seen_again = refl

nothing_to_purge : (clean_up 9 once).replay_store ≡ none
unfolding clean_up register lookup
nothing_to_purge = refl

lookup-expire_example :
    lookup c1 (expire close_err 9 once).1.clients
    ≡ (if is_stale 9 once (lookup c1 once.clients) then none else lookup c1 once.clients)
lookup-expire_example = lookup-expire close_err 9 once c1
