-- ===== src/Registry/Tests.antt =====
-- subscription.go on small inputs.
use sse_eventbus_go.Prelude.{false, List, [], ◌∷◌, ◌≡◌, refl, codes, str_eq, has, Distinct}
use sse_eventbus_go.Registry.{
  Subs, subscribe, unsubscribe, is_subscribed, all_events, has_subscribers, subscribers, IsValid,
  new_memory_subscription_registry,
}
use sse_eventbus_go.Registry
use sse_eventbus_go.Registry.Laws.{new-IsValid}
use sse_eventbus_go.Registry.Spec.{
  Call, subscribes, unsubscribes_all, run, subscribed_after, run_refines, run-IsValid,
}

abbrev calls : List Call
calls =
    subscribes (codes "c1") (codes "news")
    ∷ subscribes (codes "c2") (codes "news")
    ∷ subscribes (codes "c1") (codes "orders")
    ∷ unsubscribes_all (codes "c1")
    ∷ []

left : run calls [] ≡ (codes "news", codes "c2" ∷ []) ∷ []
unfolding run subscribe unsubscribe Registry.unsubscribe_all str_eq sse_eventbus_go.Prelude.add
left = refl

run_refines_example :
    is_subscribed (codes "c2") (codes "news") (run calls new_memory_subscription_registry)
    ≡ subscribed_after calls (codes "c2") (codes "news") false
run_refines_example = run_refines calls (codes "c2") (codes "news")

calls-IsValid : IsValid (run calls [])
calls-IsValid = run-IsValid calls [] new-IsValid
