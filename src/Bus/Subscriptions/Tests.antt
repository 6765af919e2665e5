-- ===== src/Bus/Subscriptions/Tests.antt =====
-- The subscription methods of the bus over the in-memory registry.
use sse_eventbus_go.Prelude.{
  false, ◌&&◌, ◌||◌, [], ◌∷◌, ◌≡◌, refl, codes, str_eq, has, is_empty, if◌then◌else◌,
}
use sse_eventbus_go.Registry
use sse_eventbus_go.Registry.{Subs, IsValid, is_subscribed, subscribe}
use sse_eventbus_go.Registry.Laws.{new-IsValid, subscribe-IsValid}
use sse_eventbus_go.Registry.Interface.{memory}
use sse_eventbus_go.Bus.Subscriptions.{subscribe_only}

abbrev before : Subs
before = subscribe (codes "c1") (codes "news") []

before-IsValid : IsValid before
before-IsValid = subscribe-IsValid (codes "c1") (codes "news") [] new-IsValid

only_orders :
    is_subscribed
      (codes "c1")
      (codes "news")
      (subscribe_only memory (codes "c1") (codes "orders") before)
    ≡ false
unfolding subscribe_only is_subscribed subscribe str_eq Registry.all_events Registry.unsubscribe
    Registry.put_or_delete sse_eventbus_go.Prelude.add
only_orders = refl
