-- ===== src/Registry/Interface.antt =====
-- The SubscriptionRegistry interface of subscription.go with the laws that the bus relies on, and
-- the in-memory registry as an implementation of it.
use mathlib.Core.Bool.{not}
use sse_eventbus_go.Prelude.{
  ℕ, Bool, true, ◌&&◌, ◌||◌, List, ◌≡◌, Str, Dict, str_eq, has, Distinct, length,
}
use sse_eventbus_go.Registry
use sse_eventbus_go.Registry.Laws

-- `IsValid` is what an implementation keeps true of its own storage.
pub record SubscriptionRegistry : Type 1 where
  pub State : Type 0
  pub IsValid : State → Type 0
  pub subscribe : Str → Str → State → State
  pub unsubscribe : Str → Str → State → State
  pub unsubscribe_all : Str → State → State
  pub is_subscribed : Str → Str → State → Bool
  pub all_events : State → List Str
  pub all_subscriptions : State → Dict (List Str)
  pub subscribers : Str → State → List Str
  pub count_subscribers : Str → State → ℕ
  pub has_subscribers : Str → State → Bool
  pub subscribe-IsValid : (c e : Str) (r : State) → IsValid r → IsValid (subscribe c e r)
  pub unsubscribe-IsValid : (c e : Str) (r : State) → IsValid r → IsValid (unsubscribe c e r)
  pub unsubscribe_all-IsValid : (c : Str) (r : State) → IsValid r → IsValid (unsubscribe_all c r)
  pub is_subscribed-subscribe :
      (c e d f : Str) (r : State)
      → is_subscribed d f (subscribe c e r) ≡ (str_eq d c && str_eq e f) || is_subscribed d f r
  pub is_subscribed-unsubscribe :
      (c e d f : Str) (r : State)
      → is_subscribed d f (unsubscribe c e r)
        ≡ not (str_eq c d && str_eq e f) && is_subscribed d f r
  pub is_subscribed-unsubscribe_all :
      (c d f : Str) (r : State)
      → IsValid r
      → is_subscribed d f (unsubscribe_all c r) ≡ not (str_eq c d) && is_subscribed d f r
  pub all_events_complete :
      (d f : Str) (r : State) → is_subscribed d f r ≡ true → has f (all_events r) ≡ true
  pub has-subscribers : (d f : Str) (r : State) → has d (subscribers f r) ≡ is_subscribed d f r
  pub subscribers-Distinct : (f : Str) (r : State) → IsValid r → Distinct (subscribers f r)
  pub length-subscribers : (f : Str) (r : State) → length (subscribers f r) ≡ count_subscribers f r

abbrev pub memory : SubscriptionRegistry
memory = record {
  State = Registry.Subs;
  IsValid = Registry.IsValid;
  subscribe = Registry.subscribe;
  unsubscribe = Registry.unsubscribe;
  unsubscribe_all = Registry.unsubscribe_all;
  is_subscribed = Registry.is_subscribed;
  all_events = Registry.all_events;
  all_subscriptions = Registry.all_subscriptions;
  subscribers = Registry.subscribers;
  count_subscribers = Registry.count_subscribers;
  has_subscribers = Registry.has_subscribers;
  subscribe-IsValid = Laws.subscribe-IsValid;
  unsubscribe-IsValid = Laws.unsubscribe-IsValid;
  unsubscribe_all-IsValid = Laws.unsubscribe_all-IsValid;
  is_subscribed-subscribe = Laws.is_subscribed-subscribe;
  is_subscribed-unsubscribe = Laws.is_subscribed-unsubscribe;
  is_subscribed-unsubscribe_all = Laws.is_subscribed-unsubscribe_all;
  all_events_complete = Laws.all_events_complete;
  has-subscribers = Laws.has-subscribers;
  subscribers-Distinct = Laws.subscribers-Distinct;
  length-subscribers = Laws.length-subscribers;
}
