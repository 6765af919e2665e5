-- ===== src/Bus/Subscriptions.antt =====
-- bus.go: Subscribe, SubscribeOnly, Unsubscribe and UnsubscribeFromAll, over any registry.
mod Tests
use mathlib.Core.Bool.{not}
use sse_eventbus_go.Prelude.{
  Bool, true, false, ◌&&◌, ◌||◌, List, [], ◌∷◌, ◌≡◌, refl, ◌≢◌, arith, if◌then◌else◌, Str, str_eq,
  str_eq_iff, has, is_empty, Bool-cases, inl, inr, codes,
}
use sse_eventbus_go.Event.{default_event}
use sse_eventbus_go.Registry.Interface.{SubscriptionRegistry}

module _ (reg : SubscriptionRegistry) where
  open reg use {
    State, IsValid, is_subscribed, all_events, is_subscribed-subscribe, is_subscribed-unsubscribe,
    is_subscribed-unsubscribe_all, all_events_complete, subscribe-IsValid, unsubscribe-IsValid,
    unsubscribe_all-IsValid,
  }

  -- The loop of Subscribe, which skips the empty name.
  pub subscribe_each : Str → List Str → State → State
  unfolding is_empty
  subscribe_each client_id [] r = r
  subscribe_each client_id (event ∷ events) r =
      subscribe_each client_id events
        (if is_empty event then r else reg.subscribe client_id event r)

  unfoldable pub subscribe : Str → List Str → State → State
  unfolding subscribe_each is_empty
  subscribe client_id events r =
      subscribe_each client_id (if is_empty events then default_event ∷ [] else events) r

  -- The loop of UnsubscribeFromAll; `has event keep` is the test of its set `keep`.
  pub unsubscribe_each : Str → List Str → List Str → State → State
  unfolding has
  unsubscribe_each client_id keep [] r = r
  unsubscribe_each client_id keep (event ∷ events) r =
      unsubscribe_each client_id keep events
        (if has event keep then r else reg.unsubscribe client_id event r)

  unfoldable pub unsubscribe_from_all : Str → List Str → State → State
  unfolding unsubscribe_each is_empty
  unsubscribe_from_all client_id keep r =
      if is_empty keep
      then reg.unsubscribe_all client_id r
      else unsubscribe_each client_id keep (all_events r) r

  pub subscribe_only : Str → Str → State → State
  unfolding subscribe unsubscribe_from_all
  subscribe_only client_id event r =
      subscribe client_id (event ∷ []) (unsubscribe_from_all client_id (event ∷ []) r)

  pub is_subscribed-subscribe_each :
      (c : Str) (events : List Str) (d f : Str) (r : State)
      → is_subscribed d f (subscribe_each c events r)
        ≡ (str_eq d c && has f events && not (is_empty f)) || is_subscribed d f r
  unfolding subscribe_each has
  is_subscribed-subscribe_each c [] d f r = ground arith
  is_subscribed-subscribe_each c (e ∷ events) d f r = ground (
    arith,
    is_subscribed-subscribe_each c events d f (if is_empty e then r else reg.subscribe c e r),
    is_subscribed-subscribe c e d f r,
    str_eq_iff e f,
    str_eq_iff f e,
  )

  pub is_subscribed-unsubscribe_each :
      (c : Str) (keep events : List Str) (d f : Str) (r : State)
      → is_subscribed d f (unsubscribe_each c keep events r)
        ≡ not (str_eq c d && has f events && not (has f keep)) && is_subscribed d f r
  unfolding unsubscribe_each has
  is_subscribed-unsubscribe_each c keep [] d f r = ground arith
  is_subscribed-unsubscribe_each c keep (e ∷ events) d f r = ground (
    arith,
    is_subscribed-unsubscribe_each c keep events d f
        (if has e keep then r else reg.unsubscribe c e r),
    is_subscribed-unsubscribe c e d f r,
    str_eq_iff e f,
    str_eq_iff f e,
  )

  -- UnsubscribeFromAll takes from the client every event but those to keep, and touches no other
  -- client.
  pub is_subscribed-unsubscribe_from_all :
      (c : Str) (keep : List Str) (d f : Str) (r : State)
      → IsValid r
      → is_subscribed d f (unsubscribe_from_all c keep r)
        ≡ not (str_eq c d && not (has f keep)) && is_subscribed d f r
  unfolding unsubscribe_from_all
  is_subscribed-unsubscribe_from_all c [] d f r v =
      unfold has is_empty in ground (arith, is_subscribed-unsubscribe_all c d f r v)
  is_subscribed-unsubscribe_from_all c (k ∷ keep) d f r v =
      unfold is_empty in
      ground (
        arith,
        is_subscribed-unsubscribe_each c (k ∷ keep) (all_events r) d f r,
        all_events_complete d f r,
      )

  -- SubscribeOnly leaves the client with the one named event, and touches no other client. The empty
  -- name is not added, but it stays if the client had it.
  pub is_subscribed-subscribe_only :
      (c e d f : Str) (r : State)
      → IsValid r
      → is_subscribed d f (subscribe_only c e r) ≡ (
          if str_eq c d
          then str_eq f e && (not (is_empty f) || is_subscribed d f r)
          else is_subscribed d f r)
  unfolding subscribe_only subscribe is_empty has
  is_subscribed-subscribe_only c e d f r v = ground (
    arith,
    is_subscribed-subscribe_each c (e ∷ []) d f (unsubscribe_from_all c (e ∷ []) r),
    is_subscribed-unsubscribe_from_all c (e ∷ []) d f r v,
    str_eq_iff c d,
    str_eq_iff d c,
    str_eq_iff f e,
  )

  pub subscribe_each-IsValid :
      (c : Str) (events : List Str) (r : State) → IsValid r → IsValid (subscribe_each c events r)
  unfolding subscribe_each
  subscribe_each-IsValid c [] r v = v
  subscribe_each-IsValid c (e ∷ events) r v = subscribe_each-IsValid c events _ (step (is_empty e))
    where
      step : (skip : Bool) → IsValid (if skip then r else reg.subscribe c e r)
      step true = v
      step false = subscribe-IsValid c e r v

  unsubscribe_each-IsValid :
      (c : Str) (keep events : List Str) (r : State)
      → IsValid r
      → IsValid (unsubscribe_each c keep events r)
  unfolding unsubscribe_each
  unsubscribe_each-IsValid c keep [] r v = v
  unsubscribe_each-IsValid c keep (e ∷ events) r v =
      unsubscribe_each-IsValid c keep events _ (step (has e keep))
    where
      step : (skip : Bool) → IsValid (if skip then r else reg.unsubscribe c e r)
      step true = v
      step false = unsubscribe-IsValid c e r v

  pub unsubscribe_from_all-IsValid :
      (c : Str) (keep : List Str) (r : State) → IsValid r → IsValid (unsubscribe_from_all c keep r)
  unfolding unsubscribe_from_all
  unsubscribe_from_all-IsValid c keep r v = by_cases (is_empty keep)
    where
      by_cases :
          (all : Bool)
          → IsValid
              (if all then reg.unsubscribe_all c r else unsubscribe_each c keep (all_events r) r)
      by_cases true = unsubscribe_all-IsValid c r v
      by_cases false = unsubscribe_each-IsValid c keep (all_events r) r v
