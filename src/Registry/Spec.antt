-- ===== src/Registry/Spec.antt =====
-- The registry against its contract: a set of pairs of a client and an event, as a test.
use mathlib.Core.Bool.{not}
use sse_eventbus_go.Prelude.{
  Bool, false, ◌&&◌, ◌||◌, List, [], ◌∷◌, ◌≡◌, refl, ◌∙◌, ap, Str, str_eq, has, lookup,
}
use sse_eventbus_go.Registry.{
  Subs, IsValid, new_memory_subscription_registry, subscribe, unsubscribe, unsubscribe_all,
  is_subscribed,
}
use sse_eventbus_go.Registry.Laws.{
  is_subscribed-subscribe, is_subscribed-unsubscribe, is_subscribed-unsubscribe_all, new-IsValid,
  subscribe-IsValid, unsubscribe-IsValid, unsubscribe_all-IsValid,
}

-- The calls that change a registry.
pub data Call : Type 0 where
  subscribes unsubscribes : Str → Str → Call
  unsubscribes_all : Str → Call

unfoldable pub run : List Call → Subs → Subs
run [] r = r
run (subscribes c e ∷ calls) r = run calls (subscribe c e r)
run (unsubscribes c e ∷ calls) r = run calls (unsubscribe c e r)
run (unsubscribes_all c ∷ calls) r = run calls (unsubscribe_all c r)

-- The contract: whether client `d` has event `f` after the calls, from whether it had it before.
pub subscribed_after : List Call → Str → Str → Bool → Bool
subscribed_after [] d f before = before
subscribed_after (subscribes c e ∷ calls) d f before =
    subscribed_after calls d f ((str_eq d c && str_eq e f) || before)
subscribed_after (unsubscribes c e ∷ calls) d f before =
    subscribed_after calls d f (not (str_eq c d && str_eq e f) && before)
subscribed_after (unsubscribes_all c ∷ calls) d f before =
    subscribed_after calls d f (not (str_eq c d) && before)

pub run-IsValid : (calls : List Call) (r : Subs) → IsValid r → IsValid (run calls r)
unfolding run
run-IsValid [] r v = v
run-IsValid (subscribes c e ∷ calls) r v = run-IsValid calls _ (subscribe-IsValid c e r v)
run-IsValid (unsubscribes c e ∷ calls) r v = run-IsValid calls _ (unsubscribe-IsValid c e r v)
run-IsValid (unsubscribes_all c ∷ calls) r v = run-IsValid calls _ (unsubscribe_all-IsValid c r v)

is_subscribed-run :
    (calls : List Call) (d f : Str) (r : Subs)
    → IsValid r
    → is_subscribed d f (run calls r) ≡ subscribed_after calls d f (is_subscribed d f r)
unfolding run subscribed_after
is_subscribed-run [] d f r v = refl
is_subscribed-run (subscribes c e ∷ calls) d f r v =
    is_subscribed-run calls d f _ (subscribe-IsValid c e r v)
    ∙ ap (subscribed_after calls d f) (is_subscribed-subscribe c e d f r)
is_subscribed-run (unsubscribes c e ∷ calls) d f r v =
    is_subscribed-run calls d f _ (unsubscribe-IsValid c e r v)
    ∙ ap (subscribed_after calls d f) (is_subscribed-unsubscribe c e d f r)
is_subscribed-run (unsubscribes_all c ∷ calls) d f r v =
    is_subscribed-run calls d f _ (unsubscribe_all-IsValid c r v)
    ∙ ap (subscribed_after calls d f) (is_subscribed-unsubscribe_all c d f r v)

-- After any calls on a new registry, a client has an event exactly when the calls leave it with
-- that event, taken one by one as insertions into and removals from a set of pairs.
pub run_refines :
    (calls : List Call) (d f : Str)
    → is_subscribed d f (run calls new_memory_subscription_registry)
      ≡ subscribed_after calls d f false
unfolding is_subscribed has lookup
run_refines calls d f = is_subscribed-run calls d f [] new-IsValid
