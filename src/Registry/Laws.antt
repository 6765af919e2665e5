-- ===== src/Registry/Laws.antt =====
-- What each registry operation does to every subscription, and the invariant that all of them keep:
-- one entry for each event, and no empty entry.
use mathlib.Core.Bool.{not}
use sse_eventbus_go.Prelude.{
  true, false, ◌&&◌, ◌||◌, List, [], ◌∷◌, ◌≡◌, refl, sym, arith, inl, inr, Bool-cases, Option-cases,
  if◌then◌else◌, length, ltb, Str, str_eq, str_eq_iff, has, add, remove, is_empty, Distinct,
  has-add, has-remove, Distinct-add, Distinct-remove, is_empty-has, is_empty-add, lookup, keys,
  lookup-insert, lookup-delete, has-keys, Distinct-insert, Distinct-delete, AllValues,
  AllValues-lookup, AllValues-insert, AllValues-delete,
}
use sse_eventbus_go.Registry.{
  Subs, new_memory_subscription_registry, or_nil, subscribe, put_or_delete, unsubscribe,
  unsubscribe_all, is_subscribed, all_events, subscribers, count_subscribers, has_subscribers,
  IsClientSet, IsValid,
}

-- Subscribe adds exactly one subscription.
pub is_subscribed-subscribe :
    (c e d f : Str) (r : Subs)
    → is_subscribed d f (subscribe c e r) ≡ (str_eq d c && str_eq e f) || is_subscribed d f r
unfolding is_subscribed subscribe
is_subscribed-subscribe c e d f r = ground (
  arith,
  lookup-insert e f (add c (or_nil (lookup e r))) r,
  has-add d c (or_nil (lookup e r)),
  str_eq_iff e f,
)

is_subscribed-put_or_delete :
    (e d f : Str) (clients : List Str) (r : Subs)
    → is_subscribed d f (put_or_delete e clients r)
      ≡ (if str_eq e f then has d clients else is_subscribed d f r)
unfolding is_subscribed put_or_delete has
is_subscribed-put_or_delete e d f clients r =
    ground (arith, lookup-insert e f clients r, lookup-delete e f r, is_empty-has d clients)

-- Unsubscribe removes exactly one subscription.
pub is_subscribed-unsubscribe :
    (c e d f : Str) (r : Subs)
    → is_subscribed d f (unsubscribe c e r) ≡ not (str_eq c d && str_eq e f) && is_subscribed d f r
unfolding unsubscribe is_subscribed
is_subscribed-unsubscribe c e d f r = ground (
  arith,
  is_subscribed-put_or_delete e d f (remove c (or_nil (lookup e r))) r,
  has-remove d c (or_nil (lookup e r)),
  str_eq_iff e f,
)

-- The set of an event, after `unsubscribe_all`.
lookup-unsubscribe_all :
    (c d f : Str) (r : Subs)
    → Distinct (keys r)
    → has d (or_nil (lookup f (unsubscribe_all c r)))
      ≡ not (str_eq c d) && has d (or_nil (lookup f r))
unfolding unsubscribe_all lookup has keys
lookup-unsubscribe_all c d f [] v = ground arith
lookup-unsubscribe_all c d f ((e, clients) ∷ r) v = ground (
  arith,
  lookup-unsubscribe_all c d f r v.1,
  has-remove d c clients,
  is_empty-has d (remove c clients),
  has-keys f r,
  str_eq_iff e f,
)

-- UnsubscribeAll removes exactly the subscriptions of one client.
pub is_subscribed-unsubscribe_all :
    (c d f : Str) (r : Subs)
    → IsValid r
    → is_subscribed d f (unsubscribe_all c r) ≡ not (str_eq c d) && is_subscribed d f r
unfolding is_subscribed
is_subscribed-unsubscribe_all c d f r v = lookup-unsubscribe_all c d f r v.distinct

or_nil-Distinct : (e : Str) (r : Subs) → IsValid r → Distinct (or_nil (lookup e r))
or_nil-Distinct e r v = elim (Option-cases (lookup e r)) [
  | inl missing ↦ rw missing tt
  | inr (clients, found) ↦ rw found (AllValues-lookup IsClientSet e clients r v.sets found).0
]

-- `subscribers` lists each client once.
pub subscribers-Distinct : (e : Str) (r : Subs) → IsValid r → Distinct (subscribers e r)
unfolding subscribers
subscribers-Distinct e r v = or_nil-Distinct e r v

pub has-subscribers : (d e : Str) (r : Subs) → has d (subscribers e r) ≡ is_subscribed d e r
unfolding subscribers is_subscribed
has-subscribers d e r = refl

pub length-subscribers : (e : Str) (r : Subs) → length (subscribers e r) ≡ count_subscribers e r
unfolding subscribers count_subscribers
length-subscribers e r = refl

pub subscribe-IsValid : (c e : Str) (r : Subs) → IsValid r → IsValid (subscribe c e r)
unfolding subscribe
subscribe-IsValid c e r v = record {
  distinct = Distinct-insert e _ r v.distinct;
  sets =
      AllValues-insert IsClientSet e _ r
        (Distinct-add c _ (or_nil-Distinct e r v), is_empty-add c (or_nil (lookup e r))) v.sets;
}

put_or_delete-IsValid :
    (e : Str) (clients : List Str) (r : Subs)
    → Distinct clients
    → IsValid r
    → IsValid (put_or_delete e clients r)
unfolding put_or_delete
put_or_delete-IsValid e clients r d v = elim (Bool-cases (is_empty clients)) [
  | inl none_left ↦ rw none_left (record {
    distinct = Distinct-delete e r v.distinct;
    sets = AllValues-delete IsClientSet e r v.sets;
  })
  | inr some_left ↦ rw some_left (record {
    distinct = Distinct-insert e clients r v.distinct;
    sets = AllValues-insert IsClientSet e clients r (d, some_left) v.sets;
  })
]

pub unsubscribe-IsValid : (c e : Str) (r : Subs) → IsValid r → IsValid (unsubscribe c e r)
unfolding unsubscribe
unsubscribe-IsValid c e r v = elim (Option-cases (lookup e r)) [
  | inl missing ↦ rw (missing, unsubscribe) v
  | inr (clients, found) ↦
      rw (found, unsubscribe)
        (put_or_delete-IsValid e (remove c clients) r
          (Distinct-remove c clients (AllValues-lookup IsClientSet e clients r v.sets found).0) v)
]

has-keys-unsubscribe_all :
    (c f : Str) (r : Subs) → has f (keys r) ≡ false → has f (keys (unsubscribe_all c r)) ≡ false
unfolding unsubscribe_all keys has
has-keys-unsubscribe_all c f [] h = refl
has-keys-unsubscribe_all c f ((e, clients) ∷ r) h = ground (arith, has-keys-unsubscribe_all c f r)

unsubscribe_all-Distinct :
    (c : Str) (r : Subs) → Distinct (keys r) → Distinct (keys (unsubscribe_all c r))
unfolding unsubscribe_all keys
unsubscribe_all-Distinct c [] d = tt
unsubscribe_all-Distinct c ((e, clients) ∷ r) d =
    ground (arith, unsubscribe_all-Distinct c r d.1, has-keys-unsubscribe_all c e r)

unsubscribe_all-sets :
    (c : Str) (r : Subs) → AllValues IsClientSet r → AllValues IsClientSet (unsubscribe_all c r)
unfolding unsubscribe_all
unsubscribe_all-sets c [] s = tt
unsubscribe_all-sets c ((e, clients) ∷ r) s =
    ground (arith, unsubscribe_all-sets c r s.1, Distinct-remove c clients s.0.0)

pub unsubscribe_all-IsValid : (c : Str) (r : Subs) → IsValid r → IsValid (unsubscribe_all c r)
unsubscribe_all-IsValid c r v = record {
  distinct = unsubscribe_all-Distinct c r v.distinct;
  sets = unsubscribe_all-sets c r v.sets;
}

pub new-IsValid : IsValid new_memory_subscription_registry
unfolding keys
new-IsValid = record { distinct = tt; sets = tt }

positive_of_nonempty :
    (clients : List Str) → is_empty clients ≡ false → ltb 0 (length clients) ≡ true
unfolding is_empty
positive_of_nonempty [] h = cc
positive_of_nonempty (x ∷ xs) h = ground arith

-- AllEvents lists each event with at least one subscriber, and no other.
pub has-all_events : (e : Str) (r : Subs) → IsValid r → has e (all_events r) ≡ has_subscribers e r
unfolding all_events has_subscribers count_subscribers
has-all_events e r v = elim (Option-cases (lookup e r)) [
  | inl missing ↦ rw (has-keys e r, missing) (ground arith)
  | inr (clients, found) ↦
      rw (has-keys e r, found)
        (sym
          (positive_of_nonempty clients (AllValues-lookup IsClientSet e clients r v.sets found).1))
]

pub all_events_complete :
    (d f : Str) (r : Subs) → is_subscribed d f r ≡ true → has f (all_events r) ≡ true
unfolding all_events is_subscribed has
all_events_complete d f r h = ground (arith, has-keys f r)
