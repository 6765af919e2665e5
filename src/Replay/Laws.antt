-- ===== src/Replay/Laws.antt =====
-- What the operations of the replay store do to the history of every client.
use sse_eventbus_go.Prelude.{
  ℕ, ◌≤◌, true, false, List, [], ◌∷◌, ◌++◌, map, ◌≡◌, refl, arith, inl, inr, Option-cases,
  Bool-cases, Str, str_eq, str_eq_iff, has, Distinct, is_empty, lookup, keys, lookup-insert,
  lookup-delete, has-keys, Distinct-insert, Distinct-delete, AllValues, AllValues-lookup,
  AllValues-insert, AllValues-delete, ltb, if◌then◌else◌, ap,
}
use sse_eventbus_go.Event.Unique.{normalize_event_idem}
use sse_eventbus_go.Replay.{
  ReplayEvent, Store, or_nil, normalized, store, clear_client, retained, purge_expired,
}

-- The history of a client, oldest first.
unfoldable pub history : Str → Store → List ReplayEvent
history client_id s = or_nil (lookup client_id s)

abbrev pub IsNormal : List ReplayEvent → Type 0
IsNormal [] = Unit {0}
IsNormal (e ∷ events) = (normalized e ≡ e) × IsNormal events

-- One entry for each client, and every retained event is normal.
pub record IsValid (s : Store) : Type 0 where
  pub distinct : Distinct (keys s)
  pub normal : AllValues IsNormal s

-- Store adds the event, normalised, to the end of its client's history, and to no other.
pub history-store :
    (c : Str) (e : ReplayEvent) (s : Store)
    → history c (store e s)
      ≡ (if str_eq e.client_id c then history c s ++ normalized e ∷ [] else history c s)
unfolding history store
history-store c e s = ground (
  arith,
  lookup-insert e.client_id c (or_nil (lookup e.client_id s) ++ normalized e ∷ []) s,
  str_eq_iff e.client_id c,
)

-- ClearClient empties one history.
pub history-clear_client :
    (c d : Str) (s : Store)
    → history d (clear_client c s) ≡ (if str_eq c d then [] else history d s)
unfolding history clear_client
history-clear_client c d s = ground (arith, lookup-delete c d s)

pub nil_of_empty {ℓ} : {A : Type ℓ} (xs : List A) → is_empty xs ≡ true → xs ≡ []
unfolding is_empty
nil_of_empty [] h = refl
nil_of_empty (x ∷ xs) h = cc

lookup-purge_expired :
    (before : ℕ) (c : Str) (s : Store)
    → Distinct (keys s)
    → or_nil (lookup c (purge_expired before s)) ≡ retained before (or_nil (lookup c s))
unfolding purge_expired lookup keys
lookup-purge_expired before c [] d = unfold retained in refl
lookup-purge_expired before c ((id, events) ∷ s) d = ground (
  arith,
  lookup-purge_expired before c s d.1,
  nil_of_empty (retained before events),
  has-keys c s,
  str_eq_iff id c,
  nothing,
)
  where
    nothing : retained before [] ≡ []
    nothing = unfold retained in refl

-- PurgeExpired keeps, in order, what was stored at or after the cutoff.
pub history-purge_expired :
    (before : ℕ) (c : Str) (s : Store)
    → IsValid s
    → history c (purge_expired before s) ≡ retained before (history c s)
unfolding history
history-purge_expired before c s v = lookup-purge_expired before c s v.distinct

-- What `retained` keeps is what is not before the cutoff.
abbrev pub AllFrom : ℕ → List ReplayEvent → Type 0
AllFrom before [] = Unit {0}
AllFrom before (e ∷ events) = (before ≤ e.stored_at) × AllFrom before events

pub retained-AllFrom :
    (before : ℕ) (events : List ReplayEvent) → AllFrom before (retained before events)
unfolding retained
retained-AllFrom before [] = tt
retained-AllFrom before (e ∷ events) = ground (arith, retained-AllFrom before events)

-- Purging again at an earlier time changes nothing.
pub retained_absorbs :
    (early late : ℕ) (events : List ReplayEvent)
    → early ≤ late
    → retained early (retained late events) ≡ retained late events
unfolding retained
retained_absorbs early late [] h = refl
retained_absorbs early late (e ∷ events) h = ground (arith, retained_absorbs early late events h)

normalized_idem : (e : ReplayEvent) → normalized (normalized e) ≡ normalized e
normalized_idem e = ap (λ n. record e { event = n }) (normalize_event_idem e.event)

IsNormal-concat :
    (events : List ReplayEvent) (e : ReplayEvent)
    → IsNormal events
    → IsNormal (events ++ normalized e ∷ [])
IsNormal-concat [] e n = (normalized_idem e, tt)
IsNormal-concat (x ∷ events) e n = (n.0, IsNormal-concat events e n.1)

pub history-IsNormal : (c : Str) (s : Store) → IsValid s → IsNormal (history c s)
unfolding history
history-IsNormal c s v = elim (Option-cases (lookup c s)) [
  | inl missing ↦ rw missing tt
  | inr (events, found) ↦ rw found (AllValues-lookup IsNormal c events s v.normal found)
]

-- The history holds normal events only, so that EventsSince need not change them.
pub map-normalized : (events : List ReplayEvent) → IsNormal events → map normalized events ≡ events
map-normalized [] n = refl
map-normalized (e ∷ events) n = λ i. (n.0) i ∷ (map-normalized events n.1) i

retained-IsNormal :
    (before : ℕ) (events : List ReplayEvent) → IsNormal events → IsNormal (retained before events)
unfolding retained
retained-IsNormal before [] n = tt
retained-IsNormal before (e ∷ events) n = elim (Bool-cases (ltb e.stored_at before)) [
  | inl old ↦ rw old (retained-IsNormal before events n.1)
  | inr new ↦ rw new (n.0, retained-IsNormal before events n.1)
]

pub store-IsValid : (e : ReplayEvent) (s : Store) → IsValid s → IsValid (store e s)
unfolding store
store-IsValid e s v = record {
  distinct = Distinct-insert e.client_id _ s v.distinct;
  normal = AllValues-insert IsNormal e.client_id _ s (IsNormal-concat _ e old) v.normal;
}
  where
    old : IsNormal (or_nil (lookup e.client_id s))
    old = unfold history in history-IsNormal e.client_id s v

pub clear_client-IsValid : (c : Str) (s : Store) → IsValid s → IsValid (clear_client c s)
unfolding clear_client
clear_client-IsValid c s v = record {
  distinct = Distinct-delete c s v.distinct;
  normal = AllValues-delete IsNormal c s v.normal;
}

has-keys-purge_expired :
    (before : ℕ) (c : Str) (s : Store)
    → has c (keys s) ≡ false
    → has c (keys (purge_expired before s)) ≡ false
unfolding purge_expired keys has
has-keys-purge_expired before c [] h = refl
has-keys-purge_expired before c ((id, events) ∷ s) h =
    ground (arith, has-keys-purge_expired before c s)

purge_expired-Distinct :
    (before : ℕ) (s : Store) → Distinct (keys s) → Distinct (keys (purge_expired before s))
unfolding purge_expired keys
purge_expired-Distinct before [] d = tt
purge_expired-Distinct before ((id, events) ∷ s) d =
    ground (arith, purge_expired-Distinct before s d.1, has-keys-purge_expired before id s)

purge_expired-IsNormal :
    (before : ℕ) (s : Store) → AllValues IsNormal s → AllValues IsNormal (purge_expired before s)
unfolding purge_expired
purge_expired-IsNormal before [] n = tt
purge_expired-IsNormal before ((id, events) ∷ s) n =
    elim (Bool-cases (is_empty (retained before events))) [
      | inl none_left ↦ rw none_left (purge_expired-IsNormal before s n.1)
      | inr some_left ↦
          rw some_left (retained-IsNormal before events n.0, purge_expired-IsNormal before s n.1)
    ]

pub purge_expired-IsValid : (before : ℕ) (s : Store) → IsValid s → IsValid (purge_expired before s)
purge_expired-IsValid before s v = record {
  distinct = purge_expired-Distinct before s v.distinct;
  normal = purge_expired-IsNormal before s v.normal;
}
