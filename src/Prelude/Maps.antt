-- ===== src/Prelude/Maps.antt =====
-- Go maps keyed by strings, as association lists. Go ranges over a map in no fixed order.
use mathlib.Core.Path.{◌≡◌, refl}
use mathlib.Core.Bool.{Bool, true, false, ◌&&◌, ◌||◌, not}
use mathlib.Core.List.{List, [], ◌∷◌}
use mathlib.Core.Option.{Option, none, some}
use native.Mathlib.Omega.{arith}
use sse_eventbus_go.Prelude.Tests.{if◌then◌else◌}
use sse_eventbus_go.Prelude.Text.{Str, str_eq, str_eq_iff, has, Distinct}

abbrev pub Dict {ℓ} : Type ℓ → Type ℓ
Dict V = List (Str × V)

module _ {ℓ} {V : Type ℓ} where
  unfoldable pub lookup : Str → Dict V → Option V
  lookup k [] = none
  lookup k ((j, v) ∷ m) = if str_eq j k then some v else lookup k m

  unfoldable pub insert : Str → V → Dict V → Dict V
  insert k v [] = (k, v) ∷ []
  insert k v ((j, w) ∷ m) = if str_eq j k then (j, v) ∷ m else (j, w) ∷ insert k v m

  unfoldable pub delete : Str → Dict V → Dict V
  delete k [] = []
  delete k ((j, w) ∷ m) = let rest = delete k m in if str_eq j k then rest else (j, w) ∷ rest

  unfoldable pub keys : Dict V → List Str
  keys [] = []
  keys ((j, w) ∷ m) = j ∷ keys m

  abbrev pub is_some : Option V → Bool
  is_some none = false
  is_some (some v) = true

  pub lookup-insert :
      (k j : Str) (v : V) (m : Dict V)
      → lookup j (insert k v m) ≡ (if str_eq k j then some v else lookup j m)
  unfolding lookup insert
  lookup-insert k j v [] = refl
  lookup-insert k j v ((i, w) ∷ m) =
      ground (arith, str_eq_iff k j, str_eq_iff i k, str_eq_iff i j, lookup-insert k j v m)

  pub lookup-delete :
      (k j : Str) (m : Dict V) → lookup j (delete k m) ≡ (if str_eq k j then none else lookup j m)
  unfolding lookup delete
  lookup-delete k j [] = ground arith
  lookup-delete k j ((i, w) ∷ m) =
      ground (arith, str_eq_iff k j, str_eq_iff i k, str_eq_iff i j, lookup-delete k j m)

  -- The keys are the texts that `lookup` finds.
  pub has-keys : (k : Str) (m : Dict V) → has k (keys m) ≡ is_some (lookup k m)
  unfolding has keys lookup
  has-keys k [] = refl
  has-keys k ((j, w) ∷ m) = ground (arith, has-keys k m, str_eq_iff k j, str_eq_iff j k)

  pub has-keys-insert :
      (k j : Str) (v : V) (m : Dict V) → has j (keys (insert k v m)) ≡ str_eq k j || has j (keys m)
  has-keys-insert k j v m =
      ground (arith, has-keys j (insert k v m), has-keys j m, lookup-insert k j v m)

  pub has-keys-delete :
      (k j : Str) (m : Dict V) → has j (keys (delete k m)) ≡ not (str_eq k j) && has j (keys m)
  has-keys-delete k j m = ground (arith, has-keys j (delete k m), has-keys j m, lookup-delete k j m)

  pub Distinct-insert :
      (k : Str) (v : V) (m : Dict V) → Distinct (keys m) → Distinct (keys (insert k v m))
  unfolding keys insert has
  Distinct-insert k v [] d = (refl, tt)
  Distinct-insert k v ((j, w) ∷ m) d =
      ground
        (arith, Distinct-insert k v m d.1, has-keys-insert k j v m, str_eq_iff j k, str_eq_iff k j)

  pub Distinct-delete : (k : Str) (m : Dict V) → Distinct (keys m) → Distinct (keys (delete k m))
  unfolding keys delete
  Distinct-delete k [] d = tt
  Distinct-delete k ((j, w) ∷ m) d = ground (arith, Distinct-delete k m d.1, has-keys-delete k j m)

-- A property of every value of a map.
abbrev pub AllValues {ℓ κ} : {V : Type ℓ} → (V → Type κ) → Dict V → Type κ
AllValues P [] = Unit
AllValues P ((j, v) ∷ m) = P v × AllValues P m

module _ {ℓ κ} {V : Type ℓ} (P : V → Type κ) where
  pub AllValues-lookup : (k : Str) (v : V) (m : Dict V) → AllValues P m → lookup k m ≡ some v → P v
  unfolding lookup
  AllValues-lookup k v [] a e = cc
  AllValues-lookup k v ((j, w) ∷ m) a e = ground (arith, AllValues-lookup k v m a.1)

  pub AllValues-insert :
      (k : Str) (v : V) (m : Dict V) → P v → AllValues P m → AllValues P (insert k v m)
  unfolding insert
  AllValues-insert k v [] p a = (p, tt)
  AllValues-insert k v ((j, w) ∷ m) p a = ground (arith, AllValues-insert k v m p a.1)

  pub AllValues-delete : (k : Str) (m : Dict V) → AllValues P m → AllValues P (delete k m)
  unfolding delete
  AllValues-delete k [] a = tt
  AllValues-delete k ((j, w) ∷ m) a = ground (arith, AllValues-delete k m a.1)
