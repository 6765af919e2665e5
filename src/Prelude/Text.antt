-- ===== src/Prelude/Text.antt =====
-- Go strings as lists of bytes, and sets of strings (`map[string]struct{}`) as lists.
use Prim.Native.Char.{code}
use Prim.Native.String.{String}
use Prim.Native.Nat.{ℕ}
use mathlib.Core.Path.{◌≡◌, refl}
use mathlib.Core.Logic.{◌↔◌, ◌≢◌, inl, inr}
use mathlib.Core.Bool.{Bool, true, false, ◌&&◌, ◌||◌, not}
use mathlib.Core.List.{List, [], ◌∷◌, ◌++◌}
use native.Mathlib.Omega.{arith}
use sse_eventbus_go.Prelude.Tests.{◌==◌, if◌then◌else◌, Bool-cases}

abbrev pub Str : Type 0
Str = List ℕ

-- The bytes of an ASCII literal.
abbrev pub codes : String → Str
codes String.[] = []
codes (String.◌∷◌ c s) = code c ∷ codes s

unfoldable pub str_eq : Str → Str → Bool
str_eq [] [] = true
str_eq [] (d ∷ t) = false
str_eq (c ∷ s) [] = false
str_eq (c ∷ s) (d ∷ t) = (c == d) && str_eq s t

pub str_eq_iff : (s t : Str) → (str_eq s t ≡ true) ↔ (s ≡ t)
unfolding str_eq
str_eq_iff [] [] = (λ _. refl, λ _. refl)
str_eq_iff [] (d ∷ t) = ground arith
str_eq_iff (c ∷ s) [] = ground arith
str_eq_iff (c ∷ s) (d ∷ t) = ground (arith, str_eq_iff s t)

pub str_eq_refl : (s : Str) → str_eq s s ≡ true
str_eq_refl s = (str_eq_iff s s).1 refl

pub str_eq_ne : (s t : Str) → s ≢ t → str_eq s t ≡ false
str_eq_ne s t h = ground (arith, str_eq_iff s t)

-- `strings.ContainsAny`, over single-byte characters.
unfoldable pub elem : ℕ → List ℕ → Bool
elem c [] = false
elem c (d ∷ ds) = (c == d) || elem c ds

unfoldable pub contains_any : Str → List ℕ → Bool
contains_any [] bad = false
contains_any (c ∷ s) bad = elem c bad || contains_any s bad

-- `_, ok := set[s]`
unfoldable pub has : Str → List Str → Bool
has s [] = false
has s (t ∷ ts) = str_eq s t || has s ts

-- `set[s] = struct{}{}`
unfoldable pub add : Str → List Str → List Str
unfolding has
add s ts = if has s ts then ts else ts ++ s ∷ []

-- `delete(set, s)`
unfoldable pub remove : Str → List Str → List Str
remove s [] = []
remove s (t ∷ ts) = let rest = remove s ts in if str_eq s t then rest else t ∷ rest

unfoldable pub is_empty {ℓ} : {A : Type ℓ} → List A → Bool
is_empty [] = true
is_empty (x ∷ xs) = false

abbrev pub Distinct : List Str → Type 0
Distinct [] = Unit {0}
Distinct (t ∷ ts) = (has t ts ≡ false) × Distinct ts

pub has-append : (s : Str) (xs ys : List Str) → has s (xs ++ ys) ≡ has s xs || has s ys
unfolding has
has-append s [] ys = refl
has-append s (x ∷ xs) ys = ground (arith, has-append s xs ys)

pub has-add : (s t : Str) (ts : List Str) → has s (add t ts) ≡ str_eq s t || has s ts
unfolding add has
has-add s t ts = ground (arith, has-append s ts (t ∷ []), str_eq_iff s t)

pub has-remove : (s t : Str) (ts : List Str) → has s (remove t ts) ≡ not (str_eq t s) && has s ts
unfolding remove has
has-remove s t [] = ground arith
has-remove s t (u ∷ ts) =
    ground (arith, has-remove s t ts, str_eq_iff s u, str_eq_iff t u, str_eq_iff t s)

Distinct-concat :
    (s : Str) (ts : List Str) → has s ts ≡ false → Distinct ts → Distinct (ts ++ s ∷ [])
unfolding has
Distinct-concat s [] h d = (refl, tt)
Distinct-concat s (t ∷ ts) h d = (
  ground (arith, has-append t ts (s ∷ []), str_eq_iff s t, str_eq_iff t s),
  Distinct-concat s ts (ground arith) d.1,
)

pub Distinct-add : (s : Str) (ts : List Str) → Distinct ts → Distinct (add s ts)
unfolding add
Distinct-add s ts d = elim (Bool-cases (has s ts)) [
  | inl old ↦ rw old d
  | inr new ↦ rw new (Distinct-concat s ts new d)
]

pub Distinct-remove : (s : Str) (ts : List Str) → Distinct ts → Distinct (remove s ts)
unfolding remove
Distinct-remove s [] d = tt
Distinct-remove s (t ∷ ts) d =
    ground (arith, Distinct-remove s ts d.1, has-remove t s ts, str_eq_iff s t)

-- A set with no member is empty.
pub is_empty-has : (s : Str) (ts : List Str) → is_empty ts ≡ true → has s ts ≡ false
unfolding is_empty has
is_empty-has s [] h = refl
is_empty-has s (t ∷ ts) h = cc

pub is_empty-add : (s : Str) (ts : List Str) → is_empty (add s ts) ≡ false
unfolding is_empty add has
is_empty-add s [] = refl
is_empty-add s (t ∷ ts) = ground arith
