-- ===== src/Retry/Array.antt =====
-- The slice of the retry heap as an array with a default.
use mathlib.Core.List.{append-nil, perm_middle}
use mathlib.Core.List.Perm
use sse_eventbus_go.Prelude.{
  ℕ, zero, suc, ◌<◌, ◌≡◌, refl, ap, List, [], ◌∷◌, ◌++◌, some, arith, ◌==◌, if◌then◌else◌, length,
  get_elem?, get_or, set, take, length-set, Perm,
}
use sse_eventbus_go.Retry.{RetryEvent, swap, less, before}

abbrev nil_event : RetryEvent
nil_event = record { event = 0; retry_after = 0; retry_order = 0 }

abbrev pub at : List RetryEvent → ℕ → RetryEvent
at h i = get_or h i nil_event

pub get_elem?-at : (h : List RetryEvent) (i : ℕ) → i < length h → get_elem? h i ≡ some (at h i)
get_elem?-at [] i p = absurd (omega arith)
get_elem?-at (x ∷ h) zero p = refl
get_elem?-at (x ∷ h) (suc i) p = get_elem?-at h i (omega arith)

pub at-set :
    (h : List RetryEvent) (i j : ℕ) (v : RetryEvent)
    → i < length h
    → at (set h i v) j ≡ (if i == j then v else at h j)
at-set [] i j v p = absurd (omega arith)
at-set (x ∷ h) zero zero v p = refl
at-set (x ∷ h) zero (suc j) v p = ground arith
at-set (x ∷ h) (suc i) zero v p = ground arith
at-set (x ∷ h) (suc i) (suc j) v p = ground (arith, at-set h i j v)

pub at-append : (h k : List RetryEvent) (i : ℕ) → i < length h → at (h ++ k) i ≡ at h i
at-append [] k i p = absurd (omega arith)
at-append (x ∷ h) k zero p = refl
at-append (x ∷ h) k (suc i) p = at-append h k i (omega arith)

pub at-append_last : (h : List RetryEvent) (x : RetryEvent) → at (h ++ x ∷ []) (length h) ≡ x
at-append_last [] x = refl
at-append_last (y ∷ h) x = at-append_last h x

pub at-take : (n : ℕ) (h : List RetryEvent) (i : ℕ) → i < n → at (take n h) i ≡ at h i
at-take zero h i p = absurd (omega arith)
at-take (suc n) [] i p = refl
at-take (suc n) (x ∷ h) zero p = refl
at-take (suc n) (x ∷ h) (suc i) p = at-take n h i (omega arith)

pub take-append-at : (n : ℕ) (h : List RetryEvent) → length h ≡ suc n → take n h ++ at h n ∷ [] ≡ h
take-append-at n [] e = absurd (omega arith)
take-append-at zero (x ∷ []) e = refl
take-append-at zero (x ∷ y ∷ h) e = absurd (omega arith)
take-append-at (suc n) (x ∷ h) e = ap (◌∷◌ x) (take-append-at n h (omega arith))

pub concat-perm : (h : List RetryEvent) (x : RetryEvent) → Perm (h ++ x ∷ []) (x ∷ h)
concat-perm h x = rw (append-nil h) at (perm_middle {a = x} h [])

set-perm :
    (h : List RetryEvent) (i : ℕ) (v : RetryEvent)
    → i < length h
    → Perm (at h i ∷ set h i v) (v ∷ h)
set-perm [] i v p = absurd (omega arith)
set-perm (x ∷ h) zero v p = Perm.swap v x h
set-perm (x ∷ h) (suc i) v p =
    Perm.trans (Perm.swap x _ _)
      (Perm.trans (Perm.cons x (set-perm h i v (omega arith))) (Perm.swap v x h))

-- The slice after Swap.
abbrev pub swapped : List RetryEvent → ℕ → ℕ → List RetryEvent
swapped h i j = set (set h i (at h j)) j (at h i)

pub length-swapped : (h : List RetryEvent) (i j : ℕ) → length (swapped h i j) ≡ length h
length-swapped h i j = simp length-set

module _ (h : List RetryEvent) (i j : ℕ) (hi : i < length h) (hj : j < length h) where
  pub swap-eq-swapped : swap h i j ≡ some (swapped h i j)
  unfolding swap
  swap-eq-swapped = rw (get_elem?-at h j hj, get_elem?-at h i hi)

  pub less-eq-before : less h i j ≡ some (before (at h i) (at h j))
  unfolding less
  less-eq-before = rw (get_elem?-at h i hi, get_elem?-at h j hj)

  pub at-swapped :
      (c : ℕ)
      → at (swapped h i j) c ≡ (if j == c then at h i else if i == c then at h j else at h c)
  at-swapped c =
      rw (at-set (set h i (at h j)) j c (at h i) (rw length-set hj), at-set h i c (at h j) hi)

  pub swapped-perm : Perm (swapped h i j) h
  swapped-perm =
      let b = set h i (at h j) in
      let kept : at b j ≡ at h j = ground (arith, at-set h i j (at h j)) in
      let second = rw kept at (set-perm b j (at h i) (rw length-set hj)) in
      Perm.cons_inv (Perm.trans second (set-perm h i (at h j) hi))
