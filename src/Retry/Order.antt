-- ===== src/Retry/Order.antt =====
-- The order of the retry heap, and the rule for calls that do not panic.
use mathlib.Core.List.Perm
use sse_eventbus_go.Prelude.{
  ℕ, zero, suc, ◌+◌, ◌*◌, ◌≤◌, ◌<◌, ◌≡◌, refl, ◌∙◌, Bool, true, false, List, Option, some, Perm,
  arith, ltb, if◌then◌else◌, length,
}
use sse_eventbus_go.Retry.{RetryEvent, before, parent, less, ◌>>=◌}
use sse_eventbus_go.Retry.Array.{
  at, swapped, at-swapped, swapped-perm, length-swapped, less-eq-before,
}

-- A call that neither panics nor runs out of fuel, and whose value has the property.
pub data Gives {ℓ κ} {A : Type ℓ} (Good : A → Type κ) : Option A → Type (ℓ ⊔ κ) where
  gives : {value : A} → Good value → Gives Good (some value)

pub Gives-if {ℓ κ} :
    {A : Type ℓ} {Good : A → Type κ} {first second : Option A} (test : Bool)
    → (test ≡ true → Gives Good first)
    → (test ≡ false → Gives Good second)
    → Gives Good (if test then first else second)
Gives-if true first_ok second_ok = first_ok refl
Gives-if false first_ok second_ok = second_ok refl

pub Gives-map {ℓ κ ι} :
    {A : Type ℓ} {Good : A → Type κ} {Better : A → Type ι} {call : Option A}
    → Gives Good call
    → ((value : A) → Good value → Better value)
    → Gives Better call
Gives-map (gives ok) improve = gives (improve _ ok)

-- The rule for a call whose value the next call takes.
pub Gives-bind {ℓ κ ι μ} :
    {A : Type ℓ} {B : Type ι} {Good : A → Type κ} {Last : B → Type μ} {call : Option A}
    {next : A → Option B}
    → Gives Good call
    → ((value : A) → Good value → Gives Last (next value))
    → Gives Last (call >>= next)
Gives-bind (gives ok) then_next = then_next _ ok

-- Times first, and then the order of scheduling, a uint64, as one number.
abbrev pub rank : RetryEvent → ℕ
rank x = x.retry_after * 18446744073709551616 + x.retry_order

abbrev pub key : List RetryEvent → ℕ → ℕ
key h i = rank (at h i)

abbrev pub AllBounded : List RetryEvent → Type 0
AllBounded h = (i : ℕ) → (at h i).retry_order < 18446744073709551616

pub before-rank :
    (x y : RetryEvent)
    → x.retry_order < 18446744073709551616
    → y.retry_order < 18446744073709551616
    → before x y ≡ ltb (rank x) (rank y)
unfolding before
before-rank x y p q = ground arith

pub less-key :
    (h : List RetryEvent) (i j : ℕ)
    → AllBounded h
    → i < length h
    → j < length h
    → less h i j ≡ some (ltb (key h i) (key h j))
less-key h i j b hi hj = rw (less-eq-before h i j hi hj, before-rank (at h i) (at h j) (b i) (b j))

-- Every edge of the first `n` events whose parent is at `lo` or later is in order.
abbrev pub IsHeapBetween : ℕ → ℕ → List RetryEvent → Type 0
IsHeapBetween lo n h = (c : ℕ) → 0 < c → c < n → lo ≤ parent c → key h (parent c) ≤ key h c

abbrev pub IsHeap : List RetryEvent → Type 0
IsHeap h = IsHeapBetween 0 (length h) h

-- The edges past `i`, from its parent to its children, are in order.
abbrev pub IsBridged : ℕ → ℕ → List RetryEvent → ℕ → Type 0
IsBridged lo n h i =
    (c : ℕ) → 0 < c → c < n → parent c ≡ i → 0 < i → lo ≤ parent i → key h (parent i) ≤ key h c

-- `r` holds the events of `h`, the first `n` in order from `lo`, and the others where they were.
pub record Sifted (lo n : ℕ) (h r : List RetryEvent) : Type 0 where
  pub ordered : IsHeapBetween lo n r
  pub same : Perm r h
  pub others : (c : ℕ) → n ≤ c → at r c ≡ at h c
  pub bounded : AllBounded r
  pub size : length r ≡ length h

pub swapped-AllBounded :
    (h : List RetryEvent) (i j : ℕ)
    → i < length h
    → j < length h
    → AllBounded h
    → AllBounded (swapped h i j)
swapped-AllBounded h i j hi hj b = λ c. ground (arith, at-swapped h i j hi hj c, b c, b i, b j)

pub Sifted-swapped :
    {lo n i j : ℕ} {h : List RetryEvent} {r : Option (List RetryEvent)}
    → i < n
    → j < n
    → n ≤ length h
    → Gives (Sifted lo n (swapped h i j)) r
    → Gives (Sifted lo n h) r
Sifted-swapped {i = i} {j = j} {h = h} hi hj fits run = Gives-map run λ b s. record {
  ordered = s.ordered;
  same = Perm.trans s.same (swapped-perm h i j (omega arith) (omega arith));
  others = λ c p. s.others c p ∙ ground (arith, at-swapped h i j (omega arith) (omega arith) c);
  bounded = s.bounded;
  size = s.size ∙ length-swapped h i j;
}

root_least_below :
    (k n : ℕ) (h : List RetryEvent) (i : ℕ)
    → IsHeapBetween 0 n h
    → i < k
    → i < n
    → key h 0 ≤ key h i
root_least_below zero n h i o f p = absurd (omega arith)
root_least_below (suc k) n h i o f p = ground (arith, o i, root_least_below k n h (parent i) o)

-- The root of a heap comes first.
pub root_least :
    (n : ℕ) (h : List RetryEvent) (i : ℕ) → IsHeapBetween 0 n h → i < n → key h 0 ≤ key h i
root_least n h i o p = root_least_below (suc i) n h i o (omega arith) p
