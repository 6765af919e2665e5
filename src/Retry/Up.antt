-- ===== src/Retry/Up.antt =====
-- heap.up restores the order of a heap with one event too low in the tree.
use mathlib.Core.Logic.{◌≢◌}
use mathlib.Core.List.Perm
use sse_eventbus_go.Prelude.{
  ℕ, zero, suc, ◌+◌, ◌≤◌, ◌<◌, refl, List, some, arith, ltb, ◌==◌, length,
}
use sse_eventbus_go.Retry.{RetryEvent, parent, up_loop, up}
use sse_eventbus_go.Retry.Array.{swapped, at-swapped, length-swapped, swap-eq-swapped}
use sse_eventbus_go.Retry.Order.{
  Gives, gives, Gives-if, key, AllBounded, less-key, IsBridged, Sifted, Sifted-swapped,
  swapped-AllBounded,
}

-- Only the edge above `j` may be out of order.
pub record UpInv (h : List RetryEvent) (j : ℕ) : Type 0 where
  pub inside : j < length h
  pub edges : (c : ℕ) → 0 < c → c < length h → c ≢ j → key h (parent c) ≤ key h c
  pub bridged : IsBridged 0 (length h) h j
  pub bounded : AllBounded h

swapped-UpInv :
    (h : List RetryEvent) (j : ℕ)
    → UpInv h j
    → 0 < j
    → key h j < key h (parent j)
    → UpInv (swapped h (parent j) j) (parent j)
swapped-UpInv h j v pos_ below =
    let above : parent j < length h = omega (arith, v.inside) in
    let size = length-swapped h (parent j) j in
    let moved = at-swapped h (parent j) j above v.inside in
    record {
      inside = omega (arith, size);
      edges = λ c p q r.
          ground
            (arith, size, moved c, moved (parent c), v.edges c, v.bridged c, v.edges (parent c));
      bridged = λ c p q r s t.
          ground (arith, size, moved c, moved (parent (parent j)), v.edges c, v.edges (parent j));
      bounded = swapped-AllBounded h (parent j) j above v.inside v.bounded;
    }

up_loop_restores :
    (fuel : ℕ) (h : List RetryEvent) (j : ℕ)
    → j < fuel
    → UpInv h j
    → Gives (Sifted 0 (length h) h) (up_loop fuel h j)
unfolding up_loop
up_loop_restores zero h j f v = absurd (omega arith)
up_loop_restores (suc fuel) h j f v =
    let above : parent j < length h = omega (arith, v.inside) in
    rw
      (
        less-key h j (parent j) v.bounded v.inside above,
        swap-eq-swapped h (parent j) j above v.inside,
      )
      (Gives-if (parent j == j) (λ root. settled (λ c p q r. v.edges c p q (ground arith)))
        (λ deep.
          Gives-if (ltb (key h j) (key h (parent j)))
            (λ below. Sifted-swapped above v.inside (omega arith) (
              rw (length-swapped h (parent j) j) at (
                up_loop_restores fuel (swapped h (parent j) j) (parent j) (ground arith)
                  (swapped-UpInv h j v (ground arith) (ground arith)))))
            (λ fits. settled (λ c p q r. ground (arith, v.edges c)))))
  where
    settled :
        ((c : ℕ) → 0 < c → c < length h → 0 ≤ parent c → key h (parent c) ≤ key h c)
        → Gives (Sifted 0 (length h) h) (some h)
    settled o = gives (record {
      ordered = o;
      same = Perm.rfl;
      others = λ c p. refl;
      bounded = v.bounded;
      size = refl;
    })

-- heap.up ends, without a panic, with a heap of the same events.
pub up_restores : (h : List RetryEvent) (j : ℕ) → UpInv h j → Gives (Sifted 0 (length h) h) (up h j)
unfolding up
up_restores h j v = up_loop_restores (j + 1) h j (omega arith) v
