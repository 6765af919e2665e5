-- ===== src/Retry/Down.antt =====
-- heap.down restores the order of a heap with one event too high in the tree.
use mathlib.Core.Logic.{◌≢◌}
use mathlib.Core.List.Perm
use sse_eventbus_go.Prelude.{
  ℕ, zero, suc, ◌+◌, ◌-◌, ◌*◌, ◌/◌, ◌≤◌, ◌<◌, ◌≡◌, refl, ◌∙◌, ◌⊎◌, List, some, arith, ltb, length,
}
use sse_eventbus_go.Retry.{RetryEvent, parent, smaller_child, down_loop, down, init_loop, heap_init}
use sse_eventbus_go.Retry.Array.{swapped, at-swapped, length-swapped, swap-eq-swapped}
use sse_eventbus_go.Retry.Order.{
  Gives, gives, Gives-bind, Gives-map, Gives-if, key, AllBounded, less-key, IsHeapBetween,
  IsBridged, Sifted, Sifted-swapped, swapped-AllBounded,
}

-- Only the edges below `i` may be out of order.
pub record DownInv (lo n : ℕ) (h : List RetryEvent) (i : ℕ) : Type 0 where
  pub fits : n ≤ length h
  pub edges : (c : ℕ) → 0 < c → c < n → lo ≤ parent c → parent c ≢ i → key h (parent c) ≤ key h c
  pub bridged : IsBridged lo n h i
  pub bounded : AllBounded h

-- `j` is the child of `i` that comes first.
record IsFirstChild (n : ℕ) (h : List RetryEvent) (i j : ℕ) : Type 0 where
  inside : j < n
  child : (j ≡ 2 * i + 1) ⊎ (j ≡ 2 * i + 2)
  first : (c : ℕ) → 0 < c → c < n → parent c ≡ i → key h j ≤ key h c

smaller_child-IsFirstChild :
    (n : ℕ) (h : List RetryEvent) (i : ℕ)
    → n ≤ length h
    → AllBounded h
    → 2 * i + 1 < n
    → Gives (IsFirstChild n h i) (smaller_child h i n)
unfolding smaller_child
smaller_child-IsFirstChild n h i fits b p =
    Gives-if (ltb (2 * i + 1 + 1) n)
      (λ two.
        rw (less-key h (2 * i + 1 + 1) (2 * i + 1) b (ground arith) (omega arith))
          (gives (ground arith)))
      (λ one. gives (ground arith))

swapped-DownInv :
    (lo n : ℕ) (h : List RetryEvent) (i j : ℕ)
    → DownInv lo n h i
    → IsFirstChild n h i j
    → key h j < key h i
    → DownInv lo n (swapped h i j) j
swapped-DownInv lo n h i j v s below =
    let hi : i < length h = omega (arith, v.fits, s.inside, s.child) in
    let hj : j < length h = omega (arith, v.fits, s.inside) in
    let moved = at-swapped h i j hi hj in
    record {
      fits = omega (arith, v.fits, length-swapped h i j);
      edges = λ c p q r t.
          ground (arith, s.child, moved c, moved (parent c), v.edges c, v.bridged j, s.first c);
      bridged = λ c p q r t u. ground (arith, s.child, moved c, moved (parent j), v.edges c);
      bounded = swapped-AllBounded h i j hi hj v.bounded;
    }

down_loop_restores :
    (fuel lo n : ℕ) (h : List RetryEvent) (i : ℕ)
    → n - i < fuel
    → DownInv lo n h i
    → Gives (Sifted lo n h) (down_loop fuel h i n)
unfolding down_loop
down_loop_restores zero lo n h i f v = absurd (omega arith)
down_loop_restores (suc fuel) lo n h i f v =
    Gives-if (ltb (2 * i + 1) n)
      (λ e. Gives-bind (smaller_child-IsFirstChild n h i v.fits v.bounded (ground arith)) λ j s.
        let hi : i < n = omega (arith, s.inside, s.child) in
        rw
          (
            less-key h j i v.bounded (omega (arith, v.fits, s.inside)) (omega (arith, v.fits)),
            swap-eq-swapped h i j (omega (arith, v.fits)) (omega (arith, v.fits, s.inside)),
          )
          (Gives-if (ltb (key h j) (key h i))
            (λ below. Sifted-swapped hi s.inside v.fits (
              down_loop_restores fuel lo n (swapped h i j) j (omega (arith, s.inside, s.child))
                (swapped-DownInv lo n h i j v s (ground arith))))
            (λ fits. settled (λ c p q r. ground (arith, v.edges c, s.first c)))))
      (λ e. settled (λ c p q r. ground (arith, v.edges c)))
  where
    settled :
        ((c : ℕ) → 0 < c → c < n → lo ≤ parent c → key h (parent c) ≤ key h c)
        → Gives (Sifted lo n h) (some h)
    settled o = gives (record {
      ordered = o;
      same = Perm.rfl;
      others = λ c p. refl;
      bounded = v.bounded;
      size = refl;
    })

-- heap.down ends, without a panic, with the first `n` events in order and the others in place.
pub down_restores :
    (lo n : ℕ) (h : List RetryEvent) (i : ℕ) → DownInv lo n h i → Gives (Sifted lo n h) (down h i n)
unfolding down
down_restores lo n h i v = down_loop_restores (n + 1) lo n h i (omega arith) v

-- The loop of heap.Init orders the events from one parent more in each round.
pub init_loop_restores :
    (i : ℕ) (h : List RetryEvent)
    → IsHeapBetween i (length h) h
    → AllBounded h
    → Gives (Sifted 0 (length h) h) (init_loop i h)
unfolding init_loop
init_loop_restores zero h o b =
    gives (record { ordered = o; same = Perm.rfl; others = λ c p. refl; bounded = b; size = refl })
init_loop_restores (suc i) h o b = Gives-bind (down_restores i (length h) h i start) λ r s.
    Gives-map (init_loop_restores i r (rw s.size (s.ordered)) s.bounded) λ t u. record {
      ordered = rw (← s.size) (u.ordered);
      same = Perm.trans u.same s.same;
      others = λ c p. u.others c (omega (arith, s.size)) ∙ s.others c p;
      bounded = u.bounded;
      size = u.size ∙ s.size;
    }
  where
    start : DownInv i (length h) h i
    start = record {
      fits = omega arith;
      edges = λ c p q r t. o c p q (omega arith);
      bridged = λ c p q r t u. absurd (omega arith);
      bounded = b;
    }

-- heap.Init ends, without a panic, with a heap of the same events.
pub heap_init_restores :
    (h : List RetryEvent) → AllBounded h → Gives (Sifted 0 (length h) h) (heap_init h)
unfolding heap_init
heap_init_restores h b = init_loop_restores (length h / 2) h (λ c p q r. absurd (omega arith)) b
