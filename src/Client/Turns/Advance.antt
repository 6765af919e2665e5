-- ===== src/Client/Turns/Advance.antt =====
-- The invariant of the counters, and the loop over the cancelled orders.
use mathlib.Core.Bool.{not}
use sse_eventbus_go.Prelude.{
  ℕ, zero, suc, ◌+◌, ◌≤◌, ◌<◌, Bool, true, false, ◌&&◌, ◌||◌, List, [], ◌∷◌, ◌++◌, ◌≡◌, refl, arith,
  ◌==◌, ltb, leb, length, inl, inr, Bool-cases, ◌∙◌,
}
use sse_eventbus_go.Client.Turns.{
  Turns, uint64_mod, succ64, member, put, erase, advance_loop, advance_canceled_locked,
}

pub succ64_small : (n : ℕ) → n + 1 < uint64_mod → succ64 n ≡ n + 1
unfolding succ64
succ64_small n h = omega arith

pub member-append : (n : ℕ) (xs ys : List ℕ) → member n (xs ++ ys) ≡ member n xs || member n ys
unfolding member
member-append n [] ys = refl
member-append n (x ∷ xs) ys = ground (arith, member-append n xs ys)

pub member-put : (n m : ℕ) (ms : List ℕ) → member n (put m ms) ≡ (n == m) || member n ms
unfolding put member
member-put n m ms = ground (arith, member-append n ms (m ∷ []))

pub member-erase : (n m : ℕ) (ms : List ℕ) → member n (erase m ms) ≡ not (m == n) && member n ms
unfolding erase member
member-erase n m [] = ground arith
member-erase n m (k ∷ ms) = ground (arith, member-erase n m ms)

length-erase-le : (n : ℕ) (ms : List ℕ) → length (erase n ms) ≤ length ms
unfolding erase
length-erase-le n [] = omega arith
length-erase-le n (m ∷ ms) = ground (arith, length-erase-le n ms)

length-erase-lt : (n : ℕ) (ms : List ℕ) → member n ms ≡ true → length (erase n ms) < length ms
unfolding erase member
length-erase-lt n [] h = cc
length-erase-lt n (m ∷ ms) h = ground (arith, length-erase-lt n ms, length-erase-le n ms)

-- The orders that are assigned, and neither finished nor cancelled.
abbrev pub live : Turns → ℕ → Bool
live c order =
    (ltb 0 order && leb c.next_turn order)
    && (leb order c.next_order && not (member order c.canceled_orders))

-- The counters in use, while an order may still be cancelled and not yet passed over.
pub record Advancing (c : Turns) : Type 0 where
  pub begun : 0 < c.next_turn
  pub low : c.next_turn ≤ c.next_order + 1
  pub bounded : c.next_order + 1 < uint64_mod
  pub canceled :
      (order : ℕ)
      → member order c.canceled_orders ≡ true
      → (c.next_turn ≤ order) × (order ≤ c.next_order)

-- What the loop leaves: the same live orders, and a turn that no cancelled order has.
pub record Advanced (c d : Turns) : Type 0 where
  pub advancing : Advancing d
  pub forward : c.next_turn ≤ d.next_turn
  pub same_order : d.next_order ≡ c.next_order
  pub settled : member d.next_turn d.canceled_orders ≡ false
  pub same_live : (order : ℕ) → live d order ≡ live c order

module _ (c : Turns) (v : Advancing c) (here : member c.next_turn c.canceled_orders ≡ true) where
  passed : Turns
  passed = record c {
    canceled_orders = erase c.next_turn c.canceled_orders;
    next_turn = succ64 c.next_turn;
  }

  step64 : succ64 c.next_turn ≡ c.next_turn + 1
  step64 = succ64_small c.next_turn (omega (arith, v.canceled c.next_turn here))

  passed-Advancing : Advancing passed
  unfolding passed
  passed-Advancing = record {
    begun = omega (arith, step64);
    low = omega (arith, step64, v.canceled c.next_turn here);
    bounded = v.bounded;
    canceled = λ order h.
        ground (arith, step64, member-erase order c.next_turn c.canceled_orders, v.canceled order);
  }

  live-passed : (order : ℕ) → live passed order ≡ live c order
  unfolding passed
  live-passed order = ground (arith, step64, here, member-erase order c.next_turn c.canceled_orders)

  Advanced-passed : (d : Turns) → Advanced passed d → Advanced c d
  unfolding passed
  Advanced-passed d a = record {
    advancing = a.advancing;
    forward = omega (arith, step64, a.forward);
    same_order = a.same_order;
    settled = a.settled;
    same_live = λ order. a.same_live order ∙ live-passed order;
  }

advance_loop-Advanced :
    (fuel : ℕ) (c : Turns)
    → Advancing c
    → length c.canceled_orders < fuel
    → Advanced c (advance_loop fuel c)
unfolding advance_loop passed
advance_loop-Advanced zero c v h = absurd (omega arith)
advance_loop-Advanced (suc fuel) c v h = elim (Bool-cases (member c.next_turn c.canceled_orders)) [
  | inr settled ↦
      rw (settled, advance_loop)
        (record {
          advancing = v;
          forward = omega arith;
          same_order = refl;
          settled = settled;
          same_live = λ order. refl;
        })
  | inl here ↦
      rw (here, advance_loop)
        (Advanced-passed c v here _ (
          advance_loop-Advanced fuel _ (passed-Advancing c v here)
            (omega (arith, length-erase-lt c.next_turn c.canceled_orders here))))
]

-- advanceCanceledLocked ends at a turn that is not cancelled, and changes no live order.
pub advance_canceled_locked-Advanced :
    (c : Turns) → Advancing c → Advanced c (advance_canceled_locked c)
unfolding advance_canceled_locked
advance_canceled_locked-Advanced c v =
    advance_loop-Advanced (suc (length c.canceled_orders)) c v (omega arith)
