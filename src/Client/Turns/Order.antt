-- ===== src/Client/Turns/Order.antt =====
-- The turn counters as a ticket queue: who is live, whose turn it is, and that turns come in order.
use mathlib.Core.Bool.{not}
use sse_eventbus_go.Prelude.{
  ℕ, ◌+◌, ◌≤◌, ◌<◌, true, false, ◌&&◌, ◌||◌, ◌≡◌, refl, ap, ◌∙◌, ◌⊎◌, inl, inr, arith, none, some,
  ◌==◌, ltb, Bool-cases,
}
use sse_eventbus_go.Client.Turns.{
  Turns, fresh, uint64_mod, member, put, assign_order, wait_for_turn, finish_turn, cancel_turn,
  advance_canceled_locked, succ64,
}
use sse_eventbus_go.Client.Turns.Advance.{
  Advancing, Advanced, live, succ64_small, member-put, advance_canceled_locked-Advanced,
}

-- Between two calls: nothing assigned yet, or a turn that no cancelled order has.
abbrev pub Inv : Turns → Type 0
Inv c = (c ≡ fresh) ⊎ (Advancing c × (member c.next_turn c.canceled_orders ≡ false))

-- What a call that adds or removes one order does.
pub record Assigned (c : Turns) (order : ℕ) (d : Turns) : Type 0 where
  pub inv : Inv d
  pub is_next : order ≡ c.next_order + 1
  pub forward : c.next_turn ≤ d.next_turn
  pub last : (other : ℕ) → live c other ≡ true → other < order
  pub same_live : (other : ℕ) → live d other ≡ (order == other) || live c other

pub record Removed (c : Turns) (order : ℕ) (d : Turns) : Type 0 where
  pub inv : Inv d
  pub forward : c.next_turn ≤ d.next_turn
  pub same_order : d.next_order ≡ c.next_order
  pub same_live : (other : ℕ) → live d other ≡ not (order == other) && live c other

assign_fresh : Assigned fresh (assign_order fresh).0 (assign_order fresh).1
unfolding assign_order member
assign_fresh = record {
  inv = inr (
    record {
      begun = omega arith;
      low = omega arith;
      bounded = omega arith;
      canceled = λ order h. cc;
    },
    refl,
  );
  is_next = refl;
  forward = omega arith;
  last = λ other h. ground arith;
  same_live = λ other. ground arith;
}

assign_begun :
    (c : Turns)
    → Advancing c
    → member c.next_turn c.canceled_orders ≡ false
    → c.next_order + 2 < uint64_mod
    → Assigned c (assign_order c).0 (assign_order c).1
unfolding assign_order
assign_begun c v settled room = record {
  inv = inr (
    record {
      begun = ground (arith, v.begun);
      low = ground (arith, step, v.low, v.begun);
      bounded = omega (arith, step);
      canceled = λ order h. ground (arith, v.canceled order, step, v.begun);
    },
    ground (arith, v.begun),
  );
  is_next = step;
  forward = ground (arith, v.begun);
  last = λ other h. ground (arith, step);
  same_live = λ other. ground (arith, step, v.begun, v.low, v.canceled other);
}
  where
    step : succ64 c.next_order ≡ c.next_order + 1
    step = succ64_small c.next_order (omega arith)

-- An assigned order is live, behind all the live ones; no other order changes.
pub assign_order-Assigned :
    (c : Turns)
    → Inv c
    → c.next_order + 2 < uint64_mod
    → Assigned c (assign_order c).0 (assign_order c).1
assign_order-Assigned c (inl e) room = rw e assign_fresh
assign_order-Assigned c (inr (v, settled)) room = assign_begun c v settled room

live-fresh : (order : ℕ) → live fresh order ≡ true → ⊥
unfolding member
live-fresh order h = ground arith

-- The turn passes on from an order that holds it.
pass_turn :
    (c : Turns)
    → Advancing c
    → live c c.next_turn ≡ true
    → Removed c c.next_turn (advance_canceled_locked (record c { next_turn = succ64 c.next_turn }))
pass_turn c v h = record {
  inv = inr (a.advancing, a.settled);
  forward = omega (arith, step, a.forward);
  same_order = a.same_order;
  same_live = λ other. a.same_live other ∙ ground (arith, step, v.canceled other, h);
}
  where
    step : succ64 c.next_turn ≡ c.next_turn + 1
    step = succ64_small c.next_turn (ground (arith, v.bounded))

    moved : Advancing (record c { next_turn = succ64 c.next_turn })
    moved = record {
      begun = omega (arith, step);
      low = ground (arith, step);
      bounded = v.bounded;
      canceled = λ order k. ground (arith, step, v.canceled order, h);
    }

    a :
        Advanced
          (record c { next_turn = succ64 c.next_turn })
          (advance_canceled_locked (record c { next_turn = succ64 c.next_turn }))
    a = advance_canceled_locked-Advanced _ moved

-- finishTurn by the holder of the turn removes its order alone.
pub finish_turn-Removed :
    (c : Turns) (order : ℕ)
    → Inv c
    → live c order ≡ true
    → wait_for_turn order c ≡ some true
    → Removed c order (finish_turn order c)
unfolding finish_turn wait_for_turn
finish_turn-Removed c order (inl e) h w = absurd (live-fresh order (rw e at h))
finish_turn-Removed c order (inr (v, settled)) h w =
    let same : order ≡ c.next_turn = ground arith in
    let eq : (order == c.next_turn) ≡ true = ground arith in
    rw (eq, same) (pass_turn c v (rw same at h))

cancel_later :
    (c : Turns) (order : ℕ)
    → Advancing c
    → member c.next_turn c.canceled_orders ≡ false
    → live c order ≡ true
    → c.next_turn < order
    → Removed c order (record c { canceled_orders = put order c.canceled_orders })
cancel_later c order v settled h later = record {
  inv = inr (
    record {
      begun = v.begun;
      low = v.low;
      bounded = v.bounded;
      canceled =
          λ other k. ground (arith, member-put other order c.canceled_orders, v.canceled other);
    },
    ground (arith, member-put c.next_turn order c.canceled_orders),
  );
  forward = omega arith;
  same_order = refl;
  same_live = λ other. ground (arith, member-put other order c.canceled_orders);
}

-- cancelTurn of a live order removes that order alone, whether its turn has come or not.
pub cancel_turn-Removed :
    (c : Turns) (order : ℕ) → Inv c → live c order ≡ true → Removed c order (cancel_turn order c)
unfolding cancel_turn
cancel_turn-Removed c order (inl e) h = absurd (live-fresh order (rw e at h))
cancel_turn-Removed c order (inr (v, settled)) h =
    let nonzero : (order == 0) ≡ false = ground arith in
    elim (Bool-cases (order == c.next_turn)) [
      | inl eq ↦
          let same : order ≡ c.next_turn = ground arith in
          rw (nonzero, eq, same) (pass_turn c v (rw same at h))
      | inr ne ↦
          let later : ltb c.next_turn order ≡ true = ground arith in
          rw (nonzero, ne, later) (cancel_later c order v settled h (ground arith))
    ]

-- With settled counters, a live order is at its turn, or waits for a lower one that is.
wait_for_turn_settled :
    (c : Turns) (order : ℕ)
    → Inv c
    → live c order ≡ true
    → (wait_for_turn order c ≡ some true)
      ⊎ ((wait_for_turn order c ≡ none)
          × (c.next_turn < order)
          × (live c c.next_turn ≡ true)
          × (wait_for_turn c.next_turn c ≡ some true))
unfolding wait_for_turn
wait_for_turn_settled c order (inl e) h = absurd (live-fresh order (rw e at h))
wait_for_turn_settled c order (inr (v, settled)) h = ground (arith, v.begun)

-- The calls as steps: an order is finished by the worker whose turn it is, and cancelled while live.
pub data Step (c : Turns) : Turns → Type 0 where
  assigns : c.next_order + 2 < uint64_mod → Step c (assign_order c).1
  finishes :
      (order : ℕ)
      → live c order ≡ true
      → wait_for_turn order c ≡ some true
      → Step c (finish_turn order c)
  cancels : (order : ℕ) → live c order ≡ true → Step c (cancel_turn order c)

pub data Reach (c : Turns) : Turns → Type 0 where
  here : Reach c c
  next : {d e : Turns} → Reach c d → Step d e → Reach c e

Step-Inv : {c d : Turns} → Inv c → Step c d → Inv d × (c.next_turn ≤ d.next_turn)
Step-Inv {c} v (assigns room) = let a = assign_order-Assigned c v room in (a.inv, a.forward)
Step-Inv {c} v (finishes order h w) =
    let a = finish_turn-Removed c order v h w in (a.inv, a.forward)
Step-Inv {c} v (cancels order h) = let a = cancel_turn-Removed c order v h in (a.inv, a.forward)

Reach-Inv : {c d : Turns} → Inv c → Reach c d → Inv d × (c.next_turn ≤ d.next_turn)
Reach-Inv v here = (v, omega arith)
Reach-Inv {c} v (next r st) = let a = Reach-Inv v r in let b = Step-Inv a.0 st in (b.0, omega arith)

-- After any calls on the counters of a new client, a live order is either at its turn, or waits for a lower
-- order that is live and at its turn. So no order is passed over, and the order that all wait for is
-- always one that somebody holds.
pub wait_for_turn-live :
    {c : Turns} (order : ℕ)
    → Reach fresh c
    → live c order ≡ true
    → (wait_for_turn order c ≡ some true)
      ⊎ ((wait_for_turn order c ≡ none)
          × (c.next_turn < order)
          × (live c c.next_turn ≡ true)
          × (wait_for_turn c.next_turn c ≡ some true))
wait_for_turn-live {c} order path h = wait_for_turn_settled c order (Reach-Inv (inl refl) path).0 h

finished_below :
    (c : Turns) (order : ℕ)
    → Inv c
    → live c order ≡ true
    → wait_for_turn order c ≡ some true
    → order < (finish_turn order c).next_turn
unfolding wait_for_turn
finished_below c order v h w =
    let r = finish_turn-Removed c order v h w in
    below (finish_turn order c) r.inv r.forward (ground (arith, r.same_live order)) (ground arith)
      r.same_order h
  where
    below :
        (d : Turns)
        → Inv d
        → c.next_turn ≤ d.next_turn
        → live d order ≡ false
        → order ≡ c.next_turn
        → d.next_order ≡ c.next_order
        → live c order ≡ true
        → order < d.next_turn
    below d (inl e) f l s o h = absurd (ground (arith, ap (λ (t : Turns). t.next_order) e))
    below d (inr (a, settled)) f l s o h = ground arith

-- Turns come in the order of assignment: whatever calls lie between two turns of one client, the
-- later turn belongs to the higher order.
pub turns_increase :
    {c d : Turns} (first second : ℕ)
    → Reach fresh c
    → live c first ≡ true
    → wait_for_turn first c ≡ some true
    → Reach (finish_turn first c) d
    → wait_for_turn second d ≡ some true
    → first < second
turns_increase {c} {d} first second r h w s w' =
    let v = (Reach-Inv (inl refl) r).0 in
    let a = finish_turn-Removed c first v h w in
    let later = (Reach-Inv a.inv s).1 in
    let below = finished_below c first v h w in unfold wait_for_turn in ground arith
