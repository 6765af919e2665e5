-- ===== src/Client/Turns.antt =====
-- bus.go: the turn counters of a client (assignOrder, waitForTurn, finishTurn, cancelTurn and
-- advanceCanceledLocked), which serialise the first sends of a client generation in queue order.
-- Each method runs under `orderMu`; the counters are uint64.
pub mod Advance
pub mod Order
mod Tests
use sse_eventbus_go.Prelude.{
  ℕ, zero, suc, ◌+◌, ◌%◌, ◌^◌, ◌<◌, Bool, true, false, ◌||◌, List, [], ◌∷◌, ◌++◌, Option, none,
  some, ◌==◌, ltb, if◌then◌else◌, length, ◌≡◌, refl, arith,
}

abbrev pub uint64_mod : ℕ
uint64_mod = 2 ^ 64

-- `n++` on a uint64
unfoldable pub succ64 : ℕ → ℕ
succ64 n = (n + 1) % uint64_mod

-- canceledOrders, a `map[uint64]struct{}`
pub member : ℕ → List ℕ → Bool
member n [] = false
member n (m ∷ ms) = (n == m) || member n ms

pub put : ℕ → List ℕ → List ℕ
unfolding member
put n ms = if member n ms then ms else ms ++ n ∷ []

pub erase : ℕ → List ℕ → List ℕ
erase n [] = []
erase n (m ∷ ms) = let rest = erase n ms in if n == m then rest else m ∷ rest

pub record Turns : Type 0 where
  pub next_order : ℕ
  pub next_turn : ℕ
  pub canceled_orders : List ℕ

-- The counters of a new client.
abbrev pub fresh : Turns
fresh = record { next_order = 0; next_turn = 0; canceled_orders = [] }

pub assign_order : Turns → ℕ × Turns
unfolding succ64
assign_order c =
    let order = succ64 c.next_order in
    (
      order,
      record c { next_order = order; next_turn = if c.next_turn == 0 then 1 else c.next_turn },
    )

-- waitForTurn in one look at the counters: `none` while it waits on the condition variable, and
-- otherwise its result.
pub wait_for_turn : ℕ → Turns → Option Bool
wait_for_turn order c = if ltb c.next_turn order then none else some (order == c.next_turn)

-- The loop of advanceCanceledLocked. Each round takes an entry out of the map, so that one round
-- more than it has entries is enough.
pub advance_loop : ℕ → Turns → Turns
unfolding member erase succ64
advance_loop zero c = c
advance_loop (suc fuel) c = elim (member c.next_turn c.canceled_orders) [
  | true ↦ advance_loop fuel (record c {
    canceled_orders = erase c.next_turn c.canceled_orders;
    next_turn = succ64 c.next_turn;
  })
  | false ↦ c
]

pub advance_canceled_locked : Turns → Turns
unfolding advance_loop
advance_canceled_locked c = advance_loop (suc (length c.canceled_orders)) c

pub finish_turn : ℕ → Turns → Turns
unfolding advance_canceled_locked
finish_turn order c =
    if order == c.next_turn
    then advance_canceled_locked (record c { next_turn = succ64 c.next_turn })
    else c

pub cancel_turn : ℕ → Turns → Turns
unfolding advance_canceled_locked put
cancel_turn order c =
    if order == 0
    then c
    else if order == c.next_turn
    then advance_canceled_locked (record c { next_turn = succ64 c.next_turn })
    else if ltb c.next_turn order
    then record c { canceled_orders = put order c.canceled_orders }
    else c
