-- ===== src/Bus/Locks/Tests.antt =====
-- One caller at the lock of a client, and a second one behind it.
use sse_eventbus_go.Prelude.{ℕ, ◌<◌, false, some, ◌≡◌, refl, arith, ◌⊎◌}
use sse_eventbus_go.Bus.Locks.{
  Callers, Step, Reach, here, next, start, take_reference, enter_gate, after_call, more, less,
  locks_exclude, gate_free_or_held,
}

abbrev first : ℕ
first = 0

abbrev one : Callers
one = after_call (take_reference start.locks) start

abbrev inside : Callers
inside = record one {
  locks = enter_gate 0 one.locks;
  waiting = less 0 one.waiting;
  holding = more 0 one.holding;
}

abbrev two : Callers
two = after_call (take_reference inside.locks) inside

inside-Reach : Reach start inside
unfolding take_reference
inside-Reach = next (next here Step.calls) (Step.enters 0 (omega arith) refl)

two-Reach : Reach start two
two-Reach = next inside-Reach Step.calls

held : 0 < two.holding 0
unfolding take_reference enter_gate
held = omega arith

behind : 0 < two.waiting 0
unfolding take_reference enter_gate
behind = omega arith

locks_exclude_example : (first ≡ first) × (two.holding 0 ≡ 1)
locks_exclude_example = locks_exclude {s = two} 0 0 two-Reach held held

gate_free_or_held_example :
    (two.locks.entry ≡ some 0) × ((two.locks.gate 0 ≡ false) ⊎ (two.holding 0 ≡ 1))
gate_free_or_held_example = gate_free_or_held {s = two} 0 two-Reach behind
