-- ===== src/Client/Turns/Tests.antt =====
-- The turn counters of a client with two events in its queue.
use sse_eventbus_go.Prelude.{◌<◌, true, none, some, ◌≡◌, refl, ◌⊎◌, inl, arith}
use sse_eventbus_go.Client.Turns.{
  Turns, fresh, assign_order, finish_turn, cancel_turn, wait_for_turn, member,
}
use sse_eventbus_go.Client.Turns.Advance.{live}
use sse_eventbus_go.Client.Turns.Order.{
  Inv, Assigned, Removed, assigns, Reach, here, next, assign_order-Assigned, cancel_turn-Removed,
  wait_for_turn-live, turns_increase,
}

abbrev one : Turns
one = (assign_order fresh).1

abbrev two : Turns
two = (assign_order one).1

one-Inv : Inv one
one-Inv = (assign_order-Assigned fresh (inl refl) (omega arith)).inv

one_order : one.next_order ≡ 1
unfolding assign_order
one_order = refl

two-Inv : Inv two
two-Inv = (assign_order-Assigned one one-Inv (omega (arith, one_order))).inv

first_live : live two 1 ≡ true
unfolding assign_order member
first_live = refl

second_live : live two 2 ≡ true
unfolding assign_order member
second_live = refl

first_turn : wait_for_turn 1 two ≡ some true
unfolding assign_order wait_for_turn
first_turn = refl

second_turn : wait_for_turn 2 (finish_turn 1 two) ≡ some true
unfolding assign_order wait_for_turn finish_turn
second_turn = refl

assign_order-Assigned_example : Assigned one (assign_order one).0 (assign_order one).1
assign_order-Assigned_example = assign_order-Assigned one one-Inv (omega (arith, one_order))

cancel_turn-Removed_example : Removed two 2 (cancel_turn 2 two)
cancel_turn-Removed_example = cancel_turn-Removed two 2 two-Inv second_live

two-Reach : Reach fresh two
two-Reach = next (next here (assigns (omega arith))) (assigns (omega (arith, one_order)))

wait_for_turn-live_example :
    (wait_for_turn 2 two ≡ some true)
    ⊎ ((wait_for_turn 2 two ≡ none)
        × (two.next_turn < 2)
        × (live two two.next_turn ≡ true)
        × (wait_for_turn two.next_turn two ≡ some true))
wait_for_turn-live_example = wait_for_turn-live {c = two} 2 two-Reach second_live

turns_increase_example : 1 < 2
turns_increase_example =
    turns_increase {c = two} {d = finish_turn 1 two} 1 2 two-Reach first_live first_turn here
      second_turn
