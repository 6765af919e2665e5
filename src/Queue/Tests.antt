-- ===== src/Queue/Tests.antt =====
-- A queue of two numbers.
use sse_eventbus_go.Prelude.{ℕ, ◌+◌, ◌≤◌, Bool, true, [], ◌∷◌, none, some, ◌≡◌, refl, arith, ◌==◌}
use sse_eventbus_go.Errors.{is, closed}
use sse_eventbus_go.Queue.{
  EventQueue, blocked, new_event_queue, append_locked, push, pop, remove, size_locked,
}
use sse_eventbus_go.Queue.View.{Represents, append-Represents, keep, cancel_all}
use sse_eventbus_go.Queue.Rounds.{
  Refines, list_push, list_pop, push-Refines, pop-Refines, remove_refines,
}
use sse_eventbus_go.Queue.Wakeups.{
  Threads, Step, GivesUp, IsStranded, Reach, here, next, calls_push, push_waits, start,
  no_event_waits, no_slot_waits, wakeup_lost,
}

abbrev empty : EventQueue ℕ
empty = new_event_queue 2

abbrev pair : EventQueue ℕ
pair = append_locked 8 (append_locked 7 empty)

pair-Represents : Represents pair (7 ∷ 8 ∷ [])
pair-Represents = append-Represents 8 (append_locked 7 empty) (7 ∷ []) (
    append-Represents 7 empty [] (record {
      slots = unfold new_event_queue in refl;
      inside = unfold new_event_queue in omega arith;
    }))

-- An order is the count of the events so far.
abbrev assign : ℕ → ℕ → ℕ × ℕ
assign event w = (event + w, w + 1)

push-Refines_example :
    Refines
      (λ v v'. v ≡ v')
      (push assign none 9 2 pair)
      (list_push assign none 9 2 pair.is_closed pair.capacity (7 ∷ 8 ∷ []))
push-Refines_example = push-Refines assign none 9 2 pair (7 ∷ 8 ∷ []) pair-Represents

pop-Refines_example :
    Refines
      (λ slot event. slot ≡ some (some event))
      (pop pair)
      (list_pop pair.is_closed (7 ∷ 8 ∷ []))
pop-Refines_example = pop-Refines pair (7 ∷ 8 ∷ []) pair-Represents

abbrev is_eight : ℕ → Bool
is_eight n = n == 8

remove_refines_example :
    Represents (remove is_eight (λ n w. n + w) 0 pair).1 (keep is_eight (7 ∷ 8 ∷ []))
    × ((remove is_eight (λ n w. n + w) 0 pair).0
        ≡ cancel_all is_eight (λ n w. n + w) (7 ∷ 8 ∷ []) 0)
remove_refines_example = remove_refines is_eight (λ n w. n + w) 0 pair (7 ∷ 8 ∷ []) pair-Represents

-- A publisher at a queue without room waits.
abbrev waiting : Threads ℕ
waiting = record {
  queue = new_event_queue 0;
  popping = 0;
  pop_waiting = 0;
  pushing = 0;
  push_waiting = 1;
}

no_room : push {0, 0} {A = ℕ} (λ event w. (event, w)) none 5 tt (new_event_queue 0) ≡ blocked
unfolding push new_event_queue size_locked
no_room = refl

waiting-Reach : Reach (start 0) waiting
waiting-Reach = next (next here calls_push) (push_waits 5 (omega arith) no_room)

no_event_waits_example : size_locked (waiting.queue) ≡ 0
unfolding new_event_queue
no_event_waits_example = no_event_waits 0 {s = waiting} waiting-Reach refl refl refl

no_slot_waits_example : (waiting.queue).capacity ≤ size_locked (waiting.queue)
unfolding new_event_queue
no_slot_waits_example = no_slot_waits 0 {s = waiting} waiting-Reach refl refl refl (omega arith)

-- Two publishers wait for room, and the signal for it is there.
abbrev crowded : Threads ℕ
crowded = record {
  queue = record (new_event_queue 2) { space_ready = true };
  popping = 0;
  pop_waiting = 0;
  pushing = 0;
  push_waiting = 2;
}

wakeup_lost_example :
    (t : Threads ℕ) × (u : Threads ℕ) × Step crowded t × GivesUp t u × IsStranded u
unfolding new_event_queue size_locked
wakeup_lost_example = wakeup_lost crowded 5 (is closed) (omega arith) refl refl refl (omega arith)
