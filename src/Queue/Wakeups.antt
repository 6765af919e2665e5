-- ===== src/Queue/Wakeups.antt =====
-- The threads at a send queue: the workers in pop and the publishers in push. A thread is awake from
-- its call, or from the receipt of a signal, to the end of its next round; else it waits.
use sse_eventbus_go.Prelude.{
  ℕ, ◌+◌, ◌-◌, ◌≤◌, ◌<◌, Bool, true, false, Option, none, some, ◌≡◌, refl, ◌⊎◌, arith,
}
use sse_eventbus_go.Errors.{Error}
use sse_eventbus_go.Queue.{
  EventQueue, Round, done, failed, blocked, new_event_queue, size_locked, append_locked, push,
  take_head, pop, remove, close, drain,
}
use sse_eventbus_go.Queue.Signals.{take_head-Taken, append-Added, remove-Shrunk, drain-Shrunk}

pub record Threads {ℓ} (A : Type ℓ) : Type ℓ where
  pub queue : EventQueue A
  pub popping : ℕ
  pub pop_waiting : ℕ
  pub pushing : ℕ
  pub push_waiting : ℕ

module _ {ℓ} {A : Type ℓ} where
  -- A round of push for an event with its order, under a live context.
  abbrev pub push_round : A → EventQueue A → Round (Unit {0} × EventQueue A)
  push_round event q = push {ℓ, 0} (λ event w. (event, w)) none event tt q

  abbrev pub remove_round : (A → Bool) → EventQueue A → EventQueue A
  remove_round match q = (remove {ℓ, 0} {W = Unit} match (λ _ w. w) tt q).1

  pub data Step (s : Threads A) : Threads A → Type ℓ where
    calls_pop : Step s (record s { popping = s.popping + 1 })
    pops :
        (slot : Option (Option A)) (q : EventQueue A)
        → 0 < s.popping
        → pop s.queue ≡ done (slot, q)
        → Step s (record s { queue = q; popping = s.popping - 1 })
    pop_waits :
        0 < s.popping
        → pop s.queue ≡ blocked
        → Step s (record s { popping = s.popping - 1; pop_waiting = s.pop_waiting + 1 })
    -- the receipt of a signal empties the channel
    pop_wakes :
        0 < s.pop_waiting
        → s.queue.item_ready ≡ true
        → Step s (record s {
          queue = record (s.queue) { item_ready = false };
          popping = s.popping + 1;
          pop_waiting = s.pop_waiting - 1;
        })
    calls_push : Step s (record s { pushing = s.pushing + 1 })
    pushes :
        (event : A)
        → 0 < s.pushing
        → push_round event s.queue ≡ done (tt, append_locked event s.queue)
        → Step s (record s { queue = append_locked event s.queue; pushing = s.pushing - 1 })
    push_waits :
        (event : A)
        → 0 < s.pushing
        → push_round event s.queue ≡ blocked
        → Step s (record s { pushing = s.pushing - 1; push_waiting = s.push_waiting + 1 })
    push_wakes :
        0 < s.push_waiting
        → s.queue.space_ready ≡ true
        → Step s (record s {
          queue = record (s.queue) { space_ready = false };
          pushing = s.pushing + 1;
          push_waiting = s.push_waiting - 1;
        })
    -- a context that ends while its publisher waits
    push_leaves : 0 < s.push_waiting → Step s (record s { push_waiting = s.push_waiting - 1 })
    removes : (match : A → Bool) → Step s (record s { queue = remove_round match s.queue })
    closes : Step s (record s { queue = close s.queue })
    drains : Step s (record s { queue = (drain s.queue).1 })

  -- Whoever could go on is awake or has a signal waiting. A closed queue wakes all.
  pub record Inv (s : Threads A) : Type 0 where
    pub items :
        (s.queue.is_closed ≡ true)
        ⊎ ((size_locked s.queue ≡ 0) ⊎ ((s.queue.item_ready ≡ true) ⊎ (0 < s.popping)))
    pub spaces :
        (s.queue.is_closed ≡ true)
        ⊎ ((s.push_waiting ≡ 0)
            ⊎ ((s.queue.capacity ≤ size_locked s.queue)
                ⊎ ((s.queue.space_ready ≡ true) ⊎ (0 < s.pushing))))

  pop-done :
      (q q' : EventQueue A) (slot : Option (Option A))
      → pop q ≡ done (slot, q')
      → (q' ≡ take_head q) × (0 < size_locked q)
  unfolding pop
  pop-done q q' slot e = ground arith

  pop-blocked : (q : EventQueue A) → pop q ≡ blocked → size_locked q ≡ 0
  unfolding pop
  pop-blocked q e = ground arith

  push-blocked :
      (q : EventQueue A) (event : A) → push_round event q ≡ blocked → q.capacity ≤ size_locked q
  unfolding push
  push-blocked q event e = ground arith

  Step-Inv : {s t : Threads A} → Step s t → Inv s → Inv t
  Step-Inv calls_pop v = ground arith
  Step-Inv {s} (pops slot q h e) v =
      ground (arith, pop-done s.queue q slot e, take_head-Taken s.queue)
  Step-Inv {s} (pop_waits h e) v = ground (arith, pop-blocked s.queue e)
  Step-Inv (pop_wakes h e) v = unfold size_locked in ground arith
  Step-Inv calls_push v = ground arith
  Step-Inv {s} (pushes event h e) v = ground (arith, append-Added event s.queue)
  Step-Inv {s} (push_waits event h e) v = ground (arith, push-blocked s.queue event e)
  Step-Inv (push_wakes h e) v = unfold size_locked in ground arith
  Step-Inv (push_leaves h) v = ground arith
  Step-Inv {s} (removes match) v =
      ground (arith, remove-Shrunk {ℓ, 0} {W = Unit} match (λ _ w. w) tt s.queue)
  Step-Inv closes v = unfold close in ground arith
  Step-Inv {s} drains v = ground (arith, drain-Shrunk s.queue)

  pub data Reach (s : Threads A) : Threads A → Type ℓ where
    here : Reach s s
    next : {t u : Threads A} → Reach s t → Step t u → Reach s u

  pub Reach-Inv : {s t : Threads A} → Inv s → Reach s t → Inv t
  Reach-Inv v here = v
  Reach-Inv v (next r st) = Step-Inv st (Reach-Inv v r)

  -- A new queue that nobody has called.
  abbrev pub start : ℕ → Threads A
  start capacity = record {
    queue = new_event_queue capacity;
    popping = 0;
    pop_waiting = 0;
    pushing = 0;
    push_waiting = 0;
  }

  start-Inv : (capacity : ℕ) → Inv (start capacity)
  unfolding size_locked new_event_queue
  start-Inv capacity = record { items = ground arith; spaces = ground arith }

  -- No wakeup of a worker is lost: while the queue is open, no signal waits and no worker is awake,
  -- no event is in the queue.
  pub no_event_waits :
      (capacity : ℕ) {s : Threads A}
      → Reach (start capacity) s
      → s.queue.is_closed ≡ false
      → s.queue.item_ready ≡ false
      → s.popping ≡ 0
      → size_locked s.queue ≡ 0
  no_event_waits capacity r shut signal awake =
      let v = Reach-Inv (start-Inv capacity) r in ground (arith, v.items)

  -- No wakeup of a publisher is lost while every publisher that takes a signal goes on to its next
  -- round: if one waits at an open queue, no signal waits and none is awake, the queue is full.
  pub no_slot_waits :
      (capacity : ℕ) {s : Threads A}
      → Reach (start capacity) s
      → s.queue.is_closed ≡ false
      → s.queue.space_ready ≡ false
      → s.pushing ≡ 0
      → 0 < s.push_waiting
      → s.queue.capacity ≤ size_locked s.queue
  no_slot_waits capacity r shut signal awake waits =
      let v = Reach-Inv (start-Inv capacity) r in ground (arith, v.spaces)

  -- A publisher that is awake and whose context has ended leaves at the top of the loop of push.
  pub data GivesUp (s : Threads A) : Threads A → Type ℓ where
    gives_up :
        (event : A) (e : Error)
        → 0 < s.pushing
        → push {ℓ, 0} (λ event w. (event, w)) (some e) event tt s.queue ≡ failed e
        → GivesUp s (record s { pushing = s.pushing - 1 })

  -- A publisher waits at an open queue with room, and nothing is under way to wake it.
  pub record IsStranded (s : Threads A) : Type 0 where
    pub waits : 0 < s.push_waiting
    pub asleep : s.pushing ≡ 0
    pub is_open : s.queue.is_closed ≡ false
    pub no_signal : s.queue.space_ready ≡ false
    pub room : size_locked s.queue < s.queue.capacity

  -- Where the signal for a free slot meets two waiting publishers, the one that takes it may find
  -- its context ended and leave with the signal: the other stays behind at a queue with room.
  pub wakeup_lost :
      (s : Threads A) (event : A) (e : Error)
      → 2 ≤ s.push_waiting
      → s.pushing ≡ 0
      → s.queue.is_closed ≡ false
      → s.queue.space_ready ≡ true
      → size_locked s.queue < s.queue.capacity
      → (t : Threads A) × (u : Threads A) × Step s t × GivesUp t u × IsStranded u
  wakeup_lost s event e two asleep is_open signal room = (
    _,
    _,
    push_wakes (omega arith) signal,
    gives_up event e (omega arith) (unfold push in refl),
    record {
      waits = omega arith;
      asleep = omega arith;
      is_open = is_open;
      no_signal = refl;
      room = unfold size_locked in room;
    },
  )
