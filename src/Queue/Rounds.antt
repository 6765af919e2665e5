-- ===== src/Queue/Rounds.antt =====
-- Each call on the send queue against the same call on a list.
use sse_eventbus_go.Prelude.{
  ℕ, Bool, true, false, List, [], ◌∷◌, ◌++◌, none, some, ◌≡◌, refl, arith, ltb, if◌then◌else◌,
  length, get_elem?, map,
}
use sse_eventbus_go.Errors.{Error, Fallible, is, closed}
use sse_eventbus_go.Queue.{
  EventQueue, Round, done, failed, blocked, size_locked, push, take_head, pop, drain, remove, len,
}
use sse_eventbus_go.Queue.View.{
  Represents, size-length, append-Represents, take_head-Represents, get_elem?-drop, keep,
  cancel_all, remove_loop-keep,
}

module _ {ℓ} {A : Type ℓ} where
  -- A round on the queue ends as a round on the list does, with the same result.
  pub data Refines {κ κ'} {R : Type κ} {R' : Type κ'} (same : R → R' → Type κ)
      : Round (R × EventQueue A) → Round (R' × List A) → Type (ℓ ⊔ κ ⊔ κ') where
    completes :
        {r : R} {r' : R'} {q : EventQueue A} {events : List A}
        → same r r'
        → Represents q events
        → Refines same (done (r, q)) (done (r', events))
    fails : {e : Error} → Refines same (failed e) (failed e)
    blocks : Refines same blocked blocked

  module _ {κ κ'} {R : Type κ} {R' : Type κ'} {same : R → R' → Type κ} where
    Refines-if :
        (test : Bool) {x x' : Round (R × EventQueue A)} {y y' : Round (R' × List A)}
        → (test ≡ true → Refines same x y)
        → (test ≡ false → Refines same x' y')
        → Refines same (if test then x else x') (if test then y else y')
    Refines-if true f g = f refl
    Refines-if false f g = g refl

    Refines-then :
        (test : Bool) (x x' : Round (R × EventQueue A)) {y : Round (R' × List A)}
        → test ≡ true
        → Refines same x y
        → Refines same (if test then x else x') y
    Refines-then true x x' e f = f
    Refines-then false x x' e f = cc

    Refines-else :
        (test : Bool) (x x' : Round (R × EventQueue A)) {y : Round (R' × List A)}
        → test ≡ false
        → Refines same x' y
        → Refines same (if test then x else x') y
    Refines-else true x x' e f = cc
    Refines-else false x x' e f = f

  -- push on a list with a capacity: the event goes to the end with its order.
  pub list_push {κ} :
      {W : Type κ} → (A → W → A × W) → Fallible → A → W → Bool → ℕ → List A → Round (W × List A)
  list_push assign (some e) event w shut capacity events = failed e
  list_push assign none event w shut capacity events =
      if shut
      then failed (is closed)
      else if ltb (length events) capacity
      then done ((assign event w).1, events ++ (assign event w).0 ∷ [])
      else blocked

  oldest : List A → Round (A × List A)
  oldest [] = blocked
  oldest (event ∷ events) = done (event, events)

  -- pop on a list: the oldest event.
  pub list_pop : Bool → List A → Round (A × List A)
  unfolding oldest
  list_pop shut events = if shut then failed (is closed) else oldest events

  -- Every round of push is a push on the list: it reports the context's error and a closed queue,
  -- waits on a full one, and otherwise adds the event, with its order, at the end.
  pub push-Refines {κ} :
      {W : Type κ} (assign : A → W → A × W) (ctx_err : Fallible) (event : A) (w : W)
      (q : EventQueue A) (events : List A)
      → Represents q events
      → Refines
          (λ v v'. v ≡ v')
          (push assign ctx_err event w q)
          (list_push assign ctx_err event w q.is_closed q.capacity events)
  unfolding push list_push
  push-Refines assign (some e) event w q events r = fails
  push-Refines assign none event w q events r = rw (← size-length q events r) (
      Refines-if q.is_closed (λ _. fails)
        (λ _.
          Refines-if (ltb (size_locked q) q.capacity)
            (λ _. completes refl (append-Represents (assign event w).0 q events r)) (λ _. blocks)))

  oldest-Refines :
      (q : EventQueue A) (events : List A)
      → Represents q events
      → Refines
          (λ slot event. slot ≡ some (some event))
          (if ltb 0 (size_locked q) then done (get_elem? q.items q.head, take_head q) else blocked)
          (oldest events)
  unfolding oldest
  oldest-Refines q [] r =
      Refines-else (ltb 0 (size_locked q)) _ _ (ground (arith, size-length q [] r)) blocks
  oldest-Refines q (event ∷ rest) r =
      Refines-then (ltb 0 (size_locked q)) _ _ (ground (arith, size-length q (event ∷ rest) r)) (
        completes (get_elem?-drop q.head q.items (some event) (map (λ x. some x) rest) r.slots)
          (take_head-Represents q event rest r))

  -- Every round of pop is a pop on the list: it reports a closed queue, waits on an empty one, and
  -- otherwise hands out the oldest event, which is never nil.
  pub pop-Refines :
      (q : EventQueue A) (events : List A)
      → Represents q events
      → Refines (λ slot event. slot ≡ some (some event)) (pop q) (list_pop q.is_closed events)
  unfolding pop list_pop
  pop-Refines q events r = Refines-if q.is_closed (λ _. fails) (λ _. oldest-Refines q events r)

  -- drain hands out every event in order and leaves an empty queue.
  pub drain_refines :
      (q : EventQueue A) (events : List A)
      → Represents q events
      → ((drain q).0 ≡ map (λ x. some x) events) × Represents (drain q).1 []
  unfolding drain
  drain_refines q events r = (r.slots, record { slots = refl; inside = omega arith })

  -- remove keeps the other events in order and cancels the turns of the matching ones in order.
  pub remove_refines {κ} :
      {W : Type κ} (match : A → Bool) (cancel : A → W → W) (w : W) (q : EventQueue A)
      (events : List A)
      → Represents q events
      → Represents (remove match cancel w q).1 (keep match events)
        × ((remove match cancel w q).0 ≡ cancel_all match cancel events w)
  unfolding remove
  remove_refines match cancel w q events r =
      rw (r.slots, remove_loop-keep match cancel events [] w)
        (record { slots = refl; inside = omega arith }, refl)

  -- len counts the events.
  pub len-length :
      (q : EventQueue A) (events : List A) → Represents q events → len q ≡ length events
  unfolding len
  len-length q events r = size-length q events r
