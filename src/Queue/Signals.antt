-- ===== src/Queue/Signals.antt =====
-- What each call on the send queue does to its size and to the channels itemReady and spaceReady.
use sse_eventbus_go.Prelude.{
  ◌∙◌, suc, ◌+◌, ◌-◌, ◌≤◌, ◌<◌, Bool, true, false, List, [], ◌∷◌, ◌++◌, Option, none, some, ◌≡◌,
  refl, ◌⊎◌, arith, if◌then◌else◌, length, drop, set, length-append, length-set, length-drop,
}
use sse_eventbus_go.Queue.{
  EventQueue, size_locked, compact_locked, append_locked, signal_item, pass_on_space, pass_on_item,
  take_head, remove, remove_loop, drain, signal_space,
}

module _ {ℓ} {A : Type ℓ} where
  size-compact : (q : EventQueue A) → size_locked (compact_locked q) ≡ size_locked q
  unfolding size_locked compact_locked
  size-compact q = ground (arith, length-drop q.head q.items)

  -- The flags of the queue after pop has taken an event.
  pub record Taken (q q' : EventQueue A) : Type 0 where
    pub size : size_locked q' ≡ size_locked q - 1
    pub capacity : q'.capacity ≡ q.capacity
    pub space : q'.space_ready ≡ true
    pub item : (size_locked q' ≡ 0) ⊎ (q'.item_ready ≡ true)
    pub shut : q'.is_closed ≡ q.is_closed

  compact-flags :
      (q : EventQueue A)
      → ((compact_locked q).capacity ≡ q.capacity) × ((compact_locked q).is_closed ≡ q.is_closed)
  unfolding compact_locked
  compact-flags q = ground arith

  pass_on_item-Taken :
      (q p : EventQueue A)
      → size_locked p ≡ size_locked q - 1
      → p.capacity ≡ q.capacity
      → p.is_closed ≡ q.is_closed
      → Taken q (pass_on_item (signal_space p))
  unfolding pass_on_item signal_space signal_item size_locked
  pass_on_item-Taken q p s c f = record {
    size = ground arith;
    capacity = ground arith;
    space = ground arith;
    item = ground arith;
    shut = ground arith;
  }

  pub take_head-Taken : (q : EventQueue A) → 0 < size_locked q → Taken q (take_head q)
  unfolding take_head
  take_head-Taken q h =
      pass_on_item-Taken q (compact_locked cut) (size-compact cut ∙ cut_size) (compact-flags cut).0
        (compact-flags cut).1
    where
      cut : EventQueue A
      cut = record q { items = set q.items q.head none; head = q.head + 1 }

      cut_size : size_locked cut ≡ size_locked q - 1
      cut_size = unfold size_locked in omega (arith, length-set q.items q.head none)

  -- The flags of the queue after push has added an event.
  pub record Added (q q' : EventQueue A) : Type 0 where
    pub size : size_locked q' ≤ size_locked q + 1
    pub capacity : q'.capacity ≡ q.capacity
    pub space : (q'.capacity ≤ size_locked q') ⊎ (q'.space_ready ≡ true)
    pub item : q'.item_ready ≡ true
    pub shut : q'.is_closed ≡ q.is_closed

  pub append-Added : (event : A) (q : EventQueue A) → Added q (append_locked event q)
  unfolding append_locked pass_on_space signal_space signal_item size_locked
  append-Added event q = record {
    size = ground (arith, length-append q.items (some event ∷ []));
    capacity = ground arith;
    space = ground arith;
    item = ground arith;
    shut = ground arith;
  }

  remove_loop-length {κ} :
      {W : Type κ} (match : A → Bool) (cancel : A → W → W) (slots kept : List (Option A)) (w : W)
      → length (remove_loop match cancel slots kept w).0 ≤ length kept + length slots
  unfolding remove_loop
  remove_loop-length match cancel [] kept w = omega arith
  remove_loop-length match cancel (none ∷ slots) kept w =
      omega (arith, remove_loop-length match cancel slots kept w)
  remove_loop-length match cancel (some event ∷ slots) kept w =
      shorter (match event) (remove_loop-length match cancel slots kept (cancel event w))
        (remove_loop-length match cancel slots (kept ++ some event ∷ []) w)
    where
      shorter :
          (b : Bool)
          → length (remove_loop match cancel slots kept (cancel event w)).0
            ≤ length kept + length slots
          → length (remove_loop match cancel slots (kept ++ some event ∷ []) w).0
            ≤ length (kept ++ some event ∷ []) + length slots
          → length
              (remove_loop match cancel slots
                (if b then kept else kept ++ some event ∷ [])
                (if b then cancel event w else w)).0
            ≤ length kept + suc (length slots)
      shorter true h k = omega arith
      shorter false h k = omega (arith, length-append kept (some event ∷ []))

  -- The flags of the queue after remove or drain.
  pub record Shrunk (q q' : EventQueue A) : Type 0 where
    pub size : size_locked q' ≤ size_locked q
    pub capacity : q'.capacity ≡ q.capacity
    pub space : q'.space_ready ≡ true
    pub item : q'.item_ready ≡ q.item_ready
    pub shut : q'.is_closed ≡ q.is_closed

  pub remove-Shrunk {κ} :
      {W : Type κ} (match : A → Bool) (cancel : A → W → W) (w : W) (q : EventQueue A)
      → Shrunk q (remove match cancel w q).1
  unfolding remove size_locked signal_space
  remove-Shrunk match cancel w q = record {
    size = omega (
      arith,
      remove_loop-length match cancel (drop q.head q.items) [] w,
      length-drop q.head q.items,
    );
    capacity = refl;
    space = refl;
    item = refl;
    shut = refl;
  }

  pub drain-Shrunk : (q : EventQueue A) → Shrunk q (drain q).1
  unfolding drain size_locked signal_space
  drain-Shrunk q = record {
    size = omega arith;
    capacity = refl;
    space = refl;
    item = refl;
    shut = refl;
  }
