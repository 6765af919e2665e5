-- ===== src/Queue/View.antt =====
-- The send queue as a list of events, oldest first.
use mathlib.Core.List.{map-append, append-nil, append_assoc}
use native.Mathlib.Numerals.{add-one}
use sse_eventbus_go.Prelude.{
  ℕ, zero, suc, ◌+◌, ◌*◌, ◌≤◌, Bool, true, false, ◌&&◌, List, [], ◌∷◌, ◌++◌, Option, none, some,
  ◌≡◌, refl, sym, ap, ◌∙◌, arith, ◌==◌, leb, if◌then◌else◌, length, get_elem?, set, drop, map,
  length-append, length-set, length-drop, length-map, inl, inr, Bool-cases,
}
use sse_eventbus_go.Queue.{
  EventQueue, new_event_queue, size_locked, compact_locked, append_locked, signal_item,
  signal_space, pass_on_space, pass_on_item, take_head, remove_loop,
}

module _ {ℓ} {A : Type ℓ} where
  -- The slots from the head on hold the events of the list, and none of them is nil.
  pub record Represents (q : EventQueue A) (events : List A) : Type ℓ where
    pub slots : drop q.head q.items ≡ map some events
    pub inside : q.head ≤ length q.items

  drop-append : (n : ℕ) (xs ys : List A) → n ≤ length xs → drop n (xs ++ ys) ≡ drop n xs ++ ys
  drop-append zero xs ys h = refl
  drop-append (suc n) [] ys h = absurd (omega arith)
  drop-append (suc n) (x ∷ xs) ys h = drop-append n xs ys (omega arith)

  -- What stands at the head of the rest stands at that index.
  pub get_elem?-drop :
      (n : ℕ) (xs : List A) (y : A) (ys : List A) → drop n xs ≡ y ∷ ys → get_elem? xs n ≡ some y
  get_elem?-drop zero [] y ys e = cc
  get_elem?-drop zero (x ∷ xs) y ys e = ground arith
  get_elem?-drop (suc n) [] y ys e = cc
  get_elem?-drop (suc n) (x ∷ xs) y ys e = get_elem?-drop n xs y ys e

  drop-set :
      (n : ℕ) (xs : List A) (v y : A) (ys : List A)
      → drop n xs ≡ y ∷ ys
      → drop (suc n) (set xs n v) ≡ ys
  drop-set zero [] v y ys e = cc
  drop-set zero (x ∷ xs) v y ys e = ground arith
  drop-set (suc n) [] v y ys e = cc
  drop-set (suc n) (x ∷ xs) v y ys e = drop-set n xs v y ys e

  drop_all : (xs : List A) → drop (length xs) xs ≡ []
  drop_all [] = refl
  drop_all (x ∷ xs) = drop_all xs

-- The events that remove keeps, and the state after it has cancelled the others in order.
unfoldable pub keep {ℓ} : {A : Type ℓ} → (A → Bool) → List A → List A
keep match [] = []
keep match (event ∷ events) =
    let rest = keep match events in if match event then rest else event ∷ rest

pub cancel_all {ℓ κ} : {A : Type ℓ} {W : Type κ} → (A → Bool) → (A → W → W) → List A → W → W
cancel_all match cancel [] w = w
cancel_all match cancel (event ∷ events) w =
    cancel_all match cancel events (if match event then cancel event w else w)

module _ {ℓ} {A : Type ℓ} where
  pub size-length :
      (q : EventQueue A) (events : List A) → Represents q events → size_locked q ≡ length events
  unfolding size_locked
  size-length q events r = omega (
    arith,
    length-drop q.head q.items,
    ap length r.slots,
    length-map {B = Option A} events (λ x. some x),
  )

  new-Represents : (capacity : ℕ) → Represents (new_event_queue {A = A} capacity) []
  unfolding new_event_queue
  new-Represents capacity = record { slots = refl; inside = omega arith }

  Represents-if :
      (test : Bool) (q q' : EventQueue A) (events : List A)
      → (test ≡ true → Represents q events)
      → (test ≡ false → Represents q' events)
      → Represents (if test then q else q') events
  Represents-if true q q' events yes' no' = yes' refl
  Represents-if false q q' events yes' no' = no' refl

  -- Compaction, of either kind, keeps the list.
  compact-Represents :
      (q : EventQueue A) (events : List A)
      → Represents q events
      → Represents (compact_locked q) events
  unfolding compact_locked
  compact-Represents q events r =
      Represents-if (q.head == length q.items) _ _ events
        (λ all.
          let at_end : q.head ≡ length q.items = ground arith in
          record { slots = sym (drop_all q.items) ∙ rw at_end at r.slots; inside = omega arith })
        (λ _.
          Represents-if (leb 1024 q.head && leb (length q.items) (q.head * 2)) _ _ events
            (λ _. record { slots = r.slots; inside = omega arith }) (λ _. r))

  -- Signals do not touch the list.
  Represents-same :
      (q q' : EventQueue A) {events : List A}
      → q'.items ≡ q.items
      → q'.head ≡ q.head
      → Represents q events
      → Represents q' events
  Represents-same q q' i h r = record { slots = rw (i, h) r.slots; inside = rw (i, h) r.inside }

  pass_on_space-Represents :
      (q : EventQueue A) {events : List A}
      → Represents q events
      → Represents (pass_on_space q) events
  unfolding pass_on_space signal_space
  pass_on_space-Represents q r = Represents-same q _ (ground arith) (ground arith) r

  pass_on_item-Represents :
      (q : EventQueue A) {events : List A}
      → Represents q events
      → Represents (pass_on_item q) events
  unfolding pass_on_item signal_item
  pass_on_item-Represents q r = Represents-same q _ (ground arith) (ground arith) r

  pub append-Represents :
      (event : A) (q : EventQueue A) (events : List A)
      → Represents q events
      → Represents (append_locked event q) (events ++ event ∷ [])
  unfolding append_locked signal_item
  append-Represents event q events r =
      pass_on_space-Represents (signal_item (record q { items = q.items ++ some event ∷ [] }))
        (record {
          slots =
              drop-append q.head q.items (some event ∷ []) r.inside
              ∙ rw r.slots (sym (map-append (λ x. some x) events (event ∷ [])));
          inside = omega (arith, length-append q.items (some event ∷ []), r.inside);
        })

  pub take_head-Represents :
      (q : EventQueue A) (event : A) (events : List A)
      → Represents q (event ∷ events)
      → Represents (take_head q) events
  unfolding take_head signal_space
  take_head-Represents q event events r =
      pass_on_item-Represents _
        (Represents-same _ _ refl refl (compact-Represents cut events taken))
    where
      cut : EventQueue A
      cut = record q { items = set q.items q.head none; head = q.head + 1 }

      taken : Represents cut events
      taken = record {
        slots =
            rw add-one
              (drop-set q.head q.items none (some event) (map (λ x. some x) events) r.slots);
        inside =
            omega (
              arith,
              length-set q.items q.head none,
              length-drop q.head q.items,
              ap length r.slots,
            );
      }

  pub remove_loop-keep {κ} :
      {W : Type κ} (match : A → Bool) (cancel : A → W → W) (events kept : List A) (w : W)
      → remove_loop match cancel (map (λ x. some x) events) (map (λ x. some x) kept) w
        ≡ (map (λ x. some x) (kept ++ keep match events), cancel_all match cancel events w)
  unfolding remove_loop keep cancel_all
  remove_loop-keep match cancel [] kept w = rw (append-nil kept)
  remove_loop-keep match cancel (event ∷ events) kept w = elim (Bool-cases (match event)) [
    | inl matched ↦
        rw (matched, remove_loop) (remove_loop-keep match cancel events kept (cancel event w))
    | inr other ↦ rw (
      other,
      remove_loop,
      ← map-append (λ x. some x) kept (event ∷ []),
      remove_loop-keep match cancel events (kept ++ event ∷ []) w,
      append_assoc kept (event ∷ []) (keep match events),
    )
  ]
