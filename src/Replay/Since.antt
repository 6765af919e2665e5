-- ===== src/Replay/Since.antt =====
-- EventsSince: what a client that reconnects is given.
use mathlib.Core.List.{append_assoc}
use sse_eventbus_go.Prelude.{
  ℕ, zero, suc, ◌≤◌, true, false, List, [], ◌∷◌, ◌++◌, map, ◌≡◌, refl, sym, ◌⊎◌, dec_lt, ◌∙◌, arith,
  inl, inr, Bool-cases, Str, str_eq, str_eq_iff, is_empty, lookup, length, get_elem?, drop,
  length-append, if◌then◌else◌,
}
use sse_eventbus_go.Replay.{
  ReplayEvent, Store, or_nil, normalized, has_id, start_after, events_since,
}
use sse_eventbus_go.Replay.Laws.{IsValid, IsNormal, history, history-IsNormal, map-normalized}

-- No event of the list has the ID.
abbrev pub Lacks : Str → List ReplayEvent → Type 0
Lacks id [] = Unit {0}
Lacks id (e ∷ events) = (str_eq e.event.id id ≡ false) × Lacks id events

Lacks-get_elem? :
    (id : Str) (events : List ReplayEvent) (i : ℕ)
    → Lacks id events
    → has_id id (get_elem? events i) ≡ false
Lacks-get_elem? id [] i l = refl
Lacks-get_elem? id (e ∷ events) zero l = l.0
Lacks-get_elem? id (e ∷ events) (suc i) l = Lacks-get_elem? id events i l.1

after_prefix :
    (id : Str) (pre post : List ReplayEvent) (i : ℕ)
    → Lacks id post
    → length pre ≤ i
    → has_id id (get_elem? (pre ++ post) i) ≡ false
after_prefix id [] post i l h = Lacks-get_elem? id post i l
after_prefix id (e ∷ pre) post zero l h = absurd (omega arith)
after_prefix id (e ∷ pre) post (suc i) l h = after_prefix id pre post i l (omega arith)

-- The scan passes over indices at which the ID is not found.
start_after_skips :
    (id : Str) (events : List ReplayEvent) (n k : ℕ)
    → ((i : ℕ) → k ≤ i → has_id id (get_elem? events i) ≡ false)
    → k ≤ n
    → start_after id events n ≡ start_after id events k
unfolding start_after
start_after_skips id events zero zero f h = refl
start_after_skips id events zero (suc k) f h = absurd (omega arith)
start_after_skips id events (suc n) k f h = elim (dec_lt n k) [
  | yes last ↦ let same : k ≡ suc n = omega arith in rw same refl
  | no more ↦ rw (f n (omega arith), start_after) (start_after_skips id events n k f (omega arith))
]

drop-prefix : (pre post : List ReplayEvent) → drop (length pre) (pre ++ post) ≡ post
drop-prefix [] post = refl
drop-prefix (e ∷ pre) post = drop-prefix pre post

hit :
    (id : Str) (pre : List ReplayEvent) (e : ReplayEvent) (post : List ReplayEvent)
    → str_eq e.event.id id ≡ true
    → has_id id (get_elem? (pre ++ e ∷ post) (length pre)) ≡ true
hit id [] e post h = h
hit id (x ∷ pre) e post h = hit id pre e post h

-- The rest of the events after the index that the scan finds.
rest_after :
    (id : Str) (pre : List ReplayEvent) (e : ReplayEvent) (post : List ReplayEvent)
    → str_eq e.event.id id ≡ true
    → Lacks id post
    → drop (start_after id (pre ++ e ∷ post) (length (pre ++ e ∷ post))) (pre ++ e ∷ post) ≡ post
rest_after id pre e post h l = rw (found, regroup) (rw (← size) (drop-prefix (pre ++ e ∷ []) post))
  where
    regroup : pre ++ e ∷ post ≡ (pre ++ e ∷ []) ++ post
    regroup = sym (append_assoc pre (e ∷ []) post)

    size : length (pre ++ e ∷ []) ≡ suc (length pre)
    size = omega (arith, length-append pre (e ∷ []))

    found : start_after id (pre ++ e ∷ post) (length (pre ++ e ∷ post)) ≡ suc (length pre)
    found =
        start_after_skips id (pre ++ e ∷ post) _ (suc (length pre))
          (λ i k. rw regroup (after_prefix id (pre ++ e ∷ []) post i l (rw size k)))
          (omega (arith, length-append pre (e ∷ post)))
        ∙ unfold start_after in rw (hit id pre e post h) refl

IsNormal-suffix : (pre post : List ReplayEvent) → IsNormal (pre ++ post) → IsNormal post
IsNormal-suffix [] post n = n
IsNormal-suffix (e ∷ pre) post n = IsNormal-suffix pre post n.1

is_empty-middle :
    (pre : List ReplayEvent) (e : ReplayEvent) (post : List ReplayEvent)
    → is_empty (pre ++ e ∷ post) ≡ false
unfolding is_empty
is_empty-middle [] e post = refl
is_empty-middle (x ∷ pre) e post = refl

-- A client that names an event is given what follows the last retained event with that ID.
pub events_since-found :
    (c last : Str) (s : Store) (pre : List ReplayEvent) (e : ReplayEvent) (post : List ReplayEvent)
    → IsValid s
    → is_empty last ≡ false
    → history c s ≡ pre ++ e ∷ post
    → e.event.id ≡ last
    → Lacks last post
    → events_since c last s ≡ post
unfolding events_since
events_since-found c last s pre e post v named split same l =
    rw
      (
        found,
        named,
        is_empty-middle pre e post,
        rest_after last pre e post ((str_eq_iff e.event.id last).1 same) l,
      )
      (map-normalized post (IsNormal-suffix (e ∷ []) post (IsNormal-suffix pre (e ∷ post) normal)))
  where
    found : or_nil (lookup c s) ≡ pre ++ e ∷ post
    found = unfold history in split

    normal : IsNormal (pre ++ e ∷ post)
    normal = rw split at (history-IsNormal c s v)

nil_or_all :
    (events : List ReplayEvent)
    → IsNormal events
    → (if is_empty events then [] else map normalized events) ≡ events
unfolding is_empty
nil_or_all [] n = refl
nil_or_all (e ∷ events) n = map-normalized (e ∷ events) n

starts_at_zero :
    (last : Str) (events : List ReplayEvent)
    → (is_empty last ≡ true) ⊎ Lacks last events
    → (if is_empty last then 0 else start_after last events (length events)) ≡ 0
starts_at_zero last events (inl blank) = rw blank
starts_at_zero last events (inr l) = elim (Bool-cases (is_empty last)) [
  | inl blank ↦ rw blank
  | inr named ↦
      rw
        (
          named,
          start_after_skips last events (length events) 0 (λ i _. Lacks-get_elem? last events i l)
              (omega arith),
        )
        (unfold start_after in refl)
]

-- A client that names no event, or one that is not retained, is given its whole history.
pub events_since-all :
    (c last : Str) (s : Store)
    → IsValid s
    → (is_empty last ≡ true) ⊎ Lacks last (history c s)
    → events_since c last s ≡ history c s
unfolding events_since history
events_since-all c last s v h =
    rw (starts_at_zero last (or_nil (lookup c s)) h)
      (nil_or_all (or_nil (lookup c s)) (history-IsNormal c s v))
