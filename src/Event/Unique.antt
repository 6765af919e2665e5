-- ===== src/Event/Unique.antt =====
-- uniqueStrings and normalizeEvent.
use mathlib.Core.Bool.{not}
use sse_eventbus_go.Prelude.{
  true, false, ◌&&◌, List, [], ◌∷◌, ◌++◌, ◌≡◌, refl, sym, ap, ◌∙◌, arith, inl, inr, Bool-cases,
  if◌then◌else◌, Str, has, Distinct, has-append, str_eq_iff, is_empty,
}
use mathlib.Core.List.{append-nil, append_assoc}
use sse_eventbus_go.Event.{Event, default_event, unique_loop, unique_strings, normalize_event}

-- The specification: keep the first occurrence of each value that is not in `seen`.
pub firsts : List Str → List Str → List Str
firsts seen [] = []
firsts seen (v ∷ vs) = elim (has v seen) [
  | true ↦ firsts seen vs
  | false ↦ v ∷ firsts (seen ++ v ∷ []) vs
]

-- The loop keeps `seen` and `result` equal as lists.
unique_loop-firsts :
    (values seen : List Str) → unique_loop values seen seen ≡ seen ++ firsts seen values
unfolding unique_loop firsts
unique_loop-firsts [] seen = sym (append-nil seen)
unique_loop-firsts (v ∷ vs) seen = elim (Bool-cases (has v seen)) [
  | inl old ↦ rw (old, firsts) (unique_loop-firsts vs seen)
  | inr new ↦
      rw (new, firsts)
        (unique_loop-firsts vs (seen ++ v ∷ []) ∙ append_assoc seen (v ∷ []) (firsts _ vs))
]

-- uniqueStrings computes the specification.
pub unique_strings-firsts : (values : List Str) → unique_strings values ≡ firsts [] values
unfolding unique_strings
unique_strings-firsts values = unique_loop-firsts values []

has-firsts :
    (w : Str) (seen values : List Str)
    → has w (firsts seen values) ≡ not (has w seen) && has w values
unfolding firsts has
has-firsts w seen [] = ground arith
has-firsts w seen (v ∷ vs) = ground (
  arith,
  has-firsts w seen vs,
  has-firsts w (seen ++ v ∷ []) vs,
  has-append w seen (v ∷ []),
  str_eq_iff w v,
)

firsts-Distinct : (seen values : List Str) → Distinct (firsts seen values)
unfolding firsts
firsts-Distinct seen [] = tt
firsts-Distinct seen (v ∷ vs) = ground (
  arith,
  firsts-Distinct seen vs,
  firsts-Distinct (seen ++ v ∷ []) vs,
  has-firsts v (seen ++ v ∷ []) vs,
  has-append v seen (v ∷ []),
  has-singleton v,
)
  where
    has-singleton : (v : Str) → has v (v ∷ []) ≡ true
    has-singleton v = unfold has in ground (arith, str_eq_iff v v)

-- No value of the first list is in the second.
abbrev Apart : List Str → List Str → Type 0
Apart seen [] = Unit {0}
Apart seen (v ∷ vs) = (has v seen ≡ false) × Apart seen vs

Apart-concat :
    (v : Str) (seen vs : List Str) → has v vs ≡ false → Apart seen vs → Apart (seen ++ v ∷ []) vs
unfolding has
Apart-concat v seen [] h a = tt
Apart-concat v seen (w ∷ vs) h a = (
  ground (arith, has-append w seen (v ∷ []), str_eq_iff v w, str_eq_iff w v),
  Apart-concat v seen vs (ground arith) a.1,
)

-- A list of distinct values that are not in `seen` is left as it is.
firsts_fixed :
    (seen values : List Str) → Distinct values → Apart seen values → firsts seen values ≡ values
unfolding firsts
firsts_fixed seen [] d a = refl
firsts_fixed seen (v ∷ vs) d a =
    rw (a.0, firsts) (ap (◌∷◌ v) (firsts_fixed _ vs d.1 (Apart-concat v seen vs d.0 a.1)))

Apart-nil : (values : List Str) → Apart [] values
unfolding has
Apart-nil [] = tt
Apart-nil (v ∷ vs) = (refl, Apart-nil vs)

pub unique_strings_fixed : (values : List Str) → Distinct values → unique_strings values ≡ values
unique_strings_fixed values d =
    unique_strings-firsts values ∙ firsts_fixed [] values d (Apart-nil values)

pub unique_strings-Distinct : (values : List Str) → Distinct (unique_strings values)
unique_strings-Distinct values = rw (unique_strings-firsts values) (firsts-Distinct [] values)

-- The result has no repetition and the members of the input.
pub unique_strings_correct :
    (values : List Str)
    → Distinct (unique_strings values) × ((v : Str) → has v (unique_strings values) ≡ has v values)
unfolding has
unique_strings_correct values = (
  unique_strings-Distinct values,
  λ v. rw (unique_strings-firsts values) (has-firsts v [] values),
)

pub unique_strings_idem :
    (values : List Str) → unique_strings (unique_strings values) ≡ unique_strings values
unique_strings_idem values = unique_strings_fixed _ (unique_strings-Distinct values)

name_idem :
    (name : Str) (d : Str)
    → is_empty d ≡ false
    → (if is_empty (if is_empty name then d else name)
        then d
        else (if is_empty name then d else name))
      ≡ (if is_empty name then d else name)
name_idem name d h = ground arith

-- normalizeEvent of a normal event changes nothing, however often the bus and the replay store
-- call it.
pub normalize_event_idem : (e : Event) → normalize_event (normalize_event e) ≡ normalize_event e
unfolding normalize_event
normalize_event_idem e = λ i. record (normalize_event e) {
  name = (name_idem e.name default_event default_nonempty) i;
  client_ids = (unique_strings_idem e.client_ids) i;
  exclude_client_ids = (unique_strings_idem e.exclude_client_ids) i;
}
  where
    default_nonempty : is_empty default_event ≡ false
    default_nonempty = refl
