-- ===== src/Event/Valid.antt =====
-- validateEvent against the characters and the sign that it is about.
use sse_eventbus_go.Prelude.{
  ℕ, true, false, List, [], ◌∷◌, ◌≡◌, refl, ◌≢◌, ◌↔◌, ◌⊎◌, arith, none, Str, elem, contains_any,
}
use sse_eventbus_go.Prelude.Int.{pos, ◌≤ℤ◌}
use sse_eventbus_go.Errors.{errors_is, invalid_event}
use sse_eventbus_go.Event.{Event, validate_event, line_breaks, null_or_line_breaks}

-- The byte is none of those in the list.
abbrev pub Avoids : ℕ → List ℕ → Type 0
Avoids c [] = Unit {0}
Avoids c (d ∷ ds) = (c ≢ d) × Avoids c ds

-- No byte of the text is in the list.
abbrev pub Free : List ℕ → Str → Type 0
Free bad [] = Unit {0}
Free bad (c ∷ s) = Avoids c bad × Free bad s

elem-Avoids : (c : ℕ) (bad : List ℕ) → elem c bad ≡ false → Avoids c bad
unfolding elem
elem-Avoids c [] h = tt
elem-Avoids c (d ∷ ds) h = (ground arith, elem-Avoids c ds (ground arith))

Avoids-elem : (c : ℕ) (bad : List ℕ) → Avoids c bad → elem c bad ≡ false
unfolding elem
Avoids-elem c [] h = refl
Avoids-elem c (d ∷ ds) h = ground (arith, h.0, Avoids-elem c ds h.1)

pub contains_any-Free : (s : Str) (bad : List ℕ) → contains_any s bad ≡ false → Free bad s
unfolding contains_any
contains_any-Free [] bad h = tt
contains_any-Free (c ∷ s) bad h =
    (elem-Avoids c bad (ground arith), contains_any-Free s bad (ground arith))

pub Free-contains_any : (s : Str) (bad : List ℕ) → Free bad s → contains_any s bad ≡ false
unfolding contains_any
Free-contains_any [] bad h = refl
Free-contains_any (c ∷ s) bad h = rw (Avoids-elem c bad h.0) (Free-contains_any s bad h.1)

-- What an SSE stream can carry: a name of one line, an ID of one line with no null, and a retry
-- time that is not negative.
pub record IsSendable (e : Event) : Type 0 where
  pub name : Free line_breaks e.name
  pub id : Free null_or_line_breaks e.id
  pub retry : pos 0 ≤ℤ e.retry

-- An event passes exactly when it is sendable.
pub validate_event_iff : (e : Event) → (validate_event e ≡ none) ↔ IsSendable e
unfolding validate_event
validate_event_iff e = (
  λ h. record {
    name = contains_any-Free e.name line_breaks (ground arith);
    id = contains_any-Free e.id null_or_line_breaks (ground arith);
    retry = ground arith;
  },
  λ v. ground (
    arith,
    Free-contains_any e.name line_breaks v.name,
    Free-contains_any e.id null_or_line_breaks v.id,
    v.retry,
  ),
)

-- Every refusal wraps ErrInvalidEvent, which is how Publish tells it from a failed delivery.
pub validate_event-invalid :
    (e : Event) → (validate_event e ≡ none) ⊎ (errors_is (validate_event e) invalid_event ≡ true)
unfolding validate_event errors_is
validate_event-invalid e = ground arith
