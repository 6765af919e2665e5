-- ===== src/Errors.antt =====
-- The error values of the program. An error is compared as `errors.Is` does: by the sentinels that
-- it wraps or joins.
use mathlib.Core.List.{append-nil}
use sse_eventbus_go.Prelude.{
  ◌++◌, sym, ℕ, Bool, true, false, ◌||◌, ◌≡◌, refl, arith, Str, List, [], ◌∷◌, Option, none, some,
}

pub data Sentinel : Type 0 where
  closed invalid_client_id nil_connection inactive_client : Sentinel
  invalid_event invalid_message : Sentinel
  canceled deadline_exceeded short_write streaming_unsupported : Sentinel

-- `foreign` is an error of an implementation outside the repository, known by a number.
pub data Error : Type 0 where
  is : Sentinel → Error
  text : Str → Error
  foreign : ℕ → Error
  -- fmt.Errorf with %w, about a client or with a text
  wrap : Str → Error → Error
  -- errors.Join of two errors that are not nil
  both : Error → Error → Error

abbrev pub Fallible : Type 0
Fallible = Option Error

pub sentinel_eq : Sentinel → Sentinel → Bool
sentinel_eq closed closed = true
sentinel_eq invalid_client_id invalid_client_id = true
sentinel_eq nil_connection nil_connection = true
sentinel_eq inactive_client inactive_client = true
sentinel_eq invalid_event invalid_event = true
sentinel_eq invalid_message invalid_message = true
sentinel_eq canceled canceled = true
sentinel_eq deadline_exceeded deadline_exceeded = true
sentinel_eq short_write short_write = true
sentinel_eq streaming_unsupported streaming_unsupported = true
sentinel_eq _ _ = false

-- errors.Is(err, sentinel) for an error that is not nil
pub error_is : Error → Sentinel → Bool
unfolding sentinel_eq
error_is (is s) t = sentinel_eq s t
error_is (text m) t = false
error_is (foreign n) t = false
error_is (wrap m e) t = error_is e t
error_is (both e f) t = error_is e t || error_is f t

-- errors.Is, false for nil
unfoldable pub errors_is : Fallible → Sentinel → Bool
unfolding error_is
errors_is none t = false
errors_is (some e) t = error_is e t

-- errors.Join, which drops nil errors
unfoldable pub join : Fallible → Fallible → Fallible
join none f = f
join (some e) none = some e
join (some e) (some f) = some (both e f)

unfoldable pub join_all : List Error → Fallible
unfolding join
join_all [] = none
join_all (e ∷ es) = join (some e) (join_all es)

pub errors_is-join :
    (e f : Fallible) (s : Sentinel) → errors_is (join e f) s ≡ errors_is e s || errors_is f s
unfolding errors_is join
errors_is-join none f s = refl
errors_is-join (some e) none s = ground arith
errors_is-join (some e) (some f) s = refl

-- The errors that errors.Join put into one, in order: those of its Unwrap() []error.
unfoldable pub parts_of : Error → List Error
parts_of (both e f) = parts_of e ++ parts_of f
parts_of (is s) = is s ∷ []
parts_of (text m) = text m ∷ []
parts_of (foreign n) = foreign n ∷ []
parts_of (wrap m e) = wrap m e ∷ []

abbrev pub parts : Fallible → List Error
parts none = []
parts (some e) = parts_of e

pub parts-join : (e f : Fallible) → parts (join e f) ≡ parts e ++ parts f
unfolding parts_of join
parts-join none f = refl
parts-join (some e) none = sym (append-nil (parts_of e))
parts-join (some e) (some f) = refl
