-- ===== src/Http/Fields.antt =====
-- How the reader takes each part of a frame.
use mathlib.Core.List.{append_assoc, append-nil}
use sse_eventbus_go.Prelude.{
  ℕ, zero, suc, ◌+◌, ◌*◌, ◌/◌, ◌%◌, ◌<◌, Bool, true, false, ◌&&◌, List, [], ◌∷◌, ◌++◌, ◌≡◌, refl,
  ap, ◌∙◌, arith, ◌==◌, leb, ltb, if◌then◌else◌, Str, codes, Bool-cases, ltb→lt, inl, inr, some,
}
use sse_eventbus_go.Event.{line_breaks}
use sse_eventbus_go.Event.Valid.{Free}
use sse_eventbus_go.Http.{
  field, comment_lines, data_lines, digits_loop, format_int, starts_with_byte,
}
use sse_eventbus_go.Http.Stream.{
  Reader, process_line, process_field, strip_space, parse_digits, or_else, read,
}
use sse_eventbus_go.Http.Lines.{AllFree, unlines, read-line}

-- The space that writeField adds is the one that the reader strips.
strip_space-padded :
    (value : Str) → strip_space (if starts_with_byte 32 value then 32 ∷ value else value) ≡ value
unfolding strip_space
strip_space-padded [] = refl
strip_space-padded (c ∷ s) = elim (Bool-cases (c == 32)) [
  | inl space ↦ rw space
  | inr other ↦ rw (other, strip_space, other)
]

abbrev padded : Str → Str
padded value = if starts_with_byte 32 value then 32 ∷ value else value

padded-Free : (value : Str) → Free line_breaks value → Free line_breaks (padded value)
padded-Free value f = by_test (starts_with_byte 32 value)
  where
    by_test : (b : Bool) → Free line_breaks (if b then 32 ∷ value else value)
    by_test true = (omega arith, f)
    by_test false = f

Free-append : (bad : List ℕ) (s t : Str) → Free bad s → Free bad t → Free bad (s ++ t)
Free-append bad [] t f g = g
Free-append bad (c ∷ s) t f g = (f.0, Free-append bad s t f.1 g)

read-field :
    (name value rest : Str) (r : Reader)
    → Free line_breaks name
    → Free line_breaks value
    → process_line (name ++ 58 ∷ padded value) r ≡ process_field name (strip_space (padded value)) r
    → read (field name value ++ rest) [] false r ≡ read rest [] false (process_field name value r)
unfolding field
read-field name value rest r n f p = rw (append_assoc (name ++ 58 ∷ padded value) (10 ∷ []) rest) (
    read-line (name ++ 58 ∷ padded value) [] rest r
      (Free-append line_breaks name (58 ∷ padded value) n (omega arith, padded-Free value f))
    ∙ ap (read rest [] false) (p ∙ ap (λ v. process_field name v r) (strip_space-padded value)))

-- A field of a frame is read as that field with that value.
module _ (value rest : Str) (r : Reader) (f : Free line_breaks value) where
  pub read-event-field :
      read (field (codes "event") value ++ rest) [] false r
      ≡ read rest [] false (process_field (codes "event") value r)
  read-event-field =
      read-field (codes "event") value rest r (omega arith) f (unfold process_line in refl)

  pub read-id-field :
      read (field (codes "id") value ++ rest) [] false r
      ≡ read rest [] false (process_field (codes "id") value r)
  read-id-field = read-field (codes "id") value rest r (omega arith) f (unfold process_line in refl)

  pub read-data-field :
      read (field (codes "data") value ++ rest) [] false r
      ≡ read rest [] false (process_field (codes "data") value r)
  read-data-field =
      read-field (codes "data") value rest r (omega arith) f (unfold process_line in refl)

process_line-comment : (line : Str) (r : Reader) → process_line (58 ∷ line) r ≡ r
unfolding process_line
process_line-comment line r = refl

pub process_field-data :
    (value : Str) (r : Reader)
    → process_field (codes "data") value r ≡ record r { payload = r.payload ++ value ++ 10 ∷ [] }
unfolding process_field
process_field-data value r = refl

process_field-retry :
    (value : Str) (r : Reader)
    → process_field (codes "retry") value r
      ≡ record r { reconnection = or_else (parse_digits 0 value) r.reconnection }
unfolding process_field
process_field-retry value r = refl

-- Comments leave the reader as it is.
pub read-comment_lines :
    (lines : List Str) (rest : Str) (r : Reader)
    → AllFree lines
    → read (comment_lines lines ++ rest) [] false r ≡ read rest [] false r
unfolding comment_lines
read-comment_lines [] rest r f = refl
read-comment_lines (line ∷ lines) rest r f =
    rw
      (
        append_assoc (58 ∷ line ++ 10 ∷ []) (comment_lines lines) rest,
        append_assoc (58 ∷ line) (10 ∷ []) (comment_lines lines ++ rest),
      )
      (read-line (58 ∷ line) [] (comment_lines lines ++ rest) r (omega arith, f.0)
        ∙ ap (read (comment_lines lines ++ rest) [] false) (process_line-comment line r)
        ∙ read-comment_lines lines rest r f.1)

-- The data lines go to the data buffer, each with an LF behind it.
pub read-data_lines :
    (lines : List Str) (rest : Str) (r : Reader)
    → AllFree lines
    → read (data_lines lines ++ rest) [] false r
      ≡ read rest [] false (record r { payload = r.payload ++ unlines lines })
unfolding data_lines unlines
read-data_lines [] rest r f = rw (append-nil r.payload)
read-data_lines (line ∷ lines) rest r f =
    rw (append_assoc (field (codes "data") line) (data_lines lines) rest) (
      read-data-field line (data_lines lines ++ rest) r f.0
      ∙ ap (read (data_lines lines ++ rest) [] false) (process_field-data line r)
      ∙ read-data_lines lines rest (record r { payload = r.payload ++ line ++ 10 ∷ [] }) f.1
      ∙ ap (λ p. read rest [] false (record r { payload = p })) (joined line))
  where
    joined :
        (line : Str)
        → (r.payload ++ line ++ 10 ∷ []) ++ unlines lines
          ≡ r.payload ++ (line ++ 10 ∷ unlines lines)
    joined line = simp append_assoc

-- Parsing the digits of a number gives the number.
digit_range : (n : ℕ) → (leb 48 (48 + n % 10) && leb (48 + n % 10) 57) ≡ true
digit_range n = ground arith

parse_digits-digit :
    (q n : ℕ) (digits : Str)
    → parse_digits q ((48 + n % 10) ∷ digits) ≡ parse_digits (q * 10 + n % 10) digits
unfolding parse_digits
parse_digits-digit q n digits = rw (digit_range n) (ap (λ k. parse_digits k digits) (omega arith))

parse_digits-digits_loop :
    (fuel n : ℕ) (digits : Str)
    → n < fuel
    → parse_digits 0 (digits_loop fuel n digits) ≡ parse_digits n digits
unfolding digits_loop
parse_digits-digits_loop zero n digits h = absurd (omega arith)
parse_digits-digits_loop (suc fuel) n digits h = elim (Bool-cases (ltb n 10)) [
  | inl last ↦
      let small = ltb→lt n 10 last in
      rw last (parse_digits-digit 0 n digits ∙ ap (λ k. parse_digits k digits) (omega arith))
  | inr more ↦ rw more (
      parse_digits-digits_loop fuel (n / 10) _ (ground arith)
      ∙ parse_digits-digit (n / 10) n digits
      ∙ ap (λ k. parse_digits k digits) (omega arith))
]

pub parse_digits-format_int : (n : ℕ) → parse_digits 0 (format_int n) ≡ some n
unfolding format_int
parse_digits-format_int n =
    parse_digits-digits_loop (suc n) n [] (omega arith) ∙ unfold parse_digits in refl

digits_loop-Free :
    (fuel n : ℕ) (digits : Str)
    → Free line_breaks digits
    → Free line_breaks (digits_loop fuel n digits)
unfolding digits_loop
digits_loop-Free zero n digits f = f
digits_loop-Free (suc fuel) n digits f = elim (Bool-cases (ltb n 10)) [
  | inl last ↦ rw last (omega arith, f)
  | inr more ↦ rw more (digits_loop-Free fuel (n / 10) _ (omega arith, f))
]

digits_loop-no_space :
    (fuel n : ℕ) (digits : Str)
    → starts_with_byte 32 digits ≡ false
    → starts_with_byte 32 (digits_loop fuel n digits) ≡ false
unfolding digits_loop
digits_loop-no_space zero n digits f = f
digits_loop-no_space (suc fuel) n digits f = elim (Bool-cases (ltb n 10)) [
  | inl last ↦ rw last (ground arith)
  | inr more ↦ rw more (digits_loop-no_space fuel (n / 10) _ (ground arith))
]

strip_space-digits : (s : Str) → starts_with_byte 32 s ≡ false → strip_space s ≡ s
unfolding strip_space
strip_space-digits [] h = refl
strip_space-digits (c ∷ s) h = rw h

-- The retry line sets the reconnection time to its number.
pub read-retry :
    (n : ℕ) (rest : Str) (r : Reader)
    → read ((codes "retry:" ++ format_int n ++ 10 ∷ []) ++ rest) [] false r
      ≡ read rest [] false (record r { reconnection = some n })
read-retry n rest r = rw (append_assoc (codes "retry:" ++ format_int n) (10 ∷ []) rest) (
    read-line (codes "retry:" ++ format_int n) [] rest r line_free
    ∙ ap (read rest [] false) (taken ∙ number))
  where
    digits_free : Free line_breaks (format_int n)
    digits_free = unfold format_int in digits_loop-Free (suc n) n [] tt

    line_free : Free line_breaks (codes "retry:" ++ format_int n)
    line_free = Free-append line_breaks (codes "retry:") (format_int n) (omega arith) digits_free

    taken :
        process_line (codes "retry:" ++ format_int n) r
        ≡ process_field (codes "retry") (strip_space (format_int n)) r
    taken = unfold process_line in refl

    unpadded : strip_space (format_int n) ≡ format_int n
    unpadded =
        strip_space-digits (format_int n)
          (unfold format_int in digits_loop-no_space (suc n) n [] refl)

    number :
        process_field (codes "retry") (strip_space (format_int n)) r
        ≡ record r { reconnection = some n }
    number = rw (unpadded, process_field-retry (format_int n) r, parse_digits-format_int n)
