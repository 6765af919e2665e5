-- ===== src/Http.antt =====
-- httpadapter/http.go: the SSE connection over an http.ResponseWriter. The builder of Send only
-- grows, so its text is the concatenation of what is written to it.
pub mod Connection
pub mod Stream
pub mod Lines
pub mod Fields
pub mod Roundtrip
pub mod Serve
mod Tests
use sse_eventbus_go.Prelude.{
  ℕ, zero, suc, ◌+◌, ◌-◌, ◌/◌, ◌%◌, Bool, true, false, ◌&&◌, List, [], ◌∷◌, ◌++◌, map,
  if◌then◌else◌, ◌==◌, ltb, Str, codes, str_eq, is_empty,
}
use sse_eventbus_go.Prelude.Int.{ℤ, pos, negsuc, pos_part, ltb_ℤ}
use sse_eventbus_go.Event.{Message, default_event}

abbrev pub starts_with_byte : ℕ → Str → Bool
starts_with_byte b [] = false
starts_with_byte b (c ∷ s) = c == b

-- strings.ReplaceAll(value, "\r\n", "\n"): a CR goes where an LF follows it.
pub crlf_to_lf : Str → Str
crlf_to_lf [] = []
crlf_to_lf (c ∷ s) =
    let rest = crlf_to_lf s in if (c == 13) && starts_with_byte 10 s then rest else c ∷ rest

-- strings.ReplaceAll(value, "\r", "\n")
pub cr_to_lf : Str → Str
cr_to_lf [] = []
cr_to_lf (c ∷ s) = (if c == 13 then 10 else c) ∷ cr_to_lf s

abbrev pub onto_first : ℕ → List Str → List Str
onto_first c [] = (c ∷ []) ∷ []
onto_first c (line ∷ lines) = (c ∷ line) ∷ lines

-- strings.Split(value, "\n")
pub split_lf : Str → List Str
split_lf [] = [] ∷ []
split_lf (c ∷ s) = let rest = split_lf s in if c == 10 then [] ∷ rest else onto_first c rest

pub split_lines : Str → List Str
unfolding crlf_to_lf cr_to_lf split_lf
split_lines value = split_lf (cr_to_lf (crlf_to_lf value))

-- writeField
pub field : Str → Str → Str
field name value = name ++ 58 ∷ (if starts_with_byte 32 value then 32 ∷ value else value) ++ 10 ∷ []

-- strconv.FormatInt(n, 10) for n that is not negative. The fuel `n + 1` is more than its digits.
pub digits_loop : ℕ → ℕ → Str → Str
digits_loop zero n digits = digits
digits_loop (suc fuel) n digits =
    let digits' = (48 + n % 10) ∷ digits in
    let rest = digits_loop fuel (n / 10) digits' in if ltb n 10 then digits' else rest

pub format_int : ℕ → Str
unfolding digits_loop
format_int n = digits_loop (suc n) n []

-- The loop over the lines of a comment, and that over the lines of the data.
pub comment_lines : List Str → Str
comment_lines [] = []
comment_lines (line ∷ lines) = (58 ∷ line ++ 10 ∷ []) ++ comment_lines lines

pub data_lines : List Str → Str
unfolding field
data_lines [] = []
data_lines (line ∷ lines) = field (codes "data") line ++ data_lines lines

-- The parts of a frame, in the order in which Send writes them.
pub comment_part : Message → Str
unfolding comment_lines split_lines is_empty
comment_part m = if is_empty m.comment then [] else comment_lines (split_lines m.comment)

pub event_part : Message → Str
unfolding field is_empty str_eq
event_part m =
    if is_empty m.event
    then []
    else if str_eq m.event default_event
    then []
    else field (codes "event") m.event

pub id_part : Message → Str
unfolding field is_empty
id_part m = if is_empty m.id then [] else field (codes "id") m.id

-- Milliseconds() of a duration that is positive
pub retry_part : Message → Str
unfolding format_int
retry_part m =
    if ltb_ℤ (pos 0) m.retry
    then codes "retry:" ++ format_int (pos_part m.retry / 1_000_000) ++ 10 ∷ []
    else []

pub data_part : Message → Str
unfolding data_lines split_lines
data_part m = if m.has_data then data_lines (split_lines m.payload) else []

pub frame : Message → Str
frame m = comment_part m ++ event_part m ++ id_part m ++ retry_part m ++ data_part m ++ 10 ∷ []
