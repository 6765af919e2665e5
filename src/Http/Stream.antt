-- ===== src/Http/Stream.antt =====
-- The event stream format of the HTML standard (9.2.6, "Interpreting an event stream"), which an
-- EventSource applies to the bytes of a response: the reference that frames are read back with.
use mathlib.Core.Bool.{not}
use sse_eventbus_go.Prelude.{
  ℕ, ◌+◌, ◌-◌, ◌*◌, Bool, ◌&&◌, ◌||◌, List, [], ◌∷◌, ◌++◌, Option, none, some, if◌then◌else◌, ◌==◌,
  leb, Str, codes, str_eq, is_empty, elem,
}

pub record Dispatched : Type 0 where
  pub type : Str
  pub payload : Str
  pub last_event_id : Str

-- The buffers of the standard, the reconnection time, and the events dispatched so far.
pub record Reader : Type 0 where
  pub payload : Str
  pub event_type : Str
  pub last_event_id : Str
  pub reconnection : Option ℕ
  pub dispatched : List Dispatched

-- A field's name and its value: the text up to the first colon, and what follows it.
pub before_colon : Str → Str
before_colon [] = []
before_colon (c ∷ s) = let rest = before_colon s in if c == 58 then [] else c ∷ rest

pub after_colon : Str → Str
after_colon [] = []
after_colon (c ∷ s) = let rest = after_colon s in if c == 58 then s else rest

-- "If value starts with a U+0020 SPACE character, remove it from value."
unfoldable pub strip_space : Str → Str
strip_space [] = []
strip_space (c ∷ s) = if c == 32 then s else c ∷ s

unfoldable pub parse_digits : ℕ → Str → Option ℕ
parse_digits n [] = some n
parse_digits n (c ∷ s) =
    let rest = parse_digits (n * 10 + (c - 48)) s in if leb 48 c && leb c 57 then rest else none

abbrev pub or_else {ℓ} : {A : Type ℓ} → Option A → Option A → Option A
or_else none o = o
or_else (some a) o = some a

unfoldable pub process_field : Str → Str → Reader → Reader
unfolding str_eq elem parse_digits
process_field name value r =
    if str_eq name (codes "event")
    then record r { event_type = value }
    else if str_eq name (codes "data")
    then record r { payload = r.payload ++ value ++ 10 ∷ [] }
    else if str_eq name (codes "id")
    then (if elem 0 value then r else record r { last_event_id = value })
    else if str_eq name (codes "retry")
    then record r { reconnection = or_else (parse_digits 0 value) r.reconnection }
    else r

-- "If the data buffer's last character is a U+000A LINE FEED character, remove it."
unfoldable pub drop_last_lf : Str → Str
drop_last_lf [] = []
drop_last_lf (c ∷ []) = if c == 10 then [] else c ∷ []
drop_last_lf (c ∷ d ∷ s) = c ∷ drop_last_lf (d ∷ s)

unfoldable pub dispatch : Reader → Reader
unfolding drop_last_lf is_empty
dispatch r = if is_empty r.payload then record r { event_type = [] } else record r {
  payload = [];
  event_type = [];
  dispatched =
      r.dispatched
      ++ (record {
        type = if is_empty r.event_type then codes "message" else r.event_type;
        payload = drop_last_lf r.payload;
        last_event_id = r.last_event_id;
      })
        ∷ [];
}

unfoldable pub process_line : Str → Reader → Reader
unfolding dispatch process_field before_colon after_colon strip_space
process_line [] r = dispatch r
process_line (c ∷ s) r =
    if c == 58
    then r
    else process_field (before_colon (c ∷ s)) (strip_space (after_colon (c ∷ s))) r

-- The bytes one by one, with the current line and whether the last byte was a CR: lines end by CR,
-- LF or CR LF.
unfoldable pub read : Str → Str → Bool → Reader → Reader
unfolding process_line
read [] line after_cr r = r
read (c ∷ s) line after_cr r =
    let ends = (c == 13) || ((c == 10) && not after_cr) in
    read s (if (c == 13) || (c == 10) then [] else line ++ c ∷ []) (c == 13)
      (if ends then process_line line r else r)
