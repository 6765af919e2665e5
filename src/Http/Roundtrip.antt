-- ===== src/Http/Roundtrip.antt =====
-- Reading back the frames that Send writes.
use mathlib.Core.List.{append_assoc, append-nil}
use sse_eventbus_go.Prelude.{
  ℕ, ◌/◌, false, List, [], ◌∷◌, ◌++◌, ◌≡◌, refl, sym, ap, ◌∙◌, arith, if◌then◌else◌, Str, codes,
  Bool-cases, inl, inr, elem, str_eq, str_eq_iff, is_empty, Option, some,
}
use sse_eventbus_go.Prelude.Int.{pos, pos_part, ltb_ℤ}
use sse_eventbus_go.Event.{Message, default_event, line_breaks, null_or_line_breaks}
use sse_eventbus_go.Event.Valid.{Free}
use sse_eventbus_go.Http.{
  split_lines, comment_part, event_part, id_part, retry_part, data_part, frame,
}
use sse_eventbus_go.Http.Stream.{Reader, process_line, process_field, dispatch, drop_last_lf, read}
use sse_eventbus_go.Http.Lines.{
  normalize_breaks, read-line, split_lines-AllFree, unlines-split_lines,
}
use sse_eventbus_go.Http.Fields.{
  read-event-field, read-id-field, read-comment_lines, read-data_lines, read-retry,
}

-- A message whose name and ID are each one line, the ID with no null.
pub record IsOneLine (m : Message) : Type 0 where
  pub event : Free line_breaks m.event
  pub id : Free null_or_line_breaks m.id

abbrev type_after : Message → Reader → Str
type_after m r =
    if is_empty m.event
    then r.event_type
    else if str_eq m.event default_event
    then r.event_type
    else m.event

abbrev pub id_after : Message → Reader → Str
id_after m r = if is_empty m.id then r.last_event_id else m.id

abbrev pub reconnection_after : Message → Reader → Option ℕ
reconnection_after m r =
    if ltb_ℤ (pos 0) m.retry then some (pos_part m.retry / 1_000_000) else r.reconnection

Free-weaken : (s : Str) → Free null_or_line_breaks s → Free line_breaks s
Free-weaken [] f = tt
Free-weaken (c ∷ s) f = (f.0.1, Free-weaken s f.1)

no_null : (s : Str) → Free null_or_line_breaks s → elem 0 s ≡ false
unfolding elem
no_null [] f = refl
no_null (c ∷ s) f = ground (arith, f.0.0, no_null s f.1)

module _ (m : Message) (rest : Str) (r : Reader) where
  read-comment_part : read (comment_part m ++ rest) [] false r ≡ read rest [] false r
  unfolding comment_part
  read-comment_part = elim (Bool-cases (is_empty m.comment)) [
    | inl absent ↦ rw absent
    | inr present ↦
        rw present
          (read-comment_lines (split_lines m.comment) rest r (split_lines-AllFree m.comment))
  ]

  read-event_part :
      Free line_breaks m.event
      → read (event_part m ++ rest) [] false r
        ≡ read rest [] false (record r { event_type = type_after m r })
  unfolding event_part
  read-event_part f = elim (Bool-cases (is_empty m.event)) [
    | inl absent ↦ rw absent
    | inr present ↦ elim (Bool-cases (str_eq m.event default_event)) [
      | inl default ↦ rw (present, default)
      | inr named ↦
          rw (present, named) (read-event-field m.event rest r f ∙ unfold process_field in refl)
    ]
  ]

  read-id_part :
      Free null_or_line_breaks m.id
      → read (id_part m ++ rest) [] false r
        ≡ read rest [] false (record r { last_event_id = id_after m r })
  unfolding id_part
  read-id_part f = elim (Bool-cases (is_empty m.id)) [
    | inl absent ↦ rw absent
    | inr present ↦
        rw present
          (read-id-field m.id rest r (Free-weaken m.id f) ∙ ap (read rest [] false) accepted)
  ]
    where
      accepted : process_field (codes "id") m.id r ≡ record r { last_event_id = m.id }
      accepted = unfold process_field in rw (no_null m.id f)

  read-retry_part :
      read (retry_part m ++ rest) [] false r
      ≡ read rest [] false (record r { reconnection = reconnection_after m r })
  unfolding retry_part
  read-retry_part = elim (Bool-cases (ltb_ℤ (pos 0) m.retry)) [
    | inl positive ↦ rw positive (read-retry (pos_part m.retry / 1_000_000) rest r)
    | inr absent ↦ rw absent
  ]

  read-data_part :
      read (data_part m ++ rest) [] false r
      ≡ read rest [] false (record r {
        payload = r.payload ++ (if m.has_data then normalize_breaks m.payload ++ 10 ∷ [] else []);
      })
  unfolding data_part
  read-data_part = elim (Bool-cases m.has_data) [
    | inl present ↦
        rw (present, ← unlines-split_lines m.payload)
          (read-data_lines (split_lines m.payload) rest r (split_lines-AllFree m.payload))
    | inr absent ↦ rw (absent, append-nil r.payload)
  ]

drop_last_lf-append : (s : Str) → drop_last_lf (s ++ 10 ∷ []) ≡ s
unfolding drop_last_lf
drop_last_lf-append [] = refl
drop_last_lf-append (c ∷ []) = refl
drop_last_lf-append (c ∷ d ∷ s) = ap (◌∷◌ c) (drop_last_lf-append (d ∷ s))

-- What an EventSource makes of one message: it is dispatched with its data if it has any, under its
-- name or "message", with the ID now in force.
pub received : Message → Reader → Reader
received m r = record r {
  last_event_id = id_after m r;
  reconnection = reconnection_after m r;
  dispatched =
      if m.has_data
      then r.dispatched
        ++ (record {
          type = if is_empty m.event then default_event else m.event;
          payload = normalize_breaks m.payload;
          last_event_id = id_after m r;
        })
          ∷ []
      else r.dispatched;
}

-- Between two events the reader's buffers are empty.
pub record AtRest (r : Reader) : Type 0 where
  pub payload : r.payload ≡ []
  pub event_type : r.event_type ≡ []

is_empty-append : (s : Str) → is_empty (s ++ 10 ∷ []) ≡ false
unfolding is_empty
is_empty-append [] = refl
is_empty-append (c ∷ s) = refl

type_dispatched :
    (m : Message)
    → (if is_empty
          (if is_empty m.event then [] else if str_eq m.event default_event then [] else m.event)
        then codes "message"
        else if is_empty m.event
        then []
        else if str_eq m.event default_event
        then []
        else m.event)
      ≡ (if is_empty m.event then default_event else m.event)
unfolding is_empty
type_dispatched m = elim (Bool-cases (is_empty m.event)) [
  | inl absent ↦ rw absent
  | inr present ↦ elim (Bool-cases (str_eq m.event default_event)) [
    | inl default ↦ rw (present, default) (sym ((str_eq_iff m.event default_event).0 default))
    | inr named ↦ rw (present, named, present)
  ]
]

-- The end of a frame dispatches what its parts have left in the buffers.
dispatch-received :
    (m : Message) (r : Reader)
    → AtRest r
    → dispatch (record r {
      event_type = type_after m r;
      last_event_id = id_after m r;
      reconnection = reconnection_after m r;
      payload = r.payload ++ (if m.has_data then normalize_breaks m.payload ++ 10 ∷ [] else []);
    })
      ≡ received m r
unfolding dispatch received
dispatch-received m r q = elim (Bool-cases m.has_data) [
  | inl present ↦ rw (
    q.payload,
    q.event_type,
    present,
    is_empty-append (normalize_breaks m.payload),
    drop_last_lf-append (normalize_breaks m.payload),
    type_dispatched m,
  )
  | inr absent ↦ rw (q.payload, q.event_type, absent)
]

regroup :
    (a b c d e f rest : Str)
    → (a ++ b ++ c ++ d ++ e ++ f) ++ rest ≡ a ++ (b ++ (c ++ (d ++ (e ++ (f ++ rest)))))
regroup a b c d e f rest = simp append_assoc

read_blank_line :
    (rest : Str) (r : Reader) → read (10 ∷ rest) [] false r ≡ read rest [] false (dispatch r)
read_blank_line rest r =
    read-line [] [] rest r tt ∙ ap (read rest [] false) (unfold process_line in refl)

-- Reading back a frame: an EventSource that is between two events takes the bytes of a message with
-- a one-line name and ID as exactly that message. Comments and padding leave no trace, every line
-- ending in the data becomes LF, and the reader is between two events again for what follows.
pub read-frame :
    (m : Message) (rest : Str) (r : Reader)
    → IsOneLine m
    → AtRest r
    → read (frame m ++ rest) [] false r ≡ read rest [] false (received m r)
unfolding frame
read-frame m rest r v q =
    ap (λ s. read s [] false r)
      (regroup (comment_part m) (event_part m) (id_part m) (retry_part m) (data_part m) (10 ∷ [])
        rest)
    ∙ read-comment_part m _ r
    ∙ read-event_part m _ r v.event
    ∙ read-id_part m _ named v.id
    ∙ read-retry_part m _ identified
    ∙ read-data_part m _ timed
    ∙ read_blank_line rest _
    ∙ ap (read rest [] false) (dispatch-received m r q)
  where
    named : Reader
    named = record r { event_type = type_after m r }

    identified : Reader
    identified = record named { last_event_id = id_after m r }

    timed : Reader
    timed = record identified { reconnection = reconnection_after m r }

abbrev pub AllOneLine : List Message → Type 0
AllOneLine [] = Unit {0}
AllOneLine (m ∷ ms) = IsOneLine m × AllOneLine ms

-- The bytes of several frames, and what a reader makes of the messages one after the other.
unfoldable pub frames : List Message → Str
frames [] = []
frames (m ∷ ms) = frame m ++ frames ms

pub received_all : List Message → Reader → Reader
received_all [] r = r
received_all (m ∷ ms) r = received_all ms (received m r)

received-AtRest : (m : Message) (r : Reader) → AtRest r → AtRest (received m r)
unfolding received
received-AtRest m r q = record { payload = q.payload; event_type = q.event_type }

-- Reading back a stream: whatever messages with one-line names and IDs are sent, an EventSource
-- takes the bytes as exactly those messages, in order.
pub read-frames :
    (ms : List Message) (r : Reader)
    → AllOneLine ms
    → AtRest r
    → read (frames ms) [] false r ≡ received_all ms r
unfolding frames received_all
read-frames [] r v q = unfold read in refl
read-frames (m ∷ ms) r v q =
    read-frame m (frames ms) r v.0 q ∙ read-frames ms (received m r) v.1 (received-AtRest m r q)
