-- ===== src/Http/Connection.antt =====
-- httpadapter/http.go: the connection's state, Send, writeFrame, Close and openStream. What the
-- ResponseWriter and its controller answer is an argument, one answer for each call they get.
pub mod Laws
pub mod Session
use sse_eventbus_go.Prelude.{
  ℕ, Bool, true, false, List, [], ◌∷◌, ◌++◌, Option, none, some, if◌then◌else◌, ◌==◌, Str, codes,
  contains_any, length,
}
use sse_eventbus_go.Prelude.Int.{ℤ, pos, ltb_ℤ}
use sse_eventbus_go.Errors.{Error, Fallible, is, wrap, join, closed, invalid_message, short_write}
use sse_eventbus_go.Event.{Message, line_breaks, null_or_line_breaks}
use sse_eventbus_go.Http.{frame}

-- `done` is closed when `is_closed` is set. `output` is what the response has been given.
pub record Connection : Type 0 where
  pub write_timeout : ℤ
  pub is_closed : Bool
  pub err : Fallible
  pub output : Str

-- The answers of setWriteDeadline, io.WriteString (the bytes taken and the error) and flush.
pub record Answers : Type 0 where
  pub deadline : Fallible
  pub written : Str
  pub write_err : Fallible
  pub flush_err : Fallible

unfoldable pub close_locked : Fallible → Connection → Connection
close_locked err c = if c.is_closed then c else record c { is_closed = true; err = err }

-- Close
unfoldable pub close : Connection → Fallible × Connection
unfolding close_locked
close c = (none, close_locked none c)

-- writeFrame up to its deferred functions: the error, and the connection with the bytes that went
-- out. Each step goes on only if the one before it gave no error.
abbrev pub after_write : Answers → Str → Fallible → Connection → Fallible × Connection
after_write a text (some e) c = (some e, c)
after_write a text none c =
    if length a.written == length text then (a.flush_err, c) else (some (is short_write), c)

abbrev pub after_deadline : Answers → Str → Fallible → Connection → Fallible × Connection
after_deadline a text (some e) c = (some e, c)
after_deadline a text none c =
    after_write a text a.write_err (record c { output = c.output ++ a.written })

pub write : Answers → Str → Connection → Fallible × Connection
write a text c =
    after_deadline a text (if ltb_ℤ (pos 0) c.write_timeout then a.deadline else none) c

-- The deferred function: an error closes the connection.
abbrev pub close_on_error : Fallible × Connection → Fallible × Connection
close_on_error (none, c) = (none, c)
close_on_error (some e, c) = (some e, close_locked (some e) c)

unfoldable pub write_frame : Answers → Str → Connection → Fallible × Connection
unfolding write close_locked
write_frame a text c = close_on_error (write a text c)

abbrev pub send_result : Fallible × Connection → Fallible × Connection
send_result (none, c) = (none, c)
send_result (some e, c) = (join (some (is closed)) (some e), c)

-- Send. `request_done` says whether the request's context has ended.
unfoldable pub send : Bool → Answers → Message → Connection → Fallible × Connection
send request_done a m c =
    if c.is_closed
    then (some (is closed), c)
    else if request_done
    then (some (is closed), c)
    else if contains_any m.event line_breaks
    then (some (wrap (codes "event contains a line break") (is invalid_message)), c)
    else if contains_any m.id null_or_line_breaks
    then (some (wrap (codes "ID contains a null or line break") (is invalid_message)), c)
    else if ltb_ℤ m.retry (pos 0)
    then (some (wrap (codes "retry duration is negative") (is invalid_message)), c)
    else send_result (write_frame a (frame m) c)

-- openStream
unfoldable pub open_stream : Answers → Connection → Fallible × Connection
unfolding write_frame
open_stream a c = if c.is_closed then (none, c) else write_frame a (58 ∷ 10 ∷ 10 ∷ []) c
