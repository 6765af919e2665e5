-- ===== src/Http/Connection/Session.antt =====
-- A whole session on one response, and what a client reads of it.
use mathlib.Core.List.{append_assoc, append-nil}
use sse_eventbus_go.Prelude.{
  Bool, true, false, List, [], ◌∷◌, ◌++◌, none, some, ◌≡◌, refl, sym, ap, ◌∙◌,
}
use sse_eventbus_go.Errors.{Fallible}
use sse_eventbus_go.Event.{Message}
use sse_eventbus_go.Http.{frame}
use sse_eventbus_go.Http.Stream.{Reader, read}
use sse_eventbus_go.Http.Roundtrip.{AllOneLine, AtRest, frames, received_all, read-frames}
use sse_eventbus_go.Http.Connection.{Connection, Answers, send}
use sse_eventbus_go.Http.Connection.Laws.{IsHonest, SendEnds, sent, refused, broken, send-SendEnds}

-- A session: calls of Send one after the other, each with what the request's context and the
-- response answer. The messages are those for which Send returned nil.
pub record SendCall : Type 0 where
  pub request_done : Bool
  pub answers : Answers
  pub message : Message

abbrev acknowledged : SendCall → Fallible → List Message → List Message
acknowledged call none ms = call.message ∷ ms
acknowledged call (some e) ms = ms

unfoldable pub session : List SendCall → Connection → List Message × Connection
session [] c = ([], c)
session (call ∷ calls) c =
    let r = send call.request_done call.answers call.message c in
    let rest = session calls r.1 in (acknowledged call r.0 rest.0, rest.1)

abbrev pub AllHonest : List SendCall → Type 0
AllHonest [] = Unit {0}
AllHonest (call ∷ calls) = IsHonest call.answers (frame call.message) × AllHonest calls

-- A closed connection refuses every message and writes nothing.
send-closed :
    (request_done : Bool) (a : Answers) (m : Message) (c : Connection)
    → c.is_closed ≡ true
    → (send request_done a m c).1 ≡ c
unfolding send
send-closed request_done a m c h = rw h

session-closed :
    (calls : List SendCall) (c : Connection) → c.is_closed ≡ true → (session calls c).1 ≡ c
unfolding session
session-closed [] c h = refl
session-closed (call ∷ calls) c h =
    rw (send-closed call.request_done call.answers call.message c h) (session-closed calls c h)

-- What a session leaves: while it is open, whole frames of the acknowledged messages.
record Written (c : Connection) (r : List Message × Connection) : Type 0 where
  output : r.1.output ≡ c.output ++ frames r.0
  lines : AllOneLine r.0

session-Written :
    (calls : List SendCall) (c : Connection)
    → AllHonest calls
    → (session calls c).1.is_closed ≡ false
    → Written c (session calls c)
unfolding session frames
session-Written [] c h is_open = record { output = sym (append-nil c.output); lines = tt }
session-Written (call ∷ calls) c h is_open =
    by_end _ (send-SendEnds call.request_done call.answers call.message c h.0)
      (λ d. session-Written calls d h.1) is_open
  where
    by_end :
        (r : Fallible × Connection)
        → SendEnds call.message c r
        → ((d : Connection) → (session calls d).1.is_closed ≡ false → Written d (session calls d))
        → (session calls r.1).1.is_closed ≡ false
        → Written c (acknowledged call r.0 (session calls r.1).0, (session calls r.1).1)
    by_end _ (sent one_line was_open) ih q =
        let w = ih _ q in
        record {
          output = w.output ∙ append_assoc c.output (frame call.message) (frames _);
          lines = (one_line, w.lines);
        }
    by_end _ (refused e why) ih q = let w = ih c q in record { output = w.output; lines = w.lines }
    by_end _ (broken e d why shut) ih q = cc (session-closed calls d shut)

-- End to end: a connection that is still open has given its client exactly the messages for which
-- Send returned nil, in order. Whatever else was sent, refused or cut short in the session, an
-- EventSource that reads the response dispatches these and nothing else.
pub session_delivers :
    (calls : List SendCall) (c : Connection) (r : Reader)
    → AllHonest calls
    → c.output ≡ []
    → AtRest r
    → (session calls c).1.is_closed ≡ false
    → read (session calls c).1.output [] false r ≡ received_all (session calls c).0 r
session_delivers calls c r h fresh q is_open =
    let w = session-Written calls c h is_open in
    ap (λ s. read s [] false r) (w.output ∙ ap (λ s. s ++ frames (session calls c).0) fresh)
    ∙ read-frames (session calls c).0 r w.lines q
