-- ===== src/Http/Tests.antt =====
-- A session of two messages, the second with an event name that is refused.
use mathlib.Core.List.{append-nil}
use sse_eventbus_go.Prelude.{
  true, false, List, [], ◌∷◌, ◌++◌, arith, none, ◌≡◌, refl, sym, codes, Str, Bool,
}
use sse_eventbus_go.Prelude.Int.{pos}
use sse_eventbus_go.Event.{Message}
use sse_eventbus_go.Http.{frame}
use sse_eventbus_go.Http.Stream.{Reader, read}
use sse_eventbus_go.Http.Roundtrip.{AllOneLine, AtRest, frames, received_all, read-frames}
use sse_eventbus_go.Http.Connection.{Connection, Answers, send}
use sse_eventbus_go.Http.Connection.Laws.{IsHonest, SendEnds, send-SendEnds}
use sse_eventbus_go.Http.Connection.Session.{SendCall, session, AllHonest, session_delivers}

abbrev reader : Reader
reader = record {
  payload = [];
  event_type = [];
  last_event_id = [];
  reconnection = none;
  dispatched = [];
}

abbrev hello : Message
hello = record {
  event = codes "news";
  payload = codes "a";
  has_data = true;
  retry = pos 2_000_000;
  id = codes "1";
  comment = [];
}

abbrev two_lines : Message
two_lines = record hello { event = 10 ∷ [] }

frame-hello :
    frame hello
    ≡ codes "event:news"
      ++ 10 ∷ codes "id:1"
      ++ 10 ∷ codes "retry:2"
      ++ 10 ∷ codes "data:a"
      ++ 10 ∷ 10 ∷ []
unfolding frame sse_eventbus_go.Http.comment_part sse_eventbus_go.Http.event_part
    sse_eventbus_go.Http.id_part sse_eventbus_go.Http.retry_part sse_eventbus_go.Http.data_part
frame-hello = refl

messages-AllOneLine : AllOneLine (hello ∷ hello ∷ [])
messages-AllOneLine = ground arith

reader-AtRest : AtRest reader
reader-AtRest = record { payload = refl; event_type = refl }

read-frames_example :
    read (frames (hello ∷ hello ∷ [])) [] false reader ≡ received_all (hello ∷ hello ∷ []) reader
read-frames_example = read-frames (hello ∷ hello ∷ []) reader messages-AllOneLine reader-AtRest

abbrev connection : Connection
connection = record { write_timeout = pos 0; is_closed = false; err = none; output = [] }

-- A response that takes everything.
abbrev takes : Str → Answers
takes s = record { deadline = none; written = s; write_err = none; flush_err = none }

takes-IsHonest : (m : Message) → IsHonest (takes (frame m)) (frame m)
takes-IsHonest m = ([], sym (append-nil (frame m)))

send-SendEnds_example :
    SendEnds hello connection (send false (takes (frame hello)) hello connection)
send-SendEnds_example =
    send-SendEnds false (takes (frame hello)) hello connection (takes-IsHonest hello)

abbrev call : Message → SendCall
call m = record { request_done = false; answers = takes (frame m); message = m }

abbrev calls : List SendCall
calls = call hello ∷ call two_lines ∷ []

calls-AllHonest : AllHonest calls
calls-AllHonest = (takes-IsHonest hello, (takes-IsHonest two_lines, tt))

stays_open : (session calls connection).1.is_closed ≡ false
unfolding session send frame sse_eventbus_go.Prelude.contains_any sse_eventbus_go.Prelude.elem
    sse_eventbus_go.Http.Connection.write_frame sse_eventbus_go.Http.comment_part
    sse_eventbus_go.Http.event_part sse_eventbus_go.Http.id_part sse_eventbus_go.Http.retry_part
    sse_eventbus_go.Http.data_part
stays_open = refl

session_delivers_example :
    read (session calls connection).1.output [] false reader
    ≡ received_all (session calls connection).0 reader
session_delivers_example =
    session_delivers calls connection reader calls-AllHonest refl reader-AtRest stays_open
