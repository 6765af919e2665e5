-- ===== src/Http/Serve/Tests.antt =====
-- A client that Serve registers, and its end after another connection took the ID over.
use sse_eventbus_go.Prelude.{
  ℕ, Bool, true, false, ◌==◌, List, [], ◌∷◌, Option, none, some, ◌≡◌, refl, ◌<◌, ◌≤◌, arith,
  is_empty, Str, codes,
}
use sse_eventbus_go.Errors.{is, invalid_client_id}
use sse_eventbus_go.Registry.{new_memory_subscription_registry}
use sse_eventbus_go.Registry.Interface.{memory}
use sse_eventbus_go.Bus.Registration.{replay_from}
use sse_eventbus_go.Bus.State.{Bus}
use sse_eventbus_go.Bus.Clients.{register}
use sse_eventbus_go.Bus.Clients.Steps.{
  new_bus, new_bus-IsValid, Reach, here, step, registers, Reach-IsValid,
}
use sse_eventbus_go.Bus.Clients.Invariant.{IsValid}
use sse_eventbus_go.Http.Connection.{Connection}
use sse_eventbus_go.Prelude.Int.{pos}
use sse_eventbus_go.Http.Serve.{
  with_last_event_id, configure_serve, returned, streams, serve, serve_end,
}
use sse_eventbus_go.Http.Serve.Ends.{is_live, is_live-serve_end}

abbrev c1 : Str
c1 = codes "c1"

abbrev same : ℕ → ℕ → Bool
same left right = left == right

abbrev start : Bus memory
start = new_bus memory new_memory_subscription_registry none

abbrev once : Bus memory
once = (register same [] c1 (some 7) none none 5 false start).1

abbrev twice : Bus memory
twice = (register same [] c1 (some 8) none none 9 false once).1

abbrev open_conn : Connection
open_conn = record { write_timeout = pos 0; is_closed = false; err = none; output = [] }

cursors :
    (configure_serve (codes "1") (some (with_last_event_id (codes "2")) ∷ none ∷ [])).registration
    ≡ some (replay_from (codes "1")) ∷ some (replay_from (codes "2")) ∷ []
unfolding configure_serve
cursors = refl

unnamed : (serve [] none none (none, once) start).0 ≡ returned (is invalid_client_id)
unfolding serve
unnamed = refl

serving : (serve c1 none none (none, once) start).0 ≡ streams
unfolding serve
serving = refl

other_lives : is_live same c1 8 (serve_end same c1 7 open_conn streams twice twice).1.1 ≡ true
unfolding sse_eventbus_go.Prelude.lookup serve_end register sse_eventbus_go.Prelude.insert
    sse_eventbus_go.Prelude.str_eq
other_lives = refl

once-IsValid : IsValid once
once-IsValid =
    Reach-IsValid (step here (registers same [] c1 (some 7) none none 5 false))
      (new_bus-IsValid new_memory_subscription_registry none)

named : is_empty c1 ≡ false
unfolding is_empty
named = refl

-- Between the two looks, connection 8 takes the ID over.
taken_over : Reach once twice
taken_over = step here (registers same [] c1 (some 8) none none 9 false)

others_new :
    (o : ℕ)
    → o < twice.next_object
    → once.next_object ≤ o
    → same (twice.objects o).connection 7 ≡ false
unfolding register sse_eventbus_go.Prelude.lookup sse_eventbus_go.Prelude.insert
    sse_eventbus_go.Prelude.str_eq
others_new o lt le = ground arith

is_live-serve_end_example :
    (let (err, (closed_conn, d)) =
        serve_end same c1 7 open_conn (serve c1 none none (none, once) start).0 once twice in
      (closed_conn.is_closed ≡ true) × (is_live same c1 7 d ≡ false))
is_live-serve_end_example =
    is_live-serve_end same c1 7 once twice open_conn none (none, once) start named once-IsValid
      taken_over others_new
