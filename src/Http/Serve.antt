-- ===== src/Http/Serve.antt =====
-- httpadapter/http.go: the options of Serve, and Serve around the calls of the connection and the bus.
-- The headers that it sets and the contexts are net/http's.
pub mod Ends
mod Tests
use mathlib.Core.Bool.{not}
use sse_eventbus_go.Prelude.{
  ℕ, Bool, true, false, ◌&&◌, List, [], ◌∷◌, ◌++◌, Option, none, some, if◌then◌else◌, ◌==◌, Str,
  lookup, is_empty,
}
use sse_eventbus_go.Prelude.Int.{ℤ, pos}
use sse_eventbus_go.Errors.{Error, Fallible, is, wrap, invalid_client_id}
use sse_eventbus_go.Registry.Interface.{SubscriptionRegistry}
use sse_eventbus_go.Bus.Registration.{RegistrationOption, replay_from}
use sse_eventbus_go.Bus.State.{Bus}
use sse_eventbus_go.Bus.Clients.{disconnect}
use sse_eventbus_go.Http.Connection.{Connection, close}

-- config
pub record HttpConfig : Type 0 where
  pub timeout : ℤ
  pub write_timeout : ℤ
  pub registration : List (Option RegistrationOption)

pub data HttpOption : Type 0 where
  with_timeout with_write_timeout : ℤ → HttpOption
  with_registration : List (Option RegistrationOption) → HttpOption
  with_last_event_id : Str → HttpOption

pub apply_http_option : HttpOption → HttpConfig → HttpConfig
apply_http_option (with_timeout t) c = record c { timeout = t }
apply_http_option (with_write_timeout t) c = record c { write_timeout = t }
apply_http_option (with_registration options) c = record c {
  registration = c.registration ++ options;
}
apply_http_option (with_last_event_id id) c = record c {
  registration = c.registration ++ some (replay_from id) ∷ [];
}

pub apply_http_options : List (Option HttpOption) → HttpConfig → HttpConfig
unfolding apply_http_option
apply_http_options [] c = c
apply_http_options (none ∷ options) c = apply_http_options options c
apply_http_options (some option ∷ options) c =
    apply_http_options options (apply_http_option option c)

-- The configuration of Serve for the Last-Event-ID of the request.
pub configure_serve : Str → List (Option HttpOption) → HttpConfig
unfolding apply_http_options is_empty
configure_serve last_event_id options = apply_http_options options (record {
  timeout = pos 180000000000;
  write_timeout = pos 0;
  registration = if is_empty last_event_id then [] else some (replay_from last_event_id) ∷ [];
})

-- Where Serve is before its end: it has returned at once, it returns an error after the connection was
-- made, or it has registered the client and waits.
pub data Serving : Type 0 where
  returned : Error → Serving
  leaves : Error → Serving
  streams : Serving

abbrev pub is_deferred : Serving → Bool
is_deferred (returned e) = false
is_deferred (leaves e) = true
is_deferred streams = true

module _ {reg : SubscriptionRegistry} where
  abbrev pub after_register : Fallible × Bus reg → Serving × Bus reg
  after_register (some e, b) = (leaves e, b)
  after_register (none, b) = (streams, b)

  abbrev pub after_open : Fallible → Fallible × Bus reg → Bus reg → Serving × Bus reg
  after_open (some e) registered b = (leaves (wrap [] e), b)
  after_open none registered b = after_register registered

  abbrev pub in_context : Fallible → Fallible → Fallible × Bus reg → Bus reg → Serving × Bus reg
  in_context (some e) open_err registered b = (returned e, b)
  in_context none open_err registered b = after_open open_err registered b

  -- Serve up to its wait; `open_err` is what openStream returns, and `registered` what RegisterContext
  -- returns and makes of the bus.
  pub serve : Str → Fallible → Fallible → Fallible × Bus reg → Bus reg → Serving × Bus reg
  unfolding is_empty
  serve client_id ctx_err open_err registered b =
      if is_empty client_id
      then (returned (is invalid_client_id), b)
      else in_context ctx_err open_err registered b

  -- The deferred function of Serve, on the connection and the bus; `early` is the bus at the look of
  -- Disconnect without the lock of the ID, and `b` the bus under it.
  abbrev pub serve_deferred :
      (ℕ → ℕ → Bool) → Str → ℕ → Connection → Bus reg → Bus reg → Connection × Bus reg
  serve_deferred same client_id connection conn early b =
      ((close conn).1, (disconnect same client_id (some connection) early b).1)

  -- The end of Serve, with the connection `conn` as it is then.
  pub serve_end :
      (ℕ → ℕ → Bool)
      → Str
      → ℕ
      → Connection
      → Serving
      → Bus reg
      → Bus reg
      → Fallible × (Connection × Bus reg)
  unfolding disconnect close
  serve_end same client_id connection conn (returned e) early b = (some e, (conn, b))
  serve_end same client_id connection conn (leaves e) early b =
      (some e, serve_deferred same client_id connection conn early b)
  serve_end same client_id connection conn streams early b =
      (conn.err, serve_deferred same client_id connection conn early b)
