-- ===== src/Client/Lifecycle.antt =====
-- bus.go: a client generation and its connection (retire, replaceWith, touch, isActive, heartbeat and
-- Bus.send). `inactive` is atomic; the other fields are under `mu`. What Send of the connection
-- returns is an argument; the calls of Close come after the lock is given back.
pub mod Calls
mod Tests
use mathlib.Core.Bool.{not}
use sse_eventbus_go.Prelude.{
  ℕ, ◌+◌, ◌%◌, ◌^◌, Bool, true, false, ◌&&◌, ◌||◌, Option, none, some, if◌then◌else◌,
}
use sse_eventbus_go.Errors.{Fallible, is, closed, inactive_client, errors_is}

-- The connection is known by a number, and times are nanoseconds. The turn counters of the client are
-- in Client.Turns, its replay generation in Bus.State.
pub record Client : Type 0 where
  pub connection : ℕ
  pub last_transfer : ℕ
  pub complete_after_message : Bool
  pub inactive : Bool
  pub connection_closed : Bool

-- The client of RegisterContext.
abbrev pub registered : ℕ → ℕ → Bool → Client
registered connection now complete = record {
  connection = connection;
  last_transfer = now;
  complete_after_message = complete;
  inactive = false;
  connection_closed = false;
}

unfoldable pub is_active : Client → Bool
is_active c = not c.inactive

unfoldable pub touch : ℕ → Client → Client
touch now c = record c { last_transfer = now }

-- inactive.Store(true)
unfoldable pub deactivate : Client → Client
deactivate c = record c { inactive = true }

-- The part of retire under the lock: whether it takes the connection to close it.
unfoldable pub retire_locked : Bool → Client → Bool × Client
retire_locked close_connection c =
    if close_connection && not c.connection_closed
    then (true, record c { connection_closed = true })
    else (false, c)

-- The part of replaceWith under the lock; `same` is sameConnection with the new connection.
unfoldable pub replace_locked : Bool → Client → Bool × Client
replace_locked same c =
    if not same && not c.connection_closed
    then (true, record c { connection_closed = true })
    else (false, c)

abbrev pub no_error : Fallible → Bool
no_error none = true
no_error (some e) = false

-- What Bus.send returns, whether it takes the connection to close it, and the attempts of the event,
-- an int32 as a bit pattern.
pub record Sent : Type 0 where
  pub attempted : Bool
  pub err : Fallible
  pub closes : Bool
  pub attempts : ℕ

-- Whether the outcome of a Send ends the client.
pub ends_client : Fallible → Client → Bool
unfolding errors_is
ends_client err c = (no_error err && c.complete_after_message) || errors_is err closed

-- The section of Bus.send from the call of Send on, under the lock; `inactive` may have been set since the
-- check.
abbrev pub send_checked : Fallible → ℕ → ℕ → Client → Sent × Client
send_checked err now attempts c = (
  record {
    attempted = true;
    err = err;
    closes = ends_client err c && not c.connection_closed;
    attempts = (attempts + 1) % 2 ^ 32;
  },
  record c {
    last_transfer = if no_error err then now else c.last_transfer;
    inactive = ends_client err c || c.inactive;
    connection_closed = ends_client err c || c.connection_closed;
  },
)

-- The whole section of Bus.send under the lock, if `inactive` is not set in between.
unfoldable pub send_locked : Fallible → ℕ → ℕ → Client → Sent × Client
unfolding ends_client
send_locked err now attempts c =
    if c.inactive
    then (
      record {
        attempted = false;
        err = some (is inactive_client);
        closes = false;
        attempts = attempts;
      },
      c,
    )
    else send_checked err now attempts c

-- heartbeat from the call of Send on.
abbrev pub beat_checked : Fallible → ℕ → Client → Client
beat_checked err now c = if no_error err then record c { last_transfer = now } else c

-- Whether the heartbeat was sent, and the client.
unfoldable pub heartbeat : Fallible → ℕ → Client → Bool × Client
unfolding touch
heartbeat err now c =
    if c.inactive then (false, c) else if no_error err then (true, touch now c) else (false, c)
