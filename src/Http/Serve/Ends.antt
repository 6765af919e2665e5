-- ===== src/Http/Serve/Ends.antt =====
-- What Serve leaves of its client and its connection.
use mathlib.Core.Bool.{not}
use sse_eventbus_go.Prelude.{
  ℕ, Bool, true, false, ◌&&◌, Option, none, some, ◌≡◌, refl, arith, Str, lookup, is_empty, ltb, ◌<◌,
  ◌≤◌, ◌⊎◌, inl, inr, Bool-cases,
}
use sse_eventbus_go.Errors.{Fallible}
use sse_eventbus_go.Registry.Interface.{SubscriptionRegistry}
use sse_eventbus_go.Bus.State.{Bus}
use sse_eventbus_go.Http.Connection.{Connection, close}
use sse_eventbus_go.Bus.Clients.{disconnect}
use sse_eventbus_go.Bus.Clients.Invariant.{IsValid}
use sse_eventbus_go.Bus.Clients.Steps.{Reach, Reach-IsValid}
use sse_eventbus_go.Bus.Clients.Later.{Reach-Later}
use sse_eventbus_go.Bus.Clients.Disconnect.{
  Disconnects, ended, unknown, other_connection, replaced, disconnect-Disconnects,
}
use sse_eventbus_go.Http.Serve.{Serving, returned, leaves, streams, is_deferred, serve, serve_end}

abbrev pub is_live_entry :
    {reg : SubscriptionRegistry} → (ℕ → ℕ → Bool) → ℕ → Bus reg → Option ℕ → Bool
is_live_entry same connection b none = false
is_live_entry same connection b (some o) =
    same (b.objects o).connection connection && not (b.objects o).inactive

-- Whether the client of the ID is active on the connection.
abbrev pub is_live : {reg : SubscriptionRegistry} → (ℕ → ℕ → Bool) → Str → ℕ → Bus reg → Bool
is_live same client_id connection b = is_live_entry same connection b (lookup client_id b.clients)

-- The deferred function runs once the connection was made.
is_deferred-serve :
    {reg : SubscriptionRegistry} (client_id : Str) (open_err : Fallible)
    (registered : Fallible × Bus reg) (start : Bus reg)
    → is_empty client_id ≡ false
    → is_deferred (serve client_id none open_err registered start).0 ≡ true
unfolding serve
is_deferred-serve client_id (some e) registered start named = rw named refl
is_deferred-serve client_id none (some e, b) start named = rw named refl
is_deferred-serve client_id none (none, b) start named = rw named refl

close-closed : (conn : Connection) → (close conn).1.is_closed ≡ true
unfolding close sse_eventbus_go.Http.Connection.close_locked
close-closed conn = ground arith

module _ {reg : SubscriptionRegistry} (same : ℕ → ℕ → Bool) (client_id : Str) (connection : ℕ)
    (early b : Bus reg) where
  -- The generation that the bus has for the ID, if it is not the one that the look saw.
  is_live-others :
      Reach early b
      → ((o : ℕ)
          → o < b.next_object
          → early.next_object ≤ o
          → same (b.objects o).connection connection ≡ false)
      → IsValid b
      → ((o : ℕ)
          → o < early.next_object
          → lookup client_id early.clients ≡ some o
          → lookup client_id b.clients ≡ some o
          → same (b.objects o).connection connection ≡ false)
      → is_live same client_id connection b ≡ false
  is_live-others path fresh v old = by_entry (lookup client_id b.clients) refl
    where
      by_age :
          (o : ℕ)
          → lookup client_id b.clients ≡ some o
          → ((ltb o early.next_object) ≡ true) ⊎ ((ltb o early.next_object) ≡ false)
          → same (b.objects o).connection connection ≡ false
      by_age o e (inl made) =
          let lt : o < early.next_object = ground arith in
          old o lt ((Reach-Later path).had client_id o lt e) e
      by_age o e (inr new) = fresh o (v.known client_id o e) (ground arith)

      by_entry :
          (entry : Option ℕ)
          → lookup client_id b.clients ≡ entry
          → is_live_entry same connection b entry ≡ false
      by_entry none e = refl
      by_entry (some o) e = ground (arith, by_age o e (Bool-cases (ltb o early.next_object)))

  is_live-Disconnects :
      (r : Bool × Bus reg)
      → Reach early b
      → ((o : ℕ)
          → o < b.next_object
          → early.next_object ≤ o
          → same (b.objects o).connection connection ≡ false)
      → IsValid b
      → Disconnects same client_id connection early b r
      → is_live same client_id connection r.1 ≡ false
  is_live-Disconnects (_, d) path fresh v (ended {o} found seen matched over kept subs store) =
      ground (arith, found, kept, over.inactive)
  is_live-Disconnects _ path fresh v (unknown missing) =
      is_live-others path fresh v (λ o lt e e'. absurd (ground (arith, missing, e)))
  is_live-Disconnects _ path fresh v (other_connection found other) =
      is_live-others path fresh v
        (λ o lt e e'. ground (arith, found, e, other, (Reach-Later path).same_connection o lt))
  is_live-Disconnects _ path fresh v (replaced found stale) =
      is_live-others path fresh v (λ o lt e e'. absurd (ground (arith, found, stale, e, e')))

  -- On a valid bus, Serve of a named client whose context was not done at its start closes its
  -- connection in the end, and the client of the ID, if there is one, is not active on this connection
  -- then: whatever other threads do between the two looks of Disconnect, but for registering a client
  -- with this connection.
  pub is_live-serve_end :
      (conn : Connection) (open_err : Fallible) (registered : Fallible × Bus reg) (start : Bus reg)
      → is_empty client_id ≡ false
      → IsValid early
      → Reach early b
      → ((o : ℕ)
          → o < b.next_object
          → early.next_object ≤ o
          → same (b.objects o).connection connection ≡ false)
      → (let (err, (closed_conn, d)) =
            serve_end same client_id connection conn
              (serve client_id none open_err registered start).0
              early
              b in
          (closed_conn.is_closed ≡ true) × (is_live same client_id connection d ≡ false))
  unfolding serve_end
  is_live-serve_end conn open_err registered start named v path fresh =
      by_serving (serve client_id none open_err registered start).0
        (is_deferred-serve client_id open_err registered start named)
    where
      gone :
          is_live same client_id connection (disconnect same client_id (some connection) early b).1
          ≡ false
      gone =
          is_live-Disconnects _ path fresh (Reach-IsValid path v)
            (disconnect-Disconnects same client_id connection early b)

      by_serving :
          (serving : Serving)
          → is_deferred serving ≡ true
          → (let r = serve_end same client_id connection conn serving early b in
              (r.1.0.is_closed ≡ true) × (is_live same client_id connection r.1.1 ≡ false))
      by_serving (returned e) deferred = cc
      by_serving (leaves e) deferred = (close-closed conn, gone)
      by_serving streams deferred = (close-closed conn, gone)
