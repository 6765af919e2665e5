-- ===== src/Bus/Clients/Disconnect.antt =====
-- What Disconnect does, on the client it is about and on one that replaced it.
use sse_eventbus_go.Prelude.{
  ℕ, Bool, true, false, Option, none, some, ◌≡◌, refl, inl, inr, Str, lookup, Bool-cases,
}
use sse_eventbus_go.Registry.Interface.{SubscriptionRegistry}
use sse_eventbus_go.Bus.State.{Bus, retire, remove_pending}
use sse_eventbus_go.Bus.Clients.{disconnect, disconnect_found, disconnect_locked, is_target}
use sse_eventbus_go.Bus.Clients.Removal.{Ended, disconnected-Ended}
use sse_eventbus_go.Bus.Clients.Invariant.{is_target-some}

-- How Disconnect ends: the current client, which has this connection, is over and stays with its
-- subscriptions and history; or the ID has no client, one with another connection, or got another
-- one since.
pub data Disconnects {reg : SubscriptionRegistry} (same : ℕ → ℕ → Bool) (client_id : Str)
    (connection : ℕ) (early b : Bus reg) : Bool × Bus reg → Type 0 where
  ended :
      {o : ℕ} {d : Bus reg}
      → lookup client_id b.clients ≡ some o
      → lookup client_id early.clients ≡ some o
      → same (early.objects o).connection connection ≡ true
      → Ended o b d
      → d.clients ≡ b.clients
      → d.subscriptions ≡ b.subscriptions
      → d.replay_store ≡ b.replay_store
      → Disconnects same client_id connection early b (true, d)
  unknown :
      lookup client_id early.clients ≡ none
      → Disconnects same client_id connection early b (false, b)
  other_connection :
      {o : ℕ}
      → lookup client_id early.clients ≡ some o
      → same (early.objects o).connection connection ≡ false
      → Disconnects same client_id connection early b (false, b)
  replaced :
      {o : ℕ}
      → lookup client_id early.clients ≡ some o
      → is_target (lookup client_id b.clients) o ≡ false
      → Disconnects same client_id connection early b (false, b)

module _ {reg : SubscriptionRegistry} where
  disconnect_locked-Disconnects :
      (same : ℕ → ℕ → Bool) (client_id : Str) (connection : ℕ) (early b : Bus reg) (o : ℕ)
      → lookup client_id early.clients ≡ some o
      → same (early.objects o).connection connection ≡ true
      → Disconnects same client_id connection early b (disconnect_locked client_id o b)
  unfolding disconnect_locked retire remove_pending
  disconnect_locked-Disconnects same client_id connection early b o e matched =
      elim (Bool-cases (is_target (lookup client_id b.clients) o)) [
        | inl current ↦ rw current (
            ended (is_target-some (lookup client_id b.clients) o current) e matched
              (disconnected-Ended o b) refl refl refl)
        | inr stale ↦ rw stale (replaced e stale)
      ]

  -- Disconnect closes the client only if it is the current one and its connection is the given one; a
  -- stale connection does nothing to a client that replaced its own.
  pub disconnect-Disconnects :
      (same : ℕ → ℕ → Bool) (client_id : Str) (connection : ℕ) (early b : Bus reg)
      → Disconnects same client_id connection early b
          (disconnect same client_id (some connection) early b)
  unfolding disconnect
  disconnect-Disconnects same client_id connection early b =
      by_entry (lookup client_id early.clients) refl
    where
      by_entry :
          (entry : Option ℕ)
          → lookup client_id early.clients ≡ entry
          → Disconnects same client_id connection early b
              (disconnect_found same client_id connection entry early b)
      by_entry none e = unknown e
      by_entry (some o) e = elim (Bool-cases (same (early.objects o).connection connection)) [
        | inl matched ↦
            rw matched (disconnect_locked-Disconnects same client_id connection early b o e matched)
        | inr other ↦ rw other (other_connection e other)
      ]
