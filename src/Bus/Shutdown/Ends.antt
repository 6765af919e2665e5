-- ===== src/Bus/Shutdown/Ends.antt =====
-- What Close leaves of the clients that are in the map when it begins.
use sse_eventbus_go.Prelude.{ℕ, Bool, true, false, ◌||◌, ◌==◌, List, [], ◌∷◌, ◌≡◌, ◌⊎◌}
use sse_eventbus_go.Registry.Interface.{SubscriptionRegistry}
use sse_eventbus_go.Bus.State.{Bus}

-- Whether Close was called on the connection.
pub has_call : ℕ → List ℕ → Bool
has_call connection [] = false
has_call connection (call ∷ calls) = call == connection || has_call connection calls

-- A generation that is over for good.
abbrev pub IsEnded : {reg : SubscriptionRegistry} → ℕ → Bus reg → Type 0
IsEnded o b = ((b.objects o).inactive ≡ true) × ((b.objects o).connection_closed ≡ true)

module _ {reg : SubscriptionRegistry} where
  -- What the bus `b` leaves to a later `d` in Close: the map and the connections stay, what is over stays
  -- so, and a connection that has been marked as closed since then got its call of Close.
  record Keeps (b d : Bus reg) : Type 0 where
    same_clients : d.clients ≡ b.clients
    same_connection : (o : ℕ) → (d.objects o).connection ≡ (b.objects o).connection
    over : (o : ℕ) → (b.objects o).inactive ≡ true → (d.objects o).inactive ≡ true
    shut : (o : ℕ) → (b.objects o).connection_closed ≡ true → (d.objects o).connection_closed ≡ true
    calls : (c : ℕ) → has_call c b.closes ≡ true → has_call c d.closes ≡ true
    called :
        (o : ℕ)
        → (d.objects o).connection_closed ≡ true
        → ((b.objects o).connection_closed ≡ true)
          ⊎ (has_call (b.objects o).connection d.closes ≡ true)
