-- ===== src/Bus/Clients/Generations.antt =====
-- The generations of clients over any run of the bus: none comes back.
use sse_eventbus_go.Prelude.{
  ℕ, ◌<◌, false, some, ◌≡◌, refl, ◌≢◌, Str, lookup, is_empty, inl, inr, Bool-cases,
}
use sse_eventbus_go.Registry.Interface.{SubscriptionRegistry}
use sse_eventbus_go.Bus.State.{Bus}
use sse_eventbus_go.Bus.Clients.{is_target, is_current_event}
use sse_eventbus_go.Bus.Clients.Invariant.{is_target-some}
use sse_eventbus_go.Bus.Clients.Steps.{Reach}
use sse_eventbus_go.Bus.Clients.Later.{Reach-Later}

module _ {reg : SubscriptionRegistry} where
  -- An event of a client generation that was made but is not the one in the map for the ID, since it
  -- was replaced or removed, is not current after any further steps, whatever the replay generations
  -- are.
  pub is_current_event-stale :
      {b d : Bus reg} (client_id : Str) (o : ℕ) (id : Str) (generation : ℕ)
      → Reach b d
      → o < b.next_object
      → lookup client_id b.clients ≢ some o
      → is_current_event client_id o id generation d ≡ false
  unfolding is_current_event is_empty
  is_current_event-stale {b} {d} client_id o id generation path made gone =
      elim (Bool-cases (is_target (lookup client_id d.clients) o)) [
        | inl current ↦ absurd (
            gone (
              (Reach-Later path).had client_id o made
                (is_target-some (lookup client_id d.clients) o current)))
        | inr stale ↦ rw stale refl
      ]
