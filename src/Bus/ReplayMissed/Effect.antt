-- ===== src/Bus/ReplayMissed/Effect.antt =====
-- What a replay does on the bus: the pending events that it repeats are gone, and of the client's events
-- with an ID only those of the replay are current.
use sse_eventbus_go.Prelude.{
  ℕ, ◌+◌, Bool, false, ◌&&◌, ◌||◌, List, [], ◌∷◌, ◌≡◌, ◌==◌, Str, is_empty,
}
use sse_eventbus_go.Registry.Interface.{SubscriptionRegistry}
use sse_eventbus_go.Bus.State.{Bus, Pending}
use sse_eventbus_go.Bus.Clients.{is_current_event}

-- Whether an event with an ID waits for the client.
pub has_replayable : ℕ → List Pending → Bool
has_replayable o [] = false
has_replayable o (p ∷ queue) = (p.client == o && p.has_id) || has_replayable o queue

-- What the bus `d` after the start of a replay is for the client generation `o`, from the bus `b`.
pub record Superseded {reg : SubscriptionRegistry} (client_id : Str) (o : ℕ) (b d : Bus reg)
    : Type 0 where
  pub send_pending : has_replayable o d.send_queue ≡ false
  pub retry_pending : has_replayable o d.retry_queue ≡ false
  -- an event without an ID stays current, and one with an ID is so only in the new replay generation
  pub current :
      (id : Str) (generation : ℕ)
      → is_current_event client_id o id generation d
        ≡ is_empty id || generation == b.replay_generations o + 1
