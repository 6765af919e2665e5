-- ===== src/Bus/State.antt =====
-- bus.go: what the bus keeps of its clients, and the operations on one client generation in it
-- (removePending, retire, replaceWith). extension.go: the observations.
use mathlib.Core.Bool.{not}
use sse_eventbus_go.Prelude.{
  ℕ, Bool, true, false, ◌&&◌, ◌||◌, List, [], ◌∷◌, ◌++◌, Option, none, ◌==◌, if◌then◌else◌, Str,
  Dict,
}
use sse_eventbus_go.Errors.{Fallible}
use sse_eventbus_go.Client.Lifecycle.{Client, deactivate, retire_locked, replace_locked}
use sse_eventbus_go.Registry.Interface.{SubscriptionRegistry}
use sse_eventbus_go.Queue.View.{keep}
use sse_eventbus_go.Replay.{Store}

-- A send that waits in a queue: its client generation, and whether its event has an ID.
pub record Pending : Type 0 where
  pub client : ℕ
  pub has_id : Bool

pub data Operation : Type 0 where
  register_client unregister_client handle_event send_event replay_events publish_remote
        receive_remote :
      Operation

pub data Outcome : Type 0 where
  success noop error : Outcome

pub record Observation : Type 0 where
  pub operation : Operation
  pub outcome : Outcome
  pub client_id : Str
  pub event_name : Str
  pub direct : Bool
  pub replay : Bool
  pub complete_after_message : Bool
  pub last_event_id_present : Bool
  pub delivery_count : ℕ
  pub attempt : ℕ
  pub err : Fallible

-- An observation whose other fields have their zero values.
abbrev pub observation : Operation → Outcome → Str → Observation
observation operation outcome client_id = record {
  operation = operation;
  outcome = outcome;
  client_id = client_id;
  event_name = [];
  direct = false;
  replay = false;
  complete_after_message = false;
  last_event_id_present = false;
  delivery_count = 0;
  attempt = 0;
  err = none;
}

abbrev pub update {ℓ} : {A : Type ℓ} → ℕ → A → (ℕ → A) → ℕ → A
update o x f n = if n == o then x else f n

-- The state of the bus that these operations share. Client generations are numbered as they are made;
-- `closes` has the connections on which Close was called, in order.
pub record Bus (reg : SubscriptionRegistry) : Type 0 where
  pub clients : Dict ℕ
  pub objects : ℕ → Client
  pub next_object : ℕ
  pub replay_generations : ℕ → ℕ
  pub subscriptions : reg.State
  pub replay_store : Option Store
  pub send_queue : List Pending
  pub retry_queue : List Pending
  pub is_closed : Bool
  pub closes : List ℕ
  pub observations : List Observation

-- The match of removePending.
unfoldable pub matches : ℕ → Bool → Pending → Bool
matches client replayable_only p = (p.client == client) && (not replayable_only || p.has_id)

module _ {reg : SubscriptionRegistry} where
  -- removePending
  unfoldable pub remove_pending : ℕ → Bool → Bus reg → Bus reg
  unfolding keep matches
  remove_pending client replayable_only b = record b {
    send_queue = keep (matches client replayable_only) b.send_queue;
    retry_queue = keep (matches client replayable_only) b.retry_queue;
  }

  -- The end of retire and replaceWith: the object as it is left, and Close if its connection was taken.
  abbrev pub store_object : ℕ → Bool × Client → Bus reg → Bus reg
  store_object o (taken, c) b = record b {
    objects = update o c b.objects;
    closes = if taken then b.closes ++ c.connection ∷ [] else b.closes;
  }

  -- retire(true)
  unfoldable pub retire : ℕ → Bus reg → Bus reg
  unfolding deactivate retire_locked
  retire o b = store_object o (retire_locked true (deactivate (b.objects o))) b

  -- replaceWith; `same` is sameConnection.
  unfoldable pub replace_with : (ℕ → ℕ → Bool) → ℕ → ℕ → Bus reg → Bus reg
  unfolding deactivate replace_locked
  replace_with same connection o b =
      store_object o
        (replace_locked (same (b.objects o).connection connection) (deactivate (b.objects o))) b

  unfoldable pub observe : Observation → Bus reg → Bus reg
  observe o b = record b { observations = b.observations ++ o ∷ [] }
