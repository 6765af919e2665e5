-- ===== src/Bus/Clients/Removal.antt =====
-- What unregister does, on the client they are about and on others.
use mathlib.Core.Bool.{not}
use sse_eventbus_go.Prelude.{
  ℕ, Bool, true, false, ◌&&◌, List, [], ◌∷◌, ◌++◌, Option, none, some, ◌≡◌, refl, ◌≢◌, ◌⊎◌, inl,
  inr, arith, ◌==◌, if◌then◌else◌, Str, lookup, str_eq, lookup-delete, Bool-cases,
}
use sse_eventbus_go.Errors.{Fallible}
use sse_eventbus_go.Client.Lifecycle.{deactivate, retire_locked}
use sse_eventbus_go.Registry.Interface.{SubscriptionRegistry}
use sse_eventbus_go.Queue.View.{keep}
use sse_eventbus_go.Replay.{Store, ReplayEvent}
use sse_eventbus_go.Replay.Laws.{history, history-clear_client}
use sse_eventbus_go.Bus.State.{
  Bus, Pending, noop, observation, unregister_client, matches, retire, remove_pending, observe,
}
use sse_eventbus_go.Bus.Clients.{
  expects, is_fresh, clear_history, unregister_client_locked, unregister_found, unregister,
}
use sse_eventbus_go.Bus.Clients.Effects.{has_pending}

has_pending-matches :
    (o p : ℕ) (queue : List Pending)
    → has_pending p (keep (matches o false) queue) ≡ not (o == p) && has_pending p queue
unfolding has_pending keep matches
has_pending-matches o p [] = ground arith
has_pending-matches o p (q ∷ queue) = ground (arith, has_pending-matches o p queue)

-- What the store has for a client; nothing without a store.
pub history_in : Str → Option Store → List ReplayEvent
history_in client_id none = []
history_in client_id (some s) = history client_id s

history_in-clear_history :
    (c d : Str) (store : Option Store)
    → history_in d (clear_history c store) ≡ (if str_eq c d then [] else history_in d store)
unfolding history_in
history_in-clear_history c d none = ground arith
history_in-clear_history c d (some s) = history-clear_client c d s

-- A generation that is over: inactive, its connection closed once, and nothing waits for it, while
-- other generations are as they were.
pub record Ended {reg : SubscriptionRegistry} (o : ℕ) (b d : Bus reg) : Type 0 where
  pub inactive : (d.objects o).inactive ≡ true
  pub connection_closed : (d.objects o).connection_closed ≡ true
  pub closed_once : d.closes ≡ (
      if (b.objects o).connection_closed
      then b.closes
      else b.closes ++ (b.objects o).connection ∷ [])
  pub send_pending :
      (p : ℕ) → has_pending p d.send_queue ≡ not (o == p) && has_pending p b.send_queue
  pub retry_pending :
      (p : ℕ) → has_pending p d.retry_queue ≡ not (o == p) && has_pending p b.retry_queue
  pub other_objects : (p : ℕ) → p ≢ o → d.objects p ≡ b.objects p

-- What the client had on the bus is gone, and what other clients have is as it was.
pub record Forgotten {reg : SubscriptionRegistry} (client_id : Str) (b d : Bus reg) : Type 0 where
  pub entry :
      (id : Str) → lookup id d.clients ≡ (if str_eq client_id id then none else lookup id b.clients)
  pub subscribed :
      (id f : Str)
      → reg.is_subscribed id f d.subscriptions
        ≡ not (str_eq client_id id) && reg.is_subscribed id f b.subscriptions
  pub retained :
      (id : Str)
      → history_in id d.replay_store
        ≡ (if str_eq client_id id then [] else history_in id b.replay_store)

-- How unregister ends: the client is gone; it is spared, being another generation than the expected one
-- or seen too lately; or there is none, which is observed if asked for and none was expected.
pub data Unregisters {reg : SubscriptionRegistry} (client_id : Str) (expected : Option ℕ)
    (stale_before : Option ℕ) (observe_noop : Bool) (b : Bus reg) : Bool × Bus reg → Type 0 where
  gone :
      {o : ℕ} {d : Bus reg}
      → lookup client_id b.clients ≡ some o
      → expects expected (some o) ≡ true
      → is_fresh stale_before (b.objects o) ≡ false
      → Ended o b d
      → Forgotten client_id b d
      → Unregisters client_id expected stale_before observe_noop b (true, d)
  spared :
      {o : ℕ}
      → lookup client_id b.clients ≡ some o
      → (expects expected (some o) ≡ false) ⊎ (is_fresh stale_before (b.objects o) ≡ true)
      → Unregisters client_id expected stale_before observe_noop b (false, b)
  absent_observed :
      lookup client_id b.clients ≡ none
      → expects expected none && observe_noop ≡ true
      → Unregisters client_id expected stale_before observe_noop b
          (false, observe (observation unregister_client noop client_id) b)
  absent :
      lookup client_id b.clients ≡ none
      → expects expected none && observe_noop ≡ false
      → Unregisters client_id expected stale_before observe_noop b (false, b)

module _ {reg : SubscriptionRegistry} where
  pub disconnected-Ended : (o : ℕ) (b : Bus reg) → Ended o b (remove_pending o false (retire o b))
  unfolding retire remove_pending deactivate retire_locked
  disconnected-Ended o b = record {
    inactive = ground arith;
    connection_closed = ground arith;
    closed_once = ground arith;
    send_pending = λ p. has_pending-matches o p b.send_queue;
    retry_pending = λ p. has_pending-matches o p b.retry_queue;
    other_objects = λ p other. ground (arith, other);
  }

  unregister_client_locked-Ended :
      (client_id : Str) (o : ℕ) (close_err : Fallible) (b : Bus reg)
      → Ended o b (unregister_client_locked client_id o close_err b)
  unfolding unregister_client_locked retire remove_pending observe deactivate retire_locked
  unregister_client_locked-Ended client_id o close_err b = record {
    inactive = ground arith;
    connection_closed = ground arith;
    closed_once = ground arith;
    send_pending = λ p. has_pending-matches o p b.send_queue;
    retry_pending = λ p. has_pending-matches o p b.retry_queue;
    other_objects = λ p other. ground (arith, other);
  }

  unregister_client_locked-Forgotten :
      (client_id : Str) (o : ℕ) (close_err : Fallible) (b : Bus reg)
      → reg.IsValid b.subscriptions
      → Forgotten client_id b (unregister_client_locked client_id o close_err b)
  unfolding unregister_client_locked retire remove_pending observe
  unregister_client_locked-Forgotten client_id o close_err b v = record {
    entry = λ id. lookup-delete client_id id b.clients;
    subscribed = λ id f. reg.is_subscribed-unsubscribe_all client_id id f b.subscriptions v;
    retained = λ id. history_in-clear_history client_id id b.replay_store;
  }

  -- Unregister, attempt and expirationLoop: a client that is there, is the expected generation and was
  -- not seen too lately goes, with its subscriptions, pending sends and history; any other call leaves
  -- the bus as it is but for an observation.
  pub unregister-Unregisters :
      (client_id : Str) (expected : Option ℕ) (stale_before : Option ℕ) (observe_noop : Bool)
      (close_err : Fallible) (b : Bus reg)
      → reg.IsValid b.subscriptions
      → Unregisters client_id expected stale_before observe_noop b
          (unregister client_id expected stale_before observe_noop close_err b)
  unfolding unregister
  unregister-Unregisters client_id expected stale_before observe_noop close_err b v =
      by_entry (lookup client_id b.clients) refl
    where
      by_entry :
          (entry : Option ℕ)
          → lookup client_id b.clients ≡ entry
          → Unregisters client_id expected stale_before observe_noop b
              (unregister_found client_id expected stale_before observe_noop close_err entry b)
      by_entry none e = elim (Bool-cases (expects expected none && observe_noop)) [
        | inl seen ↦ rw seen (absent_observed e seen)
        | inr unseen ↦ rw unseen (absent e unseen)
      ]
      by_entry (some o) e = elim (Bool-cases (expects expected (some o))) [
        | inl ours ↦ elim (Bool-cases (is_fresh stale_before (b.objects o))) [
          | inl fresh ↦ rw (ours, fresh) (spared e (inr fresh))
          | inr old ↦
              rw (ours, old)
                (gone e ours old (unregister_client_locked-Ended client_id o close_err b)
                  (unregister_client_locked-Forgotten client_id o close_err b v))
        ]
        | inr other ↦ rw other (spared e (inl other))
      ]
