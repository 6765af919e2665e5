-- ===== src/Bus/Clients/Steps.antt =====
-- The clients of the bus over any interleaving of its operations, as a step relation. Sends and
-- heartbeats do not take the lock of a client ID: they run between the sections of unregister, and
-- the client may become inactive between their check and their end.
use sse_eventbus_go.Prelude.{
  ℕ, Bool, true, false, List, [], Option, none, some, ◌≡◌, refl, arith, Str, lookup, lookup-delete,
}
use sse_eventbus_go.Errors.{Fallible}
use sse_eventbus_go.Client.Lifecycle.{deactivate, send_checked, beat_checked}
use sse_eventbus_go.Replay.{Store}
use sse_eventbus_go.Registry.Interface.{SubscriptionRegistry}
use sse_eventbus_go.Bus.Registration.{RegistrationOption}
use sse_eventbus_go.Bus.State.{
  Bus, Pending, store_object, retire, observe, Observation, remove_pending,
}
use sse_eventbus_go.Bus.Clients.{
  register, take_out, discard, disconnect, disconnect_found, disconnect_locked, is_target, is_fresh,
  expects,
}
use sse_eventbus_go.Bus.Clients.Invariant.{IsValid, retire-IsValid, remove_pending-IsValid}
use sse_eventbus_go.Bus.Clients.Register.{
  register-IsValid, IsValid-others, Keeps, keeps, Keeps-if, kept,
}

-- A bus without clients, as New makes it.
abbrev pub new_bus : (reg : SubscriptionRegistry) → reg.State → Option Store → Bus reg
new_bus reg subscriptions replay_store = record {
  clients = [];
  objects = λ o. record {
    connection = 0;
    last_transfer = 0;
    complete_after_message = false;
    inactive = true;
    connection_closed = false;
  };
  next_object = 0;
  replay_generations = λ o. 0;
  subscriptions = subscriptions;
  replay_store = replay_store;
  send_queue = [];
  retry_queue = [];
  is_closed = false;
  closes = [];
  observations = [];
}

module _ {reg : SubscriptionRegistry} where
  abbrev pub send_to : Fallible → ℕ → ℕ → ℕ → Bus reg → Bus reg
  send_to err now attempts o b =
      let sent = send_checked err now attempts (b.objects o) in
      store_object o (sent.0.closes, sent.1) b

  pub data Step (b : Bus reg) : Bus reg → Type 0 where
    registers :
        (same : ℕ → ℕ → Bool) (options : List (Option RegistrationOption)) (client_id : Str)
        (connection : Option ℕ) (ctx_err lock_err : Fallible) (now : ℕ) (closes_meanwhile : Bool)
        → Step b
            (register same options client_id connection ctx_err lock_err now closes_meanwhile b).1
    -- the sections of unregister, the last of which is `retires`, and its observation `observes`
    takes_out :
        (client_id : Str) (expected stale_before : Option ℕ) (o : ℕ)
        → lookup client_id b.clients ≡ some o
        → expects expected (some o) ≡ true
        → is_fresh stale_before (b.objects o) ≡ false
        → Step b (take_out client_id b)
    discards : (client_id : Str) (o : ℕ) → Step b (discard client_id o b)
    observes : (seen : Observation) → Step b (observe seen b)
    disconnects :
        (same : ℕ → ℕ → Bool) (client_id : Str) (connection : Option ℕ) (early : Bus reg)
        → Step b (disconnect same client_id connection early b).1
    -- the end of a send or a heartbeat whose check the client passed, then or earlier
    sends : (err : Fallible) (now attempts o : ℕ) → Step b (send_to err now attempts o b)
    beats :
        (err : Fallible) (now o : ℕ)
        → Step b (store_object o (false, beat_checked err now (b.objects o)) b)
    -- a client whose last attempt failed, and what replaceWith and retire do before their lock
    gives_up : (o : ℕ) → Step b (store_object o (false, deactivate (b.objects o)) b)
    -- Close, and the clients that it retires in the end
    closes_bus : Step b (record b { is_closed = true })
    retires : (o : ℕ) → Step b (retire o b)
    -- the queues, the subscriptions, the history and the replays change in any way
    others :
        (send_queue retry_queue : List Pending) (subscriptions : reg.State)
        (replay_store : Option Store) (replay_generations : ℕ → ℕ)
        → Step b (record b {
          send_queue = send_queue;
          retry_queue = retry_queue;
          subscriptions = subscriptions;
          replay_store = replay_store;
          replay_generations = replay_generations;
        })

  pub data Reach (b : Bus reg) : Bus reg → Type 0 where
    here : Reach b b
    step : {c d : Bus reg} → Reach b c → Step c d → Reach b d

  take_out-IsValid : (client_id : Str) (b : Bus reg) → IsValid b → IsValid (take_out client_id b)
  take_out-IsValid client_id b v = record {
    known = λ id p e. ground (arith, lookup-delete client_id id b.clients, v.known id p);
    apart = λ id id' p e e'. ground (
      arith,
      lookup-delete client_id id b.clients,
      lookup-delete client_id id' b.clients,
      v.apart id id' p,
    );
    ended = v.ended;
  }

  discard-IsValid :
      (client_id : Str) (o : ℕ) (b : Bus reg) → IsValid b → IsValid (discard client_id o b)
  unfolding remove_pending
  discard-IsValid client_id o b v = record { known = v.known; apart = v.apart; ended = v.ended }

  disconnect-IsValid :
      (same : ℕ → ℕ → Bool) (client_id : Str) (connection : Option ℕ) (early b : Bus reg)
      → IsValid b
      → IsValid (disconnect same client_id connection early b).1
  unfolding disconnect disconnect_locked
  disconnect-IsValid same client_id none early b v = v
  disconnect-IsValid same client_id (some connection) early b v =
      kept (found_early (lookup client_id early.clients))
    where
      found_early :
          (entry : Option ℕ)
          → Keeps IsValid (disconnect_found same client_id connection entry early b)
      found_early none = keeps v
      found_early (some o) =
          Keeps-if (same (early.objects o).connection connection)
            (Keeps-if (is_target (lookup client_id b.clients) o)
              (keeps (remove_pending-IsValid o false (retire o b) (retire-IsValid o b v)))
              (keeps v))
            (keeps v)

  pub send_to-IsValid :
      (err : Fallible) (now attempts o : ℕ) (b : Bus reg)
      → IsValid b
      → IsValid (send_to err now attempts o b)
  send_to-IsValid err now attempts o b v = record {
    known = v.known;
    apart = v.apart;
    ended = λ p shut. ground (arith, v.ended p);
  }

  beat-IsValid :
      (err : Fallible) (now o : ℕ) (b : Bus reg)
      → IsValid b
      → IsValid (store_object o (false, beat_checked err now (b.objects o)) b)
  beat-IsValid err now o b v = record {
    known = v.known;
    apart = v.apart;
    ended = λ p shut. ground (arith, v.ended p);
  }

  give_up-IsValid :
      (o : ℕ) (b : Bus reg)
      → IsValid b
      → IsValid (store_object o (false, deactivate (b.objects o)) b)
  unfolding deactivate
  give_up-IsValid o b v = record {
    known = v.known;
    apart = v.apart;
    ended = λ p shut. ground (arith, v.ended p);
  }

  step-IsValid : {b d : Bus reg} → Step b d → IsValid b → IsValid d
  unfolding observe
  step-IsValid {b} (registers same options client_id connection ctx_err lock_err now shut) v =
      register-IsValid same options client_id connection ctx_err lock_err now shut b v
  step-IsValid {b} (takes_out client_id expected stale_before o found ours old) v =
      take_out-IsValid client_id b v
  step-IsValid {b} (discards client_id o) v = discard-IsValid client_id o b v
  step-IsValid {b} (observes seen) v = IsValid-others b _ _ _ _ _ v
  step-IsValid {b} (disconnects same client_id connection early) v =
      disconnect-IsValid same client_id connection early b v
  step-IsValid {b} (sends err now attempts o) v = send_to-IsValid err now attempts o b v
  step-IsValid {b} (beats err now o) v = beat-IsValid err now o b v
  step-IsValid {b} (gives_up o) v = give_up-IsValid o b v
  step-IsValid closes_bus v = record { known = v.known; apart = v.apart; ended = v.ended }
  step-IsValid {b} (retires o) v = retire-IsValid o b v
  step-IsValid (others _ _ _ _ _) v = record { known = v.known; apart = v.apart; ended = v.ended }

  pub new_bus-IsValid :
      (subscriptions : reg.State) (replay_store : Option Store)
      → IsValid (new_bus reg subscriptions replay_store)
  unfolding lookup
  new_bus-IsValid subscriptions replay_store = record {
    known = λ id p e. cc;
    apart = λ id id' p e e'. cc;
    ended = λ p e. refl;
  }

  pub Reach-IsValid : {b d : Bus reg} → Reach b d → IsValid b → IsValid d
  Reach-IsValid here v = v
  Reach-IsValid (step path last) v = step-IsValid last (Reach-IsValid path v)
