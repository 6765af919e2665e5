-- ===== src/Bus/Clients/Effects.antt =====
-- What registration, unregistration and disconnection do, on the client they are about and on others.
use sse_eventbus_go.Bus.Clients.{is_target}
use mathlib.Core.Bool.{not}
use sse_eventbus_go.Prelude.{
  ℕ, ◌<◌, Bool, true, false, ◌&&◌, ◌||◌, List, [], ◌∷◌, ◌++◌, Option, none, some, ◌≡◌, refl, ◌∙◌,
  arith, ◌==◌, if◌then◌else◌, Str, lookup, insert, str_eq, str_eq_iff, has, is_empty, lookup-insert,
}
use sse_eventbus_go.Client.Lifecycle.{registered}
use sse_eventbus_go.Registry.Interface.{SubscriptionRegistry}
use sse_eventbus_go.Queue.View.{keep}
use sse_eventbus_go.Bus.Subscriptions.{
  subscribe, unsubscribe_from_all, is_subscribed-subscribe_each, is_subscribed-unsubscribe_from_all,
}
use sse_eventbus_go.Bus.Registration.{RegistrationConfig}
use sse_eventbus_go.Bus.State.{
  Bus, Pending, matches, replace_with, remove_pending, observe, observation, register_client,
  success,
}
use sse_eventbus_go.Bus.Clients.{
  done, replace_existing, new_object, subscribe_all, change_subscriptions, register_locked,
}
use sse_eventbus_go.Bus.Clients.Invariant.{IsValid}

unfoldable pub has_pending : ℕ → List Pending → Bool
has_pending o [] = false
has_pending o (p ∷ queue) = (p.client == o) || has_pending o queue

-- The pending sends of one client, in order.
unfoldable pub pending_of : ℕ → List Pending → List Pending
pending_of o [] = []
pending_of o (p ∷ queue) = let rest = pending_of o queue in if p.client == o then p ∷ rest else rest

pending_of-keep :
    (o other : ℕ) (queue : List Pending)
    → pending_of other (keep (matches o false) queue)
      ≡ (if o == other then [] else pending_of other queue)
unfolding pending_of keep matches
pending_of-keep o other [] = ground arith
pending_of-keep o other (p ∷ queue) = ground (arith, pending_of-keep o other queue)

has_pending-keep :
    (o : ℕ) (queue : List Pending) → has_pending o (keep (matches o false) queue) ≡ false
unfolding has_pending keep matches
has_pending-keep o [] = refl
has_pending-keep o (p ∷ queue) = ground (arith, has_pending-keep o queue)

module _ (reg : SubscriptionRegistry) where
  open reg use {State, is_subscribed}

  is_subscribed-subscribe_one :
      (c e d f : Str) (r : State)
      → is_subscribed d f (subscribe reg c (e ∷ []) r)
        ≡ (str_eq d c && str_eq f e && not (is_empty f)) || is_subscribed d f r
  unfolding subscribe is_empty has
  is_subscribed-subscribe_one c e d f r =
      is_subscribed-subscribe_each reg c (e ∷ []) d f r ∙ ground arith

  is_subscribed-subscribe_all :
      (c : Str) (events : List Str) (d f : Str) (r : State)
      → is_subscribed d f (subscribe_all reg c events r)
        ≡ (str_eq d c && has f events && not (is_empty f)) || is_subscribed d f r
  unfolding subscribe_all has
  is_subscribed-subscribe_all c [] d f r = ground arith
  is_subscribed-subscribe_all c (e ∷ events) d f r =
      is_subscribed-subscribe_all c events d f (subscribe reg c (e ∷ []) r) ∙ one_more
    where
      one_more :
          (str_eq d c && has f events && not (is_empty f))
            || is_subscribed d f (subscribe reg c (e ∷ []) r)
          ≡ (str_eq d c && (str_eq f e || has f events) && not (is_empty f)) || is_subscribed d f r
      one_more = ground (arith, is_subscribed-subscribe_one c e d f r)

  -- The client has the named events, and of its other events those it had, or none if they are
  -- replaced; an empty name is not added.
  pub is_subscribed-change_subscriptions :
      (c : Str) (config : RegistrationConfig) (d f : Str) (r : State)
      → reg.IsValid r
      → is_subscribed d f (change_subscriptions reg c config r) ≡ (
          if str_eq c d
          then ((has f config.events && not (is_empty f))
              || (is_subscribed d f r && (not config.replace || has f config.events)))
          else is_subscribed d f r)
  unfolding change_subscriptions
  is_subscribed-change_subscriptions c config d f r v =
      is_subscribed-subscribe_all c config.events d f
        (if config.replace then unsubscribe_from_all reg c config.events r else r)
      ∙ ground (
        arith,
        is_subscribed-unsubscribe_from_all reg c config.events d f r v,
        str_eq_iff c d,
        str_eq_iff d c,
      )

-- What a registration that is not refused leaves.
pub record Registered {reg : SubscriptionRegistry} (same : ℕ → ℕ → Bool)
    (config : RegistrationConfig) (client_id : Str) (connection now : ℕ) (b d : Bus reg)
    : Type 0 where
  -- the ID has a new, active generation with the connection, and the other IDs keep theirs
  pub current :
      (id : Str)
      → lookup id d.clients
        ≡ (if str_eq client_id id then some (b.next_object) else lookup id b.clients)
  pub fresh : d.objects b.next_object ≡ registered connection now config.complete
  pub no_replay_yet : d.replay_generations b.next_object ≡ 0
  pub history_kept : d.replay_store ≡ b.replay_store
  -- the old generation is inactive, and nothing waits for it
  pub old_gone :
      (o : ℕ)
      → lookup client_id b.clients ≡ some o
      → ((d.objects o).inactive ≡ true)
        × (has_pending o d.send_queue ≡ false)
        × (has_pending o d.retry_queue ≡ false)
  -- its connection is closed, unless that was done or it is the connection that is registered again
  pub old_closed :
      (o : ℕ)
      → lookup client_id b.clients ≡ some o
      → d.closes ≡ (
          if same (b.objects o).connection connection || (b.objects o).connection_closed
          then b.closes
          else b.closes ++ (b.objects o).connection ∷ [])
  pub none_closed : lookup client_id b.clients ≡ none → d.closes ≡ b.closes
  pub other_objects :
      (o : ℕ)
      → o < b.next_object
      → (lookup client_id b.clients ≡ some o → ⊥)
      → d.objects o ≡ b.objects o
  -- what waits for any other generation waits on, in its order
  pub other_sends :
      (o : ℕ)
      → pending_of o d.send_queue
        ≡ (if is_target (lookup client_id b.clients) o then [] else pending_of o b.send_queue)
  pub other_retries :
      (o : ℕ)
      → pending_of o d.retry_queue
        ≡ (if is_target (lookup client_id b.clients) o then [] else pending_of o b.retry_queue)
  pub other_replays : (o : ℕ) → o < b.next_object → d.replay_generations o ≡ b.replay_generations o
  pub subscribed :
      (id f : Str)
      → reg.is_subscribed id f d.subscriptions ≡ (
          if str_eq client_id id
          then ((has f config.events && not (is_empty f))
              || (reg.is_subscribed id f b.subscriptions
                  && (not config.replace || has f config.events)))
          else reg.is_subscribed id f b.subscriptions)

module _ {reg : SubscriptionRegistry} (same : ℕ → ℕ → Bool) (config : RegistrationConfig)
    (client_id : Str) (connection now : ℕ) (b : Bus reg) where
  -- The bus that a registration leaves, from the generation that it finds.
  abbrev registered_bus : Option ℕ → Bus reg
  registered_bus existing =
      let replaced =
        replace_existing same connection existing
          (new_object (registered connection now config.complete) b) in
      observe
        (record (observation register_client success client_id) {
          complete_after_message = config.complete;
        })
        (record replaced {
          subscriptions = change_subscriptions reg client_id config replaced.subscriptions;
          is_closed = false;
          clients = insert client_id b.next_object replaced.clients;
        })

  register_locked-done :
      b.is_closed ≡ false
      → register_locked same config client_id connection now false b
        ≡ (done config.replay, registered_bus (lookup client_id b.clients))
  unfolding register_locked
  register_locked-done open_ = ground arith

  registered_bus-Registered :
      (existing : Option ℕ)
      → lookup client_id b.clients ≡ existing
      → IsValid b
      → reg.IsValid b.subscriptions
      → Registered same config client_id connection now b (registered_bus existing)
  unfolding observe replace_with remove_pending
  registered_bus-Registered none e v w = record {
    current = λ id. lookup-insert client_id id b.next_object b.clients;
    fresh = ground arith;
    no_replay_yet = ground arith;
    history_kept = refl;
    old_gone = λ o found. cc;
    old_closed = λ o found. cc;
    none_closed = λ missing. refl;
    other_objects = λ o lt other. ground arith;
    other_sends = λ o. ground (arith, e);
    other_retries = λ o. ground (arith, e);
    other_replays = λ o lt. ground arith;
    subscribed =
        λ id f. is_subscribed-change_subscriptions reg client_id config id f b.subscriptions w;
  }
  registered_bus-Registered (some old) e v w =
      let low : old < b.next_object = v.known client_id old e in
      record {
        current = λ id. lookup-insert client_id id b.next_object b.clients;
        fresh = ground arith;
        no_replay_yet = ground arith;
        history_kept = refl;
        old_gone = λ o found.
            let is_old : o ≡ old = ground arith in
            rw is_old
              (ground arith, has_pending-keep old b.send_queue, has_pending-keep old b.retry_queue);
        old_closed = λ o found. ground arith;
        none_closed = λ missing. cc;
        other_objects = λ o lt other. ground (arith, other);
        other_sends = λ o. rw e (pending_of-keep old o b.send_queue);
        other_retries = λ o. rw e (pending_of-keep old o b.retry_queue);
        other_replays = λ o lt. ground arith;
        subscribed =
            λ id f. is_subscribed-change_subscriptions reg client_id config id f b.subscriptions w;
      }

  -- On an open bus that is not closed meanwhile, a registration is done, and the replay that was asked
  -- for follows.
  pub register_locked-Registered :
      IsValid b
      → reg.IsValid b.subscriptions
      → b.is_closed ≡ false
      → ((register_locked same config client_id connection now false b).0 ≡ done config.replay)
        × Registered same config client_id connection now b
            (register_locked same config client_id connection now false b).1
  register_locked-Registered v w open_ =
      rw (register_locked-done open_) (refl, registered_bus-Registered _ refl v w)
