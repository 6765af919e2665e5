-- ===== src/Bus/Clients/Register.antt =====
-- RegisterContext keeps the invariant of the clients.
use sse_eventbus_go.Prelude.{
  ℕ, ◌<◌, Bool, true, false, List, Option, none, some, ◌≡◌, refl, arith, Str, lookup, insert,
  str_eq_iff, lookup-insert, if◌then◌else◌, is_empty,
}
use sse_eventbus_go.Errors.{Fallible}
use sse_eventbus_go.Client.Lifecycle.{registered}
use sse_eventbus_go.Replay.{Store}
use sse_eventbus_go.Registry.Interface.{SubscriptionRegistry}
use sse_eventbus_go.Bus.Registration.{
  RegistrationConfig, RegistrationOption, configure_registration, no_registration,
}
use sse_eventbus_go.Bus.State.{
  Bus, Observation, observe, observation, register_client, success, retire, replace_with,
  remove_pending,
}
use sse_eventbus_go.Bus.Clients.{
  Registration, replace_existing, new_object, register_locked, register, change_subscriptions,
  with_connection, after_lock,
}
use sse_eventbus_go.Bus.Clients.Invariant.{IsValid, made_inactive-IsValid, register_new-IsValid}

module _ {reg : SubscriptionRegistry} where
  -- The other fields of the bus do not matter.
  pub IsValid-others :
      (b : Bus reg) (r : reg.State) (store : Option Store) (shut : Bool) (closes : List ℕ)
      (seen : List Observation)
      → IsValid b
      → IsValid (record b {
        subscriptions = r;
        replay_store = store;
        is_closed = shut;
        closes = closes;
        observations = seen;
      })
  IsValid-others b r store shut closes seen v = record {
    known = v.known;
    apart = v.apart;
    ended = v.ended;
  }

  module _ (same : ℕ → ℕ → Bool) (client_id : Str) (connection now : ℕ) (complete : Bool)
      (b : Bus reg) (old : ℕ) (found : lookup client_id b.clients ≡ some old) (v : IsValid b) where
    -- The bus after the old generation is replaced.
    abbrev replaced : Bus reg
    replaced =
        replace_existing same connection (some old)
          (new_object (registered connection now complete) b)

    replaced-closed-IsValid : IsValid (retire b.next_object replaced)
    unfolding retire replace_with remove_pending
    replaced-closed-IsValid =
        let low : old < b.next_object = v.known client_id old found in
        record {
          known = λ id p e. omega (arith, v.known id p e);
          apart = v.apart;
          ended = λ p shut. ground (arith, v.ended p);
        }

    replaced-open-IsValid :
        IsValid (record replaced { clients = insert client_id b.next_object b.clients })
    unfolding replace_with remove_pending
    replaced-open-IsValid = record {
      known = λ id p e.
          ground (arith, lookup-insert client_id id b.next_object b.clients, v.known id p);
      apart = λ id id' p e e'. ground (
        arith,
        lookup-insert client_id id b.next_object b.clients,
        lookup-insert client_id id' b.next_object b.clients,
        str_eq_iff client_id id,
        str_eq_iff client_id id',
        v.known id p,
        v.known id' p,
        v.apart id id' p,
      );
      ended = λ p shut. ground (arith, v.ended p);
    }

  -- A result whose bus has a property.
  pub data Keeps {ℓ} {R : Type ℓ} (P : Bus reg → Type 0) : R × Bus reg → Type ℓ where
    keeps : {r : R} {b : Bus reg} → P b → Keeps P (r, b)

  pub Keeps-if {ℓ} :
      {R : Type ℓ} {P : Bus reg → Type 0} (test : Bool) {x y : R × Bus reg}
      → Keeps P x
      → Keeps P y
      → Keeps P (if test then x else y)
  Keeps-if true v w = v
  Keeps-if false v w = w

  pub kept {ℓ} : {R : Type ℓ} {P : Bus reg → Type 0} {r : R × Bus reg} → Keeps P r → P r.1
  kept (keeps v) = v

  pub register_locked-Keeps :
      (same : ℕ → ℕ → Bool) (config : RegistrationConfig) (client_id : Str) (connection now : ℕ)
      (closes_meanwhile : Bool) (b : Bus reg)
      → IsValid b
      → Keeps IsValid (register_locked same config client_id connection now closes_meanwhile b)
  unfolding register_locked
  register_locked-Keeps same config client_id connection now closes_meanwhile b v =
      Keeps-if b.is_closed (keeps v) (
        Keeps-if closes_meanwhile (keeps (shut_after (lookup client_id b.clients) refl))
          (keeps (open_after (lookup client_id b.clients) refl)))
    where
      after : Option ℕ → Bus reg
      after existing =
          let made = new_object (registered connection now config.complete) b in
          let replaced = replace_existing same connection existing made in
          record replaced {
            subscriptions = change_subscriptions reg client_id config replaced.subscriptions;
            is_closed = closes_meanwhile;
          }

      shut_after :
          (existing : Option ℕ)
          → lookup client_id b.clients ≡ existing
          → IsValid (retire b.next_object (after existing))
      shut_after none e =
          IsValid-others _ _ _ _ _ _
            (made_inactive-IsValid (registered connection now config.complete) b v)
      shut_after (some old) e =
          IsValid-others _ _ _ _ _ _
            (replaced-closed-IsValid same client_id connection now config.complete b old e v)

      open_after :
          (existing : Option ℕ)
          → lookup client_id b.clients ≡ existing
          → IsValid (
              observe
                (record (observation register_client success client_id) {
                  complete_after_message = config.complete;
                })
                (record (after existing) {
                  clients = insert client_id b.next_object (after existing).clients;
                }))
      open_after none e =
          IsValid-others _ _ _ _ _ _
            (register_new-IsValid client_id connection now config.complete b e v)
      open_after (some old) e =
          IsValid-others _ _ _ _ _ _
            (replaced-open-IsValid same client_id connection now config.complete b old e v)

  pub register-IsValid :
      (same : ℕ → ℕ → Bool) (options : List (Option RegistrationOption)) (client_id : Str)
      (connection : Option ℕ) (ctx_err lock_err : Fallible) (now : ℕ) (closes_meanwhile : Bool)
      (b : Bus reg)
      → IsValid b
      → IsValid
          (register same options client_id connection ctx_err lock_err now closes_meanwhile b).1
  unfolding register
  register-IsValid same options client_id connection ctx_err lock_err now closes_meanwhile b v =
      kept (Keeps-if (is_empty client_id) (keeps v) (connected connection))
    where
      locked :
          (e : Fallible) (r : Registration × Bus reg)
          → Keeps IsValid r
          → Keeps IsValid (after_lock e r b)
      locked (some e) r k = keeps v
      locked none r k = k

      connected :
          (connection : Option ℕ)
          → Keeps IsValid (
              with_connection connection
                (λ c.
                  after_lock ctx_err
                    (after_lock lock_err
                      (register_locked same
                        (configure_registration options no_registration)
                        client_id
                        c
                        now
                        closes_meanwhile
                        b)
                      b)
                    b)
                b)
      connected none = keeps v
      connected (some c) = locked ctx_err _ (
          locked lock_err _ (
            register_locked-Keeps same (configure_registration options no_registration) client_id c
              now closes_meanwhile b v))
