-- ===== src/Bus/Clients/Owns.antt =====
-- Which generations are active after a registration or a disconnection.
use sse_eventbus_go.Prelude.{
  ℕ, ◌<◌, Bool, true, false, List, Option, none, some, ◌≡◌, refl, ◌≢◌, ◌⊎◌, inl, inr, arith, ◌==◌,
  Str, Dict, lookup, insert, delete, str_eq_iff, lookup-insert, lookup-delete, Bool-cases, is_empty,
}
use sse_eventbus_go.Errors.{Fallible}
use sse_eventbus_go.Client.Lifecycle.{registered, deactivate, retire_locked, replace_locked}
use sse_eventbus_go.Registry.Interface.{SubscriptionRegistry}
use sse_eventbus_go.Bus.Registration.{
  RegistrationConfig, RegistrationOption, no_registration, configure_registration,
}
use sse_eventbus_go.Bus.State.{Bus, observe, retire, replace_with, remove_pending}
use sse_eventbus_go.Bus.Clients.{
  Registration, is_target, replace_existing, new_object, after_lock, with_connection,
  register_locked, register, disconnect, disconnect_found, disconnect_locked,
}
use sse_eventbus_go.Bus.Clients.Register.{Keeps, keeps, Keeps-if, kept}

-- The generation is the one in the map for some client ID.
abbrev pub Owned : Dict ℕ → ℕ → Type 0
Owned clients o = (id : Str) × (lookup id clients ≡ some o)

pub Owned-insert :
    (id : Str) (new : ℕ) (c : Dict ℕ) (o : ℕ)
    → lookup id c ≢ some o
    → Owned c o
    → Owned (insert id new c) o
Owned-insert id new c o other (id', e) =
    (id', ground (arith, lookup-insert id id' new c, str_eq_iff id id', other))

pub Owned-delete :
    (id : Str) (c : Dict ℕ) (o : ℕ) → lookup id c ≢ some o → Owned c o → Owned (delete id c) o
Owned-delete id c o other (id', e) =
    (id', ground (arith, lookup-delete id id' c, str_eq_iff id id', other))

-- An active generation of `d` is in its map, or was active before and stays there if it was there.
pub record Owns {reg : SubscriptionRegistry} (b d : Bus reg) : Type 0 where
  pub owned :
      (o : ℕ)
      → o < d.next_object
      → (d.objects o).inactive ≡ false
      → Owned d.clients o
        ⊎ ((o < b.next_object)
            × (((b.objects o).inactive ≡ false) × (Owned b.clients o → Owned d.clients o)))

module _ {reg : SubscriptionRegistry} where
  Owns-refl : (b : Bus reg) → Owns b b
  Owns-refl b = record { owned = λ o lt active. inr (lt, (active, λ w. w)) }

  pub retire-Owns : (o : ℕ) (b : Bus reg) → Owns b (retire o b)
  unfolding retire deactivate retire_locked
  retire-Owns o b = record { owned = λ p lt active. inr (lt, (ground arith, λ w. w)) }

  -- A new generation that a registration leaves inactive.
  refused-Owns :
      (same : ℕ → ℕ → Bool) (connection now : ℕ) (complete : Bool) (existing : Option ℕ)
      (b : Bus reg) (subscriptions : reg.State) (shut : Bool)
      → Owns b (
          retire b.next_object
            (record (replace_existing same connection existing
              (new_object (registered connection now complete) b)) {
                subscriptions = subscriptions;
                is_closed = shut;
              }))
  unfolding retire deactivate retire_locked replace_with remove_pending replace_locked
  refused-Owns same connection now complete none b subscriptions shut = record {
    owned = λ p lt active. inr (ground arith, (ground arith, λ w. w));
  }
  refused-Owns same connection now complete (some old) b subscriptions shut = record {
    owned = λ p lt active. inr (ground arith, (ground arith, λ w. w));
  }

  module _ (same : ℕ → ℕ → Bool) (client_id : Str) (connection now : ℕ) (complete : Bool)
      (b : Bus reg) where
    new-Owned : Owned (insert client_id b.next_object b.clients) b.next_object
    new-Owned = (
      client_id,
      ground (
        arith,
        lookup-insert client_id client_id b.next_object b.clients,
        str_eq_iff client_id client_id,
      ),
    )

    abbrev replaced : Option ℕ → Bus reg
    replaced existing =
        replace_existing same connection existing
          (new_object (registered connection now complete) b)

    -- Of the generations after a registration, the new one is in the map, and the one before is over.
    inserted-Owned :
        (existing : Option ℕ) (o : ℕ)
        → lookup client_id b.clients ≡ existing
        → o < (replaced existing).next_object
        → ((replaced existing).objects o).inactive ≡ false
        → ((o == b.next_object) ≡ true) ⊎ ((o == b.next_object) ≡ false)
        → Owned (insert client_id b.next_object (replaced existing).clients) o
          ⊎ ((o < b.next_object)
              × (((b.objects o).inactive ≡ false)
                  × (Owned b.clients o
                      → Owned (insert client_id b.next_object (replaced existing).clients) o)))
    unfolding replace_with remove_pending replace_locked deactivate
    inserted-Owned none o found lt active (inl new) =
        let same_one : o ≡ b.next_object = ground arith in inl (rw same_one new-Owned)
    inserted-Owned (some p) o found lt active (inl new) =
        let same_one : o ≡ b.next_object = ground arith in inl (rw same_one new-Owned)
    inserted-Owned none o found lt active (inr old) = inr (
      ground arith,
      (ground arith, Owned-insert client_id b.next_object b.clients o (λ e. ground arith)),
    )
    inserted-Owned (some p) o found lt active (inr old) = inr (
      ground arith,
      (ground arith, Owned-insert client_id b.next_object b.clients o (λ e. ground arith)),
    )

  register_locked-Owns :
      (same : ℕ → ℕ → Bool) (config : RegistrationConfig) (client_id : Str) (connection now : ℕ)
      (closes_meanwhile : Bool) (b : Bus reg)
      → Keeps (Owns b) (register_locked same config client_id connection now closes_meanwhile b)
  unfolding register_locked observe
  register_locked-Owns same config client_id connection now closes_meanwhile b =
      Keeps-if b.is_closed (keeps (Owns-refl b)) (
        Keeps-if closes_meanwhile
          (keeps
            (refused-Owns same connection now config.complete (lookup client_id b.clients) b _ _))
          (keeps (record {
            owned = λ o lt active.
                inserted-Owned same client_id connection now config.complete b
                  (lookup client_id b.clients) o refl lt active (Bool-cases (o == b.next_object));
          })))

  pub register-Owns :
      (same : ℕ → ℕ → Bool) (options : List (Option RegistrationOption)) (client_id : Str)
      (connection : Option ℕ) (ctx_err lock_err : Fallible) (now : ℕ) (closes_meanwhile : Bool)
      (b : Bus reg)
      → Owns b
          (register same options client_id connection ctx_err lock_err now closes_meanwhile b).1
  unfolding register
  register-Owns same options client_id connection ctx_err lock_err now closes_meanwhile b =
      kept (Keeps-if (is_empty client_id) (keeps (Owns-refl b)) (connected connection))
    where
      locked :
          (e : Fallible) (r : Registration × Bus reg)
          → Keeps (Owns b) r
          → Keeps (Owns b) (after_lock e r b)
      locked (some e) r k = keeps (Owns-refl b)
      locked none r k = k

      connected :
          (connection : Option ℕ)
          → Keeps (Owns b) (
              with_connection connection
                (λ c.
                  after_lock ctx_err
                    (after_lock lock_err
                      (register_locked same
                        (configure_registration options no_registration)
                        client_id
                        c
                        now
                        closes_meanwhile
                        b)
                      b)
                    b)
                b)
      connected none = keeps (Owns-refl b)
      connected (some c) = locked ctx_err _ (
          locked lock_err _ (
            register_locked-Owns same (configure_registration options no_registration) client_id c
              now closes_meanwhile b))

  pub disconnect-Owns :
      (same : ℕ → ℕ → Bool) (client_id : Str) (connection : Option ℕ) (early b : Bus reg)
      → Owns b (disconnect same client_id connection early b).1
  unfolding disconnect disconnect_locked remove_pending
  disconnect-Owns same client_id none early b = Owns-refl b
  disconnect-Owns same client_id (some connection) early b =
      kept (found_early (lookup client_id early.clients))
    where
      found_early :
          (entry : Option ℕ)
          → Keeps (Owns b) (disconnect_found same client_id connection entry early b)
      found_early none = keeps (Owns-refl b)
      found_early (some o) =
          Keeps-if (same (early.objects o).connection connection)
            (Keeps-if (is_target (lookup client_id b.clients) o)
              (keeps (record { owned = (retire-Owns o b).owned })) (keeps (Owns-refl b)))
            (keeps (Owns-refl b))
