-- ===== src/Bus/Clients/Later.antt =====
-- What every step of the bus leaves of the generations that there were.
use sse_eventbus_go.Prelude.{◌∙◌}
use sse_eventbus_go.Prelude.{
  ℕ, ◌≤◌, ◌<◌, Bool, true, List, Option, none, some, ◌≡◌, refl, ◌∙◌, arith, Str, lookup, insert,
  is_empty, lookup-insert, lookup-delete,
}
use sse_eventbus_go.Errors.{Fallible}
use sse_eventbus_go.Client.Lifecycle.{registered, deactivate, retire_locked, replace_locked}
use sse_eventbus_go.Registry.Interface.{SubscriptionRegistry}
use sse_eventbus_go.Bus.Registration.{
  RegistrationConfig, RegistrationOption, no_registration, configure_registration,
}
use sse_eventbus_go.Bus.State.{Bus, observe, retire, replace_with, remove_pending, Observation}
use sse_eventbus_go.Bus.Clients.{
  Registration, is_target, replace_existing, new_object, after_lock, with_connection,
  register_locked, register, take_out, discard, disconnect, disconnect_found, disconnect_locked,
}
use sse_eventbus_go.Bus.Clients.Register.{Keeps, keeps, Keeps-if, kept}
use sse_eventbus_go.Bus.Clients.Steps.{
  Step, registers, takes_out, discards, observes, disconnects, sends, beats, gives_up, closes_bus,
  retires, others, Reach, here, step,
}

-- What the bus `b` leaves to a later `d`: an old generation that has an ID had it, keeps its connection,
-- and stays inactive, or closed, if it was.
pub record Later {reg : SubscriptionRegistry} (b d : Bus reg) : Type 0 where
  pub grows : b.next_object ≤ d.next_object
  pub had :
      (id : Str) (o : ℕ)
      → o < b.next_object
      → lookup id d.clients ≡ some o
      → lookup id b.clients ≡ some o
  pub same_connection :
      (o : ℕ) → o < b.next_object → (d.objects o).connection ≡ (b.objects o).connection
  pub over :
      (o : ℕ) → o < b.next_object → (b.objects o).inactive ≡ true → (d.objects o).inactive ≡ true
  pub shut :
      (o : ℕ)
      → o < b.next_object
      → (b.objects o).connection_closed ≡ true
      → (d.objects o).connection_closed ≡ true

module _ {reg : SubscriptionRegistry} where
  Later-refl : (b : Bus reg) → Later b b
  Later-refl b = record {
    grows = omega arith;
    had = λ id o lt e. e;
    same_connection = λ o lt. refl;
    over = λ o lt e. e;
    shut = λ o lt e. e;
  }

  Later-trans : (b c d : Bus reg) → Later b c → Later c d → Later b d
  Later-trans b c d x y = record {
    grows = omega (arith, x.grows, y.grows);
    had = λ id o lt e. x.had id o lt (y.had id o (omega (arith, x.grows)) e);
    same_connection = λ o lt. y.same_connection o (omega (arith, x.grows)) ∙ x.same_connection o lt;
    over = λ o lt e. y.over o (omega (arith, x.grows)) (x.over o lt e);
    shut = λ o lt e. y.shut o (omega (arith, x.grows)) (x.shut o lt e);
  }

  retire-Later : (o : ℕ) (b : Bus reg) → Later b (retire o b)
  unfolding retire deactivate retire_locked
  retire-Later o b = record {
    grows = omega arith;
    had = λ id p lt e. e;
    same_connection = λ p lt. ground arith;
    over = λ p lt e. ground arith;
    shut = λ p lt e. ground arith;
  }

  take_out-Later : (client_id : Str) (b : Bus reg) → Later b (take_out client_id b)
  take_out-Later client_id b = record {
    grows = omega arith;
    had = λ id p lt e. ground (arith, lookup-delete client_id id b.clients);
    same_connection = λ p lt. refl;
    over = λ p lt e. e;
    shut = λ p lt e. e;
  }

  discard-Later : (client_id : Str) (o : ℕ) (b : Bus reg) → Later b (discard client_id o b)
  unfolding remove_pending
  discard-Later client_id o b = record {
    grows = omega arith;
    had = λ id p lt e. e;
    same_connection = λ p lt. refl;
    over = λ p lt e. e;
    shut = λ p lt e. e;
  }

  replace_existing-Later :
      (same : ℕ → ℕ → Bool) (connection now : ℕ) (complete : Bool) (existing : Option ℕ)
      (b : Bus reg)
      → Later b (
          replace_existing same connection existing
            (new_object (registered connection now complete) b))
  unfolding replace_with remove_pending deactivate replace_locked
  replace_existing-Later same connection now complete none b = record {
    grows = omega arith;
    had = λ id p lt e. e;
    same_connection = λ p lt. ground arith;
    over = λ p lt e. ground arith;
    shut = λ p lt e. ground arith;
  }
  replace_existing-Later same connection now complete (some old) b = record {
    grows = omega arith;
    had = λ id p lt e. e;
    same_connection = λ p lt. ground arith;
    over = λ p lt e. ground arith;
    shut = λ p lt e. ground arith;
  }

  changed-Later :
      (b r : Bus reg) (subscriptions : reg.State) (shut : Bool)
      → Later b r
      → Later b (record r { subscriptions = subscriptions; is_closed = shut })
  changed-Later b r subscriptions shut x = record {
    grows = x.grows;
    had = x.had;
    same_connection = x.same_connection;
    over = x.over;
    shut = x.shut;
  }

  inserted-Later :
      (b r : Bus reg) (client_id : Str) (subscriptions : reg.State) (shut : Bool)
      (seen : Observation)
      → Later b r
      → Later b (
          observe seen (record r {
            subscriptions = subscriptions;
            is_closed = shut;
            clients = insert client_id b.next_object r.clients;
          }))
  unfolding observe
  inserted-Later b r client_id subscriptions shut seen x = record {
    grows = x.grows;
    had = λ id o lt e.
        ground (arith, lookup-insert client_id id b.next_object r.clients, x.had id o lt);
    same_connection = x.same_connection;
    over = x.over;
    shut = x.shut;
  }

  register_locked-Later :
      (same : ℕ → ℕ → Bool) (config : RegistrationConfig) (client_id : Str) (connection now : ℕ)
      (closes_meanwhile : Bool) (b : Bus reg)
      → Keeps (Later b) (register_locked same config client_id connection now closes_meanwhile b)
  unfolding register_locked
  register_locked-Later same config client_id connection now closes_meanwhile b =
      let made = new_object (registered connection now config.complete) b in
      let replaced = replace_existing same connection (lookup client_id b.clients) made in
      let later =
        replace_existing-Later same connection now config.complete (lookup client_id b.clients) b in
      Keeps-if b.is_closed (keeps (Later-refl b)) (
        Keeps-if closes_meanwhile
          (keeps (
            Later-trans b _ _ (changed-Later b replaced _ closes_meanwhile later)
              (retire-Later b.next_object _)))
          (keeps (inserted-Later b replaced client_id _ closes_meanwhile _ later)))

  register-Later :
      (same : ℕ → ℕ → Bool) (options : List (Option RegistrationOption)) (client_id : Str)
      (connection : Option ℕ) (ctx_err lock_err : Fallible) (now : ℕ) (closes_meanwhile : Bool)
      (b : Bus reg)
      → Later b
          (register same options client_id connection ctx_err lock_err now closes_meanwhile b).1
  unfolding register
  register-Later same options client_id connection ctx_err lock_err now closes_meanwhile b =
      kept (Keeps-if (is_empty client_id) (keeps (Later-refl b)) (connected connection))
    where
      locked :
          (e : Fallible) (r : Registration × Bus reg)
          → Keeps (Later b) r
          → Keeps (Later b) (after_lock e r b)
      locked (some e) r k = keeps (Later-refl b)
      locked none r k = k

      connected :
          (connection : Option ℕ)
          → Keeps (Later b) (
              with_connection connection
                (λ c.
                  after_lock ctx_err
                    (after_lock lock_err
                      (register_locked same
                        (configure_registration options no_registration)
                        client_id
                        c
                        now
                        closes_meanwhile
                        b)
                      b)
                    b)
                b)
      connected none = keeps (Later-refl b)
      connected (some c) = locked ctx_err _ (
          locked lock_err _ (
            register_locked-Later same (configure_registration options no_registration) client_id c
              now closes_meanwhile b))

  disconnect-Later :
      (same : ℕ → ℕ → Bool) (client_id : Str) (connection : Option ℕ) (early b : Bus reg)
      → Later b (disconnect same client_id connection early b).1
  unfolding disconnect disconnect_locked remove_pending
  disconnect-Later same client_id none early b = Later-refl b
  disconnect-Later same client_id (some connection) early b =
      kept (found_early (lookup client_id early.clients))
    where
      found_early :
          (entry : Option ℕ)
          → Keeps (Later b) (disconnect_found same client_id connection entry early b)
      found_early none = keeps (Later-refl b)
      found_early (some o) =
          Keeps-if (same (early.objects o).connection connection)
            (Keeps-if (is_target (lookup client_id b.clients) o)
              (keeps (
                let x = retire-Later o b in
                record {
                  grows = x.grows;
                  had = x.had;
                  same_connection = x.same_connection;
                  over = x.over;
                  shut = x.shut;
                }))
              (keeps (Later-refl b)))
            (keeps (Later-refl b))

  step-Later : {b d : Bus reg} → Step b d → Later b d
  unfolding deactivate observe
  step-Later {b} (registers same options client_id connection ctx_err lock_err now shut) =
      register-Later same options client_id connection ctx_err lock_err now shut b
  step-Later {b} (takes_out client_id expected stale_before o found ours old) =
      take_out-Later client_id b
  step-Later {b} (discards client_id o) = discard-Later client_id o b
  step-Later {b} (observes seen) = record {
    grows = omega arith;
    had = λ id o lt e. e;
    same_connection = λ o lt. refl;
    over = λ o lt e. e;
    shut = λ o lt e. e;
  }
  step-Later {b} (disconnects same client_id connection early) =
      disconnect-Later same client_id connection early b
  step-Later {b} (sends err now attempts o) = record {
    grows = omega arith;
    had = λ id p lt e. e;
    same_connection = λ p lt. ground arith;
    over = λ p lt e. ground arith;
    shut = λ p lt e. ground arith;
  }
  step-Later {b} (beats err now o) = record {
    grows = omega arith;
    had = λ id p lt e. e;
    same_connection = λ p lt. ground arith;
    over = λ p lt e. ground arith;
    shut = λ p lt e. ground arith;
  }
  step-Later {b} (gives_up o) = record {
    grows = omega arith;
    had = λ id p lt e. e;
    same_connection = λ p lt. ground arith;
    over = λ p lt e. ground arith;
    shut = λ p lt e. ground arith;
  }
  step-Later {b} closes_bus = record {
    grows = omega arith;
    had = λ id o lt e. e;
    same_connection = λ o lt. refl;
    over = λ o lt e. e;
    shut = λ o lt e. e;
  }
  step-Later {b} (retires o) = retire-Later o b
  step-Later {b} (others _ _ _ _ _) = record {
    grows = omega arith;
    had = λ id o lt e. e;
    same_connection = λ o lt. refl;
    over = λ o lt e. e;
    shut = λ o lt e. e;
  }

  pub Reach-Later : {b d : Bus reg} → Reach b d → Later b d
  Reach-Later {b} here = Later-refl b
  Reach-Later (step path last) = Later-trans _ _ _ (Reach-Later path) (step-Later last)
