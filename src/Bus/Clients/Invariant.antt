-- ===== src/Bus/Clients/Invariant.antt =====
-- The invariant of the clients: the map and the generations fit together.
use sse_eventbus_go.Prelude.{
  ℕ, ◌<◌, Bool, true, false, Option, none, some, ◌≡◌, inl, inr, arith, Str, lookup, insert,
  str_eq_iff, lookup-insert, Bool-cases,
}
use sse_eventbus_go.Client.Lifecycle.{Client, registered}
use sse_eventbus_go.Registry.Interface.{SubscriptionRegistry}
use sse_eventbus_go.Bus.State.{Bus, retire, remove_pending}
use sse_eventbus_go.Bus.Clients.{is_target, new_object, disconnect_locked}

-- Each generation in the map was made and belongs to one ID, and a generation whose connection is
-- closed is inactive.
pub record IsValid {reg : SubscriptionRegistry} (b : Bus reg) : Type 0 where
  pub known : (id : Str) (o : ℕ) → lookup id b.clients ≡ some o → o < b.next_object
  pub apart :
      (id id' : Str) (o : ℕ)
      → lookup id b.clients ≡ some o
      → lookup id' b.clients ≡ some o
      → id ≡ id'
  pub ended : (o : ℕ) → (b.objects o).connection_closed ≡ true → (b.objects o).inactive ≡ true

pub is_target-some : (entry : Option ℕ) (o : ℕ) → is_target entry o ≡ true → entry ≡ some o
is_target-some none o e = cc
is_target-some (some p) o e = ground arith

module _ {reg : SubscriptionRegistry} where
  pub retire-IsValid : (o : ℕ) (b : Bus reg) → IsValid b → IsValid (retire o b)
  unfolding retire
  retire-IsValid o b v = record {
    known = λ id p e. v.known id p e;
    apart = v.apart;
    ended = λ p shut. ground (arith, v.ended p);
  }

  pub remove_pending-IsValid :
      (o : ℕ) (replayable_only : Bool) (b : Bus reg)
      → IsValid b
      → IsValid (remove_pending o replayable_only b)
  unfolding remove_pending
  remove_pending-IsValid o replayable_only b v = record {
    known = v.known;
    apart = v.apart;
    ended = v.ended;
  }

  pub disconnect_locked-IsValid :
      (client_id : Str) (found : ℕ) (b : Bus reg)
      → IsValid b
      → IsValid (disconnect_locked client_id found b).1
  unfolding disconnect_locked
  disconnect_locked-IsValid client_id found b v =
      elim (Bool-cases (is_target (lookup client_id b.clients) found)) [
        | inl current ↦
            rw current
              (remove_pending-IsValid found false (retire found b) (retire-IsValid found b v))
        | inr other ↦ rw other v
      ]

  -- A new generation that is not in the map and inactive, as after a registration that meets Close.
  pub made_inactive-IsValid :
      (c : Client) (b : Bus reg) → IsValid b → IsValid (retire b.next_object (new_object c b))
  unfolding retire
  made_inactive-IsValid c b v = record {
    known = λ id p e. omega (arith, v.known id p e);
    apart = v.apart;
    ended = λ p shut. ground (arith, v.ended p);
  }

  pub register_new-IsValid :
      (client_id : Str) (connection now : ℕ) (complete : Bool) (b : Bus reg)
      → lookup client_id b.clients ≡ none
      → IsValid b
      → IsValid (record (new_object (registered connection now complete) b) {
        clients = insert client_id b.next_object b.clients;
      })
  register_new-IsValid client_id connection now complete b missing v = record {
    known =
        λ id p e. ground (arith, lookup-insert client_id id b.next_object b.clients, v.known id p);
    apart = λ id id' p e e'. ground (
      arith,
      lookup-insert client_id id b.next_object b.clients,
      lookup-insert client_id id' b.next_object b.clients,
      str_eq_iff client_id id,
      str_eq_iff client_id id',
      v.known id p,
      v.known id' p,
      v.apart id id' p,
    );
    ended = λ p shut. ground (arith, v.ended p);
  }
