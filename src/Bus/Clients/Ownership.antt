-- ===== src/Bus/Clients/Ownership.antt =====
-- Which generations are active over a run of the bus.
use sse_eventbus_go.Prelude.{
  ℕ, ◌<◌, Bool, true, false, ◌||◌, Option, some, ◌≡◌, refl, ◌⊎◌, inl, inr, arith, ◌==◌, Str, lookup,
  str_eq, str_eq_iff, Bool-cases, ap,
}
use sse_eventbus_go.Client.Lifecycle.{deactivate}
use sse_eventbus_go.Replay.{Store}
use sse_eventbus_go.Registry.Interface.{SubscriptionRegistry}
use sse_eventbus_go.Bus.State.{Bus, observe, remove_pending}
use sse_eventbus_go.Bus.Clients.{is_target}
use sse_eventbus_go.Bus.Clients.Invariant.{IsValid, is_target-some}
use sse_eventbus_go.Bus.Clients.Steps.{
  Step, registers, takes_out, discards, observes, disconnects, sends, beats, gives_up, closes_bus,
  retires, others, Reach, here, step, new_bus, new_bus-IsValid, Reach-IsValid,
}
use sse_eventbus_go.Bus.Clients.Owns.{
  Owned, Owned-delete, retire-Owns, register-Owns, disconnect-Owns,
}

-- Whether unregister has deleted the entry of the generation in this step, or in a step of a run.
unfoldable pub taken_by : {reg : SubscriptionRegistry} {b d : Bus reg} → Step b d → ℕ → Bool
taken_by (takes_out client_id expected stale_before o found ours old) p = o == p
taken_by s p = false

unfoldable pub is_taken : {reg : SubscriptionRegistry} {b d : Bus reg} → Reach b d → ℕ → Bool
unfolding taken_by
is_taken here p = false
is_taken (step path last) p = is_taken path p || taken_by last p

module _ {reg : SubscriptionRegistry} where
  -- A step keeps every active generation in the map, but for the one that it takes out.
  step-Owned :
      {b d : Bus reg} (s : Step b d) (o : ℕ)
      → o < d.next_object
      → (d.objects o).inactive ≡ false
      → (taken_by s o ≡ true)
        ⊎ (Owned d.clients o
            ⊎ ((o < b.next_object)
                × (((b.objects o).inactive ≡ false) × (Owned b.clients o → Owned d.clients o))))
  unfolding taken_by deactivate observe remove_pending
  step-Owned {b} (registers same options client_id connection ctx_err lock_err now shut) o lt
        active =
      inr (
        (register-Owns same options client_id connection ctx_err lock_err now shut b).owned o lt
          active)
  step-Owned {b} (takes_out client_id expected stale_before p found ours old) o lt active =
      elim (Bool-cases (p == o)) [
        | inl same ↦ inl same
        | inr other ↦
            inr (inr (lt, (active, Owned-delete client_id b.clients o (λ e. ground arith))))
      ]
  step-Owned (discards client_id p) o lt active = inr (inr (lt, (active, λ w. w)))
  step-Owned (observes seen) o lt active = inr (inr (lt, (active, λ w. w)))
  step-Owned {b} (disconnects same client_id connection early) o lt active =
      inr ((disconnect-Owns same client_id connection early b).owned o lt active)
  step-Owned (sends err now attempts p) o lt active = inr (inr (lt, (ground arith, λ w. w)))
  step-Owned (beats err now p) o lt active = inr (inr (lt, (ground arith, λ w. w)))
  step-Owned (gives_up p) o lt active = inr (inr (lt, (ground arith, λ w. w)))
  step-Owned closes_bus o lt active = inr (inr (lt, (active, λ w. w)))
  step-Owned {b} (retires p) o lt active = inr ((retire-Owns p b).owned o lt active)
  step-Owned (others _ _ _ _ _) o lt active = inr (inr (lt, (active, λ w. w)))

  Reach-Owned :
      {b d : Bus reg} (path : Reach b d) (o : ℕ)
      → b.next_object ≡ 0
      → o < d.next_object
      → (d.objects o).inactive ≡ false
      → (is_taken path o ≡ true) ⊎ Owned d.clients o
  unfolding is_taken
  Reach-Owned here o new lt active = absurd (ground arith)
  Reach-Owned (step path last) o new lt active = elim (step-Owned last o lt active) [
    | inl taken ↦ inl (ground arith)
    | inr (inl owned) ↦ inr owned
    | inr (inr (made, (was_active, stays))) ↦ elim (Reach-Owned path o new made was_active) [
      | inl taken ↦ inl (ground arith)
      | inr owned ↦ inr (stays owned)
    ]
  ]

  -- Over any run from a new bus, in which a registration is one step: a generation that is active is the
  -- current one of exactly one client ID, unless an unregister has taken its entry out of the map.
  pub active_is_current :
      (subscriptions : reg.State) (replay_store : Option Store) (b : Bus reg) (o : ℕ)
      (path : Reach (new_bus reg subscriptions replay_store) b)
      → o < b.next_object
      → (b.objects o).inactive ≡ false
      → (is_taken path o ≡ true)
        ⊎ ((id : Str) × ((id' : Str) → is_target (lookup id' b.clients) o ≡ str_eq id' id))
  active_is_current subscriptions replay_store b o path made active =
      elim (Reach-Owned path o refl made active) [
        | inl taken ↦ inl taken
        | inr (id, e) ↦ inr (
          id,
          λ id'.
              only (Reach-IsValid path (new_bus-IsValid subscriptions replay_store)) id e id'
                (Bool-cases (is_target (lookup id' b.clients) o)),
        )
      ]
    where
      only :
          IsValid b
          → (id : Str) → lookup id b.clients ≡ some o
          → (id' : Str)
          → (is_target (lookup id' b.clients) o ≡ true)
            ⊎ (is_target (lookup id' b.clients) o ≡ false)
          → is_target (lookup id' b.clients) o ≡ str_eq id' id
      only v id e id' (inl target) =
          let same = v.apart id' id o (is_target-some (lookup id' b.clients) o target) e in
          ground (arith, str_eq_iff id' id)
      only v id e id' (inr other) = elim (Bool-cases (str_eq id' id)) [
        | inl same ↦
            let is_id : id' ≡ id = ground (arith, str_eq_iff id' id) in
            ground (arith, ap (λ i. lookup i b.clients) is_id)
        | inr apart ↦ ground arith
      ]
