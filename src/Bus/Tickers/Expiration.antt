-- ===== src/Bus/Tickers/Expiration.antt =====
-- Which clients a tick of expirationLoop removes.
use mathlib.Core.Bool.{not}
use sse_eventbus_go.Prelude.{
  ℕ, Bool, true, false, ◌&&◌, ◌||◌, List, [], ◌∷◌, Option, none, some, ◌≡◌, refl, ◌∙◌, inl, inr,
  arith, if◌then◌else◌, ltb, Str, Dict, lookup, has, str_eq, str_eq_iff, lookup-delete, Bool-cases,
}
use sse_eventbus_go.Errors.{Fallible}
use sse_eventbus_go.Client.Lifecycle.{deactivate, retire_locked}
use sse_eventbus_go.Registry.Interface.{SubscriptionRegistry}
use sse_eventbus_go.Bus.State.{Bus, retire, remove_pending, observe}
use sse_eventbus_go.Bus.Clients.{unregister, unregister_found, unregister_client_locked}
use sse_eventbus_go.Bus.Tickers.{stale_ids, unregister_stale, expire}

-- Whether the client of an entry of the map, if there is one, was last seen before the cutoff.
abbrev pub is_stale : {reg : SubscriptionRegistry} → ℕ → Bus reg → Option ℕ → Bool
is_stale cutoff b none = false
is_stale cutoff b (some o) = ltb (b.objects o).last_transfer cutoff

module _ {reg : SubscriptionRegistry} where
  -- What unregister of a stale client does to the map, and that it keeps the times of all clients.
  record Removes (cutoff : ℕ) (id : Str) (b : Bus reg) (r : Bool × Bus reg) : Type 0 where
    removed : r.0 ≡ is_stale cutoff b (lookup id b.clients)
    entries :
        (other : Str)
        → lookup other r.1.clients ≡ (
            if str_eq id other && is_stale cutoff b (lookup id b.clients)
            then none
            else lookup other b.clients)
    times : (o : ℕ) → (r.1.objects o).last_transfer ≡ (b.objects o).last_transfer

  unregister_client_locked-Removes :
      (cutoff : ℕ) (id : Str) (o : ℕ) (close_err : Fallible) (b : Bus reg)
      → lookup id b.clients ≡ some o
      → ltb (b.objects o).last_transfer cutoff ≡ true
      → Removes cutoff id b (true, unregister_client_locked id o close_err b)
  unfolding unregister_client_locked retire remove_pending observe deactivate retire_locked
  unregister_client_locked-Removes cutoff id o close_err b found old = record {
    removed = ground arith;
    entries = λ other. ground (arith, lookup-delete id other b.clients);
    times = λ p. ground arith;
  }

  unregister-Removes :
      (cutoff : ℕ) (id : Str) (close_err : Fallible) (b : Bus reg)
      → Removes cutoff id b (unregister id none (some cutoff) false close_err b)
  unfolding unregister
  unregister-Removes cutoff id close_err b = by_entry (lookup id b.clients) refl
    where
      by_entry :
          (entry : Option ℕ)
          → lookup id b.clients ≡ entry
          → Removes cutoff id b (unregister_found id none (some cutoff) false close_err entry b)
      by_entry none e = record {
        removed = ground arith;
        entries = λ other. ground arith;
        times = λ o. refl;
      }
      by_entry (some o) e = elim (Bool-cases (ltb (b.objects o).last_transfer cutoff)) [
        | inl old ↦ rw old (unregister_client_locked-Removes cutoff id o close_err b e old)
        | inr fresh ↦
            rw fresh (record {
              removed = ground arith;
              entries = λ other. ground arith;
              times = λ p. refl;
            })
      ]

  is_stale-same :
      (cutoff : ℕ) (b c : Bus reg) (entry : Option ℕ)
      → ((o : ℕ) → (c.objects o).last_transfer ≡ (b.objects o).last_transfer)
      → is_stale cutoff c entry ≡ is_stale cutoff b entry
  is_stale-same cutoff b c none same = refl
  is_stale-same cutoff b c (some o) same = ground (arith, same o)

  lookup-unregister_stale :
      (close_err : Str → Fallible) (cutoff : ℕ) (ids : List Str) (b : Bus reg) (id : Str)
      → lookup id (unregister_stale close_err cutoff ids b).1.clients ≡ (
          if has id ids && is_stale cutoff b (lookup id b.clients)
          then none
          else lookup id b.clients)
  unfolding unregister_stale has
  lookup-unregister_stale close_err cutoff [] b id = refl
  lookup-unregister_stale close_err cutoff (first ∷ ids) b id =
      let c = (unregister first none (some cutoff) false (close_err first) b).1 in
      let r = unregister-Removes cutoff first (close_err first) b in
      lookup-unregister_stale close_err cutoff ids c id
      ∙ rw (is_stale-same cutoff b c (lookup id c.clients) r.times, r.entries id)
          (one_more (lookup id b.clients) refl)
    where
      one_more :
          (entry : Option ℕ)
          → lookup id b.clients ≡ entry
          → (if has id ids
                && is_stale cutoff b (
                    if str_eq first id && is_stale cutoff b (lookup first b.clients)
                    then none
                    else entry)
              then none
              else (if str_eq first id && is_stale cutoff b (lookup first b.clients)
                  then none
                  else entry))
            ≡ (if (str_eq id first || has id ids) && is_stale cutoff b entry then none else entry)
      one_more entry e = elim (Bool-cases (str_eq first id)) [
        | inl same ↦
            let is_id : first ≡ id = ground (arith, str_eq_iff first id) in
            rw (is_id, e) (ground (arith, str_eq_iff id id))
        | inr other ↦ ground (arith, str_eq_iff id first, str_eq_iff first id)
      ]

  has-stale_ids :
      (cutoff : ℕ) (b : Bus reg) (clients : Dict ℕ) (id : Str)
      → not (is_stale cutoff b (lookup id clients)) || has id (stale_ids cutoff b clients) ≡ true
  unfolding stale_ids has lookup
  has-stale_ids cutoff b [] id = refl
  has-stale_ids cutoff b ((other, o) ∷ clients) id =
      ground (arith, has-stale_ids cutoff b clients id, str_eq_iff id other, str_eq_iff other id)

  -- A tick of expirationLoop removes exactly the clients that were last seen before the cutoff.
  pub lookup-expire :
      (close_err : Str → Fallible) (cutoff : ℕ) (b : Bus reg) (id : Str)
      → lookup id (expire close_err cutoff b).1.clients
        ≡ (if is_stale cutoff b (lookup id b.clients) then none else lookup id b.clients)
  unfolding expire
  lookup-expire close_err cutoff b id =
      lookup-unregister_stale close_err cutoff (stale_ids cutoff b b.clients) b id
      ∙ ground (arith, has-stale_ids cutoff b b.clients id)
