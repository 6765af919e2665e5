-- ===== src/Bus/Tickers.antt =====
-- bus.go: a round of expirationLoop, of heartbeatLoop and of replayCleanupLoop, with no other thread in
-- between.
pub mod Expiration
mod Tests
use sse_eventbus_go.Prelude.{
  ℕ, Bool, true, false, List, [], ◌∷◌, Option, none, some, if◌then◌else◌, ltb, Str, Dict,
}
use sse_eventbus_go.Errors.{Fallible}
use sse_eventbus_go.Client.Lifecycle.{heartbeat}
use sse_eventbus_go.Registry.Interface.{SubscriptionRegistry}
use sse_eventbus_go.Replay.{Store, purge_expired}
use sse_eventbus_go.Bus.State.{Bus, store_object}
use sse_eventbus_go.Bus.Clients.{unregister}

abbrev pub purge : ℕ → Option Store → Option Store
purge cutoff none = none
purge cutoff (some s) = some (purge_expired cutoff s)

module _ {reg : SubscriptionRegistry} where
  -- The loop over the clients of the map: the IDs of those last seen before the cutoff.
  pub stale_ids : ℕ → Bus reg → Dict ℕ → List Str
  stale_ids cutoff b [] = []
  stale_ids cutoff b ((id, o) ∷ clients) =
      let rest = stale_ids cutoff b clients in
      if ltb (b.objects o).last_transfer cutoff then id ∷ rest else rest

  -- The loop over the stale IDs: those that unregister removed, and the bus; `close_err` is what Close
  -- returns for the client of an ID.
  pub unregister_stale : (Str → Fallible) → ℕ → List Str → Bus reg → List Str × Bus reg
  unfolding unregister
  unregister_stale close_err cutoff [] b = ([], b)
  unregister_stale close_err cutoff (id ∷ ids) b =
      let done = unregister id none (some cutoff) false (close_err id) b in
      let rest = unregister_stale close_err cutoff ids done.1 in
      (if done.0 then id ∷ rest.0 else rest.0, rest.1)

  -- A tick of expirationLoop; the IDs are those of AfterClientsUnregistered, which is not called for none.
  pub expire : (Str → Fallible) → ℕ → Bus reg → List Str × Bus reg
  unfolding unregister_stale stale_ids
  expire close_err cutoff b = unregister_stale close_err cutoff (stale_ids cutoff b b.clients) b

  -- A tick of heartbeatLoop; `err` is what Send returns for a client generation.
  pub beat_all : (ℕ → Fallible) → ℕ → Dict ℕ → Bus reg → Bus reg
  unfolding heartbeat
  beat_all err now [] b = b
  beat_all err now ((id, o) ∷ clients) b =
      beat_all err now clients (store_object o (false, (heartbeat (err o) now (b.objects o)).1) b)

  -- A tick of replayCleanupLoop
  pub clean_up : ℕ → Bus reg → Bus reg
  unfolding purge_expired
  clean_up cutoff b = record b { replay_store = purge cutoff b.replay_store }
