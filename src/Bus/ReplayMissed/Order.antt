-- ===== src/Bus/ReplayMissed/Order.antt =====
-- The retained events that a replay delivers, against their description.
use mathlib.Core.Bool.{not}
use mathlib.Core.List.{append_assoc, append-nil}
use sse_eventbus_go.Prelude.{
  ℕ, ◌+◌, Bool, true, false, ◌||◌, List, [], ◌∷◌, ◌++◌, map, none, some, ◌≡◌, refl, ap, sym, ◌∙◌,
  inl, inr, arith, ◌⊎◌, if◌then◌else◌, ltb, Bool-cases,
}
use sse_eventbus_go.Errors.{Error, Fallible, errors_is, inactive_client}
use sse_eventbus_go.Replay.{ReplayEvent, normalized}
use sse_eventbus_go.Registry.Interface.{SubscriptionRegistry}
use sse_eventbus_go.Bus.Publish.{ClientEvent}
use sse_eventbus_go.Client.Lifecycle.{no_error}
use sse_eventbus_go.Prelude.{Str}
use sse_eventbus_go.Bus.State.{error}
use sse_eventbus_go.Bus.ReplayMissed.{
  ReplayRound, ReplayProgress, ReplayNext, Replayed, goes_on, stops, fails, after_replayed,
  after_redelivery, deliver_valid, round, resume_replay, replay_loop,
}

-- The events to replay, in order: those that have not expired and whose name the registry says that the
-- client is subscribed to when the loop comes to them.
pub replayable :
    {reg : SubscriptionRegistry}
    → ℕ
    → (ℕ → ReplayRound reg)
    → Str
    → ℕ
    → List ReplayEvent
    → List ReplayEvent
replayable cutoff rounds client_id i [] = []
replayable {reg = reg} cutoff rounds client_id i (retained ∷ events) =
    let rest = replayable cutoff rounds client_id (i + 1) events in
    let event = normalized retained in
    if ltb retained.stored_at cutoff
      || not (reg.is_subscribed client_id event.event.name (rounds i).subscriptions)
    then rest
    else event ∷ rest

-- Whether the client is inactive before an event, or deliver returns that it is.
pub is_gone : {reg : SubscriptionRegistry} → ReplayRound reg → Bool
is_gone r = not r.active || errors_is (r.outcome.1) inactive_client

-- Whether that is so at one of the events from round `i` on.
pub finds_inactive :
    {reg : SubscriptionRegistry} → (ℕ → ReplayRound reg) → ℕ → List ReplayEvent → Bool
unfolding is_gone
finds_inactive rounds i [] = false
finds_inactive rounds i (retained ∷ events) =
    is_gone (rounds i) || finds_inactive rounds (i + 1) events

-- A replay from the progress `p` delivers the events in order, from the first on, and all of them unless
-- the client is found inactive or the replay ends with an error.
pub record IsReplay (to_client : ReplayEvent → ClientEvent) (p : ReplayProgress)
    (events : List ReplayEvent) (gone : Bool) (r : Replayed) : Type 0 where
  pub delivered : List ReplayEvent
  pub missed : List ReplayEvent
  pub in_order : events ≡ delivered ++ missed
  pub whole : (missed ≡ []) ⊎ (gone ≡ true) ⊎ (r.outcome ≡ error)
  pub grows : r.progress.delivered ≡ p.delivered ++ map to_client delivered

-- What a round does: it passes over the event, delivers it, or ends the loop before or after that.
data IsRound (to_client : ReplayEvent → ClientEvent) (event : ReplayEvent) (p : ReplayProgress)
    (rest : List ReplayEvent) (gone : Bool) : List ReplayEvent → ReplayNext → Type 0 where
  skipped :
      {q : ReplayProgress}
      → q.delivered ≡ p.delivered
      → IsRound to_client event p rest gone rest (goes_on q)
  went :
      {q : ReplayProgress}
      → q.delivered ≡ p.delivered ++ to_client event ∷ []
      → IsRound to_client event p rest gone (event ∷ rest) (goes_on q)
  stopped :
      {events : List ReplayEvent} {q : ReplayProgress}
      → gone ≡ true
      → q.delivered ≡ p.delivered
      → IsRound to_client event p rest gone events (stops q)
  stopped_after :
      {q : ReplayProgress}
      → gone ≡ true
      → q.delivered ≡ p.delivered ++ to_client event ∷ []
      → IsRound to_client event p rest gone (event ∷ rest) (stops q)
  failed :
      {events : List ReplayEvent} {e : Error} {q : ReplayProgress}
      → q.delivered ≡ p.delivered
      → IsRound to_client event p rest gone events (fails e q)
  failed_after :
      {e : Error} {q : ReplayProgress}
      → q.delivered ≡ p.delivered ++ to_client event ∷ []
      → IsRound to_client event p rest gone (event ∷ rest) (fails e q)

module _ (to_client : ReplayEvent → ClientEvent) (event : ReplayEvent) (rest : List ReplayEvent)
    (gone : Bool) where
  after_replayed-IsRound :
      (synchronous : Bool) (client_id : Str) (err : Fallible) (p q : ReplayProgress)
      → q.delivered ≡ p.delivered ++ to_client event ∷ []
      → IsRound to_client event p rest gone
          (event ∷ rest)
          (after_replayed synchronous client_id err q)
  after_replayed-IsRound synchronous client_id none p q e = went e
  after_replayed-IsRound true client_id (some err) p q e = went e
  after_replayed-IsRound false client_id (some err) p q e = failed_after e

  after_redelivery-IsRound :
      (synchronous : Bool) (outcome : Bool × Fallible) (p q : ReplayProgress)
      → (errors_is outcome.1 inactive_client ≡ true → gone ≡ true)
      → q.delivered ≡ p.delivered ++ to_client event ∷ []
      → IsRound to_client event p rest gone
          (event ∷ rest)
          (after_redelivery synchronous (to_client event) outcome q)
  after_redelivery-IsRound synchronous (sent, err) p q tells e =
      elim (Bool-cases (errors_is err inactive_client)) [
        | inl inactive ↦ rw inactive (stopped_after (tells inactive) e)
        | inr here ↦
            rw here (after_replayed-IsRound synchronous _ err p _ (notified (no_error err || sent)))
      ]
    where
      notified :
          (test : Bool)
          → (if test
              then record q {
                notifications =
                    q.notifications
                    ++ record { event = to_client event; sent = sent; err = err } ∷ [];
              }
              else q).delivered
            ≡ p.delivered ++ to_client event ∷ []
      notified true = e
      notified false = e

  deliver_valid-IsRound :
      (synchronous : Bool) (outcome : Bool × Fallible) (err : Fallible) (p : ReplayProgress)
      → (errors_is outcome.1 inactive_client ≡ true → gone ≡ true)
      → IsRound to_client event p rest gone
          (event ∷ rest)
          (deliver_valid synchronous (to_client event) outcome err p)
  deliver_valid-IsRound synchronous outcome (some err) p tells = failed refl
  deliver_valid-IsRound synchronous outcome none p tells =
      after_redelivery-IsRound synchronous outcome p _ tells refl

module _ {reg : SubscriptionRegistry} (synchronous : Bool) (cutoff : ℕ) (client_id : Str)
    (to_client : ReplayEvent → ClientEvent) where
  round-IsRound :
      (retained : ReplayEvent) (r : ReplayRound reg) (rest : List ReplayEvent) (p : ReplayProgress)
      → IsRound to_client
          (normalized retained)
          p
          rest
          (is_gone r)
          (if ltb retained.stored_at cutoff
              || not (reg.is_subscribed client_id (normalized retained).event.name r.subscriptions)
            then rest
            else normalized retained ∷ rest)
          (round synchronous cutoff client_id to_client retained r p)
  unfolding round is_gone
  round-IsRound retained r rest p = elim (Bool-cases r.active) [
    | inr inactive ↦ rw inactive (stopped refl refl)
    | inl active ↦ rw active (elim (Bool-cases (ltb retained.stored_at cutoff)) [
      | inl expired ↦ rw expired (skipped refl)
      | inr kept ↦
          rw kept
            (elim (Bool-cases
              (reg.is_subscribed client_id (normalized retained).event.name r.subscriptions)) [
                | inr unsubscribed ↦ rw unsubscribed (skipped refl)
                | inl subscribed ↦ rw subscribed (
                    deliver_valid-IsRound to_client (normalized retained) rest _ synchronous
                      r.outcome _ p (λ e. e))
              ])
    ])
  ]

module _ (to_client : ReplayEvent → ClientEvent) (event : ReplayEvent) (p : ReplayProgress)
    (rest : List ReplayEvent) (run : ReplayProgress → Replayed) (gone later : Bool) where
  still :
      (missed : List ReplayEvent) (r : Replayed)
      → (missed ≡ []) ⊎ (later ≡ true) ⊎ (r.outcome ≡ error)
      → (missed ≡ []) ⊎ (gone || later ≡ true) ⊎ (r.outcome ≡ error)
  still missed r (inl e) = inl e
  still missed r (inr (inl e)) = inr (inl (ground arith))
  still missed r (inr (inr e)) = inr (inr e)

  IsReplay-resume :
      (now : List ReplayEvent) (n : ReplayNext)
      → IsRound to_client event p rest gone now n
      → ((q : ReplayProgress) → IsReplay to_client q rest later (run q))
      → IsReplay to_client p now (gone || later) (resume_replay run n)
  IsReplay-resume now (goes_on q) (skipped e) run_rest =
      let w = run_rest q in
      record {
        delivered = w.delivered;
        missed = w.missed;
        in_order = w.in_order;
        whole = still _ (run q) w.whole;
        grows = w.grows ∙ ap (λ l. l ++ map to_client w.delivered) e;
      }
  IsReplay-resume now (goes_on q) (went e) run_rest =
      let w = run_rest q in
      record {
        delivered = event ∷ w.delivered;
        missed = w.missed;
        in_order = ap (λ l. event ∷ l) w.in_order;
        whole = still _ (run q) w.whole;
        grows =
            w.grows
            ∙ ap (λ l. l ++ map to_client w.delivered) e
            ∙ append_assoc p.delivered (to_client (event) ∷ []) (map to_client w.delivered);
      }
  IsReplay-resume now (stops q) (stopped inactive e) run_rest = record {
    delivered = [];
    missed = now;
    in_order = refl;
    whole = inr (inl (ground arith));
    grows = e ∙ sym (append-nil p.delivered);
  }
  IsReplay-resume now (stops q) (stopped_after inactive e) run_rest = record {
    delivered = event ∷ [];
    missed = rest;
    in_order = refl;
    whole = inr (inl (ground arith));
    grows = e;
  }
  IsReplay-resume now (fails err q) (failed e) run_rest = record {
    delivered = [];
    missed = now;
    in_order = refl;
    whole = inr (inr refl);
    grows = e ∙ sym (append-nil p.delivered);
  }
  IsReplay-resume now (fails err q) (failed_after e) run_rest = record {
    delivered = event ∷ [];
    missed = rest;
    in_order = refl;
    whole = inr (inr refl);
    grows = e;
  }

pub replay_loop-IsReplay :
    {reg : SubscriptionRegistry} (synchronous : Bool) (cutoff : ℕ) (client_id : Str)
    (to_client : ReplayEvent → ClientEvent) (rounds : ℕ → ReplayRound reg) (i : ℕ)
    (events : List ReplayEvent) (p : ReplayProgress)
    → IsReplay to_client p
        (replayable cutoff rounds client_id i events)
        (finds_inactive rounds i events)
        (replay_loop synchronous cutoff client_id to_client rounds i events p)
unfolding replay_loop replayable finds_inactive
replay_loop-IsReplay synchronous cutoff client_id to_client rounds i [] p = record {
  delivered = [];
  missed = [];
  in_order = refl;
  whole = inl refl;
  grows = sym (append-nil p.delivered);
}
replay_loop-IsReplay synchronous cutoff client_id to_client rounds i (retained ∷ events) p =
    IsReplay-resume to_client (normalized retained) p _ _ _ _ _ _
      (round-IsRound synchronous cutoff client_id to_client retained (rounds i) _ p)
      (λ q. replay_loop-IsReplay synchronous cutoff client_id to_client rounds (i + 1) events q)
