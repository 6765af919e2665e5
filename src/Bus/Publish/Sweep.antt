-- ===== src/Bus/Publish/Sweep.antt =====
-- The rounds of the loop of handle, and the deliveries of the whole loop.
use mathlib.Core.List.{append_assoc, append-nil}
use sse_eventbus_go.Prelude.{
  ℕ, Bool, true, false, ◌&&◌, List, [], ◌∷◌, ◌++◌, Option, none, some, ◌≡◌, refl, sym, ap, ◌∙◌, inl,
  inr, arith, if◌then◌else◌, Str, has, is_some, Bool-cases,
}
use sse_eventbus_go.Errors.{Error, Fallible}
use sse_eventbus_go.Event.{Event}
use sse_eventbus_go.Bus.Publish.{
  Converted, Reads, ClientEvent, converts, stores, delivers, observes, Settings, Progress, Next,
  goes_on, returns, act, after_deliver, client_event, replay_event, visit_target, visit_locked,
  visit_converted, visit_found, visit, visits, resume,
}
use sse_eventbus_go.Bus.Publish.Deliveries.{
  deliveries, is_eligible, eligible, deliveries-append, act-silent, act_if-silent, observes-silent,
  progress, one_if, after_deliver-silent,
}

-- What a round does for an ID: it goes on after the delivery to an eligible client, or it ends the
-- call after that delivery or without one.
pub data IsRound (id : Str) (p : Progress) (eligible : Bool) : Next → Type 0 where
  went :
      {q : Progress}
      → deliveries q.actions ≡ deliveries p.actions ++ one_if eligible id
      → IsRound id p eligible (goes_on q)
  ended :
      {err : Error} {q : Progress} (delivered : Bool)
      → (delivered ≡ true → eligible ≡ true)
      → deliveries q.actions ≡ deliveries p.actions ++ one_if delivered id
      → IsRound id p eligible (returns err q)

delivered-IsRound :
    (id : Str) (p : Progress) (n : Next)
    → deliveries ((progress n).actions) ≡ deliveries p.actions ++ id ∷ []
    → IsRound id p true n
delivered-IsRound id p (goes_on q) e = went e
delivered-IsRound id p (returns err q) e = ended true (λ h. h) e

pub none_more : (xs ys : List Str) → xs ≡ ys → xs ≡ ys ++ []
none_more xs ys e = e ∙ sym (append-nil ys)

from_stored :
    (s : Settings) (r : Reads) (event : ClientEvent) (id : Str) (p stored : Progress)
    (active : Bool)
    → event.client_id ≡ id
    → deliveries stored.actions ≡ deliveries p.actions
    → IsRound id p active (
        if active
        then after_deliver s.synchronous event r.outcome (act (delivers event) stored)
        else goes_on stored)
from_stored s r event id p stored true same e = delivered-IsRound id p _ (
    after_deliver-silent s.synchronous event r.outcome.0 r.outcome.1 (act (delivers event) stored)
    ∙ deliveries-append stored.actions (delivers event ∷ [])
    ∙ unfold deliveries in rw (e, same))
from_stored s r event id p stored false same e = went (none_more _ _ e)

visit_target-IsRound :
    (s : Settings) (event : Event) (c : Converted) (id : Str) (r : Reads) (target : Option ℕ)
    (p : Progress)
    → IsRound id p (is_some target && r.active) (visit_target s event c id r target p)
visit_target-IsRound s event c id r none p = went (none_more _ _ refl)
visit_target-IsRound s event c id r (some target) p = elim (Bool-cases r.stopped) [
  | inl stop ↦ rw stop (ended false (λ h. cc) (none_more _ _ refl))
  | inr run ↦ rw run (
      from_stored s r (client_event event c id target r) id p _ r.active refl
        (act_if-silent _ (stores (replay_event event c id r)) p (unfold deliveries in refl)))
]

visit_locked-IsRound :
    (s : Settings) (event : Event) (c : Converted) (id : Str) (r : Reads) (lock_err : Fallible)
    (p : Progress)
    → IsRound id p
        ((r.locked.subscribed && is_some r.locked.target) && r.active)
        (visit_locked s event c id r lock_err p)
visit_locked-IsRound s event c id r (some e) p = ended false (λ h. cc) (none_more _ _ refl)
visit_locked-IsRound s event c id r none p = elim (Bool-cases r.locked.subscribed) [
  | inl yes_ ↦ rw yes_ (visit_target-IsRound s event c id r (r.locked.target) p)
  | inr no_ ↦ rw no_ (went (none_more _ _ refl))
]

IsRound-from :
    {id : Str} {eligible : Bool} (p p' : Progress) (n : Next)
    → deliveries p'.actions ≡ deliveries p.actions
    → IsRound id p' eligible n
    → IsRound id p eligible n
IsRound-from p p' _ e (went f) = went (rw (← e) f)
IsRound-from p p' _ e (ended delivered h f) = ended delivered h (rw (← e) f)

visit_converted-IsRound :
    (s : Settings) (event : Event) (c : Converted) (id : Str) (r : Reads) (err : Fallible)
    (p : Progress)
    → IsRound id p
        ((r.locked.subscribed && is_some r.locked.target) && r.active)
        (visit_converted s event c id r err p)
visit_converted-IsRound s event c id r (some e) p =
    ended false (λ h. cc)
      (none_more _ _ (act-silent (observes 0 (some e)) p (unfold deliveries in refl)))
visit_converted-IsRound s event c id r none p =
    IsRound-from p (record p { conversion = some c }) _ refl
      (visit_locked-IsRound s event c id r r.lock_err (record p { conversion = some c }))

visit_found-IsRound :
    (s : Settings) (event : Event) (id : Str) (r : Reads) (conversion : Option Converted)
    (p : Progress)
    → IsRound id p
        ((r.locked.subscribed && is_some r.locked.target) && r.active)
        (visit_found s event id r conversion p)
visit_found-IsRound s event id r (some c) p = visit_locked-IsRound s event c id r r.lock_err p
visit_found-IsRound s event id r none p =
    IsRound-from p (act converts p) _ (act-silent converts p (unfold deliveries in refl))
      (visit_converted-IsRound s event _ id r _ (act converts p))

pub visit-IsRound :
    (s : Settings) (event : Event) (excluded : List Str) (id : Str) (r : Reads) (p : Progress)
    → IsRound id p (is_eligible excluded id r) (visit s event excluded id r p)
unfolding visit is_eligible
visit-IsRound s event excluded id r p = elim (Bool-cases (has id excluded)) [
  | inl out ↦ rw out (went (none_more _ _ refl))
  | inr kept ↦ rw kept (elim (Bool-cases (r.before.subscribed && is_some r.before.target)) [
    | inl found ↦ rw found (visit_found-IsRound s event id r p.conversion p)
    | inr missing ↦ rw missing (went (none_more _ _ refl))
  ])
]

-- The deliveries of the whole loop: those to the first eligible clients, and to all of them if the
-- loop comes to its end.
pub record IsSweep (p : Progress) (eligible_ids : List Str) (r : Fallible × Progress) : Type 0 where
  pub delivered : List Str
  pub missed : List Str
  pub in_order : eligible_ids ≡ delivered ++ missed
  pub whole : r.0 ≡ none → missed ≡ []
  pub grows : deliveries r.1.actions ≡ deliveries p.actions ++ delivered

pub visits-IsSweep :
    (s : Settings) (event : Event) (excluded : List Str) (reads : Str → Reads) (ids : List Str)
    (p : Progress)
    → IsSweep p (eligible excluded reads ids) (visits s event excluded reads ids p)
unfolding visits eligible
visits-IsSweep s event excluded reads [] p = record {
  delivered = [];
  missed = [];
  in_order = refl;
  whole = λ h. refl;
  grows = none_more _ _ (observes-silent _ _ p);
}
visits-IsSweep s event excluded reads (id ∷ ids) p =
    by_round _ _ (visit-IsRound s event excluded id (reads id) p)
      (λ q. visits-IsSweep s event excluded reads ids q)
  where
    by_round :
        (is_eligible_now : Bool) (n : Next)
        → IsRound id p is_eligible_now n
        → ((q : Progress)
            → IsSweep q (eligible excluded reads ids) (visits s event excluded reads ids q))
        → IsSweep p
            (if is_eligible_now
              then id ∷ eligible excluded reads ids
              else eligible excluded reads ids)
            (resume (λ q. visits s event excluded reads ids q) n)
    by_round true (goes_on q) (went f) ih =
        let w = ih q in
        record {
          delivered = id ∷ w.delivered;
          missed = w.missed;
          in_order = ap (λ l. id ∷ l) w.in_order;
          whole = w.whole;
          grows =
              w.grows
              ∙ ap (λ l. l ++ w.delivered) f
              ∙ append_assoc (deliveries p.actions) (id ∷ []) w.delivered;
        }
    by_round false (goes_on q) (went f) ih =
        let w = ih q in
        record {
          delivered = w.delivered;
          missed = w.missed;
          in_order = w.in_order;
          whole = w.whole;
          grows = w.grows ∙ ap (λ l. l ++ w.delivered) (f ∙ append-nil (deliveries p.actions));
        }
    by_round true (returns e q) (ended true h f) ih = record {
      delivered = id ∷ [];
      missed = eligible excluded reads ids;
      in_order = refl;
      whole = λ k. cc;
      grows = f;
    }
    by_round b (returns e q) (ended false h f) ih = record {
      delivered = [];
      missed = _;
      in_order = refl;
      whole = λ k. cc;
      grows = f;
    }
    by_round false (returns e q) (ended true h f) ih = absurd (ground (arith, h))
