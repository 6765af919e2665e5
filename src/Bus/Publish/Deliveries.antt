-- ===== src/Bus/Publish/Deliveries.antt =====
-- Who gets an event that handle takes on, whatever other threads do meanwhile.
use mathlib.Core.Bool.{not}
use mathlib.Core.List.{append-nil}
use sse_eventbus_go.Prelude.{
  ℕ, Bool, true, false, ◌&&◌, List, [], ◌∷◌, ◌++◌, none, some, ◌≡◌, refl, ap, ◌∙◌, inl, inr,
  if◌then◌else◌, Str, has, is_some, Bool-cases,
}
use sse_eventbus_go.Errors.{Fallible, inactive_client, errors_is}
use sse_eventbus_go.Bus.Publish.{
  Reads, ClientEvent, Action, converts, stores, delivers, notifies_queued, notifies_sent, observes,
  Progress, Next, goes_on, returns, act, act_if, after_notify, after_deliver,
}

-- The clients that deliver is called for.
unfoldable pub deliveries : List Action → List Str
deliveries [] = []
deliveries (delivers event ∷ actions) = event.client_id ∷ deliveries actions
deliveries (converts ∷ actions) = deliveries actions
deliveries (stores e ∷ actions) = deliveries actions
deliveries (notifies_queued e ∷ actions) = deliveries actions
deliveries (notifies_sent e err ∷ actions) = deliveries actions
deliveries (observes n err ∷ actions) = deliveries actions

-- Not excluded, subscribed and known at both looks, and active.
unfoldable pub is_eligible : List Str → Str → Reads → Bool
is_eligible excluded id r =
    not (has id excluded)
    && (r.before.subscribed && is_some r.before.target)
    && (r.locked.subscribed && is_some r.locked.target)
    && r.active

unfoldable pub eligible : List Str → (Str → Reads) → List Str → List Str
unfolding is_eligible
eligible excluded reads [] = []
eligible excluded reads (id ∷ ids) =
    let rest = eligible excluded reads ids in
    if is_eligible excluded id (reads id) then id ∷ rest else rest

pub deliveries-append :
    (xs ys : List Action) → deliveries (xs ++ ys) ≡ deliveries xs ++ deliveries ys
unfolding deliveries
deliveries-append [] ys = refl
deliveries-append (delivers e ∷ xs) ys = ap (λ l. e.client_id ∷ l) (deliveries-append xs ys)
deliveries-append (converts ∷ xs) ys = deliveries-append xs ys
deliveries-append (stores e ∷ xs) ys = deliveries-append xs ys
deliveries-append (notifies_queued e ∷ xs) ys = deliveries-append xs ys
deliveries-append (notifies_sent e err ∷ xs) ys = deliveries-append xs ys
deliveries-append (observes n err ∷ xs) ys = deliveries-append xs ys

-- A call that is not a delivery.
pub act-silent :
    (a : Action) (p : Progress)
    → deliveries (a ∷ []) ≡ []
    → deliveries ((act a p).actions) ≡ deliveries p.actions
act-silent a p e =
    deliveries-append p.actions (a ∷ [])
    ∙ ap (λ l. deliveries p.actions ++ l) e
    ∙ append-nil (deliveries p.actions)

pub observes-silent :
    (n : ℕ) (err : Fallible) (p : Progress)
    → deliveries ((act (observes n err) p).actions) ≡ deliveries p.actions
observes-silent n err p = act-silent (observes n err) p (unfold deliveries in refl)

pub act_if-silent :
    (test : Bool) (a : Action) (p : Progress)
    → deliveries (a ∷ []) ≡ []
    → deliveries ((act_if test a p).actions) ≡ deliveries p.actions
act_if-silent true a p e = act-silent a p e
act_if-silent false a p e = refl

abbrev pub progress : Next → Progress
progress (goes_on p) = p
progress (returns err p) = p

-- The deliveries of a round: none or this one.
abbrev pub one_if : Bool → Str → List Str
one_if true id = id ∷ []
one_if false id = []

after_notify-silent :
    (synchronous : Bool) (id : Str) (err : Fallible) (p : Progress)
    → deliveries ((progress (after_notify synchronous id err p)).actions) ≡ deliveries p.actions
unfolding deliveries
after_notify-silent synchronous id none p = refl
after_notify-silent true id (some e) p = refl
after_notify-silent false id (some e) p = act-silent (observes p.delivery_count (some e)) p refl

pub after_deliver-silent :
    (synchronous : Bool) (event : ClientEvent) (sent : Bool) (err : Fallible) (p : Progress)
    → deliveries ((progress (after_deliver synchronous event (sent, err) p)).actions)
      ≡ deliveries p.actions
unfolding deliveries
after_deliver-silent synchronous event sent err p =
    elim (Bool-cases (errors_is err inactive_client)) [
      | inl gone ↦ rw gone
      | inr live ↦ rw live (
          after_notify-silent synchronous event.client_id err _
          ∙ act_if-silent sent (notifies_sent event err) _ refl
          ∙ act_if-silent _ (notifies_queued event) p refl)
    ]
