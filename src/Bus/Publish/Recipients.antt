-- ===== src/Bus/Publish/Recipients.antt =====
-- The clients that handle delivers an event to, against their description.
use mathlib.Core.List.{append_assoc, append-nil}
use sse_eventbus_go.Prelude.{
  ℕ, Bool, true, false, ◌&&◌, List, [], ◌∷◌, ◌++◌, Option, none, some, ◌≡◌, refl, ap, ◌∙◌, inl, inr,
  if◌then◌else◌, Str, has, is_empty, is_some, Bool-cases,
}
use sse_eventbus_go.Errors.{Error, Fallible, errors_is, inactive_client}
use sse_eventbus_go.Event.{Event, normalize_event, validate_event}
use sse_eventbus_go.Bus.Publish.{
  Converted, Reads, ClientEvent, Action, Settings, Progress, Next, goes_on, returns, act,
  after_notify, after_deliver, visit_target, visit_locked, visit_found, visit, visits, resume,
  convert, begin, handle_valid, handle,
}
use sse_eventbus_go.Bus.Publish.Deliveries.{deliveries, eligible, observes-silent}
use sse_eventbus_go.Bus.Publish.Sweep.{
  IsRound, went, visit-IsRound, IsSweep, visits-IsSweep, none_more,
}

-- The named clients of a direct event, and otherwise the subscribers that are not excluded; of these
-- the eligible ones.
unfoldable pub recipients : (Str → Reads) → (Str → List Str) → Event → List Str
unfolding eligible
recipients reads subscribers event =
    if is_empty event.client_ids
    then eligible event.exclude_client_ids reads (subscribers event.name)
    else eligible [] reads event.client_ids

nothing_sent :
    (p : Progress) (ids : List Str) (e : Error) (q : Progress)
    → deliveries q.actions ≡ deliveries p.actions
    → IsSweep p ids (some e, q)
nothing_sent p ids e q same = record {
  delivered = [];
  missed = ids;
  in_order = refl;
  whole = λ h. cc;
  grows = none_more _ _ same;
}

handle_valid-IsSweep :
    (s : Settings) (reads : Str → Reads) (subscribers : Str → List Str) (event : Event)
    (err : Fallible)
    → IsSweep begin
        (recipients reads subscribers event)
        (handle_valid s reads (subscribers event.name) event err)
unfolding recipients
handle_valid-IsSweep s reads subscribers event (some e) =
    nothing_sent begin _ e _ (observes-silent _ _ begin)
handle_valid-IsSweep s reads subscribers event none =
    elim (Bool-cases (is_empty event.client_ids)) [
      | inl broadcast ↦ rw broadcast (visits-IsSweep s event event.exclude_client_ids reads _ begin)
      | inr direct ↦ rw direct (visits-IsSweep s event [] reads event.client_ids begin)
    ]

-- Whatever other threads do meanwhile, handle calls deliver for recipients of the normalised event
-- only, once for each in their order, and for all of them if it returns nil.
pub handle-IsSweep :
    (s : Settings) (stopped : Bool) (reads : Str → Reads) (subscribers : Str → List Str)
    (event : Event)
    → IsSweep begin
        (recipients reads subscribers (normalize_event event))
        (handle s stopped reads subscribers event)
unfolding handle
handle-IsSweep s true reads subscribers event = nothing_sent begin _ _ begin refl
handle-IsSweep s false reads subscribers event =
    handle_valid-IsSweep s reads subscribers (normalize_event event) _

-- A round that does not end the call.
abbrev GoesOn : Next → Type 0
GoesOn (goes_on p) = Unit {0}
GoesOn (returns e p) = ⊥

after_deliver-GoesOn :
    (event : ClientEvent) (sent : Bool) (err : Fallible) (p : Progress)
    → GoesOn (after_deliver true event (sent, err) p)
after_deliver-GoesOn event sent err p = elim (Bool-cases (errors_is err inactive_client)) [
  | inl gone ↦ rw gone tt
  | inr live ↦ rw live (notified err _)
]
  where
    notified : (err : Fallible) (q : Progress) → GoesOn (after_notify true event.client_id err q)
    notified none q = tt
    notified (some e) q = tt

-- Nothing but a failed delivery goes wrong: the bus is not stopped, every lock is obtained, and the
-- data can be converted.
pub record IsCalm (s : Settings) (reads : Str → Reads) (event : Event) : Type 0 where
  pub synchronous : s.synchronous ≡ true
  pub running : (id : Str) → (reads id).stopped ≡ false
  pub locked : (id : Str) → (reads id).lock_err ≡ none
  pub converted : (convert s.converters event).err ≡ none

module _ (s : Settings) (reads : Str → Reads) (event : Event) (calm : IsCalm s reads event) where
  target-GoesOn :
      (c : Converted) (id : Str) (target : Option ℕ) (p : Progress)
      → GoesOn (visit_target s event c id (reads id) target p)
  target-GoesOn c id none p = tt
  target-GoesOn c id (some target) p =
      rw (calm.running id, calm.synchronous) (by_active ((reads id).active) _ _)
    where
      by_active :
          (active : Bool) (sent : ClientEvent) (stored : Progress)
          → GoesOn (
              if active
              then after_deliver true sent ((reads id).outcome) (act (Action.delivers sent) stored)
              else goes_on stored)
      by_active true sent stored = after_deliver-GoesOn sent _ _ _
      by_active false sent stored = tt

  locked-GoesOn :
      (c : Converted) (id : Str) (p : Progress)
      → GoesOn (visit_locked s event c id (reads id) ((reads id).lock_err) p)
  locked-GoesOn c id p = rw (calm.locked id) (elim (Bool-cases ((reads id).locked.subscribed)) [
    | inl there ↦ rw there (target-GoesOn c id _ p)
    | inr gone ↦ rw gone tt
  ])

  found-GoesOn :
      (id : Str) (conversion : Option Converted) (p : Progress)
      → GoesOn (visit_found s event id (reads id) conversion p)
  found-GoesOn id (some c) p = locked-GoesOn c id p
  found-GoesOn id none p = rw calm.converted (locked-GoesOn (convert s.converters event) id _)

  visit-GoesOn :
      (excluded : List Str) (id : Str) (p : Progress)
      → GoesOn (visit s event excluded id (reads id) p)
  unfolding visit
  visit-GoesOn excluded id p = elim (Bool-cases (has id excluded)) [
    | inl out ↦ rw out tt
    | inr kept ↦
        rw kept
          (elim (Bool-cases ((reads id).before.subscribed && is_some (reads id).before.target)) [
            | inl found ↦ rw found (found-GoesOn id p.conversion p)
            | inr missing ↦ rw missing tt
          ])
  ]

  all_delivered :
      (excluded : List Str) (ids : List Str) (p : Progress)
      → deliveries (visits s event excluded reads ids p).1.actions
        ≡ deliveries p.actions ++ eligible excluded reads ids
  unfolding visits eligible
  all_delivered excluded [] p = none_more _ _ (observes-silent _ _ p)
  all_delivered excluded (id ∷ ids) p =
      by_round _ _ (visit-IsRound s event excluded id (reads id) p) (visit-GoesOn excluded id p)
        (λ q. all_delivered excluded ids q)
    where
      by_round :
          (is_eligible_now : Bool) (n : Next)
          → IsRound id p is_eligible_now n
          → GoesOn n
          → ((q : Progress)
              → deliveries (visits s event excluded reads ids q).1.actions
                ≡ deliveries q.actions ++ eligible excluded reads ids)
          → deliveries (resume (λ q. visits s event excluded reads ids q) n).1.actions
            ≡ deliveries p.actions
              ++ (if is_eligible_now
                  then id ∷ eligible excluded reads ids
                  else eligible excluded reads ids)
      by_round true (goes_on q) (went f) g ih =
          ih q
          ∙ ap (λ l. l ++ eligible excluded reads ids) f
          ∙ append_assoc (deliveries p.actions) (id ∷ []) (eligible excluded reads ids)
      by_round false (goes_on q) (went f) g ih =
          ih q ∙ ap (λ l. l ++ eligible excluded reads ids) (f ∙ append-nil (deliveries p.actions))
      by_round b (returns e q) r g ih = absurd g

-- In synchronous mode a failed delivery takes the event from nobody else: while the bus runs, the
-- locks are obtained and the data of a valid event converts, handle calls deliver for every
-- recipient, whatever the calls return.
pub failures_are_isolated :
    (s : Settings) (reads : Str → Reads) (subscribers : Str → List Str) (event : Event)
    → IsCalm s reads (normalize_event event)
    → validate_event (normalize_event event) ≡ none
    → deliveries (handle s false reads subscribers event).1.actions
      ≡ recipients reads subscribers (normalize_event event)
unfolding handle recipients deliveries
failures_are_isolated s reads subscribers event calm valid =
    rw valid (elim (Bool-cases (is_empty (normalize_event event).client_ids)) [
      | inl broadcast ↦ rw broadcast (all_delivered s reads _ calm _ _ begin)
      | inr direct ↦ rw direct (all_delivered s reads _ calm [] _ begin)
    ])
