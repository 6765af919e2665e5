-- ===== src/Bus/Publish/Messages.antt =====
-- The messages that handle delivers, at the HTTP connection.
use sse_eventbus_go.Prelude.{
  ℕ, Bool, true, false, ◌&&◌, List, [], ◌∷◌, ◌++◌, Option, none, some, ◌≡◌, refl, arith,
  if◌then◌else◌, Str, has, is_empty, is_some, contains_any, Bool-cases, inl, inr,
}
use sse_eventbus_go.Prelude.Int.{pos, ltb_ℤ}
use sse_eventbus_go.Errors.{Fallible, is, closed, errors_is, inactive_client}
use sse_eventbus_go.Event.{
  Event, Message, normalize_event, validate_event, line_breaks, null_or_line_breaks,
}
use sse_eventbus_go.Http.{frame}
use sse_eventbus_go.Http.Connection.{Connection, Answers, send, send_result, write_frame}
use sse_eventbus_go.Bus.Publish.{
  Converted, Reads, ClientEvent, Action, converts, stores, delivers, notifies_queued, notifies_sent,
  observes, Settings, Progress, Next, goes_on, returns, act, act_if, after_notify, after_deliver,
  client_event, replay_event, visit_target, visit_locked, visit_converted, visit_found, visit,
  visits, resume, convert, begin, handle_valid, handle,
}

-- Send has no objection to the message: it is written, unless the connection or the request is over.
abbrev pub IsAccepted : Message → Type 0
IsAccepted m =
    (request_done : Bool) (a : Answers) (c : Connection)
    → send request_done a m c ≡ (
        if c.is_closed
        then (some (is closed), c)
        else if request_done
        then (some (is closed), c)
        else send_result (write_frame a (frame m) c))

-- Of every delivered message.
abbrev pub AllAccepted : List Action → Type 0
AllAccepted [] = Unit {0}
AllAccepted (delivers event ∷ actions) = IsAccepted event.message × AllAccepted actions
AllAccepted (converts ∷ actions) = AllAccepted actions
AllAccepted (stores e ∷ actions) = AllAccepted actions
AllAccepted (notifies_queued e ∷ actions) = AllAccepted actions
AllAccepted (notifies_sent e err ∷ actions) = AllAccepted actions
AllAccepted (observes n err ∷ actions) = AllAccepted actions

AllAccepted-append :
    (xs ys : List Action) → AllAccepted xs → AllAccepted ys → AllAccepted (xs ++ ys)
AllAccepted-append [] ys u v = v
AllAccepted-append (delivers e ∷ xs) ys u v = (u.0, AllAccepted-append xs ys u.1 v)
AllAccepted-append (converts ∷ xs) ys u v = AllAccepted-append xs ys u v
AllAccepted-append (stores e ∷ xs) ys u v = AllAccepted-append xs ys u v
AllAccepted-append (notifies_queued e ∷ xs) ys u v = AllAccepted-append xs ys u v
AllAccepted-append (notifies_sent e err ∷ xs) ys u v = AllAccepted-append xs ys u v
AllAccepted-append (observes n err ∷ xs) ys u v = AllAccepted-append xs ys u v

abbrev Good : Next → Type 0
Good (goes_on p) = AllAccepted p.actions
Good (returns e p) = AllAccepted p.actions

act-AllAccepted :
    (a : Action) (p : Progress)
    → AllAccepted (a ∷ [])
    → AllAccepted p.actions
    → AllAccepted ((act a p).actions)
act-AllAccepted a p u v = AllAccepted-append p.actions (a ∷ []) v u

act_if-AllAccepted :
    (test : Bool) (a : Action) (p : Progress)
    → AllAccepted (a ∷ [])
    → AllAccepted p.actions
    → AllAccepted ((act_if test a p).actions)
act_if-AllAccepted true a p u v = act-AllAccepted a p u v
act_if-AllAccepted false a p u v = v

after_notify-Good :
    (synchronous : Bool) (id : Str) (err : Fallible) (p : Progress)
    → AllAccepted p.actions
    → Good (after_notify synchronous id err p)
after_notify-Good synchronous id none p v = v
after_notify-Good true id (some e) p v = v
after_notify-Good false id (some e) p v = act-AllAccepted (observes _ _) p tt v

after_deliver-Good :
    (synchronous : Bool) (event : ClientEvent) (sent : Bool) (err : Fallible) (p : Progress)
    → AllAccepted p.actions
    → Good (after_deliver synchronous event (sent, err) p)
after_deliver-Good synchronous event sent err p v =
    elim (Bool-cases (errors_is err inactive_client)) [
      | inl gone ↦ rw gone v
      | inr live ↦ rw live (
          after_notify-Good synchronous event.client_id err _ (
            act_if-AllAccepted sent (notifies_sent event err) _ tt
              (act_if-AllAccepted _ (notifies_queued event) p tt v)))
    ]

valid-IsAccepted :
    (event : Event) (c : Converted) (id : Str) (target : ℕ) (r : Reads)
    → validate_event event ≡ none
    → IsAccepted (client_event event c id target r).message
unfolding validate_event send
valid-IsAccepted event c id target r valid request_done a d =
    let name : contains_any event.name line_breaks ≡ false = ground arith in
    let id_ : contains_any event.id null_or_line_breaks ≡ false = ground arith in
    let retry : ltb_ℤ event.retry (pos 0) ≡ false = ground arith in rw (name, id_, retry) refl

module _ (s : Settings) (event : Event) (valid : validate_event event ≡ none) where
  visit_target-Good :
      (c : Converted) (id : Str) (r : Reads) (target : Option ℕ) (p : Progress)
      → AllAccepted p.actions
      → Good (visit_target s event c id r target p)
  visit_target-Good c id r none p v = v
  visit_target-Good c id r (some target) p v = elim (Bool-cases r.stopped) [
    | inl stop ↦ rw stop v
    | inr run ↦
        rw run
          (by_active r.active _ (act_if-AllAccepted _ (stores (replay_event event c id r)) p tt v))
  ]
    where
      by_active :
          (active : Bool) (stored : Progress)
          → AllAccepted stored.actions
          → Good (
              if active
              then after_deliver s.synchronous
                  (client_event event c id target r)
                  r.outcome
                  (act (delivers (client_event event c id target r)) stored)
              else goes_on stored)
      by_active true stored w = after_deliver-Good s.synchronous _ _ _ _ (
          act-AllAccepted (delivers (client_event event c id target r)) stored
            (valid-IsAccepted event c id target r valid, tt) w)
      by_active false stored w = w

  visit_locked-Good :
      (c : Converted) (id : Str) (r : Reads) (lock_err : Fallible) (p : Progress)
      → AllAccepted p.actions
      → Good (visit_locked s event c id r lock_err p)
  visit_locked-Good c id r (some e) p v = v
  visit_locked-Good c id r none p v = elim (Bool-cases r.locked.subscribed) [
    | inl there ↦ rw there (visit_target-Good c id r (r.locked.target) p v)
    | inr gone ↦ rw gone v
  ]

  visit_converted-Good :
      (c : Converted) (id : Str) (r : Reads) (err : Fallible) (p : Progress)
      → AllAccepted p.actions
      → Good (visit_converted s event c id r err p)
  visit_converted-Good c id r (some e) p v = act-AllAccepted (observes _ _) p tt v
  visit_converted-Good c id r none p v =
      visit_locked-Good c id r r.lock_err (record p { conversion = some c }) v

  visit_found-Good :
      (id : Str) (r : Reads) (conversion : Option Converted) (p : Progress)
      → AllAccepted p.actions
      → Good (visit_found s event id r conversion p)
  visit_found-Good id r (some c) p v = visit_locked-Good c id r r.lock_err p v
  visit_found-Good id r none p v =
      visit_converted-Good (convert s.converters event) id r _ (act converts p)
        (act-AllAccepted converts p tt v)

  visit-Good :
      (excluded : List Str) (id : Str) (r : Reads) (p : Progress)
      → AllAccepted p.actions
      → Good (visit s event excluded id r p)
  unfolding visit
  visit-Good excluded id r p v = elim (Bool-cases (has id excluded)) [
    | inl out ↦ rw out v
    | inr kept ↦ rw kept (elim (Bool-cases (r.before.subscribed && is_some r.before.target)) [
      | inl found ↦ rw found (visit_found-Good id r p.conversion p v)
      | inr missing ↦ rw missing v
    ])
  ]

  visits-AllAccepted :
      (excluded : List Str) (reads : Str → Reads) (ids : List Str) (p : Progress)
      → AllAccepted p.actions
      → AllAccepted (visits s event excluded reads ids p).1.actions
  unfolding visits
  visits-AllAccepted excluded reads [] p v = act-AllAccepted (observes _ _) p tt v
  visits-AllAccepted excluded reads (id ∷ ids) p v =
      by_round (visit s event excluded id (reads id) p) (visit-Good excluded id (reads id) p v)
        (λ q w. visits-AllAccepted excluded reads ids q w)
    where
      by_round :
          (n : Next)
          → Good n
          → ((q : Progress)
              → AllAccepted q.actions
              → AllAccepted (visits s event excluded reads ids q).1.actions)
          → AllAccepted (resume (λ q. visits s event excluded reads ids q) n).1.actions
      by_round (goes_on q) g ih = ih q g
      by_round (returns e q) g ih = g

handle_valid-AllAccepted :
    (s : Settings) (reads : Str → Reads) (subscribers : List Str) (event : Event) (err : Fallible)
    → validate_event event ≡ err
    → AllAccepted (handle_valid s reads subscribers event err).1.actions
handle_valid-AllAccepted s reads subscribers event (some e) valid = tt
handle_valid-AllAccepted s reads subscribers event none valid =
    elim (Bool-cases (is_empty event.client_ids)) [
      | inl broadcast ↦
          rw broadcast (visits-AllAccepted s event valid event.exclude_client_ids reads _ begin tt)
      | inr direct ↦ rw direct (visits-AllAccepted s event valid [] reads event.client_ids begin tt)
    ]

-- No message that handle delivers is one that Send of the HTTP connection refuses as invalid, so that
-- no retry is spent on it: Send writes its frame, unless the connection or the request is over.
pub handle-AllAccepted :
    (s : Settings) (stopped : Bool) (reads : Str → Reads) (subscribers : Str → List Str)
    (event : Event)
    → AllAccepted (handle s stopped reads subscribers event).1.actions
unfolding handle
handle-AllAccepted s true reads subscribers event = tt
handle-AllAccepted s false reads subscribers event =
    handle_valid-AllAccepted s reads (subscribers (normalize_event event).name)
      (normalize_event event) _ refl
