-- ===== src/Client/Lifecycle/Tests.antt =====
-- A client whose first message completes it, with a publisher that retires it at the same time.
use sse_eventbus_go.Prelude.{◌-◌, ◌∷◌, ◌≤◌, true, [], none, ◌≡◌, refl, arith}
use sse_eventbus_go.Prelude.Int.{pos}
use sse_eventbus_go.Event.{Message}
use sse_eventbus_go.Client.Lifecycle.{send_checked, ends_client, deactivate}
use sse_eventbus_go.Client.Lifecycle.Calls.{
  Run, Action, Step, Reach, here, next, start, after_send, count_closes, Ordered, closes_once,
}

abbrev hello : Message
hello = record { event = []; payload = []; has_data = true; retry = pos 0; id = []; comment = [] }

abbrev first : Run
first = start 7 0 true

abbrev entered : Run
entered = record first { checked = true }

abbrev sent : Run
sent = after_send hello (send_checked none 5 0 entered.client) entered

abbrev closed_run : Run
closed_run = record sent { closing = sent.closing - 1; calls = Action.closes ∷ sent.calls }

sent-Reach : Reach first sent
sent-Reach = next (next here (Step.checks refl refl)) (Step.sends_event hello none 5 0 refl)

one_closing : sent.closing ≡ 1
unfolding after_send ends_client
one_closing = refl

closed_run-Reach : Reach first closed_run
closed_run-Reach = next sent-Reach (Step.calls_close (omega (arith, one_closing)))

closes_once_example : (count_closes closed_run.calls ≤ 1) × Ordered closed_run.calls
closes_once_example = closes_once 7 0 true {s = closed_run} closed_run-Reach

taken : closed_run.client.connection_closed ≡ true
unfolding after_send ends_client
taken = refl

idle : closed_run.closing ≡ 0
unfolding after_send ends_client
idle = refl

-- A retire that sets `inactive` after the check of send.
abbrev late : Run
late = record entered { client = deactivate entered.client; ending = 1 }

abbrev sent_late : Run
sent_late = after_send hello (send_checked none 6 0 late.client) late
