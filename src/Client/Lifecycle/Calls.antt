-- ===== src/Client/Lifecycle/Calls.antt =====
-- The calls on the connection of one client generation, under any interleaving of the threads that
-- send, beat, retire and replace it.
use sse_eventbus_go.Prelude.{false}
use sse_eventbus_go.Prelude.{
  ℕ, ◌+◌, ◌-◌, ◌≤◌, ◌<◌, Bool, true, List, [], ◌∷◌, ◌≡◌, refl, ◌⊎◌, inl, inr, arith, if◌then◌else◌,
}
use sse_eventbus_go.Errors.{Fallible}
use sse_eventbus_go.Event.{Message}
use sse_eventbus_go.Client.Lifecycle.{
  Client, registered, deactivate, retire_locked, replace_locked, Sent, send_checked, beat_checked,
}

pub data Action : Type 0 where
  sends : Message → Action
  closes : Action

-- `ending` threads have set `inactive` and not yet taken the lock of retire or replaceWith, `closing`
-- threads have taken the connection and not yet called Close, `checked` says whether a thread in send or
-- heartbeat holds the lock and has found the client active, and `calls` has the latest call first.
pub record Run : Type 0 where
  pub client : Client
  pub ending : ℕ
  pub closing : ℕ
  pub checked : Bool
  pub calls : List Action

pub take_connection : Bool × Client → Run → Run
take_connection (taken, c) s = record s {
  client = c;
  ending = s.ending - 1;
  closing = if taken then s.closing + 1 else s.closing;
}

unfoldable pub after_send : Message → Sent × Client → Run → Run
after_send m (sent, c) s = record s {
  client = c;
  closing = if sent.closes then s.closing + 1 else s.closing;
  checked = false;
  calls = if sent.attempted then sends m ∷ s.calls else s.calls;
}

pub after_heartbeat : Message → Client → Run → Run
after_heartbeat m c s = record s { client = c; checked = false; calls = sends m ∷ s.calls }

-- The sections of the threads. The store to `inactive` takes no lock, so that it may fall between the check
-- of send or heartbeat and their call of Send; retire and replaceWith take the lock for the rest.
pub data Step (s : Run) : Run → Type 0 where
  deactivates : Step s (record s { client = deactivate s.client; ending = s.ending + 1 })
  retires :
      (close_connection : Bool)
      → 0 < s.ending
      → s.checked ≡ false
      → Step s (take_connection (retire_locked close_connection s.client) s)
  replaces :
      (same : Bool)
      → 0 < s.ending
      → s.checked ≡ false
      → Step s (take_connection (replace_locked same s.client) s)
  checks : s.checked ≡ false → s.client.inactive ≡ false → Step s (record s { checked = true })
  sends_event :
      (m : Message) (err : Fallible) (now attempts : ℕ)
      → s.checked ≡ true
      → Step s (after_send m (send_checked err now attempts s.client) s)
  beats :
      (m : Message) (err : Fallible) (now : ℕ)
      → s.checked ≡ true
      → Step s (after_heartbeat m (beat_checked err now s.client) s)
  calls_close :
      0 < s.closing → Step s (record s { closing = s.closing - 1; calls = closes ∷ s.calls })

pub data Reach (s : Run) : Run → Type 0 where
  here : Reach s s
  next : {t u : Run} → Reach s t → Step t u → Reach s u

pub count_closes : List Action → ℕ
count_closes [] = 0
count_closes (sends m ∷ calls) = count_closes calls
count_closes (closes ∷ calls) = count_closes calls + 1

pub count_sends : List Action → ℕ
count_sends [] = 0
count_sends (sends m ∷ calls) = count_sends calls + 1
count_sends (closes ∷ calls) = count_sends calls

-- No call of Send comes after a call of Close.
abbrev pub Ordered : List Action → Type 0
Ordered [] = Unit {0}
Ordered (sends m ∷ calls) = (count_closes calls ≡ 0) × Ordered calls
Ordered (closes ∷ calls) = Ordered calls

pub record Inv (s : Run) : Type 0 where
  pub closed_inactive : s.client.connection_closed ≡ true → s.client.inactive ≡ true
  pub ending_inactive : (s.ending ≡ 0) ⊎ (s.client.inactive ≡ true)
  pub once : s.closing + count_closes s.calls ≡ (if s.client.connection_closed then 1 else 0)
  pub ordered : Ordered s.calls
  pub open_if_checked : (s.checked ≡ false) ⊎ (s.client.connection_closed ≡ false)

Step-Inv : {s t : Run} → Step s t → Inv s → Inv t
unfolding deactivate take_connection retire_locked replace_locked after_send after_heartbeat
    count_closes
Step-Inv deactivates v = record {
  closed_inactive = λ h. refl;
  ending_inactive = inr refl;
  once = v.once;
  ordered = v.ordered;
  open_if_checked = v.open_if_checked;
}
Step-Inv (retires close_connection h free) v = record {
  closed_inactive = ground (arith, v.closed_inactive, v.ending_inactive);
  ending_inactive = ground (arith, v.ending_inactive);
  once = ground (arith, v.once);
  ordered = v.ordered;
  open_if_checked = inl free;
}
Step-Inv (replaces same h free) v = record {
  closed_inactive = ground (arith, v.closed_inactive, v.ending_inactive);
  ending_inactive = ground (arith, v.ending_inactive);
  once = ground (arith, v.once);
  ordered = v.ordered;
  open_if_checked = inl free;
}
Step-Inv (checks free active) v = record {
  closed_inactive = v.closed_inactive;
  ending_inactive = v.ending_inactive;
  once = v.once;
  ordered = v.ordered;
  open_if_checked = ground (arith, v.closed_inactive);
}
Step-Inv {s} (sends_event m err now attempts held) v = record {
  closed_inactive = ground (arith, v.closed_inactive);
  ending_inactive = ground (arith, v.ending_inactive);
  once = ground (arith, v.once, v.open_if_checked);
  ordered = ground (arith, v.once, v.open_if_checked, v.ordered);
  open_if_checked = inl refl;
}
Step-Inv {s} (beats m err now held) v = record {
  closed_inactive = ground (arith, v.closed_inactive);
  ending_inactive = ground (arith, v.ending_inactive);
  once = ground (arith, v.once);
  ordered = ground (arith, v.once, v.open_if_checked, v.ordered);
  open_if_checked = inl refl;
}
Step-Inv (calls_close h) v = record {
  closed_inactive = v.closed_inactive;
  ending_inactive = v.ending_inactive;
  once = omega (arith, v.once);
  ordered = v.ordered;
  open_if_checked = v.open_if_checked;
}

pub Reach-Inv : {s t : Run} → Inv s → Reach s t → Inv t
Reach-Inv v here = v
Reach-Inv v (next r st) = Step-Inv st (Reach-Inv v r)

-- A client as RegisterContext makes it.
abbrev pub start : ℕ → ℕ → Bool → Run
start connection now complete = record {
  client = registered connection now complete;
  ending = 0;
  closing = 0;
  checked = false;
  calls = [];
}

start-Inv : (connection now : ℕ) (complete : Bool) → Inv (start connection now complete)
unfolding count_closes
start-Inv connection now complete = record {
  closed_inactive = λ h. cc;
  ending_inactive = inl refl;
  once = refl;
  ordered = tt;
  open_if_checked = inl refl;
}

-- However the threads interleave, a connection is closed at most once, and nothing is sent on it
-- after that.
pub closes_once :
    (connection now : ℕ) (complete : Bool) {s : Run}
    → Reach (start connection now complete) s
    → (count_closes s.calls ≤ 1) × Ordered s.calls
closes_once connection now complete r =
    let v = Reach-Inv (start-Inv connection now complete) r in (ground (arith, v.once), v.ordered)

-- A connection that a thread has taken to close it is closed once no thread is on its way to Close,
-- and then by one call.
pub closed_in_the_end :
    (connection now : ℕ) (complete : Bool) {s : Run}
    → Reach (start connection now complete) s
    → s.client.connection_closed ≡ true
    → s.closing ≡ 0
    → count_closes s.calls ≡ 1
closed_in_the_end connection now complete r taken idle =
    let v = Reach-Inv (start-Inv connection now complete) r in ground (arith, v.once)

-- The calls of Send that may still come once the client is inactive.
abbrev pub sends_left : Run → ℕ
sends_left s = if s.checked then 1 else 0
