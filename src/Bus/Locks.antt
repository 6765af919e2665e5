-- ===== src/Bus/Locks.antt =====
-- bus.go: lockClientContext, the lock of one client ID. The locks of other IDs are other entries of
-- the map, and no operation touches two of them.
mod Tests
use sse_eventbus_go.Prelude.{
  ℕ, ◌+◌, ◌-◌, ◌≤◌, ◌<◌, Bool, true, false, ◌&&◌, List, ◌≡◌, refl, arith, Option, none, some, ◌==◌,
  if◌then◌else◌, ◌↔◌, ◌⊎◌,
}

-- The objects that have been made as locks of this ID are numbered, so that a deleted entry and the
-- one that replaces it are told apart; `next_lock` is the next number. `gate` is whether the channel
-- `gate`, which holds one value, is full.
pub record Locks : Type 0 where
  pub entry : Option ℕ
  pub next_lock : ℕ
  pub gate : ℕ → Bool
  pub references : ℕ → ℕ

abbrev put {ℓ} : {A : Type ℓ} → ℕ → A → (ℕ → A) → ℕ → A
put l x f n = if n == l then x else f n

abbrev count_reference : ℕ → Locks → ℕ × Locks
count_reference l s = (l, record s { references = put l (s.references l + 1) s.references })

-- The first section under clientLockMu: the lock in the map or a new one, with one reference more.
abbrev find_or_make : Option ℕ → Locks → ℕ × Locks
find_or_make (some l) s = count_reference l s
find_or_make none s = count_reference s.next_lock (record s {
  entry = some (s.next_lock);
  next_lock = s.next_lock + 1;
  gate = put s.next_lock false s.gate;
  references = put s.next_lock 0 s.references;
})

pub take_reference : Locks → ℕ × Locks
take_reference s = find_or_make s.entry s

abbrev is_entry : ℕ → Option ℕ → Bool
is_entry l none = false
is_entry l (some k) = k == l

-- releaseReference
pub release_reference : ℕ → Locks → Locks
release_reference l s = record s {
  references = put l (s.references l - 1) s.references;
  entry = if (s.references l - 1 == 0) && is_entry l s.entry then none else s.entry;
}

-- `lock.gate <- struct{}{}` when there is room, and `<-lock.gate`
pub enter_gate : ℕ → Locks → Locks
enter_gate l s = record s { gate = put l true s.gate }

pub leave_gate : ℕ → Locks → Locks
leave_gate l s = record s { gate = put l false s.gate }

-- The callers at each lock: before the gate, past it, and with their reference still to give back.
pub record Callers : Type 0 where
  pub locks : Locks
  pub waiting : ℕ → ℕ
  pub holding : ℕ → ℕ
  pub leaving : ℕ → ℕ

abbrev pub more : ℕ → (ℕ → ℕ) → ℕ → ℕ
more l f = put l (f l + 1) f

abbrev pub less : ℕ → (ℕ → ℕ) → ℕ → ℕ
less l f = put l (f l - 1) f

abbrev pub after_call : ℕ × Locks → Callers → Callers
after_call (l, locks) s = record s { locks = locks; waiting = more l s.waiting }

-- A caller leaves the gate at its unlock, or because its context has ended by the time it is past it.
pub data Step (s : Callers) : Callers → Type 0 where
  calls : Step s (after_call (take_reference s.locks) s)
  enters :
      (l : ℕ)
      → 0 < s.waiting l
      → s.locks.gate l ≡ false
      → Step s (record s {
        locks = enter_gate l s.locks;
        waiting = less l s.waiting;
        holding = more l s.holding;
      })
  unlocks :
      (l : ℕ)
      → 0 < s.holding l
      → Step s (record s {
        locks = leave_gate l s.locks;
        holding = less l s.holding;
        leaving = more l s.leaving;
      })
  gives_up :
      (l : ℕ)
      → 0 < s.waiting l
      → Step s (record s { waiting = less l s.waiting; leaving = more l s.leaving })
  releases :
      (l : ℕ)
      → 0 < s.leaving l
      → Step s (record s { locks = release_reference l s.locks; leaving = less l s.leaving })

pub data Reach (s : Callers) : Callers → Type 0 where
  here : Reach s s
  next : {t u : Callers} → Reach s t → Step t u → Reach s u

-- References count the callers, a full gate is a holder, and every lock that somebody refers to is
-- the one in the map.
pub record Inv (s : Callers) : Type 0 where
  pub counted : (l : ℕ) → s.locks.references l ≡ s.waiting l + s.holding l + s.leaving l
  pub gated : (l : ℕ) → s.holding l ≡ (if s.locks.gate l then 1 else 0)
  pub current : (l : ℕ) → 0 < s.locks.references l → s.locks.entry ≡ some l
  pub used : (l : ℕ) → s.locks.entry ≡ some l → 0 < s.locks.references l
  pub unmade : (l : ℕ) → s.locks.next_lock ≤ l → s.locks.references l ≡ 0

after_call-Inv :
    (s : Callers) (entry : Option ℕ)
    → s.locks.entry ≡ entry
    → Inv s
    → Inv (after_call (find_or_make entry s.locks) s)
after_call-Inv s (some l) e v = record {
  counted = λ k. ground (arith, v.counted k, v.counted l);
  gated = v.gated;
  current = λ k pos. ground (arith, v.current k, v.current l);
  used = λ k h. ground (arith, v.used k);
  unmade = λ k h. ground (arith, v.unmade k, v.unmade l, v.used l);
}
after_call-Inv s none e v = record {
  counted =
      λ k. ground (arith, v.counted k, v.counted (s.locks.next_lock), v.unmade (s.locks.next_lock));
  gated =
      λ k. ground (arith, v.gated k, v.counted (s.locks.next_lock), v.unmade (s.locks.next_lock));
  current = λ k pos. ground (arith, v.current k);
  used = λ k h. ground (arith, v.used k);
  unmade = λ k h. ground (arith, v.unmade k);
}

Step-Inv : {s t : Callers} → Step s t → Inv s → Inv t
Step-Inv {s} (enters l h free) v =
    unfold enter_gate in
    record {
      counted = λ k. ground (arith, v.counted k, v.counted l);
      gated = λ k. ground (arith, v.gated k, v.gated l);
      current = v.current;
      used = v.used;
      unmade = v.unmade;
    }
Step-Inv {s} (unlocks l h) v =
    unfold leave_gate in
    record {
      counted = λ k. ground (arith, v.counted k, v.counted l);
      gated = λ k. ground (arith, v.gated k, v.gated l);
      current = v.current;
      used = v.used;
      unmade = v.unmade;
    }
Step-Inv {s} (gives_up l h) v = record {
  counted = λ k. ground (arith, v.counted k, v.counted l);
  gated = v.gated;
  current = v.current;
  used = v.used;
  unmade = v.unmade;
}
Step-Inv {s} (releases l h) v =
    unfold release_reference in
    record {
      counted = λ k. ground (arith, v.counted k, v.counted l);
      gated = v.gated;
      current = λ k pos. ground (arith, v.current k, v.current l, v.counted l);
      used = λ k e. ground (arith, v.used k, v.counted l);
      unmade = λ k e. ground (arith, v.unmade k, v.unmade l);
    }
Step-Inv {s} calls v = unfold take_reference in after_call-Inv s (s.locks.entry) refl v

pub Reach-Inv : {s t : Callers} → Inv s → Reach s t → Inv t
Reach-Inv v here = v
Reach-Inv v (next r st) = Step-Inv st (Reach-Inv v r)

-- A new bus: no lock has been made, and nobody calls.
abbrev pub start : Callers
start = record {
  locks = record { entry = none; next_lock = 0; gate = λ _. false; references = λ _. 0 };
  waiting = λ _. 0;
  holding = λ _. 0;
  leaving = λ _. 0;
}

start-Inv : Inv start
start-Inv = record {
  counted = λ l. refl;
  gated = λ l. refl;
  current = λ l h. absurd (omega arith);
  used = λ l h. ground arith;
  unmade = λ l h. refl;
}

-- Mutual exclusion: of all the callers for one client ID, at most one holds a lock, though the entry
-- of the map is deleted and made again in between.
pub locks_exclude :
    {s : Callers} (l k : ℕ)
    → Reach start s
    → 0 < s.holding l
    → 0 < s.holding k
    → (l ≡ k) × (s.holding l ≡ 1)
locks_exclude {s} l k r held held' =
    let v = Reach-Inv start-Inv r in
    (ground (arith, v.current l, v.current k, v.counted l, v.counted k), ground (arith, v.gated l))

-- The map keeps no entry without a use: it has one exactly while some caller refers to that lock.
pub entry_iff_used :
    {s : Callers} (l : ℕ)
    → Reach start s
    → (s.locks.entry ≡ some l) ↔ (0 < s.waiting l + s.holding l + s.leaving l)
entry_iff_used {s} l r =
    let v = Reach-Inv start-Inv r in
    (λ e. ground (arith, v.used l, v.counted l), λ h. ground (arith, v.current l, v.counted l))

-- Nobody is shut out: when callers wait for the lock of a client ID, either one holds it or the gate
-- lets the next one in.
pub gate_free_or_held :
    {s : Callers} (l : ℕ)
    → Reach start s
    → 0 < s.waiting l
    → (s.locks.entry ≡ some l) × ((s.locks.gate l ≡ false) ⊎ (s.holding l ≡ 1))
gate_free_or_held {s} l r h =
    let v = Reach-Inv start-Inv r in
    (ground (arith, v.current l, v.counted l), ground (arith, v.gated l))
