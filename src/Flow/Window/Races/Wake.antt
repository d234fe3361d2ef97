-- ===== src/Flow/Window/Races/Wake.antt =====
-- No interleaving of the accesses to a SendWindow (src/flow/window.rs) loses a wake-up.
use net_mux.Base.{ℕ, ◌≡◌, ◌≢◌, Bool, true, false, ◌⊎◌, inl, inr, arith}
use net_mux.Flow.Window.Send.{woken}
use net_mux.Flow.Window.Races.{
  Poller, ready, at_first_look, at_load, at_exchange, at_register, at_second_look, asleep, Other,
  at_wake, Machine, move_to, Step, call, resume, look_closed, look_open, load_none, reload_none,
  load_some, take_ok, take_err, registers, relook_closed, relook_open, grant_load, grant_ok,
  grant_err, close_store, wakes, Reach, start, later,
}

-- A wake-up has come since the last registration, or is on its way.
abbrev pub Alarmed : Machine → Type 0
Alarmed s = (woken s.window.waker ≡ true) ⊎ ((i : ℕ) × (s.other i ≡ at_wake))

-- What the polling task may rely on at each place.
abbrev Ready : Machine → Poller → Type 0
Ready s (at_load true d) = Alarmed s ⊎ (s.window.closed ≡ false)
Ready s (at_exchange true d cur) = Alarmed s ⊎ (s.window.closed ≡ false)
Ready s asleep = Alarmed s ⊎ ((s.window.available ≡ 0) × (s.window.closed ≡ false))
Ready s _ = Unit

Ready-Alarmed : (s : Machine) (p : Poller) → Alarmed s → Ready s p
Ready-Alarmed s (at_load true d) a = inl a
Ready-Alarmed s (at_exchange true d cur) a = inl a
Ready-Alarmed s asleep a = inl a
Ready-Alarmed s _ a = tt

-- A step of another task that touches neither the window nor a task at `at_wake`.
Ready-aside :
    (s : Machine) (i : ℕ) (x : Other) (p : Poller)
    → s.other i ≢ at_wake
    → Ready s p
    → Ready (record s { other = move_to s.other i x }) p
Ready-aside s i x p still r = go p r
  where
    alarm : Alarmed s → Alarmed (record s { other = move_to s.other i x })
    alarm (inl w) = inl w
    alarm (inr (j, w)) = inr (j, ground (arith, still))

    go : (p : Poller) → Ready s p → Ready (record s { other = move_to s.other i x }) p
    go (at_load true d) (inl a) = inl (alarm a)
    go (at_load true d) (inr c) = inr c
    go (at_load false d) r = tt
    go (at_exchange true d cur) (inl a) = inl (alarm a)
    go (at_exchange true d cur) (inr c) = inr c
    go (at_exchange false d cur) r = tt
    go asleep (inl a) = inl (alarm a)
    go asleep (inr c) = inr c
    go ready r = tt
    go (at_first_look d) r = tt
    go (at_register d) r = tt
    go (at_second_look d) r = tt

exchange-Ready :
    (s : Machine) (r : Bool) (d cur : ℕ) → Ready s (at_load r d) → Ready s (at_exchange r d cur)
exchange-Ready s true d cur h = h
exchange-Ready s false d cur h = tt

load-Ready :
    (s : Machine) (r : Bool) (d cur : ℕ) → Ready s (at_exchange r d cur) → Ready s (at_load r d)
load-Ready s true d cur h = h
load-Ready s false d cur h = tt

asleep-Ready :
    (s : Machine) (d : ℕ) → s.window.available ≡ 0 → Ready s (at_load true d) → Ready s asleep
asleep-Ready s d h (inl a) = inl a
asleep-Ready s d h (inr c) = inr (h, c)

Step-Ready : {s t : Machine} → Step s t → Ready s s.poller → Ready t t.poller
Step-Ready (call d p e) r = rw e tt
Step-Ready (resume d p e) r = rw e tt
Step-Ready (look_closed d p h e) r = rw e tt
Step-Ready (look_open d p h e) r = rw e tt
Step-Ready (load_none d p h e) r = rw e tt
Step-Ready {s} (reload_none d p h e) r = rw e (asleep-Ready s d h (rw p at r))
Step-Ready {s} (load_some b d p h e) r = rw e (exchange-Ready s b d _ (rw p at r))
Step-Ready (take_ok b d cur p h e) r = rw e tt
Step-Ready {s} (take_err b d cur p e) r = rw e (load-Ready s b d cur (rw p at r))
Step-Ready (registers d p e) r = rw e tt
Step-Ready (relook_closed d p h e) r = rw e tt
Step-Ready (relook_open d p h e) r = rw e (inr h)
Step-Ready {s} (grant_load i delta p h e) r = rw e (Ready-aside s i _ s.poller (λ q. cc) r)
Step-Ready {t} (grant_ok i delta cur p h e) r = Ready-Alarmed t t.poller (inr (i, ground arith))
Step-Ready {s} (grant_err i delta cur p e) r = rw e (Ready-aside s i _ s.poller (λ q. cc) r)
Step-Ready {t} (close_store i p e) r = Ready-Alarmed t t.poller (inr (i, ground arith))
Step-Ready {t} (wakes i p e) r = Ready-Alarmed t t.poller (inl (rw e))

Reach-Ready : {initial : ℕ} {s : Machine} → Reach initial s → Ready s s.poller
Reach-Ready start = tt
Reach-Ready (later r st) = Step-Ready st (Reach-Ready r)

-- No wake-up is lost, whatever the interleaving: while the polling task sleeps, either the window is
-- empty and open, or the task has been woken since it registered, or another task is about to wake it.
pub asleep-Alarmed :
    {initial : ℕ} {s : Machine}
    → Reach initial s
    → s.poller ≡ asleep
    → Alarmed s ⊎ ((s.window.available ≡ 0) × (s.window.closed ≡ false))
asleep-Alarmed r p = rw p at (Reach-Ready r)
