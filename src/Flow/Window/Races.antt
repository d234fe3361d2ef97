-- ===== src/Flow/Window/Races.antt =====
-- SendWindow of src/flow/window.rs with one step for each access to shared memory: one task polls
-- for credit, any number of others grant credit or close the window, in any order. Memory is
-- sequentially consistent, and a weak exchange may fail for no reason.
pub mod Wake
pub mod Credit
use net_mux.Base.{
  ℕ, zero, suc, ◌+◌, ◌-◌, ◌≤◌, ◌<◌, ◌≡◌, ◌≢◌, refl, min, Bool, true, false, Option, none, some,
  List, [], ◌∷◌, ◌⊎◌, inl, inr, arith, ◌==◌, if◌then◌else◌, saturating_add, u32_max,
}
use net_mux.Flow.Window.{
  WakerCall, register, wake, SendWindow, new_send, try_take, grant, close, Op, takes, grants,
  closes, apply,
}
use net_mux.Flow.Window.Send.{woken}

-- Where the polling task stands. `retry` tells the second `try_take` of a call from the first.
pub data Poller : Type 0 where
  ready : Poller
  at_first_look : (desired : ℕ) → Poller
  at_load : (retry : Bool) → (desired : ℕ) → Poller
  at_exchange : (retry : Bool) → (desired cur : ℕ) → Poller
  at_register : (desired : ℕ) → Poller
  at_second_look : (desired : ℕ) → Poller
  asleep : Poller  -- the call has returned `Pending`

-- Where another task stands.
pub data Other : Type 0 where
  idle : Other
  at_grant : (delta cur : ℕ) → Other  -- before the exchange in `grant`
  at_wake : Other  -- before the last line of `grant` or `close`

-- `took` and `gave` count the credit that calls have taken and granted.
pub record Machine : Type 0 where
  pub window : SendWindow
  pub poller : Poller
  pub other : ℕ → Other
  pub took : ℕ
  pub gave : ℕ

abbrev pub move_to : (ℕ → Other) → ℕ → Other → ℕ → Other
move_to o i x j = if i == j then x else o j

pub data Step (s t : Machine) : Type 0 where
  call : (d : ℕ) → s.poller ≡ ready → t ≡ record s { poller = at_first_look d } → Step s t
  -- A sleeping task that was woken polls again.
  resume : (d : ℕ) → s.poller ≡ asleep → t ≡ record s { poller = at_first_look d } → Step s t
  look_closed :
      (d : ℕ)
      → s.poller ≡ at_first_look d
      → s.window.closed ≡ true
      → t ≡ record s { poller = ready }
      → Step s t
  look_open :
      (d : ℕ)
      → s.poller ≡ at_first_look d
      → s.window.closed ≡ false
      → t ≡ record s { poller = at_load false d }
      → Step s t
  load_none :
      (d : ℕ)
      → s.poller ≡ at_load false d
      → s.window.available ≡ 0
      → t ≡ record s { poller = at_register d }
      → Step s t
  reload_none :
      (d : ℕ)
      → s.poller ≡ at_load true d
      → s.window.available ≡ 0
      → t ≡ record s { poller = asleep }
      → Step s t
  load_some :
      (r : Bool) (d : ℕ)
      → s.poller ≡ at_load r d
      → s.window.available ≢ 0
      → t ≡ record s { poller = at_exchange r d s.window.available }
      → Step s t
  take_ok :
      (r : Bool) (d cur : ℕ)
      → s.poller ≡ at_exchange r d cur
      → s.window.available ≡ cur
      → t ≡ record s {
        window = record (s.window) { available = cur - min cur d };
        poller = ready;
        took = s.took + min cur d;
      }
      → Step s t
  take_err :
      (r : Bool) (d cur : ℕ)
      → s.poller ≡ at_exchange r d cur
      → t ≡ record s { poller = at_load r d }
      → Step s t
  registers :
      (d : ℕ)
      → s.poller ≡ at_register d
      → t ≡ record s {
        window = record (s.window) { waker = register ∷ s.window.waker };
        poller = at_second_look d;
      }
      → Step s t
  relook_closed :
      (d : ℕ)
      → s.poller ≡ at_second_look d
      → s.window.closed ≡ true
      → t ≡ record s { poller = ready }
      → Step s t
  relook_open :
      (d : ℕ)
      → s.poller ≡ at_second_look d
      → s.window.closed ≡ false
      → t ≡ record s { poller = at_load true d }
      → Step s t
  grant_load :
      (i delta : ℕ)
      → s.other i ≡ idle
      → 0 < delta
      → t ≡ record s { other = move_to s.other i (at_grant delta s.window.available) }
      → Step s t
  grant_ok :
      (i delta cur : ℕ)
      → s.other i ≡ at_grant delta cur
      → s.window.available ≡ cur
      → t ≡ record s {
        window = record (s.window) { available = saturating_add cur delta };
        other = move_to s.other i at_wake;
        gave = s.gave + delta;
      }
      → Step s t
  grant_err :
      (i delta cur : ℕ)
      → s.other i ≡ at_grant delta cur
      → t ≡ record s { other = move_to s.other i (at_grant delta s.window.available) }
      → Step s t
  close_store :
      (i : ℕ)
      → s.other i ≡ idle
      → t ≡ record s {
        window = record (s.window) { closed = true };
        other = move_to s.other i at_wake;
      }
      → Step s t
  wakes :
      (i : ℕ)
      → s.other i ≡ at_wake
      → t ≡ record s {
        window = record (s.window) { waker = wake ∷ s.window.waker };
        other = move_to s.other i idle;
      }
      → Step s t

abbrev pub init : ℕ → Machine
init initial = record {
  window = record { available = initial; closed = false; waker = [] };
  poller = ready;
  other = λ _. idle;
  took = 0;
  gave = 0;
}

pub data Reach (initial : ℕ) : Machine → Type 0 where
  start : Reach initial (init initial)
  later : {s t : Machine} → Reach initial s → Step s t → Reach initial t
