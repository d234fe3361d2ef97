-- ===== src/Flow/Window.antt =====
-- src/flow/window.rs. Each compare-exchange loop is one indivisible update here, which
-- `Window.Races` justifies. Between two accesses of one call other threads may act: a call takes
-- what they do in each such gap as an argument.
pub mod Consumers
pub mod Send
pub mod Recv
pub mod Races
pub mod Link
use net_mux.Base.{
  ℕ, ◌-◌, ◌/◌, ◌≤◌, ◌<◌, min, max, Bool, true, false, Option, none, some, List, [], ◌∷◌, ◌==◌, ltb,
  leb, if◌then◌else◌, saturating_add, wrapping_add,
}

pub data AcquireOutcome : Type 0 where
  acquired : ℕ → AcquireOutcome
  outcome_closed : AcquireOutcome
  pending : AcquireOutcome

-- The calls that a window or a stream makes of its `AtomicWaker` (crate `futures_util`).
pub data WakerCall : Type 0 where
  register wake : WakerCall

-- `waker` lists those calls, the latest first.
pub record SendWindow : Type 0 where
  pub available : ℕ  -- u32
  pub closed : Bool
  pub waker : List WakerCall

unfoldable pub new_send : ℕ → SendWindow
new_send initial = record { available = initial; closed = false; waker = [] }

unfoldable pub try_take : SendWindow → ℕ → SendWindow × Option ℕ
try_take w desired =
    let n = min w.available desired in
    if w.available == 0 then (w, none) else (record w { available = w.available - n }, some n)

unfoldable pub grant : SendWindow → ℕ → SendWindow
grant w delta =
    if delta == 0
    then w
    else record w { available = saturating_add w.available delta; waker = wake ∷ w.waker }

unfoldable pub close : SendWindow → SendWindow
close w = record w { closed = true; waker = wake ∷ w.waker }

-- What other threads do to a window.
pub data Op : Type 0 where
  takes grants : ℕ → Op
  closes : Op

unfoldable pub apply : Op → SendWindow → SendWindow
unfolding try_take grant close
apply (takes n) w = (try_take w n).0
apply (grants n) w = grant w n
apply closes w = close w

unfoldable pub run : List Op → SendWindow → SendWindow
unfolding apply
run [] w = w
run (o ∷ os) w = run os (apply o w)

-- What happens before the first `try_take`, before the registration, before the second look at
-- `closed`, and before the second `try_take`.
pub record Gaps : Type 0 where
  pub before_try : List Op
  pub before_register : List Op
  pub before_recheck : List Op
  pub before_retry : List Op

abbrev pub undisturbed : Gaps
undisturbed = record {
  before_try = [];
  before_register = [];
  before_recheck = [];
  before_retry = [];
}

unfoldable pub recheck : Gaps → SendWindow → ℕ → SendWindow × AcquireOutcome
unfolding try_take run
recheck g w desired =
    let w1 = run g.before_recheck (record w { waker = register ∷ w.waker }) in
    let t = try_take (run g.before_retry w1) desired in
    if w1.closed
    then (w1, outcome_closed)
    else elim t.1 [ some n ↦ (t.0, acquired n) | none ↦ (t.0, pending) ]

unfoldable pub poll_acquire : Gaps → SendWindow → ℕ → SendWindow × AcquireOutcome
unfolding try_take run recheck
poll_acquire g w desired =
    let t = try_take (run g.before_try w) desired in
    if w.closed then (w, outcome_closed) else elim t.1 [
      | some n ↦ (t.0, acquired n)
      | none ↦ recheck g (run g.before_register t.0) desired
    ]

pub record RecvWindow : Type 0 where
  pub initial : ℕ  -- u32
  pub pending_credit : ℕ  -- u32

unfoldable pub new_recv : ℕ → RecvWindow
new_recv initial = record { initial = initial; pending_credit = 0 }

unfoldable pub threshold : RecvWindow → ℕ
threshold w = max (w.initial / 2) 1

-- The reset loop from its first guess `cur`, with no other thread at work: a failed exchange shows the
-- value that is there, and the next one succeeds.
unfoldable pub claim : RecvWindow → ℕ → RecvWindow × Option ℕ
unfolding threshold
claim w cur =
    if w.pending_credit == cur
    then (record w { pending_credit = 0 }, some cur)
    else if ltb w.pending_credit (threshold w)
    then (w, none)
    else (record w { pending_credit = 0 }, some w.pending_credit)

-- `fetch_add` wraps around, and the sum that is compared saturates.
unfoldable pub on_consume : RecvWindow → ℕ → RecvWindow × Option ℕ
unfolding threshold claim
on_consume w bytes =
    let added = record w { pending_credit = wrapping_add w.pending_credit bytes } in
    let sum = saturating_add w.pending_credit bytes in
    if bytes == 0
    then (w, none)
    else if leb (threshold w) sum
    then claim added sum
    else (added, none)
