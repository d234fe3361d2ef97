-- ===== src/Flow/Window/Send.antt =====
-- SendWindow of src/flow/window.rs: credit is neither made nor lost, and no wake-up is missed.
use net_mux.Base.{
  ℕ, ◌+◌, ◌-◌, ◌≤◌, ◌<◌, ◌≡◌, refl, min, Bool, true, false, Option, none, some, List, [], ◌∷◌, ◌⊎◌,
  arith, u32_max,
}
use net_mux.Flow.Window.{
  acquired, outcome_closed, pending, WakerCall, register, wake, SendWindow, try_take, grant, close,
  Op, takes, grants, closes, apply, run, Gaps, recheck, poll_acquire, undisturbed,
}

abbrev pub amount : Option ℕ → ℕ
amount none = 0
amount (some n) = n

-- The credit that a sequence of operations grants, and what it takes.
abbrev pub granted : List Op → ℕ
granted [] = 0
granted (grants n ∷ os) = n + granted os
granted (_ ∷ os) = granted os

pub taken : List Op → SendWindow → ℕ
unfolding try_take apply
taken [] w = 0
taken (takes n ∷ os) w = amount (try_take w n).1 + taken os (apply (takes n) w)
taken (grants n ∷ os) w = taken os (apply (grants n) w)
taken (closes ∷ os) w = taken os (apply closes w)

-- Whatever is done to a window, what it holds and what was taken never exceed what it held and what
-- was granted: a sender never sends more than its peer allowed.
run_le :
    (os : List Op) (w : SendWindow) → (run os w).available + taken os w ≤ w.available + granted os
unfolding run taken
run_le [] w = omega arith
run_le (takes n ∷ os) w = ground (arith, run_le os (apply (takes n) w))
run_le (grants n ∷ os) w = ground (arith, run_le os (apply (grants n) w))
run_le (closes ∷ os) w = ground (arith, run_le os (apply closes w))

-- As long as what a window holds and is granted fits a u32, no credit is lost either.
run_conserves :
    (os : List Op) (w : SendWindow)
    → w.available + granted os ≤ u32_max
    → (run os w).available + taken os w ≡ w.available + granted os
unfolding run taken
run_conserves [] w h = refl
run_conserves (takes n ∷ os) w h = ground (arith, run_conserves os (apply (takes n) w))
run_conserves (grants n ∷ os) w h = ground (arith, run_conserves os (apply (grants n) w))
run_conserves (closes ∷ os) w h = ground (arith, run_conserves os (apply closes w))

-- A hostile peer cannot wrap the counter around.
run-IsU32 : (os : List Op) (w : SendWindow) → w.available ≤ u32_max → (run os w).available ≤ u32_max
unfolding run
run-IsU32 [] w h = h
run-IsU32 (takes n ∷ os) w h =
    run-IsU32 os (apply (takes n) w) (unfold apply try_take in ground arith)
run-IsU32 (grants n ∷ os) w h =
    run-IsU32 os (apply (grants n) w) (unfold apply grant in ground arith)
run-IsU32 (closes ∷ os) w h = run-IsU32 os (apply closes w) (unfold apply close in ground arith)

-- Closing is for good.
run-closed : (os : List Op) (w : SendWindow) → w.closed ≡ true → (run os w).closed ≡ true
unfolding run
run-closed [] w h = h
run-closed (takes n ∷ os) w h =
    run-closed os (apply (takes n) w) (unfold apply try_take in ground arith)
run-closed (grants n ∷ os) w h =
    run-closed os (apply (grants n) w) (unfold apply grant in ground arith)
run-closed (closes ∷ os) w h = run-closed os (apply closes w) (unfold apply close in ground arith)

-- Whether the waker has been woken since it was registered last.
abbrev pub woken : List WakerCall → Bool
woken [] = false
woken (wake ∷ _) = true
woken (register ∷ _) = false

-- How often the waker has been registered.
abbrev pub registrations : List WakerCall → ℕ
registrations [] = 0
registrations (register ∷ cs) = 1 + registrations cs
registrations (wake ∷ cs) = registrations cs

-- A task that sleeps on this window has nothing to do, or has been woken.
abbrev pub MaySleep : SendWindow → Type 0
MaySleep w = (woken w.waker ≡ true) ⊎ ((w.available ≡ 0) × (w.closed ≡ false))

apply-MaySleep : (o : Op) (w : SendWindow) → MaySleep w → MaySleep (apply o w)
unfolding apply try_take grant close
apply-MaySleep (takes n) w h = ground arith
apply-MaySleep (grants n) w h = ground arith
apply-MaySleep closes w h = ground arith

run-MaySleep : (os : List Op) (w : SendWindow) → MaySleep w → MaySleep (run os w)
unfolding run
run-MaySleep [] w h = h
run-MaySleep (o ∷ os) w h = run-MaySleep os (apply o w) (apply-MaySleep o w h)

abbrev IsQuiet : SendWindow → Type 0
IsQuiet w = (woken w.waker ≡ true) ⊎ (w.closed ≡ false)

apply-IsQuiet : (o : Op) (w : SendWindow) → IsQuiet w → IsQuiet (apply o w)
unfolding apply try_take grant close
apply-IsQuiet (takes n) w h = ground arith
apply-IsQuiet (grants n) w h = ground arith
apply-IsQuiet closes w h = ground arith

run-IsQuiet : (os : List Op) (w : SendWindow) → IsQuiet w → IsQuiet (run os w)
unfolding run
run-IsQuiet [] w h = h
run-IsQuiet (o ∷ os) w h = run-IsQuiet os (apply o w) (apply-IsQuiet o w h)

try_take-none :
    (w w' : SendWindow) (desired : ℕ)
    → try_take w desired ≡ (w', none)
    → (w' ≡ w) × (w.available ≡ 0)
unfolding try_take
try_take-none w w' desired e = ground arith

recheck-MaySleep :
    (g : Gaps) (w w' : SendWindow) (desired : ℕ) → recheck g w desired ≡ (w', pending) → MaySleep w'
unfolding recheck try_take
recheck-MaySleep g w w' desired e =
    let w1 = run g.before_recheck (record w { waker = register ∷ w.waker }) in
    ground (arith, run-IsQuiet g.before_retry w1)

-- No wake-up is missed: after `poll_acquire` has said `Pending`, whatever other threads did during
-- the call and do afterwards, the task has been woken or the window is still empty and open.
pending-MaySleep :
    (g : Gaps) (w w' : SendWindow) (desired : ℕ) (later : List Op)
    → poll_acquire g w desired ≡ (w', pending)
    → MaySleep (run later w')
unfolding poll_acquire
pending-MaySleep g w w' desired later e = run-MaySleep later w' (
    ground (
      arith,
      recheck-MaySleep g (run g.before_register (try_take (run g.before_try w) desired).0) w'
          desired,
    ))

-- A call that acquires credit takes at most what was asked for, and something if something was asked
-- for, and found the window open.
pub acquired_bounds :
    (g : Gaps) (w w' : SendWindow) (desired n : ℕ)
    → poll_acquire g w desired ≡ (w', acquired n)
    → (n ≤ desired) × (min 1 desired ≤ n) × (w.closed ≡ false)
unfolding poll_acquire recheck try_take
acquired_bounds g w w' desired n e = ground arith

pub poll_acquire_alone :
    (w : SendWindow) (desired : ℕ)
    → w.closed ≡ false
    → 0 < w.available
    → poll_acquire undisturbed w desired ≡ (
      record w { available = w.available - min w.available desired },
      acquired (min w.available desired),
    )
unfolding poll_acquire try_take run
poll_acquire_alone w desired h k = ground arith

-- On a closed window a call takes nothing.
poll_acquire_closed :
    (g : Gaps) (w : SendWindow) (desired : ℕ)
    → w.closed ≡ true
    → poll_acquire g w desired ≡ (w, outcome_closed)
unfolding poll_acquire
poll_acquire_closed g w desired h = rw (h, poll_acquire)
