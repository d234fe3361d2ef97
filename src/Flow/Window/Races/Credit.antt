-- ===== src/Flow/Window/Races/Credit.antt =====
-- The exchanges on a SendWindow (src/flow/window.rs) act as indivisible updates, and no credit is
-- taken twice.
use net_mux.Base.{ℕ, ◌+◌, ◌≤◌, ◌<◌, ◌≡◌, Option, none, some, arith}
use net_mux.Flow.Window.{SendWindow, try_take, grant, close, Op, takes, grants, closes, apply}
use net_mux.Flow.Window.Send.{amount}
use net_mux.Flow.Window.Races.{
  Other, at_grant, Machine, move_to, Step, call, resume, look_closed, look_open, load_none,
  reload_none, load_some, take_ok, take_err, registers, relook_closed, relook_open, grant_load,
  grant_ok, grant_err, close_store, wakes, Reach, start, later,
}

Step-le :
    {s t : Machine} (n : ℕ)
    → Step s t
    → s.window.available + s.took ≤ n + s.gave
    → t.window.available + t.took ≤ n + t.gave
Step-le n (take_ok b d cur p h e) v = rw e (omega arith)
Step-le n (grant_ok i delta cur p h e) v = rw e (omega arith)
Step-le n (call d p e) v = rw e v
Step-le n (resume d p e) v = rw e v
Step-le n (look_closed d p h e) v = rw e v
Step-le n (look_open d p h e) v = rw e v
Step-le n (load_none d p h e) v = rw e v
Step-le n (reload_none d p h e) v = rw e v
Step-le n (load_some b d p h e) v = rw e v
Step-le n (take_err b d cur p e) v = rw e v
Step-le n (registers d p e) v = rw e v
Step-le n (relook_closed d p h e) v = rw e v
Step-le n (relook_open d p h e) v = rw e v
Step-le n (grant_load i delta p h e) v = rw e v
Step-le n (grant_err i delta cur p e) v = rw e v
Step-le n (close_store i p e) v = rw e v
Step-le n (wakes i p e) v = rw e v

-- Under every interleaving the credit taken stays within what the window began with and what was
-- granted: no exchange takes credit twice.
took_le :
    {initial : ℕ} {s : Machine} → Reach initial s → s.window.available + s.took ≤ initial + s.gave
took_le start = omega arith
took_le {initial} (later r st) = Step-le initial st (took_le r)

-- `grant` has returned before its first access if the grant is empty.
abbrev Positive : (ℕ → Other) → Type 0
Positive o = (j delta cur : ℕ) → o j ≡ at_grant delta cur → 0 < delta

Positive-move :
    (o : ℕ → Other) (i : ℕ) (x : Other)
    → Positive o
    → ((delta cur : ℕ) → x ≡ at_grant delta cur → 0 < delta)
    → Positive (move_to o i x)
Positive-move o i x v h j delta cur e = ground (arith, v j delta cur, h delta cur)

Step-Positive : {s t : Machine} → Step s t → Positive s.other → Positive t.other
Step-Positive {s} (grant_load i delta p h e) v =
    rw e (Positive-move s.other i _ v (λ d c q. ground arith))
Step-Positive {s} (grant_err i delta cur p e) v =
    rw e (Positive-move s.other i _ v (λ d c q. ground (arith, v i delta cur)))
Step-Positive {s} (grant_ok i delta cur p h e) v = rw e (Positive-move s.other i _ v (λ d c q. cc))
Step-Positive {s} (close_store i p e) v = rw e (Positive-move s.other i _ v (λ d c q. cc))
Step-Positive {s} (wakes i p e) v = rw e (Positive-move s.other i _ v (λ d c q. cc))
Step-Positive (call d p e) v = rw e v
Step-Positive (resume d p e) v = rw e v
Step-Positive (look_closed d p h e) v = rw e v
Step-Positive (look_open d p h e) v = rw e v
Step-Positive (load_none d p h e) v = rw e v
Step-Positive (reload_none d p h e) v = rw e v
Step-Positive (load_some b d p h e) v = rw e v
Step-Positive (take_ok b d cur p h e) v = rw e v
Step-Positive (take_err b d cur p e) v = rw e v
Step-Positive (registers d p e) v = rw e v
Step-Positive (relook_closed d p h e) v = rw e v
Step-Positive (relook_open d p h e) v = rw e v

Reach-Positive : {initial : ℕ} {s : Machine} → Reach initial s → Positive s.other
Reach-Positive start = λ j delta cur e. cc
Reach-Positive (later r st) = Step-Positive st (Reach-Positive r)

-- The whole call that a step completes, if it changes the shared numbers.
unfoldable pub op_of : {s t : Machine} → Step s t → Option Op
op_of (take_ok b d cur p h e) = some (takes d)
op_of (grant_ok i delta cur p h e) = some (grants delta)
op_of (close_store i p e) = some closes
op_of _ = none

-- What that call does to the window on its own, and the credit that it returns.
abbrev pub effect : Option Op → SendWindow → SendWindow
effect none w = w
effect (some o) w = apply o w

abbrev pub returned : Option Op → SendWindow → ℕ
returned (some (takes d)) w = amount (try_take w d).1
returned _ w = 0

-- The window and the credit taken, behind a call.
abbrev pub Update : Option Op → Machine → Machine → Type 0
Update o s t =
    (t.window.available ≡ (effect o s.window).available)
    × (t.window.closed ≡ (effect o s.window).closed)
    × (t.took ≡ s.took + returned o s.window)

Step-Update : {s t : Machine} (st : Step s t) → Positive s.other → Update (op_of st) s t
unfolding apply try_take grant close op_of
Step-Update (take_ok b d cur p h e) v = (ground arith, ground arith, ground arith)
Step-Update (grant_ok i delta cur p h e) v =
    (ground (arith, v i delta cur), ground (arith, v i delta cur), rw e (omega arith))
Step-Update (close_store i p e) v = (rw e, rw e, rw e (omega arith))
Step-Update (call d p e) v = (rw e, rw e, rw e (omega arith))
Step-Update (resume d p e) v = (rw e, rw e, rw e (omega arith))
Step-Update (look_closed d p h e) v = (rw e, rw e, rw e (omega arith))
Step-Update (look_open d p h e) v = (rw e, rw e, rw e (omega arith))
Step-Update (load_none d p h e) v = (rw e, rw e, rw e (omega arith))
Step-Update (reload_none d p h e) v = (rw e, rw e, rw e (omega arith))
Step-Update (load_some b d p h e) v = (rw e, rw e, rw e (omega arith))
Step-Update (take_err b d cur p e) v = (rw e, rw e, rw e (omega arith))
Step-Update (registers d p e) v = (rw e, rw e, rw e (omega arith))
Step-Update (relook_closed d p h e) v = (rw e, rw e, rw e (omega arith))
Step-Update (relook_open d p h e) v = (rw e, rw e, rw e (omega arith))
Step-Update (grant_load i delta p h e) v = (rw e, rw e, rw e (omega arith))
Step-Update (grant_err i delta cur p e) v = (rw e, rw e, rw e (omega arith))
Step-Update (wakes i p e) v = (rw e, rw e, rw e (omega arith))

-- An exchange that succeeds in `poll_acquire` for some bytes does to the credit and the flag what one
-- whole call of `try_take` for as many does, and takes the credit that it returns; one that succeeds in
-- `grant` does what the call of `grant` with the same delta does; the store of `close` does what `close`
-- does; and no other step changes them: the calls act as if they were indivisible.
pub Reach-Update :
    {initial : ℕ} {s t : Machine} → Reach initial s → (st : Step s t) → Update (op_of st) s t
Reach-Update r st = Step-Update st (Reach-Positive r)
