-- ===== src/Tests/Window.antt =====
-- Credit, and the allocator of stream ids.
use net_mux.Base.{
  All, ◌≢◌, ℕ, ◌+◌, ◌^◌, ◌-◌, ◌≤◌, ◌<◌, ◌≡◌, ◌⊎◌, refl, Bool, true, false, List, [], ◌∷◌, arith,
}
use net_mux.Util.Id.{client, first_id}
use net_mux.Util.Id.Alloc
use net_mux.Util.Id.Alloc.{handed-Descends, Descends}
use net_mux.Flow.Window.{
  SendWindow, RecvWindow, WakerCall, takes, grants, run, acquired, pending, Gaps, undisturbed,
  poll_acquire, on_consume, threshold, register, wake, try_take, grant, new_send, new_recv, apply,
  recheck, new_recv,
}
use net_mux.Flow.Window.Send.{amount}
use net_mux.Flow.Window.Recv.{IsBelow, on_consume_loses}
use net_mux.Flow.Window.Races
use net_mux.Flow.Window.Races.Wake.{asleep-Alarmed, Alarmed}
use net_mux.Flow.Window.Races.Credit.{op_of, Update, Reach-Update}
use net_mux.Flow.Window.Consumers
use net_mux.Flow.Window.Consumers.Conserves
use net_mux.Flow.Window.Link
use net_mux.Flow.Window.Link.{credit_balance, credit_stalls}

abbrev window : SendWindow
window = record { available = 5; closed = false; waker = [] }

acquires : poll_acquire undisturbed window 3 ≡ (record window { available = 2 }, acquired 3)
unfolding poll_acquire try_take run
acquires = refl

abbrev drained : SendWindow
drained = record { available = 0; closed = false; waker = [] }

-- The credit that another thread grants before the registration has been taken by a third.
abbrev gaps : Gaps
gaps = record {
  before_try = [];
  before_register = grants 7 ∷ takes 7 ∷ [];
  before_recheck = [];
  before_retry = [];
}

sleeps : poll_acquire gaps drained 3 ≡ (record drained { waker = register ∷ wake ∷ [] }, pending)
unfolding poll_acquire recheck try_take run apply grant
sleeps = refl

abbrev receiver : RecvWindow
receiver = record { initial = 8; pending_credit = 3 }

receiver-IsBelow : IsBelow receiver
unfolding threshold
receiver-IsBelow = record { fits = omega arith; below = omega arith }

abbrev huge : ℕ
huge = 2 ^ 32 - 1

on_consume_loses_example :
    (on_consume receiver huge).0.pending_credit + amount (on_consume receiver huge).1 + 2 ^ 32
    ≡ 3 + huge
on_consume_loses_example =
    on_consume_loses receiver huge receiver-IsBelow (omega arith) (omega arith)

-- Eight bytes of window: five are written, arrive, are read, and come back as credit.
abbrev link : SendWindow → List ℕ → ℕ → List ℕ → Link.Link
link send in_flight buffered updates = record {
  send = send;
  in_flight = in_flight;
  buffered = buffered;
  recv = record { initial = 6; pending_credit = 0 };
  updates = updates;
}

abbrev credit : ℕ → List WakerCall → SendWindow
credit n wakes = record { available = n; closed = false; waker = wakes }

written : Link.Reach 8 6 (link (credit 3 []) (5 ∷ []) 0 [])
unfolding Link.init new_send new_recv try_take
written = Link.later Link.start (Link.writes 5 refl)

arrived : Link.Reach 8 6 (link (credit 3 []) [] 5 [])
arrived = Link.later written (Link.arrives 5 [] refl refl)

credit_balance_example : 3 + Link.total [] + 5 + 0 + Link.total [] ≡ 8
credit_balance_example = credit_balance 8 6 (omega arith) (omega arith) arrived

-- A client's allocator that has handed out its first id.
abbrev allocating : Alloc.Shared
allocating = record {
  alloc = record { next = 1 };
  handed = [];
  pc = Alloc.set_pc (λ _. Alloc.at_load) 0 (Alloc.loaded 1);
}

abbrev allocated : Alloc.Shared
allocated = record {
  alloc = record { next = 3 };
  handed = 1 ∷ [];
  pc = Alloc.set_pc allocating.pc 0 Alloc.at_load;
}

allocated-Reach : Alloc.Reach client allocated
unfolding first_id
allocated-Reach =
    let loads : Alloc.Reach client allocating = Alloc.later Alloc.start (Alloc.load 0 refl refl) in
    Alloc.later loads (Alloc.cas_ok 0 1 3 refl refl refl refl)

handed-Descends_example : Descends client 3 (1 ∷ [])
handed-Descends_example = handed-Descends client allocated-Reach

-- A task polls an empty window and falls asleep, then another one closes it and is about to wake it.
abbrev machine : Bool → List WakerCall → Races.Poller → (ℕ → Races.Other) → Races.Machine
machine closed waker poller other = record {
  window = record { available = 0; closed = closed; waker = waker };
  poller = poller;
  other = other;
  took = 0;
  gave = 0;
}

abbrev idle_all : ℕ → Races.Other
idle_all _ = Races.idle

abbrev sleeping : Races.Machine
sleeping = machine false (register ∷ []) Races.asleep idle_all

abbrev closing : Races.Machine
closing = machine true (register ∷ []) Races.asleep (Races.move_to idle_all 0 Races.at_wake)

sleeping-Reach : Races.Reach 0 sleeping
sleeping-Reach =
    let s1 : Races.Reach 0 (machine false [] (Races.at_first_look 4) idle_all) =
      Races.later Races.start (Races.call 4 refl refl) in
    let s2 : Races.Reach 0 (machine false [] (Races.at_load false 4) idle_all) =
      Races.later s1 (Races.look_open 4 refl refl refl) in
    let s3 : Races.Reach 0 (machine false [] (Races.at_register 4) idle_all) =
      Races.later s2 (Races.load_none 4 refl refl refl) in
    let s4 : Races.Reach 0 (machine false (register ∷ []) (Races.at_second_look 4) idle_all) =
      Races.later s3 (Races.registers 4 refl refl) in
    let s5 : Races.Reach 0 (machine false (register ∷ []) (Races.at_load true 4) idle_all) =
      Races.later s4 (Races.relook_open 4 refl refl refl) in
    Races.later s5 (Races.reload_none 4 refl refl refl)

closes_window : Races.Step sleeping closing
closes_window = Races.close_store 0 refl refl

asleep-Alarmed_example :
    Alarmed closing ⊎ ((closing.window.available ≡ 0) × (closing.window.closed ≡ false))
asleep-Alarmed_example = asleep-Alarmed (Races.later sleeping-Reach closes_window) refl

Reach-Update_example : Update (op_of closes_window) sleeping closing
Reach-Update_example = Reach-Update sleeping-Reach closes_window

-- Two calls race: each reaches the threshold of four, the second takes what both have added.
abbrev quiet : Consumers.Shared
quiet = Consumers.init 8

abbrev first_added : Consumers.Shared
first_added = record {
  window = record { initial = 8; pending_credit = 4 };
  consumed = 4;
  announced = [];
  pc = Consumers.set_pc quiet.pc 0 (Consumers.at_exchange 4);
}

abbrev both_added : Consumers.Shared
both_added = record {
  window = record { initial = 8; pending_credit = 5 };
  consumed = 5;
  announced = [];
  pc = Consumers.set_pc first_added.pc 1 (Consumers.at_exchange 5);
}

abbrev one_took : Consumers.Shared
one_took = record {
  window = record { initial = 8; pending_credit = 0 };
  consumed = 5;
  announced = 5 ∷ [];
  pc = Consumers.set_pc both_added.pc 1 Consumers.outside;
}

one_took-Runs : Conserves.Runs 8 one_took
unfolding new_recv threshold
one_took-Runs =
    let r1 : Conserves.Runs 8 first_added =
      Conserves.goes_on Conserves.begins (Consumers.adds 0 4 refl (omega arith) refl)
        (omega arith) in
    let r2 : Conserves.Runs 8 both_added =
      Conserves.goes_on r1 (Consumers.adds 1 1 refl (omega arith) refl) (omega arith) in
    Conserves.goes_on r2 (Consumers.exchange_ok 1 5 refl refl refl) tt

Runs-conserves_example :
    (5 ≡ 0 + Conserves.sum (5 ∷ []))
    × All (λ n. threshold one_took.window ≤ n) (5 ∷ [])
    × ((0 < threshold one_took.window) ⊎ ((i : ℕ) × (one_took.pc i ≢ Consumers.outside)))
Runs-conserves_example = Conserves.Runs-conserves 8 (omega arith) one_took-Runs

credit_stalls_example :
    (l : Link.Link) × Link.Reach 1 8 l
    × (l.send.available ≡ 0)
    × (l.in_flight ≡ [])
    × (l.buffered ≡ 0)
    × (l.updates ≡ [])
credit_stalls_example =
    credit_stalls 1 8 (omega arith) (omega arith) (unfold threshold new_recv in omega arith)
