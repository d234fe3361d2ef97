-- ===== src/Flow/Window/Link.antt =====
-- One direction of one stream, seen end to end: the sender's window and the receiver's window of
-- src/flow/window.rs, with the data frames and the window updates that are on their way. A frame is
-- known by the number of its bytes. Both sides follow the crate: `poll_write` of src/stream/inner.rs
-- sends what it acquires, `poll_read` reports what it has copied and sends the update that results.
use net_mux.Base.{
  ℕ, ◌+◌, ◌-◌, ◌≤◌, ◌<◌, ◌≡◌, refl, ap, ◌∙◌, Option, none, some, List, [], ◌∷◌, ◌++◌, arith,
  u32_max, IsU32,
}
use net_mux.Flow.Window.{
  SendWindow, new_send, try_take, grant, RecvWindow, new_recv, threshold, on_consume, claim,
}
use net_mux.Flow.Window.Send.{amount}
use net_mux.Flow.Window.Recv.{IsBelow, new_recv-IsBelow, on_consume_conserves, on_consume-IsBelow}

pub record Link : Type 0 where
  pub send : SendWindow
  pub in_flight : List ℕ  -- data frames, the next to arrive first
  pub buffered : ℕ  -- bytes that have arrived and are not yet read
  pub recv : RecvWindow
  pub updates : List ℕ  -- window updates, the next to arrive first

abbrev pub total : List ℕ → ℕ
total [] = 0
total (n ∷ ns) = n + total ns

abbrev pub sent : Option ℕ → List ℕ → List ℕ
sent none ns = ns
sent (some n) ns = ns ++ (n ∷ [])

-- `StreamInner::new` at the two ends: each takes the window of its own configuration.
unfoldable pub init : ℕ → ℕ → Link
unfolding new_send new_recv
init initial theirs = record {
  send = new_send initial;
  in_flight = [];
  buffered = 0;
  recv = new_recv theirs;
  updates = [];
}

pub data Step (l m : Link) : Type 0 where
  -- A write of at most `desired` bytes; nothing happens if the window is empty.
  writes :
      (desired : ℕ)
      → m ≡ record l {
        send = (try_take l.send desired).0;
        in_flight = sent (try_take l.send desired).1 l.in_flight;
      }
      → Step l m
  arrives :
      (n : ℕ) (ns : List ℕ)
      → l.in_flight ≡ n ∷ ns
      → m ≡ record l { in_flight = ns; buffered = l.buffered + n }
      → Step l m
  reads :
      (k : ℕ)
      → k ≤ l.buffered
      → m ≡ record l {
        buffered = l.buffered - k;
        recv = (on_consume l.recv k).0;
        updates = sent (on_consume l.recv k).1 l.updates;
      }
      → Step l m
  returns :
      (d : ℕ) (ds : List ℕ)
      → l.updates ≡ d ∷ ds
      → m ≡ record l { send = grant l.send d; updates = ds }
      → Step l m

pub data Reach (initial theirs : ℕ) : Link → Type 0 where
  start : Reach initial theirs (init initial theirs)
  later : {l m : Link} → Reach initial theirs l → Step l m → Reach initial theirs m

pub record Inv (initial theirs : ℕ) (l : Link) : Type 0 where
  pub size : l.recv.initial ≡ theirs
  pub held : IsBelow l.recv
  pub balance :
      l.send.available + total l.in_flight + l.buffered + l.recv.pending_credit + total l.updates
      ≡ initial

total-sent : (o : Option ℕ) (ns : List ℕ) → total (sent o ns) ≡ amount o + total ns
total-sent none ns = omega arith
total-sent (some n) [] = omega arith
total-sent (some n) (k ∷ ns) = omega (arith, total-sent (some n) ns)

on_consume-initial : (w : RecvWindow) (k : ℕ) → (on_consume w k).0.initial ≡ w.initial
unfolding on_consume claim
on_consume-initial w k = ground arith

try_take-amount :
    (w : SendWindow) (n : ℕ) → (try_take w n).0.available + amount (try_take w n).1 ≡ w.available
unfolding try_take
try_take-amount w n = ground arith

grant_amount :
    (w : SendWindow) (d : ℕ) → w.available + d ≤ u32_max → (grant w d).available ≡ w.available + d
unfolding grant
grant_amount w d h = ground arith

Step-Inv :
    {l m : Link} (initial theirs : ℕ)
    → IsU32 initial
    → Step l m
    → Inv initial theirs l
    → Inv initial theirs m
Step-Inv {l} initial theirs fits (writes d e) v = rw e (record {
  size = v.size;
  held = v.held;
  balance =
      omega
        (arith, v.balance, try_take-amount l.send d, total-sent (try_take l.send d).1 l.in_flight);
})
Step-Inv {l} initial theirs fits (arrives n ns p e) v =
    rw e (record { size = v.size; held = v.held; balance = omega (arith, v.balance, ap total p) })
Step-Inv {l} initial theirs fits (reads k h e) v =
    let room : IsU32 (l.recv.pending_credit + k) = omega (arith, v.balance) in
    rw e (record {
      size = on_consume-initial l.recv k ∙ v.size;
      held = on_consume-IsBelow l.recv k v.held room;
      balance = omega (
        arith,
        v.balance,
        (on_consume_conserves l.recv k v.held room).0,
        total-sent (on_consume l.recv k).1 l.updates,
      );
    })
Step-Inv {l} initial theirs fits (returns d ds p e) v = rw e (record {
  size = v.size;
  held = v.held;
  balance = omega (arith, v.balance, ap total p, grant_amount l.send d);
})

Reach-Inv :
    (initial theirs : ℕ) {l : Link}
    → IsU32 initial
    → IsU32 theirs
    → Reach initial theirs l
    → Inv initial theirs l
unfolding init new_send new_recv
Reach-Inv initial theirs fits fits' start = record {
  size = refl;
  held = new_recv-IsBelow theirs fits';
  balance = omega arith;
}
Reach-Inv initial theirs fits fits' (later r st) =
    Step-Inv initial theirs fits st (Reach-Inv initial theirs fits fits' r)

-- Credit is conserved: what the sender may send, what is on its way, what waits to be read, what the
-- receiver holds back and what it has announced always add up to the window that the sender began
-- with, whatever window the receiver began with.
pub credit_balance :
    (initial theirs : ℕ) {l : Link}
    → IsU32 initial
    → IsU32 theirs
    → Reach initial theirs l
    → l.send.available + total l.in_flight + l.buffered + l.recv.pending_credit + total l.updates
      ≡ initial
credit_balance initial theirs fits fits' r = (Reach-Inv initial theirs fits fits' r).balance

try_take_all :
    (n : ℕ)
    → 0 < n
    → ((try_take (new_send n) n).0.available ≡ 0) × ((try_take (new_send n) n).1 ≡ some n)
unfolding try_take new_send
try_take_all n pos = ground arith

on_consume_below :
    (w : RecvWindow) (n : ℕ)
    → 0 < n
    → n ≤ u32_max
    → w.pending_credit ≡ 0
    → n < threshold w
    → (on_consume w n).1 ≡ none
unfolding on_consume claim
on_consume_below w n pos fits empty above = ground arith

-- Where the threshold of the receiver is above the window of the sender, the loop can run dry: all of
-- the window is sent and read, and then the sender has no credit, and nothing is on its way that could
-- bring any.
pub credit_stalls :
    (initial theirs : ℕ)
    → 0 < initial
    → initial ≤ u32_max
    → initial < threshold (new_recv theirs)
    → (l : Link) × Reach initial theirs l
      × (l.send.available ≡ 0)
      × (l.in_flight ≡ [])
      × (l.buffered ≡ 0)
      × (l.updates ≡ [])
unfolding init new_send new_recv threshold
credit_stalls initial theirs pos fits above =
    let l = init initial theirs in
    let took = try_take_all initial pos in
    let kept = on_consume_below (new_recv theirs) initial pos fits refl above in
    let l1 = record l { send = (try_take l.send initial).0; in_flight = initial ∷ [] } in
    let r1 : Reach initial theirs l1 = later start (writes initial (rw took.1 refl)) in
    let l2 = record l1 { in_flight = []; buffered = 0 + initial } in
    let r2 : Reach initial theirs l2 = later r1 (arrives initial [] refl refl) in
    let l3 = record l2 {
      buffered = 0 + initial - initial;
      recv = (on_consume l.recv initial).0;
      updates = [];
    } in
    let r3 : Reach initial theirs l3 = later r2 (reads initial (omega arith) (rw kept refl)) in
    (l3, r3, took.0, refl, omega arith, refl)
