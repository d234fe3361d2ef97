-- ===== src/Flow/Window/Recv.antt =====
-- RecvWindow of src/flow/window.rs, called by one task at a time.
use net_mux.Base.{ℕ, ◌+◌, ◌≤◌, ◌<◌, ◌≡◌, ◌^◌, none, ◌⊎◌, arith, IsU32}
use net_mux.Flow.Window.{RecvWindow, new_recv, threshold, claim, on_consume}
use net_mux.Flow.Window.Send.{amount}

-- Less than the threshold is held back.
pub record IsBelow (w : RecvWindow) : Type 0 where
  pub fits : IsU32 w.initial
  pub below : w.pending_credit < threshold w

pub new_recv-IsBelow : (initial : ℕ) → IsU32 initial → IsBelow (new_recv initial)
unfolding new_recv threshold
new_recv-IsBelow initial h = record { fits = h; below = omega arith }

-- As long as the sum fits a u32, every consumed byte is either held back or announced, once; less
-- than the threshold is held back, and at least the threshold is announced.
pub on_consume_conserves :
    (w : RecvWindow) (bytes : ℕ)
    → IsBelow w
    → IsU32 (w.pending_credit + bytes)
    → ((on_consume w bytes).0.pending_credit + amount (on_consume w bytes).1
        ≡ w.pending_credit + bytes)
      × ((on_consume w bytes).0.pending_credit < threshold w)
      × (((on_consume w bytes).1 ≡ none) ⊎ (threshold w ≤ amount (on_consume w bytes).1))
unfolding on_consume claim threshold
on_consume_conserves w bytes v h = ground arith

pub on_consume-IsBelow :
    (w : RecvWindow) (bytes : ℕ)
    → IsBelow w
    → IsU32 (w.pending_credit + bytes)
    → IsBelow (on_consume w bytes).0
unfolding on_consume claim threshold
on_consume-IsBelow w bytes v h = ground arith

-- Where the sum does not fit a u32, `fetch_add` wraps around while the sum that is compared
-- saturates: 2 ^ 32 bytes of credit are neither held back nor announced.
pub on_consume_loses :
    (w : RecvWindow) (bytes : ℕ)
    → IsBelow w
    → IsU32 bytes
    → 2 ^ 32 ≤ w.pending_credit + bytes
    → (on_consume w bytes).0.pending_credit + amount (on_consume w bytes).1 + 2 ^ 32
      ≡ w.pending_credit + bytes
unfolding on_consume claim threshold
on_consume_loses w bytes v h k = ground arith
