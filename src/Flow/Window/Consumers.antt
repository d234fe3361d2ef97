-- ===== src/Flow/Window/Consumers.antt =====
-- RecvWindow::on_consume of src/flow/window.rs, called by any number of threads at once: one step for
-- each access to the shared counter, in any order.
pub mod Conserves
use net_mux.Base.{
  ℕ, ◌+◌, ◌≤◌, ◌<◌, ◌≡◌, ◌≢◌, ◌∙◌, refl, sym, List, [], ◌∷◌, ◌==◌, if◌then◌else◌, leb, arith, All,
  IsU32, ◌⊎◌, wrapping_add, saturating_add, Bool-cases, ==_refl, inl, inr, dec_le,
}
use net_mux.Flow.Window.{RecvWindow, new_recv, threshold}

-- Where a call stands: outside, or before an exchange of the counter from the value it has seen.
pub data Pc : Type 0 where
  outside : Pc
  at_exchange : (cur : ℕ) → Pc

-- `consumed` is the sum of the bytes that the calls have reported, `announced` lists the deltas that
-- they have returned, the latest first.
pub record Shared : Type 0 where
  pub window : RecvWindow
  pub consumed : ℕ
  pub announced : List ℕ
  pub pc : ℕ → Pc

abbrev pub set_pc : (ℕ → Pc) → ℕ → Pc → ℕ → Pc
set_pc pc i p j = if i == j then p else pc j

abbrev pub with_pending : RecvWindow → ℕ → RecvWindow
with_pending w n = record w { pending_credit = n }

pub data Step (s t : Shared) : Type 0 where
  -- The addition; the call goes on if the sum that it computes has reached the threshold.
  adds :
      (i bytes : ℕ)
      → s.pc i ≡ outside
      → 0 < bytes
      → t ≡ record {
        window = with_pending s.window (wrapping_add s.window.pending_credit bytes);
        consumed = s.consumed + bytes;
        announced = s.announced;
        pc =
            if leb (threshold s.window) (saturating_add s.window.pending_credit bytes)
            then set_pc s.pc i (at_exchange (saturating_add s.window.pending_credit bytes))
            else s.pc;
      }
      → Step s t
  exchange_ok :
      (i cur : ℕ)
      → s.pc i ≡ at_exchange cur
      → s.window.pending_credit ≡ cur
      → t ≡ record {
        window = with_pending s.window 0;
        consumed = s.consumed;
        announced = cur ∷ s.announced;
        pc = set_pc s.pc i outside;
      }
      → Step s t
  -- The value has changed, or the weak exchange failed for no reason: the call gives up if what it
  -- sees is below the threshold.
  exchange_err :
      (i cur : ℕ)
      → s.pc i ≡ at_exchange cur
      → t ≡ record s {
        pc = set_pc s.pc i (
            if leb (threshold s.window) s.window.pending_credit
            then at_exchange s.window.pending_credit
            else outside);
      }
      → Step s t

abbrev pub init : ℕ → Shared
init initial = record { window = new_recv initial; consumed = 0; announced = []; pc = λ _. outside }
