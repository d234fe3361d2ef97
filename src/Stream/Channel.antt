-- ===== src/Stream/Channel.antt =====
-- What the streams and the session see of tokio: unbounded channels and poll results. The queue of a
-- channel lists what has been sent and not been received, the oldest first; a send fails exactly when
-- the receiver is gone.
use net_mux.Base.{
  ℕ, ◌≡◌, refl, ◌⊎◌, inl, inr, Bool, true, false, List, [], ◌∷◌, ◌++◌, if◌then◌else◌,
}
use net_mux.Error.{IoError}
use net_mux.Protocol.Frame.{Frame}

pub record Sender {ℓ} (A : Type ℓ) : Type ℓ where
  pub queue : List A
  pub alive : Bool

-- The sender after the call, and whether the call returned `Ok`.
abbrev pub send {ℓ} : {A : Type ℓ} → Sender A → A → Sender A × Bool
send tx a = if tx.alive then (record tx { queue = tx.queue ++ (a ∷ []) }, true) else (tx, false)

-- The two channels that every stream of a session shares.
pub record Wires : Type 0 where
  pub out_tx : Sender Frame
  pub closer_tx : Sender ℕ

-- A send whose result is ignored, `let _ = ….send(…)`.
abbrev pub send_out : Wires → Frame → Wires
send_out w f = record w { out_tx = (send w.out_tx f).0 }

abbrev pub send_closer : Wires → ℕ → Wires
send_closer w id = record w { closer_tx = (send w.closer_tx id).0 }

-- `Poll<T>`, and `io::Result<T>`
pub data Poll {ℓ} (A : Type ℓ) : Type ℓ where
  poll_ready : A → Poll A
  poll_pending : Poll A

pub data IoResult {ℓ} (A : Type ℓ) : Type ℓ where
  io_ok : A → IoResult A
  io_err : IoError → IoResult A

-- To split on a computed poll and keep the equation.
pub Poll-cases {ℓ} : {A : Type ℓ} (p : Poll A) → ((a : A) × (p ≡ poll_ready a)) ⊎ (p ≡ poll_pending)
Poll-cases (poll_ready a) = inl (a, refl)
Poll-cases poll_pending = inr refl
