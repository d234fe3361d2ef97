-- ===== src/Protocol/Frame.antt =====
-- src/protocol/frame.rs: flags and frames. A payload (`Bytes`) is the list of its bytes. The
-- methods of `Flags` come from the crate `bitflags` and are an argument, with what its
-- documentation says of them.
use net_mux.Base.{ℕ, ◌<◌, ◌≤◌, ◌≡◌, Bool, Option, none, some, List, [], ◌==◌, bit_and}
use net_mux.Error.{ErrorCode}

pub record Flags : Type 0 where
  pub bits : ℕ  -- u16

abbrev pub flags_syn : Flags
flags_syn = record { bits = 1 }

abbrev pub flags_ack : Flags
flags_ack = record { bits = 2 }

abbrev pub flags_fin : Flags
flags_fin = record { bits = 4 }

abbrev pub flags_rst : Flags
flags_rst = record { bits = 8 }

-- The bits of the four flags together.
abbrev pub known_bits : ℕ
known_bits = 15

-- What `bitflags!` generates for `Flags`, as far as the crate uses it: `from_bits` refuses a number
-- with an unknown bit and else keeps it, and `contains` asks for all the bits of its argument.
pub record Bitflags : Type 0 where
  pub empty : Flags
  pub from_bits : ℕ → Option Flags
  pub contains : Flags → Flags → Bool
  pub empty_bits : empty ≡ record { bits = 0 }
  pub from_bits_known : (n : ℕ) → n ≤ known_bits → from_bits n ≡ some (record { bits = n })
  pub from_bits_unknown : (n : ℕ) → known_bits < n → from_bits n ≡ none
  pub contains_bits : (f g : Flags) → contains f g ≡ (bit_and f.bits g.bits == g.bits)

pub data Frame : Type 0 where
  data_frame : (stream_id : ℕ) → (flags : Flags) → (payload : List ℕ) → Frame
  window_update_frame : (stream_id : ℕ) → (flags : Flags) → (delta : ℕ) → Frame
  ping_frame : (flags : Flags) → (opaque : ℕ) → Frame
  go_away_frame : (error_code : ErrorCode) → Frame

abbrev pub data_of : ℕ → Flags → List ℕ → Frame
data_of id flags payload = data_frame id flags payload

abbrev pub syn : ℕ → Frame
syn id = data_frame id flags_syn []

abbrev pub ack : ℕ → Frame
ack id = data_frame id flags_ack []

abbrev pub fin : ℕ → Frame
fin id = data_frame id flags_fin []

abbrev pub rst : ℕ → Frame
rst id = data_frame id flags_rst []

abbrev pub go_away : ErrorCode → Frame
go_away code = go_away_frame code

module _ (b : Bitflags) where
  abbrev pub window_update : ℕ → ℕ → Frame
  window_update id delta = window_update_frame id b.empty delta

  abbrev pub ping : ℕ → Frame
  ping opaque = ping_frame b.empty opaque

  abbrev pub pong : ℕ → Frame
  pong opaque = ping_frame flags_ack opaque
