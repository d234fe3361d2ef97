-- ===== src/Tests.antt =====
-- Runs of the model on concrete input, and for each result one input to which it applies.
pub mod Wire
pub mod Window
pub mod Streams
pub mod Sessions
pub mod Machines
pub mod Sends
pub mod Peers
pub mod Transfers
pub mod Units
use net_mux.Base.{
  ℕ, ◌≤◌, ◌<◌, ◌≡◌, refl, Bool, true, false, Option, none, some, List, [], ◌∷◌, ◌==◌, leb,
  if◌then◌else◌, bit_and, arith,
}
use net_mux.Config.{Config, default}
use net_mux.Protocol.Frame.{Flags, Bitflags, Frame}
use net_mux.Stream.Channel.{Sender, Wires}

-- The flags as the crate `bitflags` keeps them: one number.
abbrev pub from_bits : ℕ → Option Flags
from_bits n = if leb n 15 then some (record { bits = n }) else none

pub from_bits_known : (n : ℕ) → n ≤ 15 → from_bits n ≡ some (record { bits = n })
from_bits_known n h = ground arith

pub from_bits_unknown : (n : ℕ) → 15 < n → from_bits n ≡ none
from_bits_unknown n h = ground arith

abbrev pub bitflags : Bitflags
bitflags = record {
  empty = record { bits = 0 };
  from_bits = from_bits;
  contains = λ f g. bit_and f.bits g.bits == g.bits;
  empty_bits = refl;
  from_bits_known = from_bits_known;
  from_bits_unknown = from_bits_unknown;
  contains_bits = λ f g. refl;
}

abbrev pub no_flags : Flags
no_flags = record { bits = 0 }

-- The channels of a session that has sent nothing.
abbrev pub wires : Wires
wires = record {
  out_tx = record { queue = []; alive = true };
  closer_tx = record { queue = []; alive = true };
}

abbrev pub small : Config
small = record default { initial_stream_window = 8; max_frame_size = 4; max_streams = 2 }
