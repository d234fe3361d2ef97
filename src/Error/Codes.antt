-- ===== src/Error/Codes.antt =====
-- ErrorCode::as_u32 and From<u32> in src/error.rs, against each other.
use net_mux.Base.{ℕ, ◌≡◌, ◌≤◌, refl, arith}
use net_mux.Error.{ErrorCode, normal, unknown, as_u32, from_u32}

-- `unknown v` stands for a code that has no name of its own.
abbrev pub IsCanonical : ErrorCode → Type 0
IsCanonical (unknown v) = 7 ≤ v
IsCanonical _ = Unit

-- A number that comes off the wire is kept: reading it as a code and writing it gives it back.
pub as_u32-from_u32 : (v : ℕ) → as_u32 (from_u32 v) ≡ v
unfolding as_u32 from_u32
as_u32-from_u32 v = ground arith

-- Every code that `from_u32` makes is canonical.
pub from_u32-IsCanonical : (v : ℕ) → IsCanonical (from_u32 v)
unfolding from_u32
from_u32-IsCanonical v = ground arith

-- A canonical code survives the trip over the wire.
pub from_u32-as_u32 : (c : ErrorCode) → IsCanonical c → from_u32 (as_u32 c) ≡ c
unfolding as_u32 from_u32
from_u32-as_u32 normal h = refl
from_u32-as_u32 (unknown v) h = ground arith
from_u32-as_u32 _ h = refl
