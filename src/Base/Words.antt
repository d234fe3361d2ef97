-- ===== src/Base/Words.antt =====
-- Unsigned machine words as native numbers, and their big-endian bytes.
use Prim.Native.Nat.{ℕ, ◌+◌, ◌-◌, ◌*◌, ◌/◌, ◌%◌, ◌^◌, ◌<◌, min}
use mathlib.Core.Path.{◌≡◌}
use mathlib.Core.List.{List, [], ◌∷◌}
use mathlib.Core.Option.{Option, none, some}
use native.Mathlib.Omega.{arith}
use net_mux.Base.Tests.{ltb, if◌then◌else◌}

abbrev pub u32_max : ℕ
u32_max = 2 ^ 32 - 1

abbrev pub IsU16 : ℕ → Type 0
IsU16 n = n < 2 ^ 16

abbrev pub IsU32 : ℕ → Type 0
IsU32 n = n < 2 ^ 32

-- u32::saturating_add, u32::checked_add and u32::wrapping_add
abbrev pub saturating_add : ℕ → ℕ → ℕ
saturating_add a b = min (a + b) u32_max

abbrev pub checked_add : ℕ → ℕ → Option ℕ
checked_add a b = if ltb u32_max (a + b) then none else some (a + b)

abbrev pub wrapping_add : ℕ → ℕ → ℕ
wrapping_add a b = (a + b) % 2 ^ 32

-- u16::to_be_bytes and u32::to_be_bytes
abbrev pub u16_to_be_bytes : ℕ → List ℕ
u16_to_be_bytes n = (n / 256 % 256) ∷ (n % 256) ∷ []

abbrev pub u32_to_be_bytes : ℕ → List ℕ
u32_to_be_bytes n = (n / 2 ^ 24 % 256) ∷ (n / 2 ^ 16 % 256) ∷ (n / 2 ^ 8 % 256) ∷ (n % 256) ∷ []

-- u16::from_be_bytes and u32::from_be_bytes
abbrev pub u16_from_be_bytes : ℕ → ℕ → ℕ
u16_from_be_bytes a b = a * 256 + b

abbrev pub u32_from_be_bytes : ℕ → ℕ → ℕ → ℕ → ℕ
u32_from_be_bytes a b c d = a * 2 ^ 24 + b * 2 ^ 16 + c * 2 ^ 8 + d

pub u16_from-to : (n : ℕ) → IsU16 n → u16_from_be_bytes (n / 256 % 256) (n % 256) ≡ n
u16_from-to n h = omega arith

pub u32_from-to :
    (n : ℕ)
    → IsU32 n
    → u32_from_be_bytes (n / 2 ^ 24 % 256) (n / 2 ^ 16 % 256) (n / 2 ^ 8 % 256) (n % 256) ≡ n
u32_from-to n h = omega arith
