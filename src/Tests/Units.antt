-- ===== src/Tests/Units.antt =====
-- The unit tests in the files of src, run on the model. A test is its assertions, one Boolean for each;
-- a panic is an assertion that fails.
pub mod Frames
pub mod Parts
use Prim.Native.Nat.{Ordering}
use Prim.Native.String.{compare}
use net_mux.Base.{ℕ, String, Bool, true, false, Option, none, some, List, [], ◌∷◌, ◌&&◌, ◌==◌}

-- What `assert_eq!` compares.
abbrev pub same_text : String → String → Bool
same_text s t = elim (compare s t) [ Ordering.eq ↦ true | _ ↦ false ]

abbrev pub same_bytes : List ℕ → List ℕ → Bool
same_bytes [] [] = true
same_bytes (x ∷ xs) (y ∷ ys) = (x == y) && same_bytes xs ys
same_bytes _ _ = false

abbrev pub same_number : Option ℕ → Option ℕ → Bool
same_number none none = true
same_number (some m) (some n) = m == n
same_number _ _ = false

abbrev pub all_pass : List Bool → Bool
all_pass [] = true
all_pass (t ∷ ts) = t && all_pass ts
