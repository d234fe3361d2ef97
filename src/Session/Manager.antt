-- ===== src/Session/Manager.antt =====
-- src/session/manager.rs. The map from ids to shared streams is an association list, newest first; a
-- stream is known by its place in the session's store of streams.
pub mod Map
use net_mux.Base.{
  ℕ, suc, Bool, true, false, Option, none, some, List, [], ◌∷◌, ◌==◌, if◌then◌else◌, length, map,
}
use net_mux.Error.{Result, ok, err, protocol}

abbrev pub StreamRegistry : Type 0
StreamRegistry = List (ℕ × ℕ)

unfoldable pub get : StreamRegistry → ℕ → Option ℕ
get [] id = none
get ((k, r) ∷ m) id = if k == id then some r else get m id

-- `insert` refuses an id that is in use.
unfoldable pub insert : StreamRegistry → ℕ → ℕ → Result StreamRegistry
unfolding get
insert m id r = elim (get m id) [
  | some _ ↦ err (protocol "duplicate stream id")
  | none ↦ ok ((id, r) ∷ m)
]

unfoldable pub remove : StreamRegistry → ℕ → StreamRegistry
remove [] id = []
remove ((k, r) ∷ m) id = if k == id then m else (k, r) ∷ remove m id

abbrev pub len : StreamRegistry → ℕ
len m = length m

-- The streams that `drain` hands out; the registry is empty afterwards.
abbrev pub drained : StreamRegistry → List ℕ
drained m = map (λ e. e.1) m
