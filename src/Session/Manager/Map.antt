-- ===== src/Session/Manager/Map.antt =====
-- The registry of src/session/manager.rs behaves as a map.
use net_mux.Base.{ℕ, ◌+◌, ◌≤◌, ◌≡◌, ==_refl, none, some, [], ◌∷◌, ◌==◌, if◌then◌else◌, arith}
use net_mux.Error.{ok}
use net_mux.Session.Manager.{StreamRegistry, get, insert, remove, len}

-- No id stands in the registry twice.
abbrev pub Distinct : StreamRegistry → Type 0
Distinct [] = Unit {0}
Distinct ((k, r) ∷ m) = (get m k ≡ none) × Distinct m

-- `insert` succeeds exactly on a new id, which then leads to the new stream; other ids keep theirs.
pub get-insert :
    (m m' : StreamRegistry) (id r j : ℕ)
    → insert m id r ≡ ok m'
    → (get m id ≡ none) × (get m' j ≡ (if id == j then some r else get m j)) × (len m' ≡ len m + 1)
unfolding insert get
get-insert m m' id r j e = ground arith

pub insert_new :
    (m : StreamRegistry) (id r : ℕ) → get m id ≡ none → insert m id r ≡ ok ((id, r) ∷ m)
unfolding insert
insert_new m id r new = ground arith

pub get_new : (m : StreamRegistry) (id r : ℕ) → get ((id, r) ∷ m) id ≡ some r
unfolding get
get_new m id r = rw (==_refl id)

-- In a registry with distinct ids, `remove` takes out its id and no other.
get-remove :
    (m : StreamRegistry) (id j : ℕ)
    → Distinct m
    → get (remove m id) j ≡ (if id == j then none else get m j)
unfolding get remove
get-remove [] id j d = ground arith
get-remove ((k, r) ∷ m) id j d = ground (arith, get-remove m id j d.1)

pub insert-Distinct :
    (m m' : StreamRegistry) (id r : ℕ) → insert m id r ≡ ok m' → Distinct m → Distinct m'
unfolding insert
insert-Distinct m m' id r e d = ground arith

pub remove-Distinct : (m : StreamRegistry) (id : ℕ) → Distinct m → Distinct (remove m id)
unfolding remove get
remove-Distinct [] id d = tt
remove-Distinct ((k, r) ∷ m) id d = ground (arith, remove-Distinct m id d.1, get-remove m id k d.1)

length-remove : (m : StreamRegistry) (id : ℕ) → len (remove m id) ≤ len m
unfolding remove
length-remove [] id = omega arith
length-remove ((k, r) ∷ m) id = ground (arith, length-remove m id)
