-- ===== src/Util/Id.antt =====
-- src/util/id.rs: roles, and the allocator of stream ids, run by one thread.
pub mod Alloc
use net_mux.Base.{
  ℕ, zero, suc, ◌+◌, ◌%◌, ◌<◌, ◌≡◌, Bool, true, false, not, ◌&&◌, Option, none, some, List, [], ◌∷◌,
  ◌==◌, checked_add,
}

pub data Role : Type 0 where
  client server : Role

unfoldable pub first_id : Role → ℕ
first_id client = 1
first_id server = 2

-- Whether an id was allocated by this role.
unfoldable pub owns : Role → ℕ → Bool
owns client id = not (id % 2 == 0)
owns server id = not (id == 0) && (id % 2 == 0)

pub record StreamIdAllocator : Type 0 where
  pub next : ℕ

unfoldable pub new : Role → StreamIdAllocator
new role = record { next = first_id role }

-- With no other thread at work the exchange goes through, after any spurious failures.
unfoldable pub allocate : StreamIdAllocator → StreamIdAllocator × Option ℕ
allocate a = elim (checked_add a.next 2) [
  | none ↦ (a, none)
  | some n ↦ (record { next = n }, some a.next)
]
