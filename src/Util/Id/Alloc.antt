-- ===== src/Util/Id/Alloc.antt =====
-- StreamIdAllocator::allocate of src/util/id.rs, run by any number of threads at once: one step for
-- each access to the shared atomic, in any order.
use net_mux.Base.{
  ℕ, ◌+◌, ◌≤◌, ◌<◌, ◌≡◌, refl, true, false, not, none, some, List, [], ◌∷◌, arith, u32_max,
  checked_add, IsU32, ◌==◌, if◌then◌else◌, ◌⊎◌, inl, inr,
}
use net_mux.Util.Id.{Role, client, server, first_id, owns, StreamIdAllocator, allocate}

-- Where a thread stands in the loop of `allocate`.
pub data Pc : Type 0 where
  at_load : Pc  -- outside a call, or at the head of the loop
  loaded : (cur : ℕ) → Pc  -- after the load, before the compare-exchange

-- `handed` lists the ids that calls have returned, the latest first.
pub record Shared : Type 0 where
  pub alloc : StreamIdAllocator
  pub handed : List ℕ
  pub pc : ℕ → Pc

abbrev pub set_pc : (ℕ → Pc) → ℕ → Pc → ℕ → Pc
set_pc pc i p j = if i == j then p else pc j

pub data Step (s t : Shared) : Type 0 where
  load :
      (i : ℕ)
      → s.pc i ≡ at_load
      → t ≡ record s { pc = set_pc s.pc i (loaded s.alloc.next) }
      → Step s t
  -- `checked_add` fails, and the call returns `None`.
  exhausted :
      (i cur : ℕ)
      → s.pc i ≡ loaded cur
      → checked_add cur 2 ≡ none
      → t ≡ record s { pc = set_pc s.pc i at_load }
      → Step s t
  cas_ok :
      (i cur n : ℕ)
      → s.pc i ≡ loaded cur
      → checked_add cur 2 ≡ some n
      → s.alloc.next ≡ cur
      → t ≡ record {
        alloc = record { next = n };
        handed = cur ∷ s.handed;
        pc = set_pc s.pc i at_load;
      }
      → Step s t
  -- The value has changed, or the weak exchange failed for no reason.
  cas_err :
      (i cur n : ℕ)
      → s.pc i ≡ loaded cur
      → checked_add cur 2 ≡ some n
      → t ≡ record s { pc = set_pc s.pc i at_load }
      → Step s t

abbrev pub init : Role → Shared
init role = record { alloc = record { next = first_id role }; handed = []; pc = λ _. at_load }

pub data Reach (role : Role) : Shared → Type 0 where
  start : Reach role (init role)
  later : {s t : Shared} → Reach role s → Step s t → Reach role t

-- The ids of the list are the role's own, fall strictly from its head, and stay below `n`.
abbrev pub Descends : Role → ℕ → List ℕ → Type 0
Descends role n [] = Unit {0}
Descends role n (x ∷ xs) = (x < n) × (owns role x ≡ true) × Descends role x xs

pub record Inv (role : Role) (s : Shared) : Type 0 where
  pub parity : owns role s.alloc.next ≡ true
  pub descends : Descends role s.alloc.next s.handed
  pub fits : IsU32 s.alloc.next

pub owns-first_id : (role : Role) → owns role (first_id role) ≡ true
unfolding owns first_id
owns-first_id client = refl
owns-first_id server = refl

pub owns-next : (role : Role) (id : ℕ) → owns role id ≡ true → owns role (id + 2) ≡ true
unfolding owns
owns-next client id h = ground arith
owns-next server id h = ground arith

first_id-IsU32 : (role : Role) → IsU32 (first_id role)
unfolding first_id
first_id-IsU32 client = omega arith
first_id-IsU32 server = omega arith

checked_add-eq : (a b n : ℕ) → checked_add a b ≡ some n → (n ≡ a + b) × IsU32 n
checked_add-eq a b n h = ground arith

Step-Inv : (role : Role) {s t : Shared} → Step s t → Inv role s → Inv role t
Step-Inv role (load i p e) v =
    rw e (record { parity = v.parity; descends = v.descends; fits = v.fits })
Step-Inv role (exhausted i cur p c e) v =
    rw e (record { parity = v.parity; descends = v.descends; fits = v.fits })
Step-Inv role (cas_ok i cur n p c h e) v =
    let (sum, small) = checked_add-eq cur 2 n c in
    rw (e, sum, ← h)
      (record {
        parity = owns-next role _ v.parity;
        descends = (omega arith, v.parity, v.descends);
        fits = omega arith;
      })
Step-Inv role (cas_err i cur n p c e) v =
    rw e (record { parity = v.parity; descends = v.descends; fits = v.fits })

Reach-Inv : (role : Role) {s : Shared} → Reach role s → Inv role s
Reach-Inv role start = record {
  parity = owns-first_id role;
  descends = tt;
  fits = first_id-IsU32 role;
}
Reach-Inv role (later r st) = Step-Inv role st (Reach-Inv role r)

-- Under every interleaving, the ids that an allocator has handed out fall strictly from the latest
-- to the first, so no two calls get one id, and each is an id of the allocator's role.
pub handed-Descends :
    (role : Role) {s : Shared} → Reach role s → Descends role s.alloc.next s.handed
handed-Descends role r = (Reach-Inv role r).descends

-- Each step leaves the atomic alone, or does to it what an undisturbed call does.
Step-allocate :
    {s t : Shared}
    → Step s t
    → ((t.alloc ≡ s.alloc) × (t.handed ≡ s.handed))
      ⊎ ((id : ℕ) × (allocate s.alloc ≡ (t.alloc, some id)) × (t.handed ≡ id ∷ s.handed))
unfolding allocate
Step-allocate (load i p e) = inl (rw e, rw e)
Step-allocate (exhausted i cur p c e) = inl (rw e, rw e)
Step-allocate {s} (cas_ok i cur n p c h e) = inr (cur, ground arith, rw e)
Step-allocate (cas_err i cur n p c e) = inl (rw e, rw e)

-- An id other than 0 belongs to exactly one of the two roles, and 0 to none: the two sides of a
-- session never allocate the same id.
owns_one :
    (id : ℕ)
    → (owns client id ≡ (if id == 0 then false else not (owns server id))) × (owns server 0 ≡ false)
unfolding owns
owns_one id = ground arith

-- A call fails only when less than two ids are left, and changes nothing then; otherwise it returns
-- the next id and moves on by two.
pub allocate_lem :
    (a : StreamIdAllocator)
    → ((u32_max < a.next + 2) × (allocate a ≡ (a, none)))
      ⊎ ((a.next + 2 ≤ u32_max) × (allocate a ≡ (record { next = a.next + 2 }, some a.next)))
unfolding allocate
allocate_lem a = ground arith
