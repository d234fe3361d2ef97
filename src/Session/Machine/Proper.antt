-- ===== src/Session/Machine/Proper.antt =====
-- The runs of a session (src/session) whose reader gets what a decoder yields: what holds of its queue
-- and of what its writer has put out, and the steps that keep it.
use net_mux.Base.{
  ℕ, ◌+◌, ◌≤◌, ◌≡◌, refl, Option, none, some, List, ◌++◌, ◌==◌, arith, All, All-append, All-Sublist,
  IsU32, u32_max, Bool-cases, inl, inr,
}
use net_mux.Config.{Config}
use net_mux.Util.Id.{Role}
use net_mux.Protocol.Frame.{Bitflags, Frame}
use net_mux.Stream.Inner.{local}
use net_mux.Session.Inner.{SessionInner}
use net_mux.Session.Carried.{IsId, IsSendable, codec_of, IsCarried, new-fit}
use net_mux.Session.Reader.Carried.{Comes}
use net_mux.Session.Writer.{Sink}
use net_mux.Session.Machine.Says.{Says}
use net_mux.Session.Machine.{
  Machine, Open, allocated, registered, announced, set_open, moves_on, in_session, stored, Step,
  reads, pings, init, Reach, start, later,
}
use net_mux.Session.Machine.Apart.{some-id}
use net_mux.Session.Machine.Carried.{same-IsCarried}

-- The id that a call of `open` has.
abbrev pub id_of : Open → Option ℕ
id_of (allocated id) = some id
id_of (registered id place) = some id
id_of (announced id place) = some id
id_of _ = none

module _ (b : Bitflags) where
  -- The reader's frames come through a decoder with the limit of the configuration, and the nonces of
  -- the keepalive task are u32s.
  abbrev pub IsProper : Config → {m n : Machine} → Step b m n → Type 0
  IsProper config (reads i e) = Comes config i
  IsProper config (pings nonce e) = IsU32 nonce
  IsProper config _ = Unit {0}

  pub data Runs (config : Config) (role : Role) : Machine → Type 0 where
    begins : Runs config role (init config role)
    goes_on :
        {m n : Machine}
        → Runs config role m
        → (st : Step b m n) → IsProper config st
        → Runs config role n

  unfoldable pub Runs-Reach :
      {config : Config} {role : Role} {m : Machine} → Runs config role m → Reach b config role m
  Runs-Reach begins = start
  Runs-Reach (goes_on r st proper) = later (Runs-Reach r) st

  pub record Fit (config : Config) (sent : List Frame) (m : Machine) : Type 0 where
    pub carried : IsCarried config m.session
    pub next : IsId m.session.id_alloc.next
    pub held : (i id : ℕ) → id_of (m.opens i) ≡ some id → IsId id
    pub good : All (IsSendable (codec_of config)) sent

  module _ (config : Config) (sent : List Frame) (m : Machine) (v : Fit config sent m) where
    -- The sink and the allocator stay.
    pub quietly :
        (s : SessionInner) (opens : ℕ → Open)
        → IsCarried config s
        → s.id_alloc ≡ m.session.id_alloc
        → ((i id : ℕ) → id_of (opens i) ≡ some id → IsId id)
        → Fit config sent (record m { session = s; opens = opens })
    quietly s opens h alloc held = record {
      carried = h;
      next = rw alloc v.next;
      held = held;
      good = v.good;
    }

    pub in_place :
        (s : SessionInner)
        → IsCarried config s
        → s.id_alloc ≡ m.session.id_alloc
        → Fit config sent (in_session m s)
    in_place s h alloc = quietly s m.opens h alloc v.held

    moved :
        (i : ℕ) (p : Open)
        → ((id : ℕ) → id_of p ≡ some id → IsId id)
        → (j id : ℕ) → id_of (set_open m.opens i p j) ≡ some id
        → IsId id
    moved i p wide j id h = elim (Bool-cases (i == j)) [
      | inl e ↦ wide id (rw e at h)
      | inr e ↦ v.held j id (rw e at h)
    ]

    pub moves :
        (i : ℕ) (s : SessionInner) (p : Open)
        → IsCarried config s
        → s.id_alloc ≡ m.session.id_alloc
        → ((id : ℕ) → id_of p ≡ some id → IsId id)
        → Fit config sent (moves_on m i s p)
    moves i s p h alloc wide = quietly s (set_open m.opens i p) h alloc (moved i p wide)

    pub writer :
        (tl : SessionInner × Sink) (h : Says b (m.session, m.sink) tl)
        → IsCarried config tl.0
        → tl.0.id_alloc ≡ m.session.id_alloc
        → Fit config (sent ++ h.sent) (record m { session = tl.0; sink = tl.1 })
    writer tl h t alloc =
        let c = codec_of config in
        record {
          carried = t;
          next = rw alloc v.next;
          held = v.held;
          good =
              All-append (IsSendable c) sent h.sent v.good
                (All-Sublist (IsSendable c) h.from v.carried.queued);
        }

    pub allocates :
        (i : ℕ)
        → let s = m.session in
          s.id_alloc.next + 2 ≤ u32_max
          → Fit config sent (
              moves_on m i
                (record s { id_alloc = record { next = s.id_alloc.next + 2 } })
                (allocated s.id_alloc.next))
    allocates i room = record {
      carried = same-IsCarried config m.session _ refl refl refl v.carried;
      next = (omega arith, omega arith);
      held = moved i (allocated m.session.id_alloc.next) (λ id e. rw (← some-id e) v.next);
      good = v.good;
    }

    pub stored-IsCarried : (id : ℕ) → IsId id → IsCarried config (stored m.session id)
    stored-IsCarried id i = record {
      queued = v.carried.queued;
      fit =
          new-fit config m.session.streams id local m.session.config i v.carried.same v.carried.fit;
      same = v.carried.same;
    }

    -- What an id of a call is worth.
    pub wide : (i : ℕ) (p : Open) (id : ℕ) → m.opens i ≡ p → id_of p ≡ some id → IsId id
    wide i p id e h = v.held i id (rw e h)
