-- ===== src/Session/Machine/Inv.antt =====
-- What keeps the ids of a session apart (src/session/mod.rs): an invariant of the machine, and the
-- steps that hand an id to a call or register it.
use net_mux.Base.{
  ℕ, ◌+◌, ◌≤◌, ◌<◌, ◌≡◌, ◌≢◌, ◌∙◌, sym, ap, true, none, [], ◌∷◌, ◌++◌, ◌==◌, arith, Bool-cases, inl,
  inr, length, ==_iff,
}
use net_mux.Error.{ok}
use net_mux.Util.Id.{Role, owns}
use net_mux.Util.Id.Alloc.{owns-next}
use net_mux.Stream.Inner.{StreamInner, local}
use net_mux.Stream.Inner
use net_mux.Session.Manager.{StreamRegistry, get, insert}
use net_mux.Session.Manager.Map.{get-insert, insert-Distinct}
use net_mux.Session.Inner.{SessionInner}
use net_mux.Session.Inner.Store.{append-Placed, stream_at-last}
use net_mux.Session.Reader.Registry.{IsSession, new-id, insert-Placed}
use net_mux.Session.Writer.{Sink}
use net_mux.Session.Machine.{
  Machine, Open, allocated, registered, set_open, stored, moves_on, in_session,
}
use net_mux.Session.Machine.Keeps.{Safe}

-- An id that is the role's own, behind the allocator, and not registered.
pub record Free (role : Role) (s : SessionInner) (id : ℕ) : Type 0 where
  pub own : owns role id ≡ true
  pub behind : id < s.id_alloc.next
  pub new : get s.registry id ≡ none

-- The session, and its calls of `open`: the allocator has ids of the role, none of them registered
-- before it is handed out; the ids that calls hold are free, and no two calls hold the same.
pub record Inv (role : Role) (m : Machine) : Type 0 where
  pub sound : IsSession m.session
  pub same_role : m.session.role ≡ role
  pub parity : owns role m.session.id_alloc.next ≡ true
  pub ahead :
      (id : ℕ)
      → owns role id ≡ true
      → m.session.id_alloc.next ≤ id
      → get m.session.registry id ≡ none
  pub held : (i id : ℕ) → m.opens i ≡ allocated id → Free role m.session id
  pub apart : (i j id : ℕ) → m.opens i ≡ allocated id → m.opens j ≡ allocated id → i ≡ j

-- A step that keeps the session safe, and hands no id to a call.
Safe-step :
    (role : Role) (m : Machine) (s : SessionInner) (opens : ℕ → Open)
    → Safe m.session s
    → ((i id : ℕ) → opens i ≡ allocated id → m.opens i ≡ allocated id)
    → Inv role m
    → Inv role (record m { session = s; opens = opens })
Safe-step role m s opens k same v =
    let next : s.id_alloc.next ≡ m.session.id_alloc.next = ap (λ a. a.next) k.keeps.same_alloc in
    let own = λ (id : ℕ) (o : owns role id ≡ true). k.keeps.no_own id (rw v.same_role o) in
    record {
      sound = k.sound v.sound;
      same_role = k.keeps.same_role ∙ v.same_role;
      parity = rw next v.parity;
      ahead = λ id o le. own id o (v.ahead id o (omega (arith, le, next)));
      held = λ i id h.
          let f = v.held i id (same i id h) in
          record { own = f.own; behind = omega (arith, f.behind, next); new = own id f.own f.new };
      apart = λ i j id h l. v.apart i j id (same i id h) (same j id l);
    }

-- A call that moves on without an id.
without_id :
    (opens : ℕ → Open) (i : ℕ) (p : Open)
    → ((id : ℕ) → p ≢ allocated id)
    → (j id : ℕ) → set_open opens i p j ≡ allocated id
    → opens j ≡ allocated id
without_id opens i p other j id h = elim (Bool-cases (i == j)) [
  | inl e ↦ absurd (other id (rw e at h))
  | inr e ↦ rw e at h
]

-- A step in which no call of `open` moves, and one in which a call moves on without an id.
pub same_opens :
    (role : Role) (m : Machine) (s : SessionInner)
    → Safe m.session s
    → Inv role m
    → Inv role (in_session m s)
same_opens role m s k v = Safe-step role m s m.opens k (λ i id h. h) v

pub goes_on :
    (role : Role) (m : Machine) (i : ℕ) (s : SessionInner) (p : Open)
    → Safe m.session s
    → ((id : ℕ) → p ≢ allocated id)
    → Inv role m
    → Inv role (moves_on m i s p)
goes_on role m i s p k other v =
    Safe-step role m s (set_open m.opens i p) k (without_id m.opens i p other) v

-- The invariant does not speak of the sink.
pub other_sink :
    (role : Role) (m : Machine) (k : Sink) → Inv role m → Inv role (record m { sink = k })
other_sink role m k v = record {
  sound = v.sound;
  same_role = v.same_role;
  parity = v.parity;
  ahead = v.ahead;
  held = v.held;
  apart = v.apart;
}

allocated_id : (id j : ℕ) → allocated id ≡ allocated j → id ≡ j
allocated_id id j e = ground (arith, e)

-- A call gets the next id.
pub allocates_step :
    (role : Role) (m : Machine) (i : ℕ)
    → let s = m.session in
      Inv role m
      → Inv role (
          moves_on m i
            (record s { id_alloc = record { next = s.id_alloc.next + 2 } })
            (allocated s.id_alloc.next))
allocates_step role m i v =
    let n = m.session.id_alloc.next in
    record {
      sound = record { distinct = v.sound.distinct; placed = v.sound.placed };
      same_role = v.same_role;
      parity = owns-next role n v.parity;
      ahead = λ id o le. v.ahead id o (omega arith);
      held = λ j id h. elim (Bool-cases (i == j)) [
        | inl e ↦
            let same = allocated_id n id (rw e at h) in
            record {
              own = rw (← same) v.parity;
              behind = omega (arith, same);
              new = rw (← same) (v.ahead n v.parity (omega arith));
            }
        | inr e ↦
            let f = v.held j id (rw e at h) in
            record { own = f.own; behind = omega (arith, f.behind); new = f.new }
      ];
      apart = λ j k id h l. elim (Bool-cases (i == j)) [
        | inl e ↦ elim (Bool-cases (i == k)) [
          | inl e1 ↦ sym ((==_iff i j).0 e) ∙ (==_iff i k).0 e1
          | inr e1 ↦
              absurd
                (omega (arith, allocated_id n id (rw e at h), (v.held k id (rw e1 at l)).behind))
        ]
        | inr e ↦ elim (Bool-cases (i == k)) [
          | inl e1 ↦
              absurd
                (omega (arith, allocated_id n id (rw e1 at l), (v.held j id (rw e at h)).behind))
          | inr e1 ↦ v.apart j k id (rw e at h) (rw e1 at l)
        ]
      ];
    }

-- Another id than the registered one is as new as before.
other :
    (m m' : StreamRegistry) (id r j : ℕ)
    → insert m id r ≡ ok m'
    → id ≢ j
    → get m j ≡ none
    → get m' j ≡ none
other m m' id r j e ne n = elim (Bool-cases (id == j)) [
  | inl q ↦ absurd (ne ((==_iff id j).0 q))
  | inr q ↦ ground (arith, (get-insert m m' id r j e).1)
]

-- No other call holds the id that a call registers.
clash :
    (m : Machine) (i j id k place : ℕ)
    → m.opens i ≡ allocated id
    → set_open m.opens i (registered id place) j ≡ allocated k
    → ((i j id : ℕ) → m.opens i ≡ allocated id → m.opens j ≡ allocated id → i ≡ j)
    → id ≢ k
clash m i j id k place h l apart q = elim (Bool-cases (i == j)) [
  | inl e ↦ absurd (ground (arith, rw e at l))
  | inr e ↦ absurd (ground (arith, apart i j id h ((rw e at l) ∙ ap allocated (sym q))))
]

-- The registration of a call's id.
pub registers_step :
    (role : Role) (m : Machine) (i id : ℕ) (r : StreamRegistry)
    → let s = m.session in
      let place = length s.streams in
      m.opens i ≡ allocated id
      → insert s.registry id place ≡ ok r
      → Inv role m
      → Inv role (moves_on m i (record (stored s id) { registry = r }) (registered id place))
registers_step role m i id r h e v =
    let s = m.session in
    let place = length s.streams in
    let x = Inner.new id local s.config in
    let mine = v.held i id h in
    let others =
      λ (j : ℕ) (ne : id ≢ j) (n : get s.registry j ≡ none). other s.registry r id place j e ne n in
    let back = without_id m.opens i (registered id place) (λ j q. absurd (ground (arith, q))) in
    record {
      sound = record {
        distinct = insert-Distinct s.registry r id place e v.sound.distinct;
        placed =
            insert-Placed s.registry r (s.streams ++ (x ∷ [])) id place e
              (append-Placed s.registry s.streams x v.sound.placed)
              (x, stream_at-last s.streams x, new-id id local s.config);
      };
      same_role = v.same_role;
      parity = v.parity;
      ahead = λ j o le. others j (λ q. absurd (omega (arith, q, le, mine.behind))) (v.ahead j o le);
      held = λ j k l.
          let l' = back j k l in
          let f = v.held j k l' in
          record {
            own = f.own;
            behind = f.behind;
            new = others k (λ q. clash m i j id k place h l v.apart q) f.new;
          };
      apart = λ j k l p q. v.apart j k l (back j l p) (back k l q);
    }
