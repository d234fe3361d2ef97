-- ===== src/Session/Machine/Heard.antt =====
-- The frames that the reader of a session (src/session/reader.rs) has dealt with so far, for each run
-- of the machine: an id of the peer is registered only behind its SYN.
use net_mux.Base.{
  ℕ, ◌≡◌, ◌≢◌, refl, Bool, true, false, Option, none, List, [], ◌∷◌, ◌++◌, ◌==◌, arith, All,
  All-left, All-right, Bool-cases, List-cases, ==_iff, inl, inr, length, append-nil,
}
use net_mux.Error.{ok, err, internal_error, code_timeout, normal, Result-cases}
use net_mux.Config.{Config}
use net_mux.Util.Id.{Role, owns}
use net_mux.Protocol.Frame.{Bitflags, Frame}
use net_mux.Session.Manager.{get, insert}
use net_mux.Session.Manager.Map.{get-insert}
use net_mux.Session.Inner.{SessionInner, new as new_session}
use net_mux.Session.Announce.{syns, syns-append, syn_of}
use net_mux.Session.Api.{
  Waited, waited, elapsed, finish_open, poll_accept, finish_close, closer_turn,
}
use net_mux.Session.Reader.{closed, failed, frame}
use net_mux.Session.Reader.News.{News, News-refl, News-remove, shutdown-News, turn-News}
use net_mux.Session.Writer.{Sink, Answer, write_one}
use net_mux.Session.Writer
use net_mux.Session.Writer.Cases.{popped, turn_stops, turn_waits, turn_writes, turn_fails}
use net_mux.Session.Machine.{
  Machine, Step, reads, writes, drains, flushes, writer_ends, removes, pings, takes_pongs,
  times_out, uses, accepts, closes, joins, open_checks, open_exhausted, open_allocates,
  open_clashes, open_registers, open_refused, open_announces, open_ends, Reach, start, later,
}
use net_mux.Session.Machine.Inv.{Inv}
use net_mux.Session.Machine.Ids.{Reach-Inv}

closer_turn-News : (s : SessionInner) → News [] s.registry (closer_turn s).0.registry
unfolding closer_turn
closer_turn-News s = elim (Bool-cases s.shutdown) [
  | inl e ↦ rw e (News-refl [] s.registry)
  | inr e ↦ elim (List-cases s.wires.closer_tx.queue) [
    | inl q ↦ rw (e, closer_turn, q) (News-refl [] s.registry)
    | inr (id, ids, q) ↦ rw (e, closer_turn, q) (News-remove [] s.registry id)
  ]
]

poll_accept-registry :
    (seen : Bool) (s : SessionInner) → (poll_accept seen s).0.registry ≡ s.registry
unfolding poll_accept
poll_accept-registry seen s = ground arith

finish_close-registry : (s : SessionInner) → (finish_close s).0.registry ≡ s.registry
unfolding finish_close
finish_close-registry s = ground arith

finish_open-News :
    (s : SessionInner) (id place : ℕ) (w : Waited)
    → News [] s.registry (finish_open s (id, place) w).0.registry
unfolding finish_open
finish_open-News s id place (waited (ok u)) = News-refl [] s.registry
finish_open-News s id place (waited (err e)) = News-remove [] s.registry id
finish_open-News s id place elapsed = News-remove [] s.registry id

module _ (b : Bitflags) where
  writer_turn-News :
      (a : Option Answer × Answer) (s : SessionInner) (k : Sink)
      → News [] s.registry (Writer.turn b a (s, k)).0.0.registry
  writer_turn-News a s k = elim (Bool-cases s.shutdown) [
    | inl e ↦ rw (turn_stops b a s k e) (News-refl [] s.registry)
    | inr e ↦ elim (List-cases s.wires.out_tx.queue) [
      | inl q ↦ rw (turn_waits b a s k e q) (News-refl [] s.registry)
      | inr (f, fs, q) ↦ elim (Result-cases (write_one b a k f).1) [
        | inl (u, r) ↦ rw (turn_writes b a s k f fs e q r) (News-refl [] s.registry)
        | inr (x, r) ↦
            rw (turn_fails b a s k f fs x e q r) (shutdown-News [] (popped s fs) internal_error)
      ]
    ]
  ]

  -- The frames that the reader has dealt with, behind a step.
  unfoldable pub hear : {m n : Machine} → Step b m n → List Frame → List Frame
  hear (reads (frame f) e) got = got ++ f ∷ []
  hear _ got = got

  unfoldable pub heard :
      {config : Config} {role : Role} {m : Machine} → Reach b config role m → List Frame
  heard start = []
  heard (later r s) = hear s (heard r)

  -- No id of the peer's is registered but those that have been announced.
  pub record Known (role : Role) (got : List Frame) (m : Machine) : Type 0 where
    pub new :
        (id : ℕ)
        → owns role id ≡ false
        → All (λ y. y ≢ id) (syns got)
        → get m.session.registry id ≡ none

  quietly :
      (role : Role) (got : List Frame) (m n : Machine)
      → News [] m.session.registry n.session.registry
      → Known role got m
      → Known role got n
  quietly role got m n h v = record {
    new = λ id theirs others. h.new id tt (v.new id theirs others);
  }

  same :
      (role : Role) (got : List Frame) (m n : Machine)
      → n.session.registry ≡ m.session.registry
      → Known role got m
      → Known role got n
  same role got m n e v = quietly role got m n (rw e (News-refl [] m.session.registry)) v

  hears :
      (role : Role) (got : List Frame) (m n : Machine) (f : Frame)
      → News (syn_of f) m.session.registry n.session.registry
      → Known role got m
      → Known role (got ++ f ∷ []) n
  unfolding syns
  hears role got m n f h v = record {
    new = λ id theirs others.
        let both = rw (syns-append got (f ∷ []), append-nil (syn_of f)) at others in
        h.new id (All-right (λ y. y ≢ id) (syns got) (syn_of f) both)
          (v.new id theirs (All-left (λ y. y ≢ id) (syns got) (syn_of f) both));
  }

  registers :
      (role : Role) (got : List Frame) (m n : Machine) (id r : ℕ)
      → owns role id ≡ true
      → insert m.session.registry id r ≡ ok n.session.registry
      → Known role got m
      → Known role got n
  registers role got m n id r own e v = record {
    new = λ j theirs others. elim (Bool-cases (id == j)) [
      | inl h ↦ let same = (==_iff id j).0 h in absurd (ground (arith, same))
      | inr h ↦
          let old = v.new j theirs others in
          ground (arith, (get-insert m.session.registry n.session.registry id r j e).1)
    ];
  }

  Step-Known :
      (role : Role) (m n : Machine) (st : Step b m n) (got : List Frame)
      → Inv role m
      → Known role got m
      → Known role (hear st got) n
  unfolding hear
  Step-Known role m n (reads closed e) got i v =
      rw e (quietly role got m _ (turn-News b m.session closed) v)
  Step-Known role m n (reads (failed x) e) got i v =
      rw e (quietly role got m _ (turn-News b m.session (failed x)) v)
  Step-Known role m n (reads (frame f) e) got i v =
      rw e (hears role got m _ f (turn-News b m.session (frame f)) v)
  Step-Known role m n (writes a e) got i v =
      rw e (quietly role got m _ (writer_turn-News a m.session m.sink) v)
  Step-Known role m n (drains a f q x l e) got i v = rw e (same role got m _ refl v)
  Step-Known role m n (flushes a x l e) got i v = rw e (same role got m _ refl v)
  Step-Known role m n (writer_ends e) got i v = rw e (same role got m _ refl v)
  Step-Known role m n (removes e) got i v =
      rw e (quietly role got m _ (closer_turn-News m.session) v)
  Step-Known role m n (pings k e) got i v = rw e (same role got m _ refl v)
  Step-Known role m n (takes_pongs k g e) got i v = rw e (same role got m _ refl v)
  Step-Known role m n (times_out e) got i v =
      rw e (quietly role got m _ (shutdown-News [] m.session code_timeout) v)
  Step-Known role m n (uses p x a at e) got i v = rw e (same role got m _ refl v)
  Step-Known role m n (accepts s e) got i v =
      rw e (same role got m _ (poll_accept-registry s m.session) v)
  Step-Known role m n (closes e) got i v =
      rw e (quietly role got m _ (shutdown-News [] m.session normal) v)
  Step-Known role m n (joins e) got i v =
      rw e (same role got m _ (finish_close-registry m.session) v)
  Step-Known role m n (open_checks j h may e) got i v = rw e (same role got m _ refl v)
  Step-Known role m n (open_exhausted j h x e) got i v = rw e (same role got m _ refl v)
  Step-Known role m n (open_allocates j id h x e) got i v = rw e (same role got m _ refl v)
  Step-Known role m n (open_clashes j id f h x e) got i v = rw e (same role got m _ refl v)
  Step-Known role m n (open_registers j id r h x e) got i v =
      rw e (registers role got m _ id (length m.session.streams) (i.held j id h).own x v)
  Step-Known role m n (open_refused j id p h x e) got i v =
      rw e (quietly role got m _ (News-remove [] m.session.registry id) v)
  Step-Known role m n (open_announces j id p h x e) got i v = rw e (same role got m _ refl v)
  Step-Known role m n (open_ends j id p w h e) got i v =
      rw e (quietly role got m _ (finish_open-News m.session id p w) v)

  -- Under any interleaving, an id of the peer's that is registered is one for which the reader has dealt
  -- with a SYN.
  pub Reach-Known :
      (config : Config) (role : Role) {m : Machine} (r : Reach b config role m)
      → Known role (heard r) m
  unfolding heard new_session get
  Reach-Known config role start = record { new = λ id theirs others. refl }
  Reach-Known config role (later {m} {n} r s) =
      Step-Known role m n s (heard r) (Reach-Inv b config role r) (Reach-Known config role r)
