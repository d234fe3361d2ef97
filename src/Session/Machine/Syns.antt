-- ===== src/Session/Machine/Syns.antt =====
-- The SYN frames of a session under any interleaving of its tasks, its users and its calls of
-- Session::open (src/session/mod.rs).
use mathlib.Core.List.Sublistᴰ
use net_mux.Base.{
  ℕ, ◌+◌, ◌≡◌, refl, true, some, List, [], ◌∷◌, ◌++◌, arith, append_assoc, All, inl, inr,
}
use net_mux.Error.{code_timeout, normal}
use net_mux.Config.{Config}
use net_mux.Util.Id.{Role, StreamIdAllocator, owns}
use net_mux.Util.Id
use net_mux.Util.Id.Alloc.{allocate_lem, owns-first_id}
use net_mux.Protocol.Frame.{Bitflags, Frame, syn, ping}
use net_mux.Protocol.Codec
use net_mux.Protocol.Codec.{FrameCodec}
use net_mux.Protocol.Codec.Batch.{spelling}
use net_mux.Session.Inner.{SessionInner, send_frame, new as new_session}
use net_mux.Session.Announce.{
  is_go_away, syn_of, syns, syns-append, SpendsIn, Spends-refl, send_frame-Spends,
  initiate_shutdown-Spends,
}
use net_mux.Session.Announce.Streams.{step-Spends}
use net_mux.Session.Reader.Announce.{turn-Spends}
use net_mux.Session.Writer.{Sink}
use net_mux.Session.Machine.{
  Machine, Open, outside, checked, allocated, registered, announced, set_open, moves_on, in_session,
  Step, reads, writes, drains, flushes, writer_ends, removes, pings, takes_pongs, times_out, uses,
  accepts, closes, joins, open_checks, open_exhausted, open_allocates, open_clashes, open_registers,
  open_refused, open_announces, open_ends, Reach, start, later,
}
use net_mux.Session.Machine.Keeps.{shutdown-Safe}
use net_mux.Session.Machine.Turns.{
  turn-Safe, writer_turn-Safe, closer_turn-Safe, poll_accept-Safe, finish_close-Safe,
  finish_open-Safe,
}
use net_mux.Session.Machine.Sent.{extend, sent_of, Reach-Spelt}
use net_mux.Session.Machine.Says.{
  queued_syns, Says, turn-Says, feed-Says, flush-Says, closer_turn-Spends, finish_close-Spends,
  poll_accept-Spends, finish_open-Spends,
}
use net_mux.Session.Machine.Apart.{
  holds, Distinct, Apart, Apart-less, Apart-allocates, Apart-announces, moves_less,
}

module _ (b : Bitflags) where
  -- What the frames that the sink has accepted and the queued ones announce.
  pub record Said (role : Role) (sent : List Frame) (m : Machine) : Type 0 where
    pub apart : Apart role m.session.id_alloc.next (syns sent ++ queued_syns m.session) m.opens

  module _ (role : Role) (sent : List Frame) (m : Machine) (v : Said role sent m) where
    -- The sink and the allocator stay, no SYN is queued, and no call holds more than it did.
    quietly :
        (s : SessionInner) (opens : ℕ → Open)
        → queued_syns s ≡ queued_syns m.session
        → s.id_alloc ≡ m.session.id_alloc
        → ((i id : ℕ) → holds (opens i) ≡ some id → holds (m.opens i) ≡ some id)
        → Said role sent (record m { session = s; opens = opens })
    quietly s opens same alloc less =
        let said = syns sent ++ queued_syns m.session in
        record {
          apart =
              rw (same, alloc)
                (Apart-less role m.session.id_alloc.next said m.opens v.apart said opens
                  (Sublistᴰ.refl said) less);
        }

    in_place :
        (s : SessionInner)
        → SpendsIn m.session s
        → s.id_alloc ≡ m.session.id_alloc
        → Said role sent (in_session m s)
    in_place s h alloc = quietly s m.opens h.same_syns alloc (λ i id e. e)

    -- A call of `open` moves on.
    moves :
        (i : ℕ) (s : SessionInner) (p : Open)
        → SpendsIn m.session s
        → s.id_alloc ≡ m.session.id_alloc
        → ((id : ℕ) → holds p ≡ some id → holds (m.opens i) ≡ some id)
        → Said role sent (moves_on m i s p)
    moves i s p h alloc less =
        let said = syns sent ++ queued_syns m.session in
        quietly s (set_open m.opens i p) h.same_syns alloc
          (moves_less role m.session.id_alloc.next said m.opens v.apart i p less)

    writer :
        (tl : SessionInner × Sink) (h : Says b (m.session, m.sink) tl)
        → tl.0.id_alloc ≡ m.session.id_alloc
        → Said role (sent ++ h.sent) (record m { session = tl.0; sink = tl.1 })
    writer tl h alloc =
        let said = syns sent ++ queued_syns m.session in
        let part = Sublistᴰ.append (Sublistᴰ.refl (syns sent)) h.order in
        record {
          apart =
              rw (alloc, syns-append sent h.sent, append_assoc (syns sent) (syns h.sent))
                (Apart-less role m.session.id_alloc.next said m.opens v.apart _ m.opens part
                  (λ i id e. e));
        }

    allocates :
        (i : ℕ)
        → let s = m.session in
          Said role sent (
            moves_on m i
              (record s { id_alloc = record { next = s.id_alloc.next + 2 } })
              (allocated s.id_alloc.next))
    allocates i = record {
      apart = Apart-allocates role _ (syns sent ++ queued_syns m.session) m.opens v.apart i;
    }

    announces :
        (i id place : ℕ)
        → holds (m.opens i) ≡ some id
        → m.session.wires.out_tx.alive ≡ true
        → Said role sent (moves_on m i (send_frame m.session (syn id)) (announced id place))
    unfolding syns syn_of
    announces i id place has alive =
        let said = syns sent ++ queued_syns m.session in
        let queued : queued_syns (send_frame m.session (syn id))
            ≡ queued_syns m.session ++ id ∷ [] =
          rw alive (syns-append m.session.wires.out_tx.queue (syn id ∷ [])) in
        record {
          apart =
              rw (queued, ← append_assoc (syns sent) (queued_syns m.session) (id ∷ []))
                (Apart-announces role _ said m.opens v.apart i id place has);
        }

  Step-Said :
      (role : Role) (m n : Machine) (st : Step b m n) (sent : List Frame)
      → Said role sent m
      → Said role (extend b st sent) n
  unfolding extend is_go_away syn_of
  Step-Said role m n (reads i e) sent v = rw e (
      in_place role sent m v _ (turn-Spends b m.session i)
        (turn-Safe b m.session i).keeps.same_alloc)
  Step-Said role m n (writes a e) sent v = rw e (
      writer role sent m v _ (turn-Says b a m.session m.sink)
        (writer_turn-Safe b a m.session m.sink).keeps.same_alloc)
  Step-Said role m n (drains a f q x l e) sent v =
      rw e (writer role sent m v _ (feed-Says b a m.session m.sink f q l) refl)
  Step-Said role m n (flushes a x l e) sent v =
      rw e (writer role sent m v _ (flush-Says b a m.session m.sink) refl)
  Step-Said role m n (writer_ends e) sent v =
      rw e (quietly role sent m v _ m.opens refl refl (λ i id h. h))
  Step-Said role m n (removes e) sent v = rw e (
      in_place role sent m v _ (closer_turn-Spends m.session)
        (closer_turn-Safe m.session).keeps.same_alloc)
  Step-Said role m n (pings k e) sent v =
      rw e (in_place role sent m v _ (send_frame-Spends m.session (ping b k) (refl, refl)) refl)
  Step-Said role m n (takes_pongs k g e) sent v =
      rw e (quietly role sent m v _ m.opens refl refl (λ i id h. h))
  Step-Said role m n (times_out e) sent v = rw e (
      in_place role sent m v _ (initiate_shutdown-Spends m.session code_timeout)
        (shutdown-Safe m.session code_timeout).keeps.same_alloc)
  Step-Said role m n (uses p x a at e) sent v =
      let h = step-Spends b m.session.is_closing a x m.session.wires in
      rw e (quietly role sent m v _ m.opens h.same_syns refl (λ i id q. q))
  Step-Said role m n (accepts s e) sent v = rw e (
      in_place role sent m v _ (poll_accept-Spends s m.session)
        (poll_accept-Safe s m.session).keeps.same_alloc)
  Step-Said role m n (closes e) sent v = rw e (
      in_place role sent m v _ (initiate_shutdown-Spends m.session normal)
        (shutdown-Safe m.session normal).keeps.same_alloc)
  Step-Said role m n (joins e) sent v = rw e (
      in_place role sent m v _ (finish_close-Spends m.session)
        (finish_close-Safe m.session).keeps.same_alloc)
  Step-Said role m n (open_checks i h may e) sent v =
      rw e
        (moves role sent m v i _ checked (Spends-refl _ _) refl (λ j q. absurd (ground (arith, q))))
  Step-Said role m n (open_exhausted i h x e) sent v =
      rw e
        (moves role sent m v i _ outside (Spends-refl _ _) refl (λ j q. absurd (ground (arith, q))))
  Step-Said role m n (open_allocates i id h x e) sent v = elim (allocate_lem m.session.id_alloc) [
    | inl (full, a) ↦ absurd (ground (arith, a, x))
    | inr (room, a) ↦
        let same : id ≡ m.session.id_alloc.next = ground (arith, a, x) in
        rw (e, a, same) (allocates role sent m v i)
  ]
  Step-Said role m n (open_clashes i id f h x e) sent v =
      rw e
        (moves role sent m v i _ outside (Spends-refl _ _) refl (λ j q. absurd (ground (arith, q))))
  Step-Said role m n (open_registers i id r h x e) sent v =
      rw e (moves role sent m v i _ (registered id _) (Spends-refl _ _) refl (λ j q. rw h q))
  Step-Said role m n (open_refused i id p h x e) sent v =
      rw e
        (moves role sent m v i _ outside (Spends-refl _ _) refl (λ j q. absurd (ground (arith, q))))
  Step-Said role m n (open_announces i id p h x e) sent v =
      rw e (announces role sent m v i id p (rw h) x)
  Step-Said role m n (open_ends i id p w h e) sent v = rw e (
      moves role sent m v i _ outside (finish_open-Spends m.session id p w)
        (finish_open-Safe m.session id p w).keeps.same_alloc (λ j q. absurd (ground (arith, q))))

  pub Reach-Said :
      (config : Config) (role : Role) {m : Machine} (r : Reach b config role m)
      → Said role (sent_of b r) m
  unfolding sent_of new_session Id.new syns
  Reach-Said config role start = record {
    apart = record {
      parity = owns-first_id role;
      ours = tt;
      old = tt;
      once = tt;
      mine = λ i id h. absurd (ground (arith, h));
      one_each = λ i j id h l. absurd (ground (arith, h));
    };
  }
  Reach-Said config role (later {m} {n} r s) =
      Step-Said role m n s (sent_of b r) (Reach-Said config role r)

  -- In every state that the tasks of a session, its users, its peer and any number of calls of `open`
  -- can reach together, what the writer has put on the connection, with what it still holds for it,
  -- is the encoding of whole frames; and in these and the queued frames together each SYN has an id
  -- of the session's own parity, and no id has two.
  pub Reach-syns :
      (config : Config) (role : Role) {m : Machine}
      → Reach b config role m
      → (sent : List Frame) × (m.sink.written ++ m.sink.buffer
          ≡ spelling b (Codec.new config.max_frame_size) sent)
        × All (λ id. owns role id ≡ true) (syns (sent ++ m.session.wires.out_tx.queue))
        × Distinct (syns (sent ++ m.session.wires.out_tx.queue))
  Reach-syns config role {m} r =
      let sent = sent_of b r in
      let v = Reach-Said config role r in
      let whole = syns-append sent m.session.wires.out_tx.queue in
      (sent, (Reach-Spelt b config role r).spelt, rw whole v.apart.ours, rw whole v.apart.once)
