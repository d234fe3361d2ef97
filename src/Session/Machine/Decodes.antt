-- ===== src/Session/Machine/Decodes.antt =====
-- A session whose reader gets what a decoder yields puts on its connection what a decoder accepts, under
-- any interleaving (src/session and src/protocol/codec.rs).
use net_mux.Base.{ℕ, suc, ◌≤◌, ◌≡◌, refl, some, List, arith, All, All-map, IsU32, length, inl, inr}
use net_mux.Error.{code_timeout, normal, as_u32, ok}
use net_mux.Config.{Config}
use net_mux.Util.Id.{Role, client, server, StreamIdAllocator, first_id}
use net_mux.Util.Id
use net_mux.Util.Id.Alloc.{allocate_lem}
use net_mux.Protocol.Frame.{Bitflags, Frame, syn, ping}
use net_mux.Protocol.Codec
use net_mux.Protocol.Codec.{FrameCodec, absolute_max_payload, decode_all}
use net_mux.Protocol.Codec.RoundTrip.{IsFrame, new-IsCodec}
use net_mux.Stream.Inner.{StreamInner}
use net_mux.Stream.Life.{Act}
use net_mux.Stream.Life
use net_mux.Session.Inner.{SessionInner, stream_at, new as new_session}
use net_mux.Session.Carried.{
  IsId, IsSendable, codec_of, IsCarried, IsCode, bare-IsSendable, update_at-fit, stream_at-Fits,
  send_frame-IsCarried, initiate_shutdown-IsCarried,
}
use net_mux.Session.Carried.Streams.{step-Carried, step-Fits}
use net_mux.Session.Reader.{with_wires}
use net_mux.Session.Reader.Carried.{turn-IsCarried}
use net_mux.Session.Writer.Failure.{front_decodes}
use net_mux.Session.Machine.Sent.{extend, sent_of, Reach-Spelt}
use net_mux.Session.Machine.Says.{turn-Says, feed-Says, flush-Says}
use net_mux.Session.Machine.Turns.{
  turn-Safe, writer_turn-Safe, closer_turn-Safe, poll_accept-Safe, finish_close-Safe,
  finish_open-Safe,
}
use net_mux.Session.Machine.Keeps.{shutdown-Safe}
use net_mux.Session.Machine.{
  Machine, outside, checked, allocated, registered, announced, Step, reads, writes, drains, flushes,
  writer_ends, removes, pings, takes_pongs, times_out, uses, accepts, closes, joins, open_checks,
  open_exhausted, open_allocates, open_clashes, open_registers, open_refused, open_announces,
  open_ends,
}
use net_mux.Session.Machine.Apart.{some-id}
use net_mux.Session.Machine.Carried.{
  same-IsCarried, closer_turn-IsCarried, finish_close-IsCarried, poll_accept-IsCarried,
  finish_open-IsCarried, writer_turn-IsCarried, popped-IsCarried,
}
use net_mux.Session.Machine.Proper.{
  IsProper, Runs, begins, goes_on, Runs-Reach, Fit, in_place, moves, writer, allocates,
  stored-IsCarried, wide,
}

module _ (b : Bitflags) (config : Config)
    (small : config.max_frame_size ≤ absolute_max_payload) where
  ping-IsSendable : (nonce : ℕ) → IsU32 nonce → IsSendable (codec_of config) (ping b nonce)
  ping-IsSendable nonce i = ((rw b.empty_bits (omega arith), i), tt)

  with_wires-IsCarried :
      (s : SessionInner) (place : ℕ) (x : StreamInner) (a : Act)
      → stream_at s.streams place ≡ some x
      → IsCarried config s
      → IsCarried config (with_wires s place (Life.step b a (x, s.wires)))
  with_wires-IsCarried s place x a at v =
      let h = stream_at-Fits config s.streams place at v.fit in
      let h' = step-Fits b config small a x s.wires h in
      record {
        queued = step-Carried b config small a x s.wires h v.queued;
        fit = update_at-fit config s.streams place _ (λ y k. h') v.fit;
        same = v.same;
      }

  Step-Fit :
      (m n : Machine) (st : Step b m n) (sent : List Frame)
      → IsProper b config st
      → Fit b config sent m
      → Fit b config (extend b st sent) n
  unfolding as_u32 extend
  Step-Fit m n (reads i e) sent h v = rw e (
      in_place b config sent m v _ (turn-IsCarried b config m.session i h v.carried)
        (turn-Safe b m.session i).keeps.same_alloc)
  Step-Fit m n (writes a e) sent h v = rw e (
      writer b config sent m v _ (turn-Says b a m.session m.sink)
        (writer_turn-IsCarried config b a m.session m.sink v.carried)
        (writer_turn-Safe b a m.session m.sink).keeps.same_alloc)
  Step-Fit m n (drains a f q x l e) sent h v = rw e (
      writer b config sent m v _ (feed-Says b a m.session m.sink f q l)
        (popped-IsCarried config m.session f q l v.carried) refl)
  Step-Fit m n (flushes a x l e) sent h v =
      rw e (writer b config sent m v _ (flush-Says b a m.session m.sink) v.carried refl)
  Step-Fit m n (writer_ends e) sent h v =
      let c = v.carried in
      rw e (
        in_place b config sent m v _ (record { queued = c.queued; fit = c.fit; same = c.same })
          refl)
  Step-Fit m n (removes e) sent h v = rw e (
      in_place b config sent m v _ (closer_turn-IsCarried config m.session v.carried)
        (closer_turn-Safe m.session).keeps.same_alloc)
  Step-Fit m n (pings k e) sent h v =
      let f = ping-IsSendable k h in
      rw e (
        in_place b config sent m v _ (send_frame-IsCarried config m.session (ping b k) f v.carried)
          refl)
  Step-Fit m n (takes_pongs k g e) sent h v = rw e (
      in_place b config sent m v _ (same-IsCarried config m.session _ refl refl refl v.carried)
        refl)
  Step-Fit m n (times_out e) sent h v =
      let code : IsCode code_timeout = (tt, omega arith) in
      rw e (
        in_place b config sent m v _
          (initiate_shutdown-IsCarried config m.session code_timeout code v.carried)
          (shutdown-Safe m.session code_timeout).keeps.same_alloc)
  Step-Fit m n (uses p x a at e) sent h v =
      rw e (in_place b config sent m v _ (with_wires-IsCarried m.session p x a at v.carried) refl)
  Step-Fit m n (accepts s e) sent h v = rw e (
      in_place b config sent m v _ (poll_accept-IsCarried config s m.session v.carried)
        (poll_accept-Safe s m.session).keeps.same_alloc)
  Step-Fit m n (closes e) sent h v =
      let code : IsCode normal = (tt, omega arith) in
      rw e (
        in_place b config sent m v _
          (initiate_shutdown-IsCarried config m.session normal code v.carried)
          (shutdown-Safe m.session normal).keeps.same_alloc)
  Step-Fit m n (joins e) sent h v = rw e (
      in_place b config sent m v _ (finish_close-IsCarried config m.session v.carried)
        (finish_close-Safe m.session).keeps.same_alloc)
  Step-Fit m n (open_checks i at may e) sent h v =
      rw e (moves b config sent m v i _ checked v.carried refl (λ j q. absurd (ground (arith, q))))
  Step-Fit m n (open_exhausted i at x e) sent h v =
      rw e (moves b config sent m v i _ outside v.carried refl (λ j q. absurd (ground (arith, q))))
  Step-Fit m n (open_allocates i id at x e) sent h v = elim (allocate_lem m.session.id_alloc) [
    | inl (full, a) ↦ absurd (ground (arith, a, x))
    | inr (room, a) ↦
        let same : id ≡ m.session.id_alloc.next = ground (arith, a, x) in
        rw (e, a, same) (allocates b config sent m v i room)
  ]
  Step-Fit m n (open_clashes i id f at x e) sent h v =
      let u32 = wide b config sent m v i (allocated id) id at refl in
      rw e (
        moves b config sent m v i _ outside (stored-IsCarried b config sent m v id u32) refl
          (λ j q. absurd (ground (arith, q))))
  Step-Fit m n (open_registers i id r at x e) sent h v =
      let u32 = wide b config sent m v i (allocated id) id at refl in
      let c = stored-IsCarried b config sent m v id u32 in
      rw e (
        moves b config sent m v i _ (registered id _)
          (record { queued = c.queued; fit = c.fit; same = c.same }) refl
          (λ j q. rw (← some-id q) u32))
  Step-Fit m n (open_refused i id p at x e) sent h v = rw e (
      moves b config sent m v i _ outside
        (same-IsCarried config m.session _ refl refl refl v.carried) refl
        (λ j q. absurd (ground (arith, q))))
  Step-Fit m n (open_announces i id p at x e) sent h v =
      let u32 = wide b config sent m v i (registered id p) id at refl in
      let f = bare-IsSendable (codec_of config) id 1 u32 (omega arith) in
      rw e (
        moves b config sent m v i _ (announced id p)
          (send_frame-IsCarried config m.session (syn id) f v.carried) refl
          (λ j q. rw (← some-id q) u32))
  Step-Fit m n (open_ends i id p w at e) sent h v =
      let u32 = wide b config sent m v i (announced id p) id at refl in
      rw e (
        moves b config sent m v i _ outside
          (finish_open-IsCarried config m.session id p w u32 v.carried)
          (finish_open-Safe m.session id p w).keeps.same_alloc (λ j q. absurd (ground (arith, q))))

  first_id-IsId : (role : Role) → IsId (first_id role)
  unfolding first_id
  first_id-IsId client = (omega arith, omega arith)
  first_id-IsId server = (omega arith, omega arith)

  pub Runs-Fit :
      (role : Role) {m : Machine} (r : Runs b config role m)
      → Fit b config (sent_of b (Runs-Reach b r)) m
  unfolding sent_of Runs-Reach new_session Id.new
  Runs-Fit role begins = record {
    carried = record { queued = tt; fit = tt; same = refl };
    next = first_id-IsId role;
    held = λ i id h. absurd (ground (arith, h));
    good = tt;
  }
  Runs-Fit role (goes_on {m} {n} r st proper) =
      Step-Fit m n st (sent_of b (Runs-Reach b r)) proper (Runs-Fit role r)

  pub carries :
      (fs : List Frame) → All (IsSendable (codec_of config)) fs → All (IsFrame (codec_of config)) fs
  carries fs v = All-map (IsSendable (codec_of config)) fs (λ f h. h.0) v

  -- A session with a frame size within the codec's ceiling, whose reader gets only frames that came
  -- through a decoder, and whose nonces are u32s. In every state that its tasks, its users and any
  -- number of calls of `open` can reach together, its codec can carry each frame that waits for the
  -- writer, so that the writer cannot be refused; and the decoding loop of a peer with the same limit
  -- meets no error in what the writer has put on the connection so far.
  pub Runs-decodes :
      (role : Role) {m : Machine}
      → Runs b config role m
      → All (IsFrame (Codec.new config.max_frame_size)) m.session.wires.out_tx.queue
        × ((rest : List ℕ) × (got : List Frame) × (decode_all b
                (suc (length m.sink.written))
                (Codec.new config.max_frame_size)
                m.sink.written
              ≡ some (rest, got, ok tt)))
  Runs-decodes role {m} r =
      let v = Runs-Fit role r in
      let c = codec_of config in
      let (rest, got, some_of, e) =
        front_decodes b c (sent_of b (Runs-Reach b r)) m.sink.written m.sink.buffer
          (new-IsCodec config.max_frame_size) (carries _ v.good)
          (Reach-Spelt b config role (Runs-Reach b r)).spelt in
      (carries _ v.carried.queued, (rest, got, e))
