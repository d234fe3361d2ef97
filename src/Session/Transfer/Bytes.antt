-- ===== src/Session/Transfer/Bytes.antt =====
-- The bytes that writes have taken arrive on the other side and are read there (poll_write and
-- poll_read of src/stream/inner.rs, the codec, and the loop of src/session/reader.rs).
use net_mux.Base.{
  ℕ, suc, ◌≤◌, ◌<◌, ◌≡◌, ◌∙◌, refl, sym, subst, ap, Bool, true, false, Option, some, All, List, [],
  ◌∷◌, ◌++◌, ◌==◌, arith, length, if◌then◌else◌, map, append-nil, append_assoc, concat, take, sum,
  IsU32, bit_and,
}
use net_mux.Error.{ok}
use net_mux.Protocol.Frame.{Bitflags, Flags, Frame, data_of, flags_syn, flags_fin, flags_rst}
use net_mux.Protocol.Codec.{absolute_max_payload, encode_all, decode_all}
use net_mux.Protocol.Codec
use net_mux.Protocol.Codec.RoundTrip.{IsFrame, new-IsCodec}
use net_mux.Protocol.Codec.Batch.{decode_all-encode_all}
use net_mux.Flow.Window.{Gaps}
use net_mux.Stream.Channel.{Wires}
use net_mux.Stream.Recv.Fifo.{contents}
use net_mux.Stream.Inner.{StreamInner, can_recv}
use net_mux.Session.Manager.{get}
use net_mux.Session.Inner.{SessionInner, stream_at}
use net_mux.Session.Writer.{Answer, takes_all, new_sink}
use net_mux.Session.Writer
use net_mux.Session.Writer.Delivery.{Calm, CalmTurn, run-decode_all}
use net_mux.Session.Reader.{frame, Input, turn, run, dispatch, receive, with_wires}
use net_mux.Session.Reader.Delivery.{handle_data_known, received, updated}
use net_mux.Session.Transfer.{writes_all}
use net_mux.Session.Transfer.Reads.{reads_all, reads_all_moves}
use net_mux.Session.Transfer.Sent.{frames, writes_all_sends, writes_all-IsFrame}

module _ (b : Bitflags) where
  plain : (f : Flags) → (bit_and 0 f.bits == f.bits) ≡ false → b.contains b.empty f ≡ false
  plain f e = rw (b.contains_bits b.empty f, b.empty_bits) e

  -- A data frame without flags goes behind what waits on its stream, and leaves it able to receive.
  plain_received :
      (x : StreamInner) (w : Wires) (payload : List ℕ)
      → can_recv x ≡ true
      → let r = receive b x w b.empty payload in
        (r.1 ≡ ok tt) × (can_recv r.0.0 ≡ true) × (contents r.0.0.recv ≡ contents x.recv ++ payload)
  unfolding can_recv
  plain_received x w payload live =
      let (done, got, acked, half, torn, quiet') = received b x w b.empty payload live in
      (done, ground (arith, half, torn, plain flags_fin refl, plain flags_rst refl), got)

  plain_turn :
      (s : SessionInner) (id place : ℕ) (x : StreamInner) (payload : List ℕ)
      → 0 < id
      → get s.registry id ≡ some place
      → stream_at s.streams place ≡ some x
      → can_recv x ≡ true
      → let r = receive b x s.wires b.empty payload in
        turn b s (frame (data_of id b.empty payload)) ≡ (with_wires s place r.0, true)
  unfolding turn dispatch
  plain_turn s id place x payload pos found at live =
      let known =
        handle_data_known b s id place x b.empty payload pos (plain flags_syn refl) found at in
      let (done, still, got) = plain_received x s.wires payload live in
      rw (turn, dispatch, known, done, dispatch, known) refl

  -- A turn after which the loop goes on.
  run_on :
      (s t : SessionInner) (i : Input) (is : List Input)
      → s.shutdown ≡ false
      → turn b s i ≡ (t, true)
      → run b s (i ∷ is) ≡ run b t is
  unfolding run
  run_on s t i is live e = rw e (go s.shutdown live)
    where
      go : (d : Bool) → d ≡ false → (if d then s else run b t is) ≡ run b t is
      go true h = absurd (ground arith)
      go false h = refl

  -- The reader's loop on such frames.
  run_receives :
      (chunks : List (List ℕ)) (s : SessionInner) (id place : ℕ) (x : StreamInner)
      → 0 < id
      → s.shutdown ≡ false
      → get s.registry id ≡ some place
      → stream_at s.streams place ≡ some x
      → can_recv x ≡ true
      → let t = run b s (map frame (frames b id chunks)) in
        (y : StreamInner) × (stream_at t.streams place ≡ some y)
        × (contents y.recv ≡ contents x.recv ++ concat chunks)
        × (can_recv y ≡ true)
  unfolding run
  run_receives [] s id place x pos live found at open' = (x, at, sym (append-nil _), open')
  run_receives (c ∷ cs) s id place x pos live found at open' =
      let r = receive b x s.wires b.empty c in
      let t = with_wires s place r.0 in
      let y = r.0.0 in
      let (done, still, got) = plain_received x s.wires c open' in
      let next =
        run_receives cs t id place y pos live found (updated s.streams place x y at) still in
      let (z, here, all, open'') = next in
      rw
        (run_on s t _ (map frame (frames b id cs)) live
          (plain_turn s id place x c pos found at open'))
        (
          z,
          here,
          all ∙ (ap (λ l. l ++ concat cs) got ∙ append_assoc (contents x.recv) c (concat cs)),
          open'',
        )

  -- One side writes buffer after buffer to a stream, with whatever its session does to the
  -- send window meanwhile, into an empty queue; its frame size is within the codec's ceiling. Then the
  -- codec of its writer encodes all that is queued, a decoding loop gets the frames back, and when the
  -- other side's reader, on a session that is not shut down, meets them for a registered stream that
  -- may receive, what waits there has grown by the bytes that the writes have taken, in order, and it
  -- may still receive.
  writes_arrive :
      (ws : List (Gaps × List ℕ)) (x y : StreamInner) (w : Wires) (s : SessionInner) (place : ℕ)
      → w.out_tx.queue ≡ []
      → 0 < x.id
      → IsU32 x.id
      → x.config.max_frame_size ≤ absolute_max_payload
      → s.shutdown ≡ false
      → get s.registry x.id ≡ some place
      → stream_at s.streams place ≡ some y
      → can_recv y ≡ true
      → let sent = writes_all b ws x w in
        let c = Codec.new x.config.max_frame_size in
        let fs = sent.0.1.out_tx.queue in
        let bytes = (encode_all b c fs []).0 in
        let t = run b s (map frame fs) in
        (decode_all b (suc (length bytes)) c bytes ≡ some ([], fs, ok tt))
        × ((z : StreamInner) × (stream_at t.streams place ≡ some z)
            × (contents z.recv ≡ contents y.recv ++ concat sent.1)
            × (can_recv z ≡ true))
  writes_arrive ws x y w s place empty pos i small live found at open' =
      let c = Codec.new x.config.max_frame_size in
      let chunks = (writes_all b ws x w).1 in
      let queued = writes_all_sends b ws x w ∙ ap (λ q. q ++ frames b x.id chunks) empty in
      let carried = writes_all-IsFrame b ws x w i small in
      rw queued (
        (decode_all-encode_all b c (frames b x.id chunks) (new-IsCodec x.config.max_frame_size)
            carried).1,
        run_receives chunks s x.id place y pos live found at open',
      )

  writes_carried :
      (ws : List (Gaps × List ℕ)) (x : StreamInner) (w : Wires)
      → w.out_tx.queue ≡ []
      → IsU32 x.id
      → x.config.max_frame_size ≤ absolute_max_payload
      → let sent = writes_all b ws x w in
        (sent.0.1.out_tx.queue ≡ frames b x.id sent.1)
        × All (IsFrame (Codec.new x.config.max_frame_size)) sent.0.1.out_tx.queue
  writes_carried ws x w empty i small =
      let chunks = (writes_all b ws x w).1 in
      let queued = writes_all_sends b ws x w ∙ ap (λ q. q ++ frames b x.id chunks) empty in
      (queued, rw queued (writes_all-IsFrame b ws x w i small))

  receives_unreset : (x : StreamInner) → can_recv x ≡ true → x.state.reset ≡ false
  unfolding can_recv
  receives_unreset x e = ground arith

  -- All the way. One side, with an empty queue, writes buffer after buffer to a stream, with whatever
  -- its session does to the send window meanwhile; its frame size is within the codec's ceiling. Then
  -- its writer task puts what is queued on a connection that takes everything, however its loop and
  -- its drain share the work, and the decoding loop of a peer with the same limit gets the frames
  -- back. The reader of that peer, on a session that is not shut down, meets them for a registered
  -- stream that may receive; and then reads of that stream, one after the other and with any room,
  -- return what waited there before and behind it the bytes that the writes have taken, in order, as
  -- many as the reads have room for.
  pub writes_are_read :
      (ws : List (Gaps × List ℕ)) (turns : List (Option Answer × Answer))
      (ready : ℕ → Option Answer) (rooms : List ℕ) (p s : SessionInner) (x y : StreamInner)
      (place : ℕ)
      → p.wires.out_tx.queue ≡ []
      → x.config ≡ p.config
      → p.config.max_frame_size ≤ absolute_max_payload
      → 0 < x.id
      → IsU32 x.id
      → All CalmTurn turns
      → ((i : ℕ) → Calm (ready i))
      → s.shutdown ≡ false
      → get s.registry x.id ≡ some place
      → stream_at s.streams place ≡ some y
      → can_recv y ≡ true
      → let sent = writes_all b ws x p.wires in
        let q = record p { wires = sent.0.1 } in
        let bytes = (Writer.run b turns ready takes_all (q, new_sink q)).written in
        (fs : List Frame) × (decode_all b
            (suc (length bytes))
            (Codec.new p.config.max_frame_size)
            bytes
          ≡ some ([], fs, ok tt))
        × (let t = run b s (map frame fs) in
            (z : StreamInner) × (stream_at t.streams place ≡ some z)
            × (concat (reads_all b rooms z t.wires).1
                ≡ take (sum rooms) (contents y.recv ++ concat sent.1)))
  writes_are_read ws turns ready rooms p s x y place empty same small pos i calm calm' live found at
        open' =
      let sent = writes_all b ws x p.wires in
      let fs = sent.0.1.out_tx.queue in
      let q = record p { wires = sent.0.1 } in
      let (queued, carried) = writes_carried ws x p.wires empty i (rw same small) in
      let fits = subst (λ c. All (IsFrame (Codec.new c.max_frame_size)) fs) same carried in
      let (z, here, all, open'') = run_receives sent.1 s x.id place y pos live found at open' in
      let t = run b s (map frame (frames b x.id sent.1)) in
      let (got, _) = reads_all_moves b rooms z t.wires (receives_unreset z open'') in
      (
        fs,
        run-decode_all b turns ready q calm calm' fits,
        rw queued (z, here, got ∙ ap (take (sum rooms)) all),
      )
