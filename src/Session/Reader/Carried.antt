-- ===== src/Session/Reader/Carried.antt =====
-- What the reader (src/session/reader.rs) queues in answer to frames that came through a codec, its own
-- codec can carry.
use net_mux.Base.{
  ℕ, Bool, true, false, not, ◌&&◌, List, [], ◌∷◌, ◌++◌, ◌==◌, if◌then◌else◌, arith, Bool-cases,
  Option-cases, inl, inr, IsU32,
}
use net_mux.Error.{Error, normal, protocol, as_u32, Result-cases}
use net_mux.Config.{Config}
use net_mux.Protocol.Frame.{
  Frame, Flags, Bitflags, data_frame, window_update_frame, ping_frame, go_away_frame, rst, pong,
  flags_ack, flags_syn, flags_rst,
}
use net_mux.Protocol.Codec.RoundTrip.{IsFrame}
use net_mux.Stream.Channel.{Wires, send}
use net_mux.Stream.Inner.{
  StreamInner, remote, mark_acked, remote_reset, remote_fin, push_data, grant_send_credit,
}
use net_mux.Stream.Inner
use net_mux.Stream.Inner.Local.{local_reset}
use net_mux.Session.Manager.{get}
use net_mux.Session.Inner.{SessionInner, stream_at, note_peer_gone, send_frame}
use net_mux.Session.Carried.{
  IsId, Fits, Carried, codec_of, IsCarried, IsCode, bare-IsSendable, update_at-fit, stream_at-Fits,
  new-fit, send_frame-IsCarried, initiate_shutdown-IsCarried,
}
use net_mux.Session.Carried.Streams.{local_reset-Carried}
use net_mux.Session.Reader.{
  Input, closed, failed, frame, turn, dispatch, handle_data, to_stream, receive, open_remote,
  code_of,
}

-- What a decoder with the limit of the configuration can yield.
abbrev pub Comes : Config → Input → Type 0
Comes config (frame f) = IsFrame (codec_of config) f
Comes config _ = Unit {0}

code_of-IsCode : (e : Error) → IsCode (code_of e)
unfolding code_of as_u32
code_of-IsCode (protocol m) = (tt, omega arith)
code_of-IsCode _ = (tt, omega arith)

module _ (config : Config) where
  rst-IsCarried :
      (s : SessionInner) (id : ℕ)
      → IsId id
      → IsCarried config s
      → IsCarried config (send_frame s (rst id))
  rst-IsCarried s id i v =
      send_frame-IsCarried config s (rst id)
        (bare-IsSendable (codec_of config) id 8 i (omega arith)) v

  if-IsCarried :
      (c : Bool) (s t : SessionInner)
      → IsCarried config s
      → IsCarried config t
      → IsCarried config (if c then s else t)
  if-IsCarried true s t h k = h
  if-IsCarried false s t h k = k

  open_remote-IsCarried :
      (s : SessionInner) (id : ℕ)
      → IsId id
      → IsCarried config s
      → IsCarried config (open_remote s id).0
  unfolding open_remote
  open_remote-IsCarried s id i v =
      let more = new-fit config s.streams id remote s.config i v.same v.fit in
      let made = record s { streams = s.streams ++ (Inner.new id remote s.config ∷ []) } in
      let made' : IsCarried config made = record { queued = v.queued; fit = more; same = v.same } in
      ground (arith, rst-IsCarried s id i v, rst-IsCarried made id i made', made')

module _ (b : Bitflags) (config : Config) where
  receive-Fits :
      (x : StreamInner) (w : Wires) (flags : Flags) (payload : List ℕ)
      → Fits config x
      → Fits config (receive b x w flags payload).0.0
  unfolding receive remote_reset remote_fin push_data mark_acked local_reset
  receive-Fits x w flags payload h = ground (arith, h)

  receive-Carried :
      (x : StreamInner) (w : Wires) (flags : Flags) (payload : List ℕ)
      → Fits config x
      → Carried config w.out_tx
      → Carried config (receive b x w flags payload).0.1.out_tx
  unfolding receive remote_reset mark_acked
  receive-Carried x w flags payload h v = ground (
    arith,
    local_reset-Carried config x w h v,
    local_reset-Carried config (mark_acked x) w h v,
    v,
  )

  to_stream-IsCarried :
      (s : SessionInner) (id : ℕ) (flags : Flags) (payload : List ℕ)
      → IsId id
      → IsCarried config s
      → IsCarried config (to_stream b s id flags payload).0
  unfolding to_stream
  to_stream-IsCarried s id flags payload i v =
      let unknown =
        if-IsCarried config (not (b.contains flags flags_ack) && not (b.contains flags flags_rst)) _
          s (rst-IsCarried config s id i v) v in
      elim (Option-cases (get s.registry id)) [
        | inl e ↦ rw (to_stream, e) unknown
        | inr (r, e) ↦ elim (Option-cases (stream_at s.streams r)) [
          | inl e1 ↦ rw (to_stream, e, e1) unknown
          | inr (x, e1) ↦
              let h = stream_at-Fits config s.streams r e1 v.fit in
              let h' = receive-Fits x s.wires flags payload h in
              rw (to_stream, e, e1)
                (record {
                  queued = receive-Carried x s.wires flags payload h v.queued;
                  fit = update_at-fit config s.streams r _ (λ y k. h') v.fit;
                  same = v.same;
                })
        ]
      ]

  handle_data-IsCarried :
      (s : SessionInner) (id : ℕ) (flags : Flags) (payload : List ℕ)
      → IsU32 id
      → IsCarried config s
      → IsCarried config (handle_data b s id flags payload).0
  unfolding handle_data
  handle_data-IsCarried s id flags payload i v =
      let into = λ (j : IsId id). to_stream-IsCarried s id flags payload j v in
      let opened = λ (j : IsId id). open_remote-IsCarried config s id j v in
      let after =
        λ (j : IsId id). to_stream-IsCarried (open_remote s id).0 id flags payload j (opened j) in
      elim (Bool-cases (id == 0)) [
        | inl e ↦ rw e v
        | inr e ↦
            let j : IsId id = (i, ground (arith, e)) in
            elim (Bool-cases (b.contains flags flags_syn)) [
              | inl e1 ↦ elim (Option-cases (open_remote s id).1) [
                | inl o ↦ rw (e, e1, o) (after j)
                | inr (r, o) ↦ rw (e, e1, o) (opened j)
              ]
              | inr e1 ↦ rw (e, e1) (into j)
            ]
      ]

  dispatch-IsCarried :
      (s : SessionInner) (f : Frame)
      → IsFrame (codec_of config) f
      → IsCarried config s
      → IsCarried config (dispatch b s f).0
  unfolding dispatch note_peer_gone grant_send_credit
  dispatch-IsCarried s (data_frame id flags payload) (i, _, _) v =
      handle_data-IsCarried s id flags payload i v
  dispatch-IsCarried s (window_update_frame id flags d) h v =
      elim (Option-cases (get s.registry id)) [
        | inl e ↦ rw (dispatch, e) v
        | inr (r, e) ↦
            rw (dispatch, e)
              (record {
                queued = v.queued;
                fit = update_at-fit config s.streams r _ (λ x k. k) v.fit;
                same = v.same;
              })
      ]
  dispatch-IsCarried s (ping_frame flags o) h v =
      let same : IsCarried config (record s { pong_tx = (send s.pong_tx o).0 }) = record {
        queued = v.queued;
        fit = v.fit;
        same = v.same;
      } in
      elim (Bool-cases (b.contains flags flags_ack)) [
        | inl e ↦ rw e same
        | inr e ↦ rw e (send_frame-IsCarried config s (pong b o) ((omega arith, h.1), tt) v)
      ]
  dispatch-IsCarried s (go_away_frame code) h v =
      initiate_shutdown-IsCarried config (note_peer_gone s) code h
        (record { queued = v.queued; fit = v.fit; same = v.same })

  pub turn-IsCarried :
      (s : SessionInner) (i : Input)
      → Comes config i
      → IsCarried config s
      → IsCarried config (turn b s i).0
  unfolding turn as_u32
  turn-IsCarried s closed h v = initiate_shutdown-IsCarried config s normal (tt, omega arith) v
  turn-IsCarried s (failed e) h v =
      initiate_shutdown-IsCarried config s (code_of e) (code_of-IsCode e) v
  turn-IsCarried s (frame f) h v =
      let after = dispatch-IsCarried s f h v in
      elim (Result-cases (dispatch b s f).1) [
        | inl (o, e) ↦ rw (turn, e) after
        | inr (x, e) ↦
            rw (turn, e)
              (initiate_shutdown-IsCarried config (dispatch b s f).0 (code_of x) (code_of-IsCode x)
                after)
      ]
