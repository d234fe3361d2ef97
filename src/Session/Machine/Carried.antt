-- ===== src/Session/Machine/Carried.antt =====
-- What the calls, the closer and the writer of a session (src/session) leave in its queue, its codec
-- can carry.
use net_mux.Base.{
  ℕ, ◌≡◌, ◌∙◌, refl, subst, Bool, Option, List, ◌∷◌, arith, All, Bool-cases, Option-cases,
  List-cases, inl, inr,
}
use net_mux.Error.{internal_error, as_u32, ok, err, Result-cases}
use net_mux.Config.{Config}
use net_mux.Protocol.Frame.{Bitflags, Frame, ack, rst}
use net_mux.Session.Manager.{remove}
use net_mux.Session.Inner.{SessionInner, stream_at, send_frame}
use net_mux.Session.Carried.{
  IsId, IsSendable, codec_of, IsCarried, bare-IsSendable, stream_at-Fits, send_frame-IsCarried,
  initiate_shutdown-IsCarried,
}
use net_mux.Session.Api.{
  Waited, waited, elapsed, finish_open, poll_accept, finish_close, closer_turn,
}
use net_mux.Session.Writer.{Sink, Answer, write_one}
use net_mux.Session.Writer
use net_mux.Session.Writer.Cases.{popped, turn_stops, turn_waits, turn_writes, turn_fails}

module _ (config : Config) where
  -- What leaves the queue, the streams and the configuration alone.
  pub same-IsCarried :
      (s t : SessionInner)
      → t.wires.out_tx ≡ s.wires.out_tx
      → t.streams ≡ s.streams
      → t.config ≡ s.config
      → IsCarried config s
      → IsCarried config t
  same-IsCarried s t e f g v = record {
    queued = rw e v.queued;
    fit = rw f v.fit;
    same = g ∙ v.same;
  }

  pub closer_turn-IsCarried :
      (s : SessionInner) → IsCarried config s → IsCarried config (closer_turn s).0
  unfolding closer_turn
  closer_turn-IsCarried s v =
      same-IsCarried s (closer_turn s).0 (ground arith) (ground arith) (ground arith) v

  pub finish_close-IsCarried :
      (s : SessionInner) → IsCarried config s → IsCarried config (finish_close s).0
  unfolding finish_close
  finish_close-IsCarried s v =
      same-IsCarried s (finish_close s).0 (ground arith) (ground arith) (ground arith) v

  pub poll_accept-IsCarried :
      (seen : Bool) (s : SessionInner)
      → IsCarried config s
      → IsCarried config (poll_accept seen s).0
  unfolding poll_accept
  poll_accept-IsCarried seen s v = elim (List-cases s.accept_tx.queue) [
    | inl q ↦ ground (arith, q, v)
    | inr (p, ps, q) ↦ elim (Option-cases (stream_at s.streams p)) [
      | inl n ↦ ground (arith, q, n, v)
      | inr (x, n) ↦
          let t = record s { accept_tx = record (s.accept_tx) { queue = ps } } in
          let v' = same-IsCarried s t refl refl refl v in
          let f =
            bare-IsSendable (codec_of config) x.id 2 (stream_at-Fits config s.streams p n v.fit).0
              (omega arith) in
          ground (arith, q, n, v', v, send_frame-IsCarried config t (ack x.id) f v')
    ]
  ]

  pub finish_open-IsCarried :
      (s : SessionInner) (id place : ℕ) (w : Waited)
      → IsId id
      → IsCarried config s
      → IsCarried config (finish_open s (id, place) w).0
  unfolding finish_open
  finish_open-IsCarried s id place (waited (ok u)) i v = v
  finish_open-IsCarried s id place (waited (err e)) i v =
      same-IsCarried s (record s { registry = remove s.registry id }) refl refl refl v
  finish_open-IsCarried s id place elapsed i v =
      let f = bare-IsSendable (codec_of config) id 8 i (omega arith) in
      let t = send_frame s (rst id) in
      same-IsCarried t (record t { registry = remove s.registry id }) refl refl refl
        (send_frame-IsCarried config s (rst id) f v)

  pub popped-IsCarried :
      (s : SessionInner) (f : Frame) (q : List Frame)
      → s.wires.out_tx.queue ≡ f ∷ q
      → IsCarried config s
      → IsCarried config (popped s q)
  popped-IsCarried s f q e v = record {
    queued = (subst (All (IsSendable (codec_of config))) e v.queued).1;
    fit = v.fit;
    same = v.same;
  }

  pub writer_turn-IsCarried :
      (b : Bitflags) (a : Option Answer × Answer) (s : SessionInner) (k : Sink)
      → IsCarried config s
      → IsCarried config (Writer.turn b a (s, k)).0.0
  unfolding as_u32
  writer_turn-IsCarried b a s k v = elim (Bool-cases s.shutdown) [
    | inl e ↦ rw (turn_stops b a s k e) v
    | inr e ↦ elim (List-cases s.wires.out_tx.queue) [
      | inl q ↦ rw (turn_waits b a s k e q) v
      | inr (f, fs, q) ↦
          let p = popped-IsCarried s f fs q v in
          elim (Result-cases (write_one b a k f).1) [
            | inl (u, r) ↦ rw (turn_writes b a s k f fs e q r) p
            | inr (x, r) ↦ rw (turn_fails b a s k f fs x e q r) (
                initiate_shutdown-IsCarried config (popped s fs) internal_error (tt, omega arith) p)
          ]
    ]
  ]
