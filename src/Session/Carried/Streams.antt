-- ===== src/Session/Carried/Streams.antt =====
-- The frames that the methods of a stream (src/stream/inner.rs) queue, and the codec of the writer.
use net_mux.Base.{
  ℕ, ◌≤◌, ◌<◌, ◌≡◌, ◌∙◌, subst, some, List, [], ◌∷◌, ◌%◌, ◌^◌, inl, inr, All, All-append, arith,
  IsU32, Option-cases,
}
use net_mux.Config.{Config}
use net_mux.Protocol.Frame.{Bitflags, window_update, fin, rst}
use net_mux.Protocol.Codec.{absolute_max_payload}
use net_mux.Protocol.Codec.RoundTrip.{IsFrame}
use net_mux.Flow.Window.{Gaps, on_consume, claim, RecvWindow}
use net_mux.Stream.Recv.{ReadBuf}
use net_mux.Stream.Channel.{Wires}
use net_mux.Stream.Inner.{StreamInner}
use net_mux.Stream.Inner.Read.{Round, report, poll_read}
use net_mux.Stream.Inner.Read.Keeps.{poll_read-keeps}
use net_mux.Stream.Inner.Write.{poll_write}
use net_mux.Stream.Inner.Local.{local_fin, local_reset, on_user_drop}
use net_mux.Stream.Life.{Act, reads, writes, shuts_down, resets, drops, receives, step}
use net_mux.Stream.Life.Id.{step-Same, report-Same, deliver-Same}
use net_mux.Session.Announce.Streams.{deliver-same}
use net_mux.Session.Transfer.{chunk}
use net_mux.Session.Transfer.Sent.{frames, poll_write-chunk, chunk-IsFrame}
use net_mux.Session.Carried.{IsSendable, Fits, Carried, codec_of, send-Carried, bare-IsSendable}

-- An update is a u32: the pending credit is swapped out as one.
on_consume-U32 : (w : RecvWindow) (n delta : ℕ) → (on_consume w n).1 ≡ some delta → IsU32 delta
unfolding on_consume claim
on_consume-U32 w n delta e = ground (arith, e)

module _ (config : Config) where
  local_fin-Carried :
      (x : StreamInner) (w : Wires)
      → Fits config x
      → Carried config w.out_tx
      → Carried config (local_fin x w).1.out_tx
  unfolding local_fin
  local_fin-Carried x w h v =
      let f = bare-IsSendable (codec_of config) x.id 4 h.0 (omega arith) in
      ground (arith, send-Carried config w.out_tx (fin x.id) f v)

  pub local_reset-Carried :
      (x : StreamInner) (w : Wires)
      → Fits config x
      → Carried config w.out_tx
      → Carried config (local_reset x w).1.out_tx
  unfolding local_reset
  local_reset-Carried x w h v =
      let f = bare-IsSendable (codec_of config) x.id 8 h.0 (omega arith) in
      ground (arith, send-Carried config w.out_tx (rst x.id) f v)

  on_user_drop-Carried :
      (x : StreamInner) (w : Wires)
      → Fits config x
      → Carried config w.out_tx
      → Carried config (on_user_drop x w).1.out_tx
  unfolding on_user_drop
  on_user_drop-Carried x w h v =
      let f = bare-IsSendable (codec_of config) x.id 4 h.0 (omega arith) in
      ground (arith, send-Carried config w.out_tx (fin x.id) f v)

module _ (b : Bitflags) (config : Config)
    (small : config.max_frame_size ≤ absolute_max_payload) where
  report-Carried :
      (x : StreamInner) (w : Wires) (n : ℕ)
      → Fits config x
      → Carried config w.out_tx
      → Carried config (report b x w n).1.out_tx
  unfolding report
  report-Carried x w n h v = elim (Option-cases (on_consume x.recv_window (n % 2 ^ 32)).1) [
    | inl e ↦ rw (e, report) v
    | inr (delta, e) ↦
        let wide = on_consume-U32 x.recv_window (n % 2 ^ 32) delta e in
        let f : IsSendable (codec_of config) (window_update b x.id delta) =
          ((h.0.0, rw b.empty_bits (omega arith), wide), tt) in
        rw (e, report) (send-Carried config w.out_tx (window_update b x.id delta) f v)
  ]

  report-Fits :
      (x : StreamInner) (w : Wires) (n : ℕ) → Fits config x → Fits config (report b x w n).0
  report-Fits x w n h = let s = report-Same b x w n in (rw s.0 h.0, s.1 ∙ h.1)

  read-Carried :
      (gaps : List Round) (x : StreamInner) (w : Wires) (buf : ReadBuf)
      → Fits config x
      → Carried config w.out_tx
      → Carried config (poll_read b gaps x w buf).wires.out_tx
  read-Carried gaps x w buf h v =
      (poll_read-keeps b (λ y u. Fits config y × Carried config u.out_tx)
        (λ e y u k.
          let s = deliver-Same e y u in ((rw s.0 k.0.0, s.1 ∙ k.0.1), rw (deliver-same e y u) k.1))
        (λ y u r k. k) (λ y u n k. (report-Fits y u n k.0, report-Carried y u n k.0 k.1))
        (λ y u k. k) gaps x w buf (h, v)).1

  frames-IsSendable :
      (id : ℕ) (chunks : List (List ℕ))
      → 0 < id
      → All (IsFrame (codec_of config)) (frames b id chunks)
      → All (IsSendable (codec_of config)) (frames b id chunks)
  frames-IsSendable id [] pos v = tt
  frames-IsSendable id (c ∷ cs) pos v = ((v.0, pos), frames-IsSendable id cs pos v.1)

  write-Carried :
      (g : Gaps) (x : StreamInner) (w : Wires) (buf : List ℕ)
      → Fits config x
      → Carried config w.out_tx
      → Carried config (poll_write b g x w buf).wires.out_tx
  write-Carried g x w buf h v =
      let fs = frames b x.id (chunk buf (poll_write b g x w buf).result) in
      let ours : All (IsFrame (codec_of config)) fs =
        subst (λ c. All (IsFrame (codec_of c)) fs) h.1
          (chunk-IsFrame b g x w buf h.0.0 (rw h.1 small)) in
      rw (poll_write-chunk b g x w buf) (
        All-append (IsSendable (codec_of config)) w.out_tx.queue fs v
          (frames-IsSendable x.id (chunk buf (poll_write b g x w buf).result) h.0.1 ours))

  -- Whatever happens to a stream, in the session's configuration.
  pub step-Carried :
      (a : Act) (x : StreamInner) (w : Wires)
      → Fits config x
      → Carried config w.out_tx
      → Carried config (step b a (x, w)).1.out_tx
  unfolding step
  step-Carried (reads gaps buf) x w h v = read-Carried gaps x w buf h v
  step-Carried (writes g buf) x w h v = write-Carried g x w buf h v
  step-Carried shuts_down x w h v = local_fin-Carried config x w h v
  step-Carried resets x w h v = local_reset-Carried config x w h v
  step-Carried drops x w h v = on_user_drop-Carried config x w h v
  step-Carried (receives e) x w h v = rw (deliver-same e x w) v

  pub step-Fits :
      (a : Act) (x : StreamInner) (w : Wires) → Fits config x → Fits config (step b a (x, w)).0
  step-Fits a x w h = let s = step-Same b a x w in (rw s.0 h.0, s.1 ∙ h.1)
