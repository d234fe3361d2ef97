-- ===== src/Session/Transfer/Sent.antt =====
-- What a sequence of poll_write (src/stream/inner.rs) sends.
use net_mux.Base.{
  All-append, ℕ, ◌≤◌, ◌≡◌, ◌≢◌, refl, sym, ap, List, [], ◌∷◌, ◌++◌, arith, map, append-nil,
  append_assoc, All, IsU32, inl, inr,
}
use net_mux.Protocol.Frame.{Bitflags, Frame, data_of}
use net_mux.Protocol.Codec.{absolute_max_payload, encode_all, decode_all}
use net_mux.Protocol.Codec
use net_mux.Protocol.Codec.RoundTrip.{IsFrame}
use net_mux.Flow.Window.{Gaps}
use net_mux.Stream.Channel.{Wires, Poll, poll_ready, poll_pending, IoResult, io_ok, io_err}
use net_mux.Stream.Inner.{StreamInner}
use net_mux.Stream.Inner.Write.{poll_write}
use net_mux.Stream.Inner.Write.Results.{poll_write_sends, poll_write_silent, fragment-IsFrame}
use net_mux.Stream.Life.Id.{poll_write-Same}
use net_mux.Session.Transfer.{chunk, writes_all}

module _ (b : Bitflags) where
  abbrev pub frames : ℕ → List (List ℕ) → List Frame
  frames id chunks = map (data_of id b.empty) chunks

  frames-append :
      (id : ℕ) (xs ys : List (List ℕ)) → frames id (xs ++ ys) ≡ frames id xs ++ frames id ys
  frames-append id [] ys = refl
  frames-append id (x ∷ xs) ys = ap (λ l. data_of id b.empty x ∷ l) (frames-append id xs ys)

  quiet :
      (g : Gaps) (s : StreamInner) (w : Wires) (buf : List ℕ)
      → ((n : ℕ) → (poll_write b g s w buf).result ≢ poll_ready (io_ok n))
      → (poll_write b g s w buf).wires.out_tx.queue ≡ w.out_tx.queue ++ []
  quiet g s w buf refuses = elim (poll_write_silent b g s w buf) [
    | inl (n, e) ↦ absurd (refuses n e)
    | inr e ↦ rw e (sym (append-nil _))
  ]

  empty_write : (g : Gaps) (s : StreamInner) (w : Wires) → (poll_write b g s w []).wires ≡ w
  unfolding poll_write
  empty_write g s w = ground arith

  -- One write sends what it has taken, as one frame.
  pub poll_write-chunk :
      (g : Gaps) (s : StreamInner) (w : Wires) (buf : List ℕ)
      → let o = poll_write b g s w buf in
        o.wires.out_tx.queue ≡ w.out_tx.queue ++ frames s.id (chunk buf o.result)
  unfolding chunk
  poll_write-chunk g s w [] = rw (empty_write g s w) (sym (append-nil _))
  poll_write-chunk g s w (x ∷ xs) = go (poll_write b g s w (x ∷ xs)).result refl
    where
      go :
          (r : Poll (IoResult ℕ))
          → (poll_write b g s w (x ∷ xs)).result ≡ r
          → (poll_write b g s w (x ∷ xs)).wires.out_tx.queue
            ≡ w.out_tx.queue ++ frames s.id (chunk (x ∷ xs) r)
      go (poll_ready (io_ok n)) e =
          (poll_write_sends b g s w (x ∷ xs) n (λ q. absurd (ground arith)) e).0
      go (poll_ready (io_err f)) e = quiet g s w (x ∷ xs) (λ n q. absurd (ground (arith, e, q)))
      go poll_pending e = quiet g s w (x ∷ xs) (λ n q. absurd (ground (arith, e, q)))

  pub writes_all_sends :
      (ws : List (Gaps × List ℕ)) (s : StreamInner) (w : Wires)
      → let r = writes_all b ws s w in r.0.1.out_tx.queue ≡ w.out_tx.queue ++ frames s.id r.1
  unfolding writes_all
  writes_all_sends [] s w = sym (append-nil _)
  writes_all_sends ((g, buf) ∷ ws) s w =
      let o = poll_write b g s w buf in
      let c = chunk buf o.result in
      let d = (writes_all b ws o.stream o.wires).1 in
      let rest = writes_all_sends ws o.stream o.wires in
      rw (
        rest,
        (poll_write-Same b g s w buf).0,
        poll_write-chunk g s w buf,
        frames-append,
        append_assoc,
      )

  -- Within the codec's ceiling the codec of the writer carries each of these frames.
  pub chunk-IsFrame :
      (g : Gaps) (s : StreamInner) (w : Wires) (buf : List ℕ)
      → IsU32 s.id
      → s.config.max_frame_size ≤ absolute_max_payload
      → All
          (IsFrame (Codec.new s.config.max_frame_size))
          (frames s.id (chunk buf (poll_write b g s w buf).result))
  unfolding chunk
  chunk-IsFrame g s w [] i small = tt
  chunk-IsFrame g s w (x ∷ xs) i small = go (poll_write b g s w (x ∷ xs)).result refl
    where
      go :
          (r : Poll (IoResult ℕ))
          → (poll_write b g s w (x ∷ xs)).result ≡ r
          → All (IsFrame (Codec.new s.config.max_frame_size)) (frames s.id (chunk (x ∷ xs) r))
      go (poll_ready (io_ok n)) e =
          let sent = poll_write_sends b g s w (x ∷ xs) n (λ q. absurd (ground arith)) e in
          (fragment-IsFrame b s (x ∷ xs) n i small sent.2, tt)
      go (poll_ready (io_err f)) e = tt
      go poll_pending e = tt

  pub writes_all-IsFrame :
      (ws : List (Gaps × List ℕ)) (s : StreamInner) (w : Wires)
      → IsU32 s.id
      → s.config.max_frame_size ≤ absolute_max_payload
      → All (IsFrame (Codec.new s.config.max_frame_size)) (frames s.id (writes_all b ws s w).1)
  unfolding writes_all
  writes_all-IsFrame [] s w i small = tt
  writes_all-IsFrame ((g, buf) ∷ ws) s w i small =
      let o = poll_write b g s w buf in
      let c = chunk buf o.result in
      let same = (poll_write-Same b g s w buf).0 in
      let conf = (poll_write-Same b g s w buf).1 in
      let rest = writes_all-IsFrame ws o.stream o.wires (rw same i) (rw conf small) in
      rw (frames-append s.id c) (
        All-append (IsFrame (Codec.new s.config.max_frame_size)) (frames s.id c) _
          (chunk-IsFrame g s w buf i small) (rw (same, conf) at rest))
