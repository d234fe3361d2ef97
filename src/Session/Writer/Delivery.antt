-- ===== src/Session/Writer/Delivery.antt =====
-- What the writer task (src/session/writer.rs) puts on a connection that does not fail, and what the
-- codec of the peer makes of it.
use net_mux.Base.{
  ℕ, suc, ◌≡◌, ◌∙◌, refl, ap, sym, Bool, true, false, Option, none, some, List, [], ◌∷◌, ◌++◌,
  append-nil, append_assoc, All, inl, inr, subst, length, arith, Bool-cases, if◌then◌else◌,
}
use net_mux.Error.{Result, ok}
use net_mux.Protocol.Frame.{Bitflags, Frame}
use net_mux.Protocol.Codec
use net_mux.Protocol.Codec.{FrameCodec, encode, decode_all}
use net_mux.Protocol.Codec.RoundTrip.{IsCodec, IsFrame, encode-append, new-IsCodec}
use net_mux.Protocol.Codec.Batch.{spelling, decode_all-spelling}
use net_mux.Session.Inner.{SessionInner}
use net_mux.Session.Writer.{
  Sink, new_sink, Answer, takes_all, breaks, flush, make_room, feed, write_one, turn, loop, drain,
  run,
}
use net_mux.Session.Writer.Cases.{turn_stops, turn_waits, turn_writes}

-- Answers of a connection that takes everything.
abbrev pub Calm : Option Answer → Type 0
Calm none = Unit {0}
Calm (some a) = a ≡ takes_all

abbrev pub CalmTurn : Option Answer × Answer → Type 0
CalmTurn a = Calm a.0 × (a.1 ≡ takes_all)

-- The bytes that the sink has accepted.
abbrev pub accepted : Sink → List ℕ
accepted k = k.written ++ k.buffer

record Kept (k l : Sink) (more : List ℕ) (r : Result (Unit {0})) : Type 0 where
  fine : r ≡ ok tt
  same : l.codec ≡ k.codec
  grown : accepted l ≡ accepted k ++ more

flush-Kept : (a : Answer) (k : Sink) → a ≡ takes_all → Kept k (flush a k).0 [] (flush a k).1
unfolding flush
flush-Kept takes_all k e = record {
  fine = refl;
  same = refl;
  grown = append-nil (k.written ++ k.buffer) ∙ sym (append-nil (k.written ++ k.buffer));
}
flush-Kept (breaks n x) k e = absurd (ground arith)

flush-emptied : (a : Answer) (k : Sink) → a ≡ takes_all → (flush a k).0.buffer ≡ []
unfolding flush
flush-emptied takes_all k e = refl
flush-emptied (breaks n x) k e = absurd (ground arith)

make_room-Kept :
    (a : Option Answer) (k : Sink) → Calm a → Kept k (make_room a k).0 [] (make_room a k).1
unfolding make_room
make_room-Kept none k c = record { fine = refl; same = refl; grown = sym (append-nil _) }
make_room-Kept (some a) k c = flush-Kept a k c

module _ (b : Bitflags) where
  feed-Kept :
      (a : Option Answer) (k : Sink) (f : Frame)
      → Calm a
      → IsCodec k.codec
      → IsFrame k.codec f
      → Kept k (feed b a k f).0 (encode b k.codec f []).0 (feed b a k f).1
  unfolding feed
  feed-Kept a k f c codec v =
      let m = make_room-Kept a k c in
      let l = (make_room a k).0 in
      let bytes = (encode b k.codec f []).0 in
      let goes : encode b l.codec f l.buffer ≡ (l.buffer ++ bytes, ok tt) =
        rw m.same (encode-append b k.codec f l.buffer codec v) in
      let sum =
        sym (append_assoc l.written l.buffer bytes)
        ∙ ap (λ x. x ++ bytes) (m.grown ∙ append-nil _) in
      let after : feed b a k f ≡ (record l { buffer = l.buffer ++ bytes }, ok tt) =
        rw (feed, m.fine, goes) in
      rw (after) (record { fine = refl; same = m.same; grown = sum })

  write_one-Kept :
      (a : Option Answer × Answer) (k : Sink) (f : Frame)
      → CalmTurn a
      → IsCodec k.codec
      → IsFrame k.codec f
      → Kept k (write_one b a k f).0 (encode b k.codec f []).0 (write_one b a k f).1
  unfolding write_one
  write_one-Kept a k f c codec v =
      let m = feed-Kept a.0 k f c.0 codec v in
      let n = flush-Kept a.1 (feed b a.0 k f).0 c.1 in
      rw (write_one, m.fine)
        (record {
          fine = n.fine;
          same = n.same ∙ m.same;
          grown = n.grown ∙ (append-nil _ ∙ m.grown);
        })

  -- The bytes that were accepted, and those that the queued frames are still to become.
  abbrev due : SessionInner × Sink → List ℕ
  due sk = accepted sk.1 ++ spelling b sk.1.codec sk.0.wires.out_tx.queue

  record Runs (sk tl : SessionInner × Sink) : Type 0 where
    codec : tl.1.codec ≡ sk.1.codec
    queued : All (IsFrame tl.1.codec) tl.0.wires.out_tx.queue
    owed : due tl ≡ due sk

  turn-Runs :
      (a : Option Answer × Answer) (s : SessionInner) (k : Sink)
      → CalmTurn a
      → IsCodec k.codec
      → All (IsFrame k.codec) s.wires.out_tx.queue
      → Runs (s, k) (turn b a (s, k)).0
  turn-Runs a s k c codec v = elim (Bool-cases s.shutdown) [
    | inl e ↦ subst (Runs (s, k)) (sym (ap (λ r. r.0) (turn_stops b a s k e))) stays
    | inr e ↦ go s.wires.out_tx.queue refl e v
  ]
    where
      stays : Runs (s, k) (s, k)
      stays = record { codec = refl; queued = v; owed = refl }

      go :
          (q : List Frame)
          → s.wires.out_tx.queue ≡ q
          → s.shutdown ≡ false
          → All (IsFrame k.codec) q
          → Runs (s, k) (turn b a (s, k)).0
      go [] e live v = subst (Runs (s, k)) (sym (ap (λ r. r.0) (turn_waits b a s k live e))) stays
      go (f ∷ q) e live v =
          let m = write_one-Kept a k f c codec v.0 in
          let l = (write_one b a k f).0 in
          let bytes = (encode b k.codec f []).0 in
          let rest = ap (λ d. accepted l ++ spelling b d q) m.same in
          let moved =
            ap (λ x. x ++ spelling b k.codec q) m.grown
            ∙ append_assoc (accepted k) bytes (spelling b k.codec q) in
          let before = ap (λ fs. accepted k ++ spelling b k.codec fs) (sym e) in
          subst (Runs (s, k)) (sym (ap (λ r. r.0) (turn_writes b a s k f q live e m.fine)))
            (record {
              codec = m.same;
              queued = subst (λ d. All (IsFrame d) q) (sym m.same) v.1;
              owed = rest ∙ (moved ∙ before);
            })

  loop-Runs :
      (turns : List (Option Answer × Answer)) (s : SessionInner) (k : Sink)
      → All CalmTurn turns
      → IsCodec k.codec
      → All (IsFrame k.codec) s.wires.out_tx.queue
      → Runs (s, k) (loop b turns (s, k))
  unfolding loop
  loop-Runs [] s k c codec v = record { codec = refl; queued = v; owed = refl }
  loop-Runs (a ∷ more) s k (c, cs) codec v =
      let one = turn-Runs a s k c codec v in
      let t = (turn b a (s, k)).0 in
      let codec' = subst IsCodec (sym one.codec) codec in
      let rest = loop-Runs more t.0 t.1 cs codec' one.queued in
      let both : Runs (s, k) (loop b more t) = record {
        codec = rest.codec ∙ one.codec;
        queued = rest.queued;
        owed = rest.owed ∙ one.owed;
      } in
      go (turn b a (s, k)).1 (loop b more t) t both one
    where
      go :
          (goes : Bool) (x y : SessionInner × Sink)
          → Runs (s, k) x
          → Runs (s, k) y
          → Runs (s, k) (if goes then x else y)
      go true x y h h' = h
      go false x y h h' = h'

  drain-Kept :
      (ready : ℕ → Option Answer) (last : Answer) (fs : List Frame) (k : Sink)
      → ((i : ℕ) → Calm (ready i))
      → last ≡ takes_all
      → IsCodec k.codec
      → All (IsFrame k.codec) fs
      → (drain b ready last fs k).written ≡ accepted k ++ spelling b k.codec fs
  unfolding drain
  drain-Kept ready last [] k c e codec v =
      let m = flush-Kept last k e in
      let whole = ap (λ x. (flush last k).0.written ++ x) (flush-emptied last k e) in
      sym (append-nil (flush last k).0.written) ∙ (sym whole ∙ m.grown)
  drain-Kept ready last (f ∷ fs) k c e codec v =
      let m = feed-Kept (ready 0) k f (c 0) codec v.0 in
      let l = (feed b (ready 0) k f).0 in
      let codec' = subst IsCodec (sym m.same) codec in
      let vs = subst (λ d. All (IsFrame d) fs) (sym m.same) v.1 in
      let rest = drain-Kept (λ i. ready (suc i)) last fs l (λ i. c (suc i)) e codec' vs in
      let bytes = (encode b k.codec f []).0 in
      let moved =
        ap (λ x. x ++ spelling b l.codec fs) m.grown
        ∙ (append_assoc (accepted k) bytes (spelling b l.codec fs)
            ∙ ap (λ d. accepted k ++ (bytes ++ spelling b d fs)) m.same) in
      rw (drain, m.fine) (rest ∙ moved)

  -- On a connection that takes everything, the writer task puts every queued frame that its codec can
  -- carry on the wire, whether its loop gets to it or the drain after the shutdown, and the decoding
  -- loop of a peer with the same limit gets back exactly those frames, in the order of the queue.
  pub run-decode_all :
      (turns : List (Option Answer × Answer)) (ready : ℕ → Option Answer) (s : SessionInner)
      → All CalmTurn turns
      → ((i : ℕ) → Calm (ready i))
      → All (IsFrame (Codec.new s.config.max_frame_size)) s.wires.out_tx.queue
      → let bytes = (run b turns ready takes_all (s, new_sink s)).written in
        decode_all b (suc (length bytes)) (Codec.new s.config.max_frame_size) bytes
        ≡ some ([], s.wires.out_tx.queue, ok tt)
  unfolding run
  run-decode_all turns ready s calm calm' v =
      let k = new_sink s in
      let codec = new-IsCodec s.config.max_frame_size in
      let h = loop-Runs turns s k calm codec v in
      let t = loop b turns (s, k) in
      let codec' = subst IsCodec (sym h.codec) codec in
      let all =
        drain-Kept ready takes_all t.0.wires.out_tx.queue t.1 calm' refl codec' h.queued ∙ h.owed in
      rw all (decode_all-spelling b k.codec s.wires.out_tx.queue _ codec v (omega arith))
