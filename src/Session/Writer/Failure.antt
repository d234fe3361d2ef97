-- ===== src/Session/Writer/Failure.antt =====
-- What the writer task (src/session/writer.rs) puts on a connection that may fail at any flush, and
-- what the codec of the peer makes of the bytes that got through.
use mathlib.Core.List.{Sublistᴰ}
use mathlib.Core.List.Sublistᴰ
use net_mux.Base.{
  ℕ, suc, ◌≡◌, ◌∙◌, ap, sym, subst, Bool, true, false, Option, some, List, [], ◌∷◌, ◌++◌,
  append-nil, append_assoc, All, All-append, All-Sublist, inl, inr, length, arith, Bool-cases,
  Option-cases, List-cases, if◌then◌else◌,
}
use net_mux.Error.{internal_error, as_u32, ok, err, Result-cases}
use net_mux.Protocol.Frame.{Bitflags, Frame, go_away}
use net_mux.Protocol.Codec
use net_mux.Protocol.Codec.{
  FrameCodec, Decoded, encode, decode_all, parts_of, header_of, payload_bytes,
}
use net_mux.Protocol.Codec.RoundTrip.{IsCodec, IsFrame, new-IsCodec}
use net_mux.Protocol.Codec.Batch.{spelling, decode_all-spelling, decode_all_total}
use net_mux.Protocol.Codec.Chunks.{decode_buffer, buffer_eq, buffer-append, resume}
use net_mux.Session.Inner.{SessionInner, initiate_shutdown}
use net_mux.Session.Writer.{Sink, new_sink, Answer, write_one, turn, loop, run}
use net_mux.Session.Writer.Cases.{popped, turn_stops, turn_waits, turn_writes, turn_fails}
use net_mux.Session.Writer.Tries.{
  Accepts, Tries, write_one-Tries, drain-Tries, Accepts-trans, stays,
}

-- The frame with which a writer that fails ends its session.
abbrev pub farewell : List Frame
farewell = go_away internal_error ∷ []

shutdown_queues :
    (s : SessionInner)
    → Sublistᴰ
        (initiate_shutdown s internal_error).wires.out_tx.queue
        (s.wires.out_tx.queue ++ farewell)
unfolding initiate_shutdown
shutdown_queues s = elim (Bool-cases s.is_closing) [
  | inl e ↦ rw e unsaid
  | inr e ↦ elim (Bool-cases s.wires.out_tx.alive) [
    | inl a ↦ rw (e, a) (Sublistᴰ.refl _)
    | inr a ↦ rw (e, a) unsaid
  ]
]
  where
    unsaid : Sublistᴰ s.wires.out_tx.queue (s.wires.out_tx.queue ++ farewell)
    unsaid =
        subst (λ q. Sublistᴰ q (s.wires.out_tx.queue ++ farewell)) (append-nil _)
          (Sublistᴰ.append (Sublistᴰ.refl s.wires.out_tx.queue) (Sublistᴰ.nil-sublist farewell))

farewell-IsFrame : (c : FrameCodec) → All (IsFrame c) farewell
unfolding as_u32
farewell-IsFrame c = ((tt, omega arith), tt)

module _ (b : Bitflags) where
  -- What a turn of the loop has accepted, and what it leaves in the queue; the one that fails queues
  -- the farewell.
  record Turns (sk tl : SessionInner × Sink) (more : List Frame) : Type 0 where
    sent : List Frame
    chosen : Sublistᴰ (sent ++ tl.0.wires.out_tx.queue) (sk.0.wires.out_tx.queue ++ more)
    took : Accepts b sk.1 tl.1 sent

  abbrev last_words : Bool → List Frame
  last_words goes = if goes then [] else farewell

  idle : (s : SessionInner) (k : Sink) (more : List Frame) → Turns (s, k) (s, k) more
  idle s k more = record {
    sent = [];
    chosen =
        subst (λ q. Sublistᴰ q (s.wires.out_tx.queue ++ more)) (append-nil _)
          (Sublistᴰ.append (Sublistᴰ.refl s.wires.out_tx.queue) (Sublistᴰ.nil-sublist more));
    took = stays b k;
  }

  turn-Turns :
      (a : Option Answer × Answer) (s : SessionInner) (k : Sink)
      → Turns (s, k) (turn b a (s, k)).0 (last_words (turn b a (s, k)).1)
  turn-Turns a s k = elim (Bool-cases s.shutdown) [
    | inl e ↦ becomes (turn_stops b a s k e) (idle s k farewell)
    | inr e ↦ elim (List-cases s.wires.out_tx.queue) [
      | inl q ↦ becomes (turn_waits b a s k e q) (idle s k [])
      | inr (f, fs, q) ↦
          let h = write_one-Tries b a k f in
          let l = (write_one b a k f).0 in
          elim (Result-cases (write_one b a k f).1) [
            | inl (u, r) ↦ becomes (turn_writes b a s k f fs e q r) (record {
              sent = h.sent;
              chosen = rw (q, append-nil) (Sublistᴰ.append h.chosen (Sublistᴰ.refl fs));
              took = h.took;
            })
            | inr (x, r) ↦ becomes (turn_fails b a s k f fs x e q r) (record {
              sent = h.sent;
              chosen = rw q (Sublistᴰ.append h.chosen (shutdown_queues (popped s fs)));
              took = h.took;
            })
          ]
    ]
  ]
    where
      becomes :
          {r : (SessionInner × Sink) × Bool}
          → turn b a (s, k) ≡ r
          → Turns (s, k) r.0 (last_words r.1)
          → Turns (s, k) (turn b a (s, k)).0 (last_words (turn b a (s, k)).1)
      becomes e h = subst (λ r. Turns (s, k) r.0 (last_words r.1)) (sym e) h

  -- A turn after which the loop goes on, and what comes behind it.
  join :
      (sk tl um : SessionInner × Sink)
      → Turns sk tl []
      → Turns tl um farewell
      → Turns sk um farewell
  join (s, k) (t, l) (u, m) one rest =
      let rest' = Sublistᴰ.append (Sublistᴰ.refl one.sent) rest.chosen in
      let one' = Sublistᴰ.append one.chosen (Sublistᴰ.refl farewell) in
      record {
        sent = one.sent ++ rest.sent;
        chosen = rw (append_assoc one.sent rest.sent u.wires.out_tx.queue) (
            Sublistᴰ.trans rest'
              (rw (append-nil s.wires.out_tx.queue, append_assoc one.sent) at one'));
        took = Accepts-trans b k l m one.sent rest.sent one.took rest.took;
      }

  loop-Turns :
      (turns : List (Option Answer × Answer)) (s : SessionInner) (k : Sink)
      → Turns (s, k) (loop b turns (s, k)) farewell
  unfolding loop
  loop-Turns [] s k = idle s k farewell
  loop-Turns (a ∷ more) s k =
      let t = (turn b a (s, k)).0 in
      go (turn b a (s, k)).1 (loop b more t) t (turn-Turns a s k)
        (λ one. join (s, k) t (loop b more t) one (loop-Turns more t.0 t.1))
    where
      go :
          (goes : Bool) (x y : SessionInner × Sink)
          → Turns (s, k) y (last_words goes)
          → (Turns (s, k) y [] → Turns (s, k) x farewell)
          → Turns (s, k) (if goes then x else y) farewell
      go true x y one h = h one
      go false x y one h = one

  run-Tries :
      (turns : List (Option Answer × Answer)) (ready : ℕ → Option Answer) (last : Answer)
      (s : SessionInner) (k : Sink)
      → Tries b k (run b turns ready last (s, k)) (s.wires.out_tx.queue ++ farewell)
  unfolding run
  run-Tries turns ready last s k =
      let h = loop-Turns turns s k in
      let t = loop b turns (s, k) in
      let d = drain-Tries b ready last t.0.wires.out_tx.queue t.1 in
      record {
        sent = h.sent ++ d.sent;
        chosen = Sublistᴰ.trans (Sublistᴰ.append (Sublistᴰ.refl h.sent) d.chosen) h.chosen;
        took = Accepts-trans b k t.1 (run b turns ready last (s, k)) h.sent d.sent h.took d.took;
      }

  -- The front of a decodable string of frames.
  pub front_decodes :
      (c : FrameCodec) (fs : List Frame) (front back : List ℕ)
      → IsCodec c
      → All (IsFrame c) fs
      → front ++ back ≡ spelling b c fs
      → (rest : List ℕ) × (got : List Frame) × Sublistᴰ got fs
        × (decode_all b (suc (length front)) c front ≡ some (rest, got, ok tt))
  front_decodes c fs front back codec v e =
      elim (Option-cases (decode_all b (suc (length front)) c front)) [
        | inl n ↦ absurd (decode_all_total b (suc (length front)) c front (omega arith) n)
        | inr (d, p) ↦ go d p whole
      ]
    where
      whole : resume b c (decode_buffer b c front) back ≡ ([], fs, ok tt)
      whole =
          sym (buffer-append b (suc (length front)) c front back (omega arith))
          ∙ (ap (decode_buffer b c) e
              ∙ buffer_eq b c (spelling b c fs) ([], fs, ok tt)
                  (decode_all-spelling b c fs _ codec v (omega arith)))

      go :
          (d : Decoded)
          → decode_all b (suc (length front)) c front ≡ some d
          → resume b c (decode_buffer b c front) back ≡ ([], fs, ok tt)
          → (rest : List ℕ) × (got : List Frame) × Sublistᴰ got fs
            × (decode_all b (suc (length front)) c front ≡ some (rest, got, ok tt))
      go (rest, got, ok u) p w =
          let more = (decode_buffer b c (rest ++ back)).1 in
          let all = ap (λ r. r.1) (rw (buffer_eq b c front (rest, got, ok u) p) at w) in
          let part = Sublistᴰ.append (Sublistᴰ.refl got) (Sublistᴰ.nil-sublist more) in
          (rest, got, rw (append-nil got, all) at part, p)
      go (rest, got, err x) p w =
          absurd (ground (arith, rw (buffer_eq b c front (rest, got, err x) p) at w))

  -- Whatever the connection answers to the writer task, at which flush and after how many bytes it
  -- fails, if the codec can carry every queued frame, then the decoding loop of a peer with the same
  -- limit meets no error in the bytes that got through, and gets a sublist of the frames that were
  -- queued and of the GoAway with which a failing writer ends its session: frames may be lost, and
  -- none is damaged, doubled or overtaken.
  pub run_may_fail :
      (turns : List (Option Answer × Answer)) (ready : ℕ → Option Answer) (last : Answer)
      (s : SessionInner)
      → All (IsFrame (Codec.new s.config.max_frame_size)) s.wires.out_tx.queue
      → let bytes = (run b turns ready last (s, new_sink s)).written in
        (rest : List ℕ) × (got : List Frame) × Sublistᴰ got
          (s.wires.out_tx.queue ++ go_away internal_error ∷ [])
        × (decode_all b (suc (length bytes)) (Codec.new s.config.max_frame_size) bytes
            ≡ some (rest, got, ok tt))
  run_may_fail turns ready last s v =
      let c = Codec.new s.config.max_frame_size in
      let h = run-Tries turns ready last s (new_sink s) in
      let k = run b turns ready last (s, new_sink s) in
      let offered = All-append (IsFrame c) s.wires.out_tx.queue farewell v (farewell-IsFrame c) in
      let (rest, got, some_of, e) =
        front_decodes c h.sent k.written k.buffer (new-IsCodec s.config.max_frame_size)
          (All-Sublist (IsFrame c) h.chosen offered) h.took.grown in
      (rest, got, Sublistᴰ.trans some_of h.chosen, e)
