-- ===== src/Protocol/Codec/Chunks.antt =====
-- FrameCodec::decode (src/protocol/codec.rs) on input that arrives in pieces: called, as the reader's
-- `FramedRead` calls it, after each piece until it asks for more.
use mathlib.Core.Option
use net_mux.Base.{
  ℕ, zero, suc, ◌<◌, ◌≡◌, refl, sym, ap, ◌∙◌, List, [], ◌∷◌, ◌++◌, append-nil, append_assoc, some,
  none, arith, length, concat, Option-cases, inl, inr,
}
use net_mux.Error.{Error, ok, err}
use net_mux.Protocol.Frame.{Bitflags, Frame}
use net_mux.Protocol.Codec.{FrameCodec, Decoded, decode, decode_all, prepend}
use net_mux.Protocol.Codec.Framing.{
  waits, fails, yields, outcome, decode-append, decode-append_err, decode_shortens,
}
use net_mux.Protocol.Codec.Batch.{decode_all_total}

-- To go on decoding with `more` from what is decoded already, unless that ended in an error.
abbrev pub go_on : Decoded → List ℕ → (List ℕ → Decoded) → Decoded
go_on (rest, fs, err e) more next = (rest ++ more, fs, err e)
go_on (rest, fs, ok u) more next = let r = next rest in (r.0, fs ++ r.1, r.2)

go_on-ext :
    (d : Decoded) (more : List ℕ) (k l : List ℕ → Decoded)
    → (d.2 ≡ ok tt → k d.0 ≡ l d.0)
    → go_on d more k ≡ go_on d more l
go_on-ext (rest, fs, err e) more k l h = refl
go_on-ext (rest, fs, ok u) more k l h = ap (λ r. (r.0, fs ++ r.1, r.2)) (h refl)

module _ (b : Bitflags) where
  -- What is decoded from a buffer, with more rounds than it has bytes: the bytes that are left, the
  -- frames, and how it ended.
  unfoldable pub decode_buffer : FrameCodec → List ℕ → Decoded
  decode_buffer c src = elim (decode_all b (suc (length src)) c src) [
    | some d ↦ d
    | none ↦ (src, [], ok tt)
  ]

  -- The same, piece by piece. After an error nothing more is decoded.
  unfoldable pub decode_chunks : FrameCodec → List ℕ → List (List ℕ) → Decoded
  decode_chunks c buf [] = (buf, [], ok tt)
  decode_chunks c buf (chunk ∷ chunks) =
      go_on (decode_buffer c (buf ++ chunk)) (concat chunks) (λ rest. decode_chunks c rest chunks)

  -- One round of the loop.
  round_waits :
      (k : ℕ) (c : FrameCodec) (src : List ℕ)
      → decode b c src ≡ (src, ok none)
      → decode_all b (suc k) c src ≡ some (src, [], ok tt)
  unfolding decode_all
  round_waits k c src e = rw (decode_all, e, e)

  round_fails :
      (k : ℕ) (c : FrameCodec) (src : List ℕ) (x : Error)
      → decode b c src ≡ (src, err x)
      → decode_all b (suc k) c src ≡ some (src, [], err x)
  unfolding decode_all
  round_fails k c src x e = rw (decode_all, e, e)

  round_yields :
      (k : ℕ) (c : FrameCodec) (src rest : List ℕ) (f : Frame)
      → decode b c src ≡ (rest, ok (some f))
      → decode_all b (suc k) c src ≡ Option.map (prepend f) (decode_all b k c rest)
  unfolding decode_all
  round_yields k c src rest f e = rw (decode_all, e, e)

  -- More fuel than enough changes nothing.
  decode_all_enough :
      (k l : ℕ) (c : FrameCodec) (src : List ℕ)
      → length src < k
      → length src < l
      → decode_all b k c src ≡ decode_all b l c src
  decode_all_enough zero l c src h m = absurd (omega arith)
  decode_all_enough (suc k) zero c src h m = absurd (omega arith)
  decode_all_enough (suc k) (suc l) c src h m = elim (outcome b c src) [
    | waits e ↦ round_waits k c src e ∙ sym (round_waits l c src e)
    | fails x e ↦ round_fails k c src x e ∙ sym (round_fails l c src x e)
    | yields rest f e less ↦
        let same = decode_all_enough k l c rest (omega arith) (omega arith) in
        round_yields k c src rest f e
        ∙ (ap (Option.map (prepend f)) same ∙ sym (round_yields l c src rest f e))
  ]

  pub buffer_eq :
      (c : FrameCodec) (src : List ℕ) (d : Decoded)
      → decode_all b (suc (length src)) c src ≡ some d
      → decode_buffer c src ≡ d
  unfolding decode_buffer
  buffer_eq c src d e = rw (decode_buffer, e)

  buffer_waits :
      (c : FrameCodec) (src : List ℕ)
      → decode b c src ≡ (src, ok none)
      → decode_buffer c src ≡ (src, [], ok tt)
  buffer_waits c src e = buffer_eq c src _ (round_waits (length src) c src e)

  buffer_fails :
      (c : FrameCodec) (src : List ℕ) (x : Error)
      → decode b c src ≡ (src, err x)
      → decode_buffer c src ≡ (src, [], err x)
  buffer_fails c src x e = buffer_eq c src _ (round_fails (length src) c src x e)

  buffer_yields :
      (c : FrameCodec) (src rest : List ℕ) (f : Frame)
      → decode b c src ≡ (rest, ok (some f))
      → decode_buffer c src ≡ prepend f (decode_buffer c rest)
  buffer_yields c src rest f e =
      let less = decode_shortens b c src rest f e in
      let same =
        decode_all_enough (length src) (suc (length rest)) c rest (omega arith) (omega arith) in
      elim (Option-cases (decode_all b (suc (length rest)) c rest)) [
        | inl n ↦ absurd (decode_all_total b (suc (length rest)) c rest (omega arith) n)
        | inr (d, p) ↦
            let round = round_yields (length src) c src rest f e in
            buffer_eq c src (prepend f d) (round ∙ ap (Option.map (prepend f)) (same ∙ p))
            ∙ ap (prepend f) (sym (buffer_eq c rest d p))
      ]

  -- What more input adds to what is decoded already.
  abbrev pub resume : FrameCodec → Decoded → List ℕ → Decoded
  resume c d more = go_on d more (λ rest. decode_buffer c (rest ++ more))

  resume-prepend :
      (c : FrameCodec) (f : Frame) (d : Decoded) (more : List ℕ)
      → resume c (prepend f d) more ≡ prepend f (resume c d more)
  resume-prepend c f (rest, fs, ok u) more = refl
  resume-prepend c f (rest, fs, err e) more = refl

  pub buffer-append :
      (n : ℕ) (c : FrameCodec) (src more : List ℕ)
      → length src < n
      → decode_buffer c (src ++ more) ≡ resume c (decode_buffer c src) more
  buffer-append zero c src more h = absurd (omega arith)
  buffer-append (suc n) c src more h = elim (outcome b c src) [
    | waits e ↦ rw (buffer_waits c src e)
    | fails x e ↦
        rw (buffer_fails c src x e)
          (buffer_fails c (src ++ more) x (decode-append_err b c src more src x e).1)
    | yields rest f e less ↦
        let longer =
          buffer_yields c (src ++ more) (rest ++ more) f (decode-append b c src more rest f e) in
        let rest' = ap (prepend f) (buffer-append n c rest more (omega arith)) in
        let back = sym (resume-prepend c f (decode_buffer c rest) more) in
        longer ∙ (rest' ∙ (back ∙ ap (λ d. resume c d more) (sym (buffer_yields c src rest f e))))
  ]

  -- A buffer in which no complete frame is left.
  abbrev Idle : FrameCodec → List ℕ → Type 0
  Idle c buf = decode b c buf ≡ (buf, ok none)

  buffer-Idle :
      (n : ℕ) (c : FrameCodec) (src : List ℕ)
      → length src < n
      → (decode_buffer c src).2 ≡ ok tt
      → Idle c (decode_buffer c src).0
  buffer-Idle zero c src h k = absurd (omega arith)
  buffer-Idle (suc n) c src h k = elim (outcome b c src) [
    | waits e ↦ rw (buffer_waits c src e) e
    | fails x e ↦ absurd (ground (arith, buffer_fails c src x e))
    | yields rest f e less ↦
        let y = buffer_yields c src rest f e in
        let done = sym (ap (λ d. d.2) y) ∙ k in rw y (buffer-Idle n c rest (omega arith) done)
  ]

  chunks-from :
      (chunks : List (List ℕ)) (c : FrameCodec) (buf : List ℕ)
      → Idle c buf
      → decode_chunks c buf chunks ≡ decode_buffer c (buf ++ concat chunks)
  unfolding decode_chunks
  chunks-from [] c buf idle = rw append-nil (sym (buffer_waits c buf idle))
  chunks-from (chunk ∷ chunks) c buf idle =
      let more = concat chunks in
      let d = decode_buffer c (buf ++ chunk) in
      let long = suc (length (buf ++ chunk)) in
      let next = λ (k : d.2 ≡ ok tt).
        chunks-from chunks c d.0 (buffer-Idle long c (buf ++ chunk) (omega arith) k) in
      let whole = buffer-append long c (buf ++ chunk) more (omega arith) in
      let pieces =
        go_on-ext d more (λ rest. decode_chunks c rest chunks)
          (λ rest. decode_buffer c (rest ++ more)) next in
      pieces ∙ (sym whole ∙ ap (decode_buffer c) (append_assoc buf chunk more))

  -- It does not matter how the transport cuts the stream into reads: to decode piece by piece, from an
  -- empty buffer, gives the frames, the end and the bytes left over that decoding all of it at once
  -- gives.
  pub decode_chunks-buffer :
      (c : FrameCodec) (chunks : List (List ℕ))
      → decode_chunks c [] chunks ≡ decode_buffer c (concat chunks)
  unfolding decode
  decode_chunks-buffer c chunks = chunks-from chunks c [] refl
