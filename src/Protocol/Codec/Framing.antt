-- ===== src/Protocol/Codec/Framing.antt =====
-- FrameCodec::decode of src/protocol/codec.rs on any input, complete or not.
use net_mux.Base.{
  ℕ, ◌+◌, ◌≤◌, ◌<◌, ◌≡◌, refl, sym, ap, ◌∙◌, List, [], ◌++◌, Option, some, none, arith, length,
  take, drop, ltb-false, ltb-true, length-append, length-drop, length-take, take-append_le,
  drop-append_le, dec_lt, inl, inr,
}
use net_mux.Error.{Error, Result, ok, err, Result-cases}
use net_mux.Protocol.Frame.{Bitflags, Frame, data_frame}
use net_mux.Protocol.Header.{
  Header, header_len, data_type, window_update_type, ping_type, go_away_type,
}
use net_mux.Protocol.Header
use net_mux.Protocol.Codec.{FrameCodec, decode, decode_payload, payload_len, frame_of}

decode_payload-append :
    (c : FrameCodec) (h : Header) (src more rest : List ℕ) (f : Frame)
    → header_len ≤ length src
    → decode_payload c h src ≡ (rest, ok (some f))
    → decode_payload c h (src ++ more) ≡ (rest ++ more, ok (some f))
unfolding decode_payload
decode_payload-append c h src more rest f long e = ground (
  arith,
  length-append src more,
  length-drop header_len src,
  drop-append_le header_len src more,
  take-append_le (payload_len h) (drop header_len src) more,
  drop-append_le (payload_len h) (drop header_len src) more,
)

decode_payload-append_err :
    (c : FrameCodec) (h : Header) (src more rest : List ℕ) (x : Error)
    → decode_payload c h src ≡ (rest, err x)
    → (rest ≡ src) × (decode_payload c h (src ++ more) ≡ (src ++ more, err x))
unfolding decode_payload
decode_payload-append_err c h src more rest x e = ground arith

decode_payload_waits :
    (c : FrameCodec) (h : Header) (src rest : List ℕ)
    → decode_payload c h src ≡ (rest, ok none)
    → rest ≡ src
unfolding decode_payload
decode_payload_waits c h src rest e = ground arith

-- The number of payload bytes of a frame.
abbrev pub payload_size : Frame → ℕ
payload_size (data_frame id flags payload) = length payload
payload_size _ = 0

payload_size-frame_of :
    (h : Header) (payload : List ℕ)
    → length payload ≡ payload_len h
    → payload_size (frame_of h payload) ≡ payload_len h
unfolding payload_len frame_of
payload_size-frame_of h payload e = ground arith

decode_payload_takes :
    (c : FrameCodec) (h : Header) (src rest : List ℕ) (f : Frame)
    → header_len ≤ length src
    → decode_payload c h src ≡ (rest, ok (some f))
    → (header_len + payload_size f ≤ length src)
      × (rest ≡ drop (payload_size f) (drop header_len src))
      × (payload_size f ≤ c.max_payload)
unfolding decode_payload
decode_payload_takes c h src rest f long e = ground (
  arith,
  payload_size-frame_of h [],
  payload_size-frame_of h (take (payload_len h) (drop header_len src)),
  length-take (payload_len h) (drop header_len src),
  length-drop header_len src,
)

module _ (b : Bitflags) where
  -- Where a call of `decode` stops, or goes on behind the header.
  pub data Stage (c : FrameCodec) (src : List ℕ) : Type 0 where
    short : length src < header_len → decode b c src ≡ (src, ok none) → Stage c src
    bad :
        (x : Error)
        → header_len ≤ length src
        → Header.decode b (take header_len src) ≡ err x
        → decode b c src ≡ (src, err x)
        → Stage c src
    headed :
        (h : Header)
        → header_len ≤ length src
        → Header.decode b (take header_len src) ≡ ok h
        → decode b c src ≡ decode_payload c h src
        → Stage c src

  pub stage : (c : FrameCodec) (src : List ℕ) → Stage c src
  unfolding decode
  stage c src = elim (dec_lt (length src) header_len) [
    | yes less ↦ short less (rw (ltb-true _ _ less))
    | no more ↦
        let long : header_len ≤ length src = omega arith in
        elim (Result-cases (Header.decode b (take header_len src))) [
          | inl (h, e) ↦ headed h long e (rw (ltb-false _ _ long, e))
          | inr (x, e) ↦ bad x long e (rw (ltb-false _ _ long, e))
        ]
  ]

  decode_long :
      (c : FrameCodec) (src more : List ℕ) (h : Header)
      → header_len ≤ length src
      → Header.decode b (take header_len src) ≡ ok h
      → decode b c (src ++ more) ≡ decode_payload c h (src ++ more)
  unfolding decode
  decode_long c src more h long e = rw (
    ltb-false (length (src ++ more)) header_len (omega (arith, length-append src more)),
    take-append_le header_len src more long,
    e,
  )

  decode_bad :
      (c : FrameCodec) (src more : List ℕ) (x : Error)
      → header_len ≤ length src
      → Header.decode b (take header_len src) ≡ err x
      → decode b c (src ++ more) ≡ (src ++ more, err x)
  unfolding decode
  decode_bad c src more x long e = rw (
    ltb-false (length (src ++ more)) header_len (omega (arith, length-append src more)),
    take-append_le header_len src more long,
    e,
  )

  -- A frame that is decoded from a buffer is decoded from every longer buffer too, and the bytes
  -- behind it stay in their order: it does not matter how the transport cuts the stream into reads.
  pub decode-append :
      (c : FrameCodec) (src more rest : List ℕ) (f : Frame)
      → decode b c src ≡ (rest, ok (some f))
      → decode b c (src ++ more) ≡ (rest ++ more, ok (some f))
  decode-append c src more rest f e = elim (stage c src) [
    | short less p ↦ cc
    | bad x long q p ↦ cc
    | headed h long q p ↦
        rw (decode_long c src more h long q)
          (decode_payload-append c h src more rest f long (sym p ∙ e))
  ]

  -- More input does not mend an error, and an error leaves the buffer as it was.
  pub decode-append_err :
      (c : FrameCodec) (src more rest : List ℕ) (x : Error)
      → decode b c src ≡ (rest, err x)
      → (rest ≡ src) × (decode b c (src ++ more) ≡ (src ++ more, err x))
  decode-append_err c src more rest x e = elim (stage c src) [
    | short less p ↦ cc
    | bad y long q p ↦ (
      ap (λ r. r.0) (sym e ∙ p),
      decode_bad c src more y long q ∙ ap (λ r. (src ++ more, r.1)) (sym p ∙ e),
    )
    | headed h long q p ↦
        let (same, kept) = decode_payload-append_err c h src more rest x (sym p ∙ e) in
        (same, decode_long c src more h long q ∙ kept)
  ]

  -- A decoded frame takes its header and its payload off the front of the buffer, no more and no
  -- less, and its payload is within the limit of the codec.
  decode_takes :
      (c : FrameCodec) (src rest : List ℕ) (f : Frame)
      → decode b c src ≡ (rest, ok (some f))
      → (header_len + payload_size f ≤ length src)
        × (rest ≡ drop (payload_size f) (drop header_len src))
        × (payload_size f ≤ c.max_payload)
  decode_takes c src rest f e = elim (stage c src) [
    | short less p ↦ cc
    | bad y long q p ↦ cc
    | headed h long q p ↦ decode_payload_takes c h src rest f long (sym p ∙ e)
  ]

  -- While no frame is complete the buffer is left alone.
  decode_waits :
      (c : FrameCodec) (src rest : List ℕ) → decode b c src ≡ (rest, ok none) → rest ≡ src
  decode_waits c src rest e = elim (stage c src) [
    | short less p ↦ ap (λ r. r.0) (sym e ∙ p)
    | bad y long q p ↦ cc
    | headed h long q p ↦ decode_payload_waits c h src rest (sym p ∙ e)
  ]

  pub decode_shortens :
      (c : FrameCodec) (src rest : List ℕ) (f : Frame)
      → decode b c src ≡ (rest, ok (some f))
      → length rest + header_len ≤ length src
  decode_shortens c src rest f e =
      let t = decode_takes c src rest f e in
      omega (
        arith,
        t.0,
        ap (length {A = ℕ}) t.1,
        length-drop (payload_size f) (drop header_len src),
        length-drop header_len src,
      )

  -- What a call of `decode` can do.
  pub data Outcome (c : FrameCodec) (src : List ℕ) : Type 0 where
    waits : decode b c src ≡ (src, ok none) → Outcome c src
    fails : (x : Error) → decode b c src ≡ (src, err x) → Outcome c src
    yields :
        (rest : List ℕ) (f : Frame)
        → decode b c src ≡ (rest, ok (some f))
        → length rest + header_len ≤ length src
        → Outcome c src

  pub outcome : (c : FrameCodec) (src : List ℕ) → Outcome c src
  outcome c src = go (decode b c src).0 (decode b c src).1 refl
    where
      go : (rest : List ℕ) (r : Result (Option Frame)) → decode b c src ≡ (rest, r) → Outcome c src
      go rest (ok none) e = waits (rw (decode_waits c src rest e) at e)
      go rest (err x) e = fails x (rw (decode-append_err c src [] rest x e).0 at e)
      go rest (ok (some f)) e = yields rest f e (decode_shortens c src rest f e)
