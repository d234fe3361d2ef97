-- ===== src/Protocol/Codec/Proptest.antt =====
-- The property test of src/protocol/codec.rs (mod proptests): its strategies as a predicate on
-- frames, and its body as a function.
use net_mux.Base.{
  ℕ, suc, ◌<◌, ◌≤◌, ◌≡◌, refl, Bool, true, false, ◌&&◌, none, some, List, [], ◌∷◌, ◌==◌, ==_refl,
  length, All, IsU32, arith, ◌⊎◌, inl, inr,
}
use net_mux.Error.{
  ErrorCode, ok, err, normal, protocol_error, internal_error, flow_control_error, stream_limit,
  invalid_version, code_timeout, unknown, from_u32,
}
use net_mux.Error.Codes.{from_u32-IsCanonical, as_u32-from_u32}
use net_mux.Protocol.Frame.{
  Bitflags, known_bits, flags_ack, Frame, data_frame, window_update_frame, ping_frame,
  go_away_frame,
}
use net_mux.Protocol.Codec.{
  FrameCodec, Decoded, absolute_max_payload, new_max, encode_all, decode_all,
}
use net_mux.Protocol.Codec
use net_mux.Protocol.Codec.RoundTrip.{IsFrame, new-IsCodec}
use net_mux.Protocol.Header.Canonical.{IsByte}
use net_mux.Protocol.Codec.Batch.{decode_all-encode_all}

-- `==` of ErrorCode.
unfoldable same_code : ErrorCode → ErrorCode → Bool
same_code normal normal = true
same_code protocol_error protocol_error = true
same_code internal_error internal_error = true
same_code flow_control_error flow_control_error = true
same_code stream_limit stream_limit = true
same_code invalid_version invalid_version = true
same_code code_timeout code_timeout = true
same_code (unknown m) (unknown n) = m == n
same_code _ _ = false

abbrev same_bytes : List ℕ → List ℕ → Bool
same_bytes [] [] = true
same_bytes (x ∷ xs) (y ∷ ys) = (x == y) && same_bytes xs ys
same_bytes _ _ = false

-- What the test asserts of a frame that has come back.
unfoldable agrees : Frame → Frame → Bool
unfolding same_code
agrees (data_frame i f p) (data_frame j g q) = (i == j) && ((f.bits == g.bits) && same_bytes p q)
agrees (window_update_frame i f d) (window_update_frame j g e) = (i == j) && (d == e)
agrees (ping_frame f o) (ping_frame g p) = (f.bits == g.bits) && (o == p)
agrees (go_away_frame c) (go_away_frame d) = same_code c d
agrees _ _ = false

-- The assertions on `zip` of the two lists.
unfoldable all_agree : List Frame → List Frame → Bool
unfolding agrees
all_agree (f ∷ fs) (g ∷ gs) = agrees f g && all_agree fs gs
all_agree _ _ = true

module _ (b : Bitflags) where
  -- The frames that `arb_frame` generates.
  abbrev pub IsArbFrame : Frame → Type 0
  IsArbFrame (data_frame id flags payload) =
      IsU32 id × (flags.bits ≤ known_bits) × (length payload < 1024) × All IsByte payload
  IsArbFrame (window_update_frame id flags delta) = IsU32 id × (flags ≡ b.empty) × IsU32 delta
  IsArbFrame (ping_frame flags op) = ((flags ≡ flags_ack) ⊎ (flags ≡ b.empty)) × IsU32 op
  IsArbFrame (go_away_frame code) = (c : ℕ) × IsU32 c × (code ≡ from_u32 c)

  -- Where an `unwrap` fails the test fails.
  unfoldable pub frame_codec_roundtrip : List Frame → Bool
  unfolding all_agree
  frame_codec_roundtrip frames =
      let codec = Codec.new absolute_max_payload in
      let encoded = encode_all b codec frames [] in
      elim encoded.1 [
        | err e ↦ false
        | ok _ ↦ elim (decode_all b (suc (length encoded.0)) codec encoded.0) [
          | none ↦ false
          | some d ↦ elim d.2 [
            | err e ↦ false
            | ok _ ↦ (length d.0 == 0) && ((length d.1 == length frames) && all_agree d.1 frames)
          ]
        ]
      ]

  -- What a strategy generates, the codec can carry.
  IsArbFrame-IsFrame : (f : Frame) → IsArbFrame f → IsFrame (Codec.new absolute_max_payload) f
  IsArbFrame-IsFrame (data_frame id flags payload) (i, k, n, bytes) =
      (i, k, omega (arith, new_max absolute_max_payload, n))
  IsArbFrame-IsFrame (window_update_frame id flags delta) (i, e, d) =
      (i, rw (e, b.empty_bits) (omega arith), d)
  IsArbFrame-IsFrame (ping_frame flags op) (inl e, o) = (rw e (omega arith), o)
  IsArbFrame-IsFrame (ping_frame flags op) (inr e, o) = (rw (e, b.empty_bits) (omega arith), o)
  IsArbFrame-IsFrame (go_away_frame code) (c, small, e) =
      rw e (from_u32-IsCanonical c, rw (as_u32-from_u32 c) small)

  All-IsFrame :
      (fs : List Frame) → All IsArbFrame fs → All (IsFrame (Codec.new absolute_max_payload)) fs
  All-IsFrame [] h = tt
  All-IsFrame (f ∷ fs) h = (IsArbFrame-IsFrame f h.0, All-IsFrame fs h.1)

  same_bytes_refl : (xs : List ℕ) → same_bytes xs xs ≡ true
  same_bytes_refl [] = refl
  same_bytes_refl (x ∷ xs) = rw (==_refl x) (same_bytes_refl xs)

  same_code_refl : (c : ErrorCode) → same_code c c ≡ true
  unfolding same_code
  same_code_refl normal = refl
  same_code_refl protocol_error = refl
  same_code_refl internal_error = refl
  same_code_refl flow_control_error = refl
  same_code_refl stream_limit = refl
  same_code_refl invalid_version = refl
  same_code_refl code_timeout = refl
  same_code_refl (unknown n) = ==_refl n

  agrees_refl : (f : Frame) → agrees f f ≡ true
  unfolding agrees
  agrees_refl (data_frame i f p) = rw (==_refl i, ==_refl f.bits) (same_bytes_refl p)
  agrees_refl (window_update_frame i f d) = rw (==_refl i) (==_refl d)
  agrees_refl (ping_frame f o) = rw (==_refl f.bits) (==_refl o)
  agrees_refl (go_away_frame c) = same_code_refl c

  all_agree_refl : (fs : List Frame) → all_agree fs fs ≡ true
  unfolding all_agree
  all_agree_refl [] = refl
  all_agree_refl (f ∷ fs) = rw (agrees_refl f) (all_agree_refl fs)

  -- The test passes on all that its strategies generate: all frames are encoded, all are decoded, the
  -- buffer is empty in the end, and each frame agrees with the one that it was.
  pub frame_codec_roundtrip_lem :
      (frames : List Frame) → All IsArbFrame frames → frame_codec_roundtrip frames ≡ true
  unfolding frame_codec_roundtrip
  frame_codec_roundtrip_lem frames h =
      let codec = Codec.new absolute_max_payload in
      let (sent, got) =
        decode_all-encode_all b codec frames (new-IsCodec absolute_max_payload)
          (All-IsFrame frames h) in
      rw (frame_codec_roundtrip, sent, got, ==_refl (length frames)) (all_agree_refl frames)
