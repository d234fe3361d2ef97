-- ===== src/Protocol/Codec/Batch.antt =====
-- The loops over FrameCodec::encode and FrameCodec::decode of the test `frame_codec_roundtrip`
-- (src/protocol/codec.rs).
use mathlib.Core.Option
use net_mux.Base.{
  ℕ, zero, suc, ◌<◌, ◌≡◌, ◌≢◌, refl, sym, ap, ◌∙◌, List, [], ◌∷◌, ◌++◌, append-nil, append_assoc,
  Option, some, none, arith, length, length-append, All,
}
use net_mux.Error.{Result, ok}
use net_mux.Protocol.Frame.{Bitflags, Frame}
use net_mux.Protocol.Codec.{FrameCodec, decode, encode, decode_all, encode_all, prepend}
use net_mux.Protocol.Codec.RoundTrip.{IsCodec, IsFrame, encode-append, decode-encode}
use net_mux.Protocol.Codec.Framing.{
  waits, fails, yields, outcome, decode-append, decode-append_err, decode_shortens,
}

map-ne-none {ℓ κ} :
    {A : Type ℓ} {B : Type κ} (f : A → B) (o : Option A) → o ≢ none → Option.map f o ≢ none
map-ne-none f none h = absurd (h refl)
map-ne-none f (some a) h = λ e. cc

module _ (b : Bitflags) where
  -- One round of the loop for each frame, and one more: the decoding loop ends on every input.
  pub decode_all_total :
      (fuel : ℕ) (c : FrameCodec) (src : List ℕ)
      → length src < fuel
      → decode_all b fuel c src ≢ none
  unfolding decode_all
  decode_all_total zero c src h = absurd (omega arith)
  decode_all_total (suc fuel) c src h = elim (outcome b c src) [
    | waits e ↦ rw (e, decode_all) (λ p. cc)
    | fails x e ↦ rw (e, decode_all) (λ p. cc)
    | yields rest f e less ↦
        rw (e, decode_all, e)
          (map-ne-none (prepend f) _ (decode_all_total fuel c rest (omega arith)))
  ]

  encode_all_step :
      (c : FrameCodec) (f : Frame) (fs : List Frame) (dst : List ℕ)
      → IsCodec c
      → IsFrame c f
      → encode_all b c (f ∷ fs) dst ≡ encode_all b c fs (dst ++ (encode b c f []).0)
  unfolding encode_all
  encode_all_step c f fs dst k v = let e = encode-append b c f dst k v in rw (e, encode_all, e)

  -- The bytes of a sequence of frames.
  abbrev pub spelling : FrameCodec → List Frame → List ℕ
  spelling c [] = []
  spelling c (f ∷ fs) = (encode b c f []).0 ++ spelling c fs

  encode_all-spelling :
      (c : FrameCodec) (fs : List Frame) (dst : List ℕ)
      → IsCodec c
      → All (IsFrame c) fs
      → encode_all b c fs dst ≡ (dst ++ spelling c fs, ok tt)
  encode_all-spelling c [] dst k v = rw append-nil (unfold encode_all in refl)
  encode_all-spelling c (f ∷ fs) dst k (v, vs) =
      encode_all_step c f fs dst k v
      ∙ encode_all-spelling c fs (dst ++ (encode b c f []).0) k vs
      ∙ ap (λ l. (l, ok tt)) (append_assoc dst _ _)

  pub decode_all-spelling :
      (c : FrameCodec) (fs : List Frame) (fuel : ℕ)
      → IsCodec c
      → All (IsFrame c) fs
      → length (spelling c fs) < fuel
      → decode_all b fuel c (spelling c fs) ≡ some ([], fs, ok tt)
  unfolding decode_all
  decode_all-spelling c fs zero k v h = absurd (omega arith)
  decode_all-spelling c [] (suc fuel) k v h = refl
  decode_all-spelling c (f ∷ fs) (suc fuel) k (v, vs) h =
      let e = decode-encode b c f (spelling c fs) k v in
      rw (
        e,
        decode_all,
        e,
        decode_all-spelling c fs fuel k vs (omega (arith, decode_shortens b c _ _ f e)),
      )

  -- A sequence of frames that is encoded into an empty buffer is decoded again, in order, and nothing
  -- is left in the buffer.
  pub decode_all-encode_all :
      (c : FrameCodec) (fs : List Frame)
      → IsCodec c
      → All (IsFrame c) fs
      → let buf = (encode_all b c fs []).0 in
        ((encode_all b c fs []).1 ≡ ok tt)
        × (decode_all b (suc (length buf)) c buf ≡ some ([], fs, ok tt))
  decode_all-encode_all c fs k v =
      rw (encode_all-spelling c fs [] k v) (refl, decode_all-spelling c fs _ k v (omega arith))

  -- Of a frame that has not arrived whole `decode` says so, and keeps what has arrived.
  decode_truncated :
      (c : FrameCodec) (f : Frame) (front back : List ℕ) (x : ℕ)
      → IsCodec c
      → IsFrame c f
      → (encode b c f []).0 ≡ front ++ (x ∷ back)
      → decode b c front ≡ (front, ok none)
  decode_truncated c f front back x k v e =
      let whole = rw (append-nil, e) at (decode-encode b c f [] k v) in
      elim (outcome b c front) [
        | waits p ↦ p
        | fails y p ↦ cc (whole, (decode-append_err b c front (x ∷ back) front y p).1)
        | yields rest g p less ↦ absurd (
            omega (
              arith,
              ap (λ (r : List ℕ × Result (Option Frame)). length r.0)
                  (sym whole ∙ decode-append b c front (x ∷ back) rest g p),
              length-append rest (x ∷ back),
            ))
      ]
