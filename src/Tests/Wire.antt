-- ===== src/Tests/Wire.antt =====
-- Frames on the wire.
use net_mux.Base.{
  true, ℕ, suc, ◌≡◌, ◌≢◌, refl, none, some, List, [], ◌∷◌, ◌++◌, length, take, All, arith,
}
use net_mux.Error.{ok, err, protocol, normal, as_u32, from_u32}
use net_mux.Protocol.Frame.{
  Frame, data_frame, window_update_frame, go_away_frame, flags_syn, flags_fin,
}
use net_mux.Protocol.Header.{header_len}
use net_mux.Protocol.Header
use net_mux.Protocol.Codec.{FrameCodec, decode, encode, encode_all, decode_all}
use net_mux.Protocol.Codec.RoundTrip.{IsFrame}
use net_mux.Protocol.Codec.Chunks.{decode_chunks, decode_buffer, decode_chunks-buffer}
use net_mux.Protocol.Header.Canonical.{IsByte}
use net_mux.Protocol.Codec.Canonical.{decode-IsFrame, encode-decode}
use net_mux.Protocol.Codec.Batch.{decode_all_total, decode_all-encode_all}
use net_mux.Protocol.Codec.Proptest.{IsArbFrame, frame_codec_roundtrip, frame_codec_roundtrip_lem}
use net_mux.Tests.{bitflags, no_flags}

abbrev codec : FrameCodec
codec = record { max_payload = 4 }

abbrev hello : Frame
hello = data_frame 3 flags_syn (104 ∷ 105 ∷ [])

abbrev hello_bytes : List ℕ
hello_bytes = 1 ∷ 0 ∷ 0 ∷ 1 ∷ 0 ∷ 0 ∷ 0 ∷ 3 ∷ 0 ∷ 0 ∷ 0 ∷ 2 ∷ 104 ∷ 105 ∷ []

encodes_hello : (encode bitflags codec hello []).0 ≡ hello_bytes
unfolding encode Header.encode
encodes_hello = refl

decodes_hello : decode bitflags codec (hello_bytes ++ (9 ∷ [])) ≡ (9 ∷ [], ok (some hello))
unfolding decode Header.decode
decodes_hello = refl

hello-IsFrame : IsFrame codec hello
hello-IsFrame = (omega arith, omega arith, omega arith)

hello_bytes-IsByte : All IsByte (hello_bytes ++ (9 ∷ []))
hello_bytes-IsByte = ground arith

decode-IsFrame_example : IsFrame codec hello
decode-IsFrame_example =
    decode-IsFrame bitflags codec (hello_bytes ++ (9 ∷ [])) (9 ∷ []) hello hello_bytes-IsByte
      decodes_hello

encode-decode_example : (encode bitflags codec hello []).0 ++ (9 ∷ []) ≡ hello_bytes ++ (9 ∷ [])
encode-decode_example =
    encode-decode bitflags codec (hello_bytes ++ (9 ∷ [])) (9 ∷ []) hello hello_bytes-IsByte
      decodes_hello refl

-- The bytes of one frame in two pieces, cut in its payload, and the start of another frame.
decode_chunks-buffer_example :
    decode_chunks bitflags codec [] (take 13 hello_bytes ∷ (105 ∷ 1 ∷ 0 ∷ []) ∷ [])
    ≡ decode_buffer bitflags codec (hello_bytes ++ (1 ∷ 0 ∷ []))
decode_chunks-buffer_example =
    decode_chunks-buffer bitflags codec (take 13 hello_bytes ∷ (105 ∷ 1 ∷ 0 ∷ []) ∷ [])

decodes_chunks :
    decode_buffer bitflags codec (hello_bytes ++ (1 ∷ 0 ∷ [])) ≡ (1 ∷ 0 ∷ [], hello ∷ [], ok tt)
unfolding decode_buffer decode_all decode Header.decode
decodes_chunks = refl

-- A frame of an unknown version.
abbrev foreign : List ℕ
foreign = 2 ∷ 0 ∷ 0 ∷ 1 ∷ 0 ∷ 0 ∷ 0 ∷ 3 ∷ 0 ∷ 0 ∷ 0 ∷ 0 ∷ []

rejects_foreign :
    decode bitflags codec foreign ≡ (foreign, err (protocol "unsupported protocol version"))
unfolding decode Header.decode
rejects_foreign = refl

abbrev traffic : List Frame
traffic =
    hello
    ∷ window_update_frame 3 no_flags 70000
    ∷ data_frame 3 flags_fin []
    ∷ go_away_frame normal
    ∷ []

traffic-IsFrame : All (IsFrame codec) traffic
unfolding as_u32
traffic-IsFrame =
    let fits : IsFrame codec (go_away_frame normal) = (tt, omega arith) in
    (
      hello-IsFrame,
      (
        (omega arith, omega arith, omega arith),
        ((omega arith, omega arith, omega arith), (fits, tt)),
      ),
    )

decode_all-encode_all_example :
    let buf = (encode_all bitflags codec traffic []).0 in
    ((encode_all bitflags codec traffic []).1 ≡ ok tt)
    × (decode_all bitflags (suc (length buf)) codec buf ≡ some ([], traffic, ok tt))
decode_all-encode_all_example =
    decode_all-encode_all bitflags codec traffic (omega arith) traffic-IsFrame

decode_all_total_example : decode_all bitflags 15 codec (hello_bytes ++ []) ≢ none
decode_all_total_example = decode_all_total bitflags 15 codec (hello_bytes ++ []) (omega arith)

abbrev cut_bytes : List ℕ
cut_bytes = 1 ∷ 0 ∷ 0 ∷ 1 ∷ 0 ∷ 0 ∷ 0 ∷ 3 ∷ 0 ∷ 0 ∷ 0 ∷ 2 ∷ 104 ∷ []

traffic-IsArbFrame : All (IsArbFrame bitflags) traffic
unfolding from_u32
traffic-IsArbFrame = (
  (omega arith, omega arith, omega arith, ground arith),
  (
    (omega arith, refl, omega arith),
    ((omega arith, omega arith, omega arith, tt), ((0, omega arith, refl), tt)),
  ),
)

traffic_roundtrips : frame_codec_roundtrip bitflags traffic ≡ true
traffic_roundtrips = frame_codec_roundtrip_lem bitflags traffic traffic-IsArbFrame
