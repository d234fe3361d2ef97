-- ===== src/Protocol/Codec.antt =====
-- src/protocol/codec.rs. A `BytesMut` is the list of its bytes; `reserve` changes none of them.
pub mod RoundTrip
pub mod Framing
pub mod Batch
pub mod Chunks
pub mod Canonical
pub mod Proptest
use mathlib.Core.Option
use net_mux.Base.{
  ℕ, zero, suc, ◌+◌, ◌*◌, ◌%◌, ◌^◌, ◌≤◌, ◌≡◌, refl, arith, min, Bool, true, false, Option, none,
  some, List, [], ◌∷◌, ◌++◌, ◌==◌, ◌<◌, ltb, ltb-true, if◌then◌else◌, length, take, drop,
}
use net_mux.Error.{ErrorCode, Result, ok, err, protocol, as_u32, from_u32}
use net_mux.Protocol.Frame.{
  Flags, Bitflags, Frame, data_frame, window_update_frame, ping_frame, go_away_frame,
}
use net_mux.Protocol.Header.{
  Header, FrameType, data_type, window_update_type, ping_type, go_away_type, header_len,
  protocol_version,
}
use net_mux.Protocol.Header

abbrev pub absolute_max_payload : ℕ
absolute_max_payload = 16 * 1024 * 1024

pub record FrameCodec : Type 0 where
  pub max_payload : ℕ  -- u32

unfoldable pub new : ℕ → FrameCodec
new max_payload = record { max_payload = min max_payload absolute_max_payload }

unfoldable pub default : FrameCodec
unfolding new
default = new absolute_max_payload

pub new_max :
    (n : ℕ)
    → ((new n).max_payload ≤ absolute_max_payload)
      × ((new n).max_payload ≡ min n absolute_max_payload)
unfolding new
new_max n = (omega arith, refl)

-- Only a data frame has a payload; the other types use `length` for a value of their own.
unfoldable pub payload_len : Header → ℕ
payload_len h = elim h.frame_type [ data_type ↦ h.length | _ ↦ 0 ]

unfoldable pub frame_of : Header → List ℕ → Frame
frame_of h payload = elim h.frame_type [
  | data_type ↦ data_frame h.stream_id h.flags payload
  | window_update_type ↦ window_update_frame h.stream_id h.flags h.length
  | ping_type ↦ ping_frame h.flags h.length
  | go_away_type ↦ go_away_frame (from_u32 h.length)
]

-- `decode` behind the header: the buffer that is left, and the result.
unfoldable pub decode_payload : FrameCodec → Header → List ℕ → List ℕ × Result (Option Frame)
unfolding payload_len frame_of
decode_payload c h src =
    let n = payload_len h in
    if ltb c.max_payload n
    then (src, err (protocol "frame payload exceeds limit"))
    else if ltb (length src) (header_len + n)
    then (src, ok none)
    else let rest = drop header_len src in
      if n == 0
      then (rest, ok (some (frame_of h [])))
      else (drop n rest, ok (some (frame_of h (take n rest))))

-- What `encode` puts into the header, and the payload.
pub record Parts : Type 0 where
  pub frame_type : FrameType
  pub flags : Flags
  pub stream_id : ℕ
  pub length : ℕ
  pub payload : Option (List ℕ)

unfoldable pub header_of : Parts → Header
header_of p = record {
  version = protocol_version;
  frame_type = p.frame_type;
  flags = p.flags;
  stream_id = p.stream_id;
  length = p.length;
}

abbrev pub payload_bytes : Option (List ℕ) → List ℕ
payload_bytes none = []
payload_bytes (some p) = p

-- What a loop of `decode` leaves: the buffer, the frames, and the error if one ended it.
abbrev pub Decoded : Type 0
Decoded = List ℕ × List Frame × Result (Unit {0})

abbrev pub prepend : Frame → Decoded → Decoded
prepend f d = (d.0, f ∷ d.1, d.2)

module _ (b : Bitflags) where
  unfoldable pub decode : FrameCodec → List ℕ → List ℕ × Result (Option Frame)
  unfolding decode_payload
  decode c src =
      if ltb (length src) header_len
      then (src, ok none)
      else elim (Header.decode b (take header_len src)) [
        | err e ↦ (src, err e)
        | ok h ↦ decode_payload c h src
      ]

  unfoldable pub parts_of : FrameCodec → Frame → Result Parts
  parts_of c (data_frame id flags payload) =
      if ltb c.max_payload (length payload)
      then err (protocol "data payload exceeds limit")
      else ok (record {
        frame_type = data_type;
        flags = flags;
        stream_id = id;
        length = length payload % 2 ^ 32;
        payload = some payload;
      })
  parts_of c (window_update_frame id flags delta) = ok (record {
    frame_type = window_update_type;
    flags = flags;
    stream_id = id;
    length = delta;
    payload = none;
  })
  parts_of c (ping_frame flags opaque) = ok (record {
    frame_type = ping_type;
    flags = flags;
    stream_id = 0;
    length = opaque;
    payload = none;
  })
  parts_of c (go_away_frame code) = ok (record {
    frame_type = go_away_type;
    flags = b.empty;
    stream_id = 0;
    length = as_u32 code;
    payload = none;
  })

  -- The buffer after the call, and the result.
  unfoldable pub encode : FrameCodec → Frame → List ℕ → List ℕ × Result (Unit {0})
  unfolding parts_of header_of
  encode c f dst = elim (parts_of c f) [
    | err e ↦ (dst, err e)
    | ok p ↦ ((dst ++ Header.encode (header_of p)) ++ payload_bytes p.payload, ok tt)
  ]

  -- The first loop of the test `frame_codec_roundtrip`: frames are encoded one after the other, up to
  -- the first that is refused.
  unfoldable pub encode_all : FrameCodec → List Frame → List ℕ → List ℕ × Result (Unit {0})
  unfolding encode
  encode_all c [] dst = (dst, ok tt)
  encode_all c (f ∷ fs) dst =
      let rest = encode_all c fs (encode c f dst).0 in
      elim (encode c f dst).1 [ ok _ ↦ rest | err e ↦ ((encode c f dst).0, err e) ]

  -- Its second loop: frames are decoded until the buffer holds no complete one. `none` means
  -- that the fuel ran out.
  unfoldable pub decode_all : ℕ → FrameCodec → List ℕ → Option Decoded
  unfolding decode
  decode_all zero c src = none
  decode_all (suc fuel) c src =
      let rest = (decode c src).0 in
      elim (decode c src).1 [
        | ok none ↦ some (rest, [], ok tt)
        | err e ↦ some (rest, [], err e)
        | ok (some f) ↦ Option.map (prepend f) (decode_all fuel c rest)
      ]

  pub encode_refuses :
      (c : FrameCodec) (id : ℕ) (flags : Flags) (payload dst : List ℕ)
      → c.max_payload < length payload
      → encode c (data_frame id flags payload) dst
        ≡ (dst, err (protocol "data payload exceeds limit"))
  unfolding encode
  encode_refuses c id flags payload dst h = rw (ltb-true c.max_payload (length payload) h, encode)
