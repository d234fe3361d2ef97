-- ===== src/Tests/Units/Frames.antt =====
-- The unit tests of src/protocol/codec.rs and src/protocol/header.rs.
use net_mux.Base.{
  ℕ, String, Bool, true, false, ◌&&◌, Option, none, some, List, [], ◌∷◌, ◌==◌, ◌*◌, ◌≡◌, refl,
}
use net_mux.Error.{Result, ok, err, protocol, flow_control_error, as_u32, from_u32}
use net_mux.Protocol.Frame.{
  Flags, Frame, data_frame, window_update_frame, ping_frame, go_away_frame, flags_fin, flags_ack,
  fin, window_update, ping, pong, go_away,
}
use net_mux.Protocol.Header.{Header, data_type, protocol_version, as_u8, FrameType, try_from}
use net_mux.Protocol.Header
use net_mux.Protocol.Codec.{decode, encode}
use net_mux.Protocol.Codec
use net_mux.Tests.{bitflags}
use net_mux.Tests.Units.{same_text, same_bytes, all_pass}

-- SYN and ACK together
abbrev syn_ack : Flags
syn_ack = record { bits = 3 }

-- `none` where an `unwrap` panics.
unfoldable roundtrip_one : Frame → Option Frame
roundtrip_one frame =
    let encoded = encode bitflags Codec.default frame [] in
    elim encoded.1 [
      | err e ↦ none
      | ok _ ↦ elim (decode bitflags Codec.default encoded.0).1 [ err e ↦ none | ok f ↦ f ]
    ]

abbrev hello_world : List ℕ
hello_world = 104 ∷ 101 ∷ 108 ∷ 108 ∷ 111 ∷ 44 ∷ 32 ∷ 119 ∷ 111 ∷ 114 ∷ 108 ∷ 100 ∷ []

-- A test that wants a data frame.
abbrev wants_data : ℕ → Flags → List ℕ → Option Frame → Bool
wants_data id flags payload (some (data_frame i f p)) =
    (i == id) && ((f.bits == flags.bits) && same_bytes p payload)
wants_data id flags payload _ = false

unfoldable data_roundtrip : Bool
unfolding roundtrip_one
data_roundtrip = wants_data 7 syn_ack hello_world (roundtrip_one (data_frame 7 syn_ack hello_world))

unfoldable empty_data_roundtrip : Bool
unfolding roundtrip_one
empty_data_roundtrip = wants_data 11 flags_fin [] (roundtrip_one (fin 11))

unfoldable window_update_roundtrip : Bool
unfolding roundtrip_one
window_update_roundtrip = elim (roundtrip_one (window_update bitflags 3 (64 * 1024))) [
  | some f ↦ elim f [
    | window_update_frame id flags delta ↦ (id == 3) && (delta == 64 * 1024)
    | _ ↦ false
  ]
  | none ↦ false
]

abbrev wants_ping : Flags → ℕ → Option Frame → Bool
wants_ping flags opaque (some (ping_frame f o)) = (f.bits == flags.bits) && (o == opaque)
wants_ping flags opaque _ = false

-- 0xCAFE_BABE
abbrev cafe_babe : ℕ
cafe_babe = 3405691582

unfoldable ping_roundtrip : Bool
unfolding roundtrip_one
ping_roundtrip =
    wants_ping bitflags.empty cafe_babe (roundtrip_one (ping bitflags cafe_babe))
    && wants_ping flags_ack cafe_babe (roundtrip_one (pong bitflags cafe_babe))

unfoldable goaway_roundtrip : Bool
unfolding roundtrip_one
goaway_roundtrip = elim (roundtrip_one (go_away flow_control_error)) [
  | some f ↦ elim f [
    | go_away_frame code ↦ elim code [ flow_control_error ↦ true | _ ↦ false ]
    | _ ↦ false
  ]
  | none ↦ false
]

unfoldable partial_decode_returns_none : Bool
partial_decode_returns_none = elim (decode bitflags Codec.default (1 ∷ 0 ∷ 0 ∷ 0 ∷ [])).1 [
  | ok f ↦ elim f [ none ↦ true | some _ ↦ false ]
  | err e ↦ false
]

abbrev too_long_payload : List ℕ
too_long_payload =
    116 ∷ 111 ∷ 111 ∷ 32 ∷ 108 ∷ 111 ∷ 110 ∷ 103 ∷ 32 ∷ 112 ∷ 97 ∷ 121 ∷ 108 ∷ 111 ∷ 97 ∷ 100 ∷ []

unfoldable enforces_max_payload : Bool
enforces_max_payload =
    elim (encode bitflags (Codec.new 8) (data_frame 1 bitflags.empty too_long_payload) []).1 [
      | ok _ ↦ false
      | err e ↦ elim e [ protocol m ↦ true | _ ↦ false ]
    ]

codec_tests_lem :
    all_pass (
      data_roundtrip ∷ empty_data_roundtrip ∷ window_update_roundtrip ∷ ping_roundtrip
      ∷ goaway_roundtrip ∷ partial_decode_returns_none ∷ enforces_max_payload ∷ [])
    ≡ true
unfolding data_roundtrip empty_data_roundtrip window_update_roundtrip ping_roundtrip
    goaway_roundtrip partial_decode_returns_none enforces_max_payload encode decode Codec.default
    Codec.new Header.encode Header.decode as_u32 from_u32
codec_tests_lem = refl

-- The tests of the header. 0xDEAD_BEEF
abbrev dead_beef : ℕ
dead_beef = 3735928559

abbrev same_header : Header → Header → Bool
same_header g h =
    (g.version == h.version)
    && ((as_u8 g.frame_type == as_u8 h.frame_type)
        && ((g.flags.bits == h.flags.bits)
            && ((g.stream_id == h.stream_id) && (g.length == h.length))))

abbrev fails_with : String → Result Header → Bool
fails_with m (err (protocol n)) = same_text m n
fails_with m _ = false

unfoldable roundtrip : Bool
roundtrip =
    let h : Header = record {
      version = protocol_version;
      frame_type = data_type;
      flags = syn_ack;
      stream_id = dead_beef;
      length = 12345;
    } in
    elim (Header.decode bitflags (Header.encode h)) [ ok g ↦ same_header h g | err e ↦ false ]

-- Twelve bytes that start with these two.
abbrev zeros_behind : ℕ → ℕ → List ℕ
zeros_behind v t = v ∷ t ∷ 0 ∷ 0 ∷ 0 ∷ 0 ∷ 0 ∷ 0 ∷ 0 ∷ 0 ∷ 0 ∷ 0 ∷ []

unfoldable rejects_bad_version : Bool
rejects_bad_version =
    fails_with "unsupported protocol version" (Header.decode bitflags (zeros_behind 99 0))

unfoldable rejects_unknown_type : Bool
rejects_unknown_type =
    fails_with "unknown frame type" (Header.decode bitflags (zeros_behind protocol_version 99))

header_tests_lem : all_pass (roundtrip ∷ rejects_bad_version ∷ rejects_unknown_type ∷ []) ≡ true
unfolding roundtrip rejects_bad_version rejects_unknown_type Header.encode Header.decode as_u8
    try_from
header_tests_lem = refl
