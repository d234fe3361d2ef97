-- ===== src/Protocol/Header.antt =====
-- src/protocol/header.rs. A byte array is the list of its bytes.
pub mod RoundTrip
pub mod Canonical
use net_mux.Base.{
  ℕ, ◌≡◌, List, [], ◌∷◌, ◌++◌, ◌==◌, if◌then◌else◌, get_or, u16_to_be_bytes, u32_to_be_bytes,
  u16_from_be_bytes, u32_from_be_bytes,
}
use net_mux.Error.{Result, ok, err, protocol, ◌>>=◌, ◌>>◌, ensure, ok_or}
use net_mux.Protocol.Frame.{Flags, Bitflags}

abbrev pub protocol_version : ℕ
protocol_version = 1

abbrev pub header_len : ℕ
header_len = 12

pub data FrameType : Type 0 where
  data_type window_update_type ping_type go_away_type : FrameType

-- `as u8`, by the declared discriminants
unfoldable pub as_u8 : FrameType → ℕ
as_u8 data_type = 0
as_u8 window_update_type = 1
as_u8 ping_type = 2
as_u8 go_away_type = 3

-- `TryFrom<u8> for FrameType`
unfoldable pub try_from : ℕ → Result FrameType
try_from value =
    if value == 0
    then ok data_type
    else if value == 1
    then ok window_update_type
    else if value == 2
    then ok ping_type
    else if value == 3
    then ok go_away_type
    else err (protocol "unknown frame type")

pub record Header : Type 0 where
  pub version : ℕ  -- u8
  pub frame_type : FrameType
  pub flags : Flags
  pub stream_id : ℕ  -- u32
  pub length : ℕ  -- u32

-- The twelve bytes that `Header::encode` writes to its array.
unfoldable pub encode : Header → List ℕ
unfolding as_u8
encode h =
    h.version ∷ as_u8 h.frame_type ∷ u16_to_be_bytes h.flags.bits
    ++ (u32_to_be_bytes h.stream_id ++ u32_to_be_bytes h.length)

module _ (b : Bitflags) where
  -- The argument has `header_len` bytes, so no index is out of bounds.
  unfoldable pub decode : List ℕ → Result Header
  unfolding try_from
  decode bytes = do
    let byte = λ (i : ℕ). get_or bytes i 0
    let version = byte 0
    ensure (version == protocol_version) (protocol "unsupported protocol version")
    frame_type ← try_from (byte 1)
    flags ← ok_or (b.from_bits (u16_from_be_bytes (byte 2) (byte 3))) (protocol "unknown flag bits")
    ok (record {
      version = version;
      frame_type = frame_type;
      flags = flags;
      stream_id = u32_from_be_bytes (byte 4) (byte 5) (byte 6) (byte 7);
      length = u32_from_be_bytes (byte 8) (byte 9) (byte 10) (byte 11);
    })
