-- ===== src/Protocol/Header/RoundTrip.antt =====
-- Header::decode against Header::encode (src/protocol/header.rs).
use net_mux.Base.{
  ℕ, ◌≤◌, ◌≡◌, refl, List, ◌++◌, arith, length, take, drop, IsU32, u16_from-to, u32_from-to,
}
use net_mux.Error.{ok}
use net_mux.Protocol.Frame.{Bitflags, known_bits}
use net_mux.Protocol.Header.{
  Header, FrameType, data_type, window_update_type, ping_type, go_away_type, header_len,
  protocol_version, as_u8, try_from, encode, decode,
}

-- What the types of the source and `decode` allow in a header.
pub record IsHeader (h : Header) : Type 0 where
  pub current : h.version ≡ protocol_version
  pub known : h.flags.bits ≤ known_bits
  pub id_fits : IsU32 h.stream_id
  pub length_fits : IsU32 h.length

try_from-as_u8 : (t : FrameType) → try_from (as_u8 t) ≡ ok t
unfolding try_from as_u8
try_from-as_u8 data_type = refl
try_from-as_u8 window_update_type = refl
try_from-as_u8 ping_type = refl
try_from-as_u8 go_away_type = refl

pub length-encode : (h : Header) → length (encode h) ≡ header_len
unfolding encode
length-encode h = refl

pub take-encode : (h : Header) (rest : List ℕ) → take header_len (encode h ++ rest) ≡ encode h
unfolding encode
take-encode h rest = refl

pub drop-encode : (h : Header) (rest : List ℕ) → drop header_len (encode h ++ rest) ≡ rest
unfolding encode
drop-encode h rest = refl

module _ (b : Bitflags) where
  -- `decode` reads back every header that `encode` can be given.
  pub decode-encode : (h : Header) → IsHeader h → decode b (encode h) ≡ ok h
  unfolding decode encode
  decode-encode h v = rw (
    v.current,
    try_from-as_u8 h.frame_type,
    u16_from-to h.flags.bits (omega arith),
    b.from_bits_known h.flags.bits v.known,
    u32_from-to h.stream_id v.id_fits,
    u32_from-to h.length v.length_fits,
  )
