-- ===== src/Protocol/Header/Canonical.antt =====
-- What Header::decode (src/protocol/header.rs) accepts, against what encode writes.
use net_mux.Base.{
  ℕ, ◌+◌, ◌*◌, ◌/◌, ◌%◌, ◌^◌, ◌<◌, ◌≤◌, ◌≡◌, ◌∙◌, some, List, [], ◌∷◌, arith, length, All, dec_le,
}
use net_mux.Error.{ok}
use net_mux.Protocol.Frame.{Bitflags, known_bits, Flags}
use net_mux.Protocol.Header.{
  Header, FrameType, data_type, window_update_type, ping_type, go_away_type, header_len,
  protocol_version, try_from, as_u8,
}
use net_mux.Protocol.Header
use net_mux.Protocol.Header.RoundTrip.{IsHeader}

abbrev pub IsByte : ℕ → Type 0
IsByte n = n < 256

try_from-as_u8_of : (v : ℕ) (t : FrameType) → try_from v ≡ ok t → as_u8 t ≡ v
unfolding try_from as_u8
try_from-as_u8_of v t e = ground arith

u16_to-from :
    (a c : ℕ) → IsByte a → IsByte c → ((a * 256 + c) / 256 % 256 ≡ a) × ((a * 256 + c) % 256 ≡ c)
u16_to-from a c h k = omega arith

u32_to-from :
    (a c d e : ℕ)
    → IsByte a
    → IsByte c
    → IsByte d
    → IsByte e
    → let n = a * 2 ^ 24 + c * 2 ^ 16 + d * 2 ^ 8 + e in
      (n / 2 ^ 24 % 256 ≡ a)
      × (n / 2 ^ 16 % 256 ≡ c)
      × (n / 2 ^ 8 % 256 ≡ d)
      × (n % 256 ≡ e)
      × (n < 2 ^ 32)
u32_to-from a c d e h k l m = omega arith

module _ (b : Bitflags) where
  flags_of : (n : ℕ) (f : Flags) → b.from_bits n ≡ some f → (f.bits ≡ n) × (n ≤ known_bits)
  flags_of n f e = elim (dec_le n known_bits) [
    | yes h ↦ (ground (arith, b.from_bits_known n h), h)
    | no h ↦ absurd (ground (arith, b.from_bits_unknown n (omega arith)))
  ]

  -- What a header that was accepted has passed.
  record Accepted (v t f0 f1 i0 i1 i2 i3 l0 l1 l2 l3 : ℕ) (h : Header) : Type 0 where
    version_byte : v ≡ protocol_version
    version_field : h.version ≡ v
    known_type : try_from t ≡ ok h.frame_type
    known_flags : b.from_bits (f0 * 256 + f1) ≡ some h.flags
    id_field : h.stream_id ≡ i0 * 2 ^ 24 + i1 * 2 ^ 16 + i2 * 2 ^ 8 + i3
    length_field : h.length ≡ l0 * 2 ^ 24 + l1 * 2 ^ 16 + l2 * 2 ^ 8 + l3

  accepted :
      (v t f0 f1 i0 i1 i2 i3 l0 l1 l2 l3 : ℕ) (h : Header)
      → Header.decode b (v ∷ t ∷ f0 ∷ f1 ∷ i0 ∷ i1 ∷ i2 ∷ i3 ∷ l0 ∷ l1 ∷ l2 ∷ l3 ∷ []) ≡ ok h
      → Accepted v t f0 f1 i0 i1 i2 i3 l0 l1 l2 l3 h
  unfolding Header.decode
  accepted v t f0 f1 i0 i1 i2 i3 l0 l1 l2 l3 h e = ground arith

  -- The header that is read from twelve bytes spells those bytes.
  header_spells :
      (v t f0 f1 i0 i1 i2 i3 l0 l1 l2 l3 : ℕ) (h : Header)
      → let bytes = v ∷ t ∷ f0 ∷ f1 ∷ i0 ∷ i1 ∷ i2 ∷ i3 ∷ l0 ∷ l1 ∷ l2 ∷ l3 ∷ [] in
        All IsByte bytes → Header.decode b bytes ≡ ok h → IsHeader h × (Header.encode h ≡ bytes)
  unfolding Header.encode
  header_spells v t f0 f1 i0 i1 i2 i3 l0 l1 l2 l3 h
        (bv, (bt, (bf0, (bf1, (bi0, (bi1, (bi2, (bi3, (bl0, (bl1, (bl2, (bl3, _)))))))))))) e =
      let a = accepted v t f0 f1 i0 i1 i2 i3 l0 l1 l2 l3 h e in
      let fl = flags_of (f0 * 256 + f1) h.flags a.known_flags in
      let kind = try_from-as_u8_of t h.frame_type a.known_type in
      let f = u16_to-from f0 f1 bf0 bf1 in
      let i = u32_to-from i0 i1 i2 i3 bi0 bi1 bi2 bi3 in
      let l = u32_to-from l0 l1 l2 l3 bl0 bl1 bl2 bl3 in
      let valid : IsHeader h = record {
        current = a.version_field ∙ a.version_byte;
        known = omega (arith, fl.0, fl.1);
        id_fits = omega (arith, a.id_field, i.4);
        length_fits = omega (arith, a.length_field, l.4);
      } in
      (
        valid,
        rw (
          a.version_field, kind, fl.0, a.id_field, a.length_field, f.0, f.1, i.0, i.1, i.2, i.3,
          l.0, l.1, l.2, l.3,
        ),
      )

  pub header_of_bytes :
      (bytes : List ℕ) (h : Header)
      → length bytes ≡ header_len
      → All IsByte bytes
      → Header.decode b bytes ≡ ok h
      → IsHeader h × (Header.encode h ≡ bytes)
  header_of_bytes [] h n bytes e = absurd (omega arith)
  header_of_bytes (v ∷ []) h n bytes e = absurd (omega arith)
  header_of_bytes (v ∷ t ∷ []) h n bytes e = absurd (omega arith)
  header_of_bytes (v ∷ t ∷ f0 ∷ []) h n bytes e = absurd (omega arith)
  header_of_bytes (v ∷ t ∷ f0 ∷ f1 ∷ []) h n bytes e = absurd (omega arith)
  header_of_bytes (v ∷ t ∷ f0 ∷ f1 ∷ i0 ∷ []) h n bytes e = absurd (omega arith)
  header_of_bytes (v ∷ t ∷ f0 ∷ f1 ∷ i0 ∷ i1 ∷ []) h n bytes e = absurd (omega arith)
  header_of_bytes (v ∷ t ∷ f0 ∷ f1 ∷ i0 ∷ i1 ∷ i2 ∷ []) h n bytes e = absurd (omega arith)
  header_of_bytes (v ∷ t ∷ f0 ∷ f1 ∷ i0 ∷ i1 ∷ i2 ∷ i3 ∷ []) h n bytes e = absurd (omega arith)
  header_of_bytes (v ∷ t ∷ f0 ∷ f1 ∷ i0 ∷ i1 ∷ i2 ∷ i3 ∷ l0 ∷ []) h n bytes e = absurd (omega arith)
  header_of_bytes (v ∷ t ∷ f0 ∷ f1 ∷ i0 ∷ i1 ∷ i2 ∷ i3 ∷ l0 ∷ l1 ∷ []) h n bytes e =
      absurd (omega arith)
  header_of_bytes (v ∷ t ∷ f0 ∷ f1 ∷ i0 ∷ i1 ∷ i2 ∷ i3 ∷ l0 ∷ l1 ∷ l2 ∷ []) h n bytes e =
      absurd (omega arith)
  header_of_bytes (v ∷ t ∷ f0 ∷ f1 ∷ i0 ∷ i1 ∷ i2 ∷ i3 ∷ l0 ∷ l1 ∷ l2 ∷ l3 ∷ []) h n bytes e =
      header_spells v t f0 f1 i0 i1 i2 i3 l0 l1 l2 l3 h bytes e
  header_of_bytes (v ∷ t ∷ f0 ∷ f1 ∷ i0 ∷ i1 ∷ i2 ∷ i3 ∷ l0 ∷ l1 ∷ l2 ∷ l3 ∷ x ∷ xs) h n bytes e =
      absurd (omega arith)
