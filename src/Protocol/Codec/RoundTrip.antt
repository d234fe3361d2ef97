-- ===== src/Protocol/Codec/RoundTrip.antt =====
-- FrameCodec::decode against FrameCodec::encode (src/protocol/codec.rs), and the two loops of the
-- test `frame_codec_roundtrip` of the same file.
use net_mux.Base.{
  ℕ, ◌%◌, ◌^◌, ◌≤◌, ◌≡◌, refl, ap, ◌∙◌, List, [], ◌∷◌, ◌++◌, append_assoc, some, none, arith,
  length, IsU32, ltb-false, length-append, take-append, drop-append,
}
use net_mux.Error.{ok, as_u32}
use net_mux.Error.Codes.{IsCanonical, from_u32-as_u32}
use net_mux.Protocol.Frame.{
  Bitflags, known_bits, Frame, data_frame, window_update_frame, ping_frame, go_away_frame,
}
use net_mux.Protocol.Header.{
  Header, header_len, data_type, window_update_type, ping_type, go_away_type,
}
use net_mux.Protocol.Header
use net_mux.Protocol.Header.RoundTrip.{
  IsHeader, length-encode, take-encode, drop-encode, decode-encode as header_decode-encode,
}
use net_mux.Protocol.Codec.{
  FrameCodec, absolute_max_payload, new, decode, decode_payload, encode, parts_of, header_of, Parts,
  payload_bytes, payload_len, frame_of,
}

abbrev pub IsCodec : FrameCodec → Type 0
IsCodec c = c.max_payload ≤ absolute_max_payload

pub new-IsCodec : (n : ℕ) → IsCodec (new n)
unfolding new
new-IsCodec n = omega arith

-- A frame that the codec can carry: its fields have the widths of their types and only known flags,
-- its payload is within the limit, and its error code is canonical.
abbrev pub IsFrame : FrameCodec → Frame → Type 0
IsFrame c (data_frame id flags payload) =
    IsU32 id × (flags.bits ≤ known_bits) × (length payload ≤ c.max_payload)
IsFrame c (window_update_frame id flags delta) = IsU32 id × (flags.bits ≤ known_bits) × IsU32 delta
IsFrame c (ping_frame flags opaque) = (flags.bits ≤ known_bits) × IsU32 opaque
IsFrame c (go_away_frame code) = IsCanonical code × IsU32 (as_u32 code)

-- A payload is cut off whole, and what follows it is left.
decode_payload_written :
    (c : FrameCodec) (h : Header) (payload rest : List ℕ)
    → payload_len h ≡ length payload
    → length payload ≤ c.max_payload
    → decode_payload c h (Header.encode h ++ (payload ++ rest))
      ≡ (rest, ok (some (frame_of h payload)))
unfolding decode_payload
decode_payload_written c h [] rest n fits =
    rw (n, ltb-false c.max_payload 0 fits, drop-encode)
      (ground (arith, length-append (Header.encode h) rest, length-encode h))
decode_payload_written c h (x ∷ xs) rest n fits =
    rw
      (
        n,
        ltb-false c.max_payload (length (x ∷ xs)) fits,
        drop-encode,
        take-append (x ∷ xs) rest,
        drop-append (x ∷ xs) rest,
      )
      (ground (
        arith,
        length-append (Header.encode h) ((x ∷ xs) ++ rest),
        length-append (x ∷ xs) rest,
        length-encode h,
      ))

module _ (b : Bitflags) where
  -- `decode` gets past a header that `encode` wrote.
  decode-header :
      (c : FrameCodec) (h : Header) (tail : List ℕ)
      → IsHeader h
      → decode b c (Header.encode h ++ tail) ≡ decode_payload c h (Header.encode h ++ tail)
  unfolding decode
  decode-header c h tail v = rw (
    ltb-false (length (Header.encode h ++ tail)) header_len
        (omega (arith, length-append (Header.encode h) tail, length-encode h)),
    take-encode h tail,
    header_decode-encode b h v,
  )

  -- The parts of a frame whose payload length fits a u32.
  carried : Frame → Parts
  carried (data_frame id flags payload) = record {
    frame_type = data_type;
    flags = flags;
    stream_id = id;
    length = length payload;
    payload = some payload;
  }
  carried (window_update_frame id flags delta) = record {
    frame_type = window_update_type;
    flags = flags;
    stream_id = id;
    length = delta;
    payload = none;
  }
  carried (ping_frame flags opaque) = record {
    frame_type = ping_type;
    flags = flags;
    stream_id = 0;
    length = opaque;
    payload = none;
  }
  carried (go_away_frame code) = record {
    frame_type = go_away_type;
    flags = b.empty;
    stream_id = 0;
    length = as_u32 code;
    payload = none;
  }

  record Written (c : FrameCodec) (f : Frame) (p : Parts) : Type 0 where
    made : parts_of b c f ≡ ok p
    header : IsHeader (header_of p)
    counted : payload_len (header_of p) ≡ length (payload_bytes p.payload)
    fits : length (payload_bytes p.payload) ≤ c.max_payload
    same : frame_of (header_of p) (payload_bytes p.payload) ≡ f

  -- What `encode` makes of a frame that the codec can carry.
  written : (c : FrameCodec) (f : Frame) → IsCodec c → IsFrame c f → Written c f (carried f)
  unfolding parts_of header_of payload_len frame_of carried
  written c (data_frame id flags payload) k (i, g, n) =
      let small : length payload % 2 ^ 32 ≡ length payload = omega arith in
      record {
        made = rw (ltb-false c.max_payload (length payload) n, small);
        header = record { current = refl; known = g; id_fits = i; length_fits = omega arith };
        counted = refl;
        fits = n;
        same = refl;
      }
  written c (window_update_frame id flags delta) k (i, g, n) = record {
    made = refl;
    header = record { current = refl; known = g; id_fits = i; length_fits = n };
    counted = refl;
    fits = omega arith;
    same = refl;
  }
  written c (ping_frame flags opaque) k (g, n) = record {
    made = refl;
    header = record { current = refl; known = g; id_fits = omega arith; length_fits = n };
    counted = refl;
    fits = omega arith;
    same = refl;
  }
  written c (go_away_frame code) k (g, n) = record {
    made = refl;
    header = record {
      current = refl;
      known = rw b.empty_bits (omega arith);
      id_fits = omega arith;
      length_fits = n;
    };
    counted = refl;
    fits = omega arith;
    same = ap go_away_frame (from_u32-as_u32 code g);
  }

  encode_written :
      (c : FrameCodec) (f : Frame) (dst : List ℕ) {p : Parts}
      → parts_of b c f ≡ ok p
      → encode b c f dst ≡ ((dst ++ Header.encode (header_of p)) ++ payload_bytes p.payload, ok tt)
  unfolding encode
  encode_written c f dst e = rw (e, encode)

  -- `encode` appends to its buffer, and what it appends does not depend on what stood there.
  pub encode-append :
      (c : FrameCodec) (f : Frame) (dst : List ℕ)
      → IsCodec c
      → IsFrame c f
      → encode b c f dst ≡ (dst ++ (encode b c f []).0, ok tt)
  encode-append c f dst k v =
      let made = (written c f k v).made in
      rw (encode_written c f dst made, encode_written c f [] made, append_assoc)

  -- `decode` gives back the frame that `encode` wrote, and leaves what follows it in the buffer.
  pub decode-encode :
      (c : FrameCodec) (f : Frame) (rest : List ℕ)
      → IsCodec c
      → IsFrame c f
      → decode b c ((encode b c f []).0 ++ rest) ≡ (rest, ok (some f))
  decode-encode c f rest k v =
      let w = written c f k v in
      let p = carried f in
      rw
        (
          encode_written c f [] w.made,
          append_assoc,
          decode-header c (header_of p) (payload_bytes p.payload ++ rest) w.header,
        )
        (decode_payload_written c (header_of p) (payload_bytes p.payload) rest w.counted w.fits
          ∙ ap (λ g. (rest, ok (some g))) w.same)
