-- ===== src/Protocol/Codec/Canonical.antt =====
-- What FrameCodec::decode (src/protocol/codec.rs) accepts, against what encode writes.
use net_mux.Base.{
  ℕ, ◌+◌, ◌%◌, ◌^◌, ◌≤◌, ◌≡◌, ◌∙◌, refl, sym, ap, subst, Bool, true, false, some, List, [], ◌∷◌,
  ◌++◌, arith, ltb-false, length, length-take, length-drop, take-append-drop, All-take,
  append_assoc, take, drop, All,
}
use net_mux.Error.{ok}
use net_mux.Error.Codes.{from_u32-IsCanonical, as_u32-from_u32}
use net_mux.Protocol.Frame.{Bitflags, Frame, data_frame, window_update_frame}
use net_mux.Protocol.Header.{
  Header, FrameType, data_type, window_update_type, ping_type, go_away_type, header_len,
  protocol_version, try_from, as_u8,
}
use net_mux.Protocol.Header
use net_mux.Protocol.Header.RoundTrip.{IsHeader}
use net_mux.Protocol.Codec.{FrameCodec, decode, encode, decode_payload, payload_len, frame_of}
use net_mux.Protocol.Codec.Framing.{short, bad, headed, stage}
use net_mux.Protocol.Codec.RoundTrip.{IsFrame}
use net_mux.Protocol.Header.Canonical.{IsByte, header_of_bytes}

empty : (xs : List ℕ) → length xs ≡ 0 → xs ≡ []
empty [] e = refl
empty (x ∷ xs) e = absurd (omega arith)

module _ (b : Bitflags) where
  -- The frame that is read behind an accepted header.
  payload_frame :
      (c : FrameCodec) (h : Header) (src rest : List ℕ) (f : Frame)
      → decode_payload c h src ≡ (rest, ok (some f))
      → let n = payload_len h in
        (f ≡ frame_of h (take n (drop header_len src)))
        × (rest ≡ drop n (drop header_len src))
        × (n ≤ c.max_payload)
        × (header_len + n ≤ length src)
  unfolding decode_payload
  payload_frame c h src rest f e = ground arith

  -- Frames with a header field for everything they carry, and none besides.
  abbrev pub is_exact : Frame → Bool
  is_exact (data_frame id flags payload) = true
  is_exact (window_update_frame id flags delta) = true
  is_exact _ = false

  frame_of-IsFrame :
      (c : FrameCodec) (h : Header) (payload : List ℕ)
      → IsHeader h
      → length payload ≡ payload_len h
      → payload_len h ≤ c.max_payload
      → IsFrame c (frame_of h payload)
  unfolding payload_len frame_of
  frame_of-IsFrame c h payload v n fits = go h.frame_type refl v n fits
    where
      go :
          (t : FrameType)
          → h.frame_type ≡ t
          → IsHeader h
          → length payload ≡ payload_len h
          → payload_len h ≤ c.max_payload
          → IsFrame c (frame_of h payload)
      go data_type e v n fits = rw e (v.id_fits, v.known, omega (arith, n, fits))
      go window_update_type e v n fits = rw e (v.id_fits, v.known, v.length_fits)
      go ping_type e v n fits = rw e (v.known, v.length_fits)
      go go_away_type e v n fits =
          rw e (from_u32-IsCanonical h.length, rw (as_u32-from_u32 h.length) v.length_fits)

  encode-frame_of :
      (c : FrameCodec) (h : Header) (payload : List ℕ)
      → IsHeader h
      → length payload ≡ payload_len h
      → payload_len h ≤ c.max_payload
      → is_exact (frame_of h payload) ≡ true
      → (encode b c (frame_of h payload) []).0 ≡ Header.encode h ++ payload
  unfolding payload_len frame_of encode Header.encode
  encode-frame_of c h payload v n fits exact = go h.frame_type refl n fits exact
    where
      len_data : h.frame_type ≡ data_type → payload_len h ≡ h.length
      len_data e = rw e

      len_update : h.frame_type ≡ window_update_type → payload_len h ≡ 0
      len_update e = rw e

      go :
          (t : FrameType)
          → h.frame_type ≡ t
          → length payload ≡ payload_len h
          → payload_len h ≤ c.max_payload
          → is_exact (frame_of h payload) ≡ true
          → (encode b c (frame_of h payload) []).0 ≡ Header.encode h ++ payload
      go data_type e n fits exact =
          let n' : length payload ≡ h.length = n ∙ len_data e in
          let small : length payload % 2 ^ 32 ≡ h.length = omega (arith, n', v.length_fits) in
          rw (
            e,
            encode,
            ltb-false c.max_payload (length payload) (omega (arith, n, fits)),
            small,
            v.current,
          )
      go window_update_type e n fits exact =
          let none_left = empty payload (n ∙ len_update e) in rw (e, none_left, v.current)
      go ping_type e n fits exact = absurd (ground arith)
      go go_away_type e n fits exact = absurd (ground arith)

  record Read (c : FrameCodec) (src rest : List ℕ) (f : Frame) : Type 0 where
    frame : IsFrame c f
    spells : is_exact f ≡ true → (encode b c f []).0 ++ rest ≡ src

  read :
      (c : FrameCodec) (src rest : List ℕ) (f : Frame)
      → All IsByte src
      → decode b c src ≡ (rest, ok (some f))
      → Read c src rest f
  read c src rest f bytes e = elim (stage b c src) [
    | short less p ↦ absurd (ground (arith, p, e))
    | bad y long q p ↦ absurd (ground (arith, p, e))
    | headed h long q p ↦
        let got = payload_frame c h src rest f (sym p ∙ e) in
        let body = drop header_len src in
        let n = payload_len h in
        let exact =
          header_of_bytes b (take header_len src) h
            (omega (arith, length-take header_len src, long)) (All-take IsByte header_len src bytes)
            q in
        let counted : length (take n body) ≡ n =
          omega (arith, length-take n body, got.3, length-drop header_len src) in
        record {
          frame =
              subst (IsFrame c) (sym got.0)
                (frame_of-IsFrame c h (take n body) exact.0 counted got.2);
          spells = λ x. rw (
            got.0,
            got.1,
            encode-frame_of c h (take n body) exact.0 counted got.2 (ap is_exact (sym got.0) ∙ x),
            append_assoc,
            take-append-drop n body,
            exact.1,
            take-append-drop header_len src,
          );
        }
  ]

  -- Every frame that is decoded from bytes is one that the codec can carry: its fields have the widths
  -- of their types and only known flags, its payload is within the limit, and its error code is
  -- canonical.
  pub decode-IsFrame :
      (c : FrameCodec) (src rest : List ℕ) (f : Frame)
      → All IsByte src
      → decode b c src ≡ (rest, ok (some f))
      → IsFrame c f
  decode-IsFrame c src rest f bytes e = (read c src rest f bytes e).frame

  -- The bytes that a data frame or a window update was decoded from are those that `encode` writes
  -- for it, followed by the bytes that `decode` leaves.
  pub encode-decode :
      (c : FrameCodec) (src rest : List ℕ) (f : Frame)
      → All IsByte src
      → decode b c src ≡ (rest, ok (some f))
      → is_exact f ≡ true
      → (encode b c f []).0 ++ rest ≡ src
  encode-decode c src rest f bytes e exact = (read c src rest f bytes e).spells exact
