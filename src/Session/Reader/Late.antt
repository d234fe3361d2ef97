-- ===== src/Session/Reader/Late.antt =====
-- The one error that a data frame for a stream can be (src/session/reader.rs): payload behind the end
-- of what the stream receives.
use net_mux.Base.{
  ℕ, ◌≡◌, ◌⊎◌, refl, Bool, true, false, some, List, ◌==◌, Bool-cases, Option-cases, inl, inr,
  is_nil, ==_false, if◌then◌else◌,
}
use net_mux.Error.{Result, ok, err, protocol}
use net_mux.Protocol.Frame.{
  Frame, Flags, Bitflags, data_frame, window_update_frame, ping_frame, go_away_frame, flags_syn,
  flags_ack,
}
use net_mux.Stream.Channel.{Wires}
use net_mux.Stream.Inner.{StreamInner, can_recv, mark_acked}
use net_mux.Session.Manager.{get}
use net_mux.Session.Inner.{SessionInner, stream_at}
use net_mux.Session.Carried.{Named}
use net_mux.Session.Reader.{dispatch, handle_data, to_stream, receive}

acked-can_recv :
    (c : Bool) (x : StreamInner) → can_recv (if c then mark_acked x else x) ≡ can_recv x
unfolding mark_acked can_recv
acked-can_recv true x = refl
acked-can_recv false x = refl

module _ (b : Bitflags) where
  -- A data frame without SYN and with payload, for a stream that is registered and can receive no more.
  pub record IsLate (s : SessionInner) (f : Frame) : Type 0 where
    pub id : ℕ
    pub flags : Flags
    pub payload : List ℕ
    pub place : ℕ
    pub stream : StreamInner
    pub same : f ≡ data_frame id flags payload
    pub entry : get s.registry id ≡ some place
    pub there : stream_at s.streams place ≡ some stream
    pub ended : can_recv stream ≡ false
    pub bytes : is_nil payload ≡ false
    pub plain : b.contains flags flags_syn ≡ false

  -- The outcome is no error, or the one for late data.
  abbrev pub MayBeLate : SessionInner → Frame → Result (Unit {0}) → Type 0
  MayBeLate s f r = (r ≡ ok tt) ⊎ ((r ≡ err (protocol "data after FIN")) × IsLate s f)

  receive_late :
      (x : StreamInner) (w : Wires) (flags : Flags) (payload : List ℕ)
      → ((receive b x w flags payload).1 ≡ ok tt)
        ⊎ (((receive b x w flags payload).1 ≡ err (protocol "data after FIN"))
            × (can_recv x ≡ false)
            × (is_nil payload ≡ false))
  unfolding receive
  receive_late x w flags payload =
      let same = acked-can_recv (b.contains flags flags_ack) x in
      elim (Bool-cases (is_nil payload)) [
        | inl e ↦ inl (rw e refl)
        | inr e ↦ elim (Bool-cases (can_recv x)) [
          | inl c ↦ inl (rw (e, same, c) refl)
          | inr c ↦ inr (rw (e, same, c) refl, c, e)
        ]
      ]

  to_stream_late :
      (s : SessionInner) (id : ℕ) (flags : Flags) (payload : List ℕ)
      → b.contains flags flags_syn ≡ false
      → MayBeLate s (data_frame id flags payload) (to_stream b s id flags payload).1
  unfolding to_stream
  to_stream_late s id flags payload plain = elim (Option-cases (get s.registry id)) [
    | inl e ↦ inl (rw (to_stream, e) refl)
    | inr (r, e) ↦ elim (Option-cases (stream_at s.streams r)) [
      | inl e1 ↦ inl (rw (to_stream, e, e1) refl)
      | inr (x, e1) ↦ elim (receive_late x s.wires flags payload) [
        | inl o ↦ inl (rw (to_stream, e, e1) o)
        | inr (o, ended, bytes) ↦ inr (
          rw (to_stream, e, e1) o,
          record {
            id = id;
            flags = flags;
            payload = payload;
            place = r;
            stream = x;
            same = refl;
            entry = e;
            there = e1;
            ended = ended;
            bytes = bytes;
            plain = plain;
          },
        )
      ]
    ]
  ]

  -- A frame that names a stream if it is for one, and that is no error if it has SYN.
  pub dispatch_late :
      (s : SessionInner) (f : Frame)
      → Named f
      → ((id : ℕ) (flags : Flags) (payload : List ℕ)
          → f ≡ data_frame id flags payload
          → b.contains flags flags_syn ≡ true
          → (dispatch b s f).1 ≡ ok tt)
      → MayBeLate s f (dispatch b s f).1
  unfolding dispatch handle_data
  dispatch_late s (data_frame id flags payload) pos opens =
      elim (Bool-cases (b.contains flags flags_syn)) [
        | inl e ↦ inl (opens id flags payload refl e)
        | inr e ↦
            let nonzero : (id == 0) ≡ false = ==_false id 0 pos in
            rw (nonzero, e) (to_stream_late s id flags payload e)
      ]
  dispatch_late s (window_update_frame id flags d) pos opens =
      elim (Option-cases (get s.registry id)) [
        | inl e ↦ inl (rw (dispatch, e) refl)
        | inr (r, e) ↦ inl (rw (dispatch, e) refl)
      ]
  dispatch_late s (ping_frame flags o) pos opens = elim (Bool-cases (b.contains flags flags_ack)) [
    | inl e ↦ inl (rw e refl)
    | inr e ↦ inl (rw e refl)
  ]
  dispatch_late s (go_away_frame code) pos opens = inl refl
