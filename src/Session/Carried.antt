-- ===== src/Session/Carried.antt =====
-- Every frame that a session (src/session) queues is one that the codec of its writer can carry, and a
-- data frame names a stream: its frame size is within the codec's ceiling.
pub mod Streams
use net_mux.Base.{
  ℕ, zero, suc, ◌≤◌, ◌<◌, ◌≡◌, ◌∙◌, refl, sym, subst, Bool, true, false, Option, some, List, [],
  ◌∷◌, ◌++◌, All, All-append, arith, IsU32, Bool-cases, inl, inr, ap, length,
}
use net_mux.Error.{ErrorCode, as_u32}
use net_mux.Error.Codes.{IsCanonical}
use net_mux.Config.{Config}
use net_mux.Protocol.Frame.{Bitflags, Flags, Frame, data_frame, go_away}
use net_mux.Protocol.Codec.{FrameCodec, absolute_max_payload}
use net_mux.Protocol.Codec
use net_mux.Protocol.Codec.RoundTrip.{IsFrame}
use net_mux.Stream.Channel.{Sender, send, Wires}
use net_mux.Stream.Inner.{StreamInner, force_close, Origin}
use net_mux.Stream.Inner
use net_mux.Session.Manager.{drained}
use net_mux.Session.Inner.{
  SessionInner, stream_at, update_at, close_all, initiate_shutdown, send_frame,
}

-- The id of a stream: a u32, and not the 0 of the session.
abbrev pub IsId : ℕ → Type 0
IsId id = IsU32 id × (0 < id)

abbrev pub Named : Frame → Type 0
Named (data_frame id flags payload) = 0 < id
Named _ = Unit {0}

-- A frame that the codec can carry and that the peer takes to one of its streams, if it is for one.
abbrev pub IsSendable : FrameCodec → Frame → Type 0
IsSendable c f = IsFrame c f × Named f

-- A stream of a session with this configuration.
abbrev pub Fits : Config → StreamInner → Type 0
Fits config x = IsId x.id × (x.config ≡ config)

abbrev pub codec_of : Config → FrameCodec
codec_of config = Codec.new config.max_frame_size

abbrev pub Carried : Config → Sender Frame → Type 0
Carried config tx = All (IsSendable (codec_of config)) tx.queue

pub record IsCarried (config : Config) (s : SessionInner) : Type 0 where
  pub queued : Carried config s.wires.out_tx
  pub fit : All (Fits config) s.streams
  pub same : s.config ≡ config

pub send-Carried :
    (config : Config) (tx : Sender Frame) (f : Frame)
    → IsSendable (codec_of config) f
    → Carried config tx
    → Carried config (send tx f).0
send-Carried config tx f h v = elim (Bool-cases tx.alive) [
  | inl a ↦ rw a (All-append (IsSendable (codec_of config)) tx.queue (f ∷ []) v (h, tt))
  | inr a ↦ rw a v
]

-- A frame without payload whose flags are one of the constants.
pub bare-IsSendable :
    (c : FrameCodec) (id n : ℕ)
    → IsId id
    → n ≤ 15
    → IsSendable c (data_frame id (record { bits = n }) [])
bare-IsSendable c id n i h = ((i.0, h, omega arith), i.1)

pub update_at-fit :
    (config : Config) (xs : List StreamInner) (r : ℕ) (f : StreamInner → StreamInner)
    → ((x : StreamInner) → Fits config x → Fits config (f x))
    → All (Fits config) xs
    → All (Fits config) (update_at xs r f)
update_at-fit config [] r f h v = tt
update_at-fit config (x ∷ xs) zero f h v = (h x v.0, v.1)
update_at-fit config (x ∷ xs) (suc r) f h v = (v.0, update_at-fit config xs r f h v.1)

pub stream_at-Fits :
    (config : Config) (xs : List StreamInner) (r : ℕ) {x : StreamInner}
    → stream_at xs r ≡ some x
    → All (Fits config) xs
    → Fits config x
stream_at-Fits config [] r e v = absurd (ground arith)
stream_at-Fits config (y ∷ xs) zero {x} e v =
    let same : y ≡ x = ground (arith, e) in subst (Fits config) same v.0
stream_at-Fits config (y ∷ xs) (suc r) e v = stream_at-Fits config xs r e v.1

pub new-fit :
    (config : Config) (xs : List StreamInner) (id : ℕ) (o : Origin) (c : Config)
    → IsId id
    → c ≡ config
    → All (Fits config) xs
    → All (Fits config) (xs ++ (Inner.new id o c ∷ []))
unfolding Inner.new
new-fit config xs id o c i e v = All-append (Fits config) xs (Inner.new id o c ∷ []) v ((i, e), tt)

close_all-fit :
    (config : Config) (rs : List ℕ) (xs : List StreamInner)
    → All (Fits config) xs
    → All (Fits config) (close_all rs xs)
unfolding close_all force_close
close_all-fit config [] xs v = v
close_all-fit config (r ∷ rs) xs v =
    close_all-fit config rs (update_at xs r force_close)
      (update_at-fit config xs r force_close (λ x h. h) v)

pub send_frame-IsCarried :
    (config : Config) (s : SessionInner) (f : Frame)
    → IsSendable (codec_of config) f
    → IsCarried config s
    → IsCarried config (send_frame s f)
send_frame-IsCarried config s f h v = record {
  queued = send-Carried config s.wires.out_tx f h v.queued;
  fit = v.fit;
  same = v.same;
}

-- The codes that the program makes, and those that come off the wire.
abbrev pub IsCode : ErrorCode → Type 0
IsCode code = IsCanonical code × IsU32 (as_u32 code)

pub initiate_shutdown-IsCarried :
    (config : Config) (s : SessionInner) (code : ErrorCode)
    → IsCode code
    → IsCarried config s
    → IsCarried config (initiate_shutdown s code)
unfolding initiate_shutdown
initiate_shutdown-IsCarried config s code h v = elim (Bool-cases s.is_closing) [
  | inl e ↦ subst (IsCarried config) (ground (arith, e)) v
  | inr e ↦ rw e (record {
    queued = send-Carried config s.wires.out_tx (go_away code) (h, tt) v.queued;
    fit = close_all-fit config (drained s.registry) s.streams v.fit;
    same = v.same;
  })
]
