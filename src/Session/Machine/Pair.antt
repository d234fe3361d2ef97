-- ===== src/Session/Machine/Pair.antt =====
-- Two sessions at the two ends of one connection (src/session): each reader gets, in order, the frames
-- that the codec makes of what the other's writer has put out.
use net_mux.Base.{
  ℕ, suc, ◌≤◌, ◌≡◌, ◌⊎◌, ap, sym, refl, some, List, [], ◌∷◌, ◌++◌, All-right, IsU32, length,
}
use net_mux.Error.{ok, err, protocol}
use net_mux.Config.{Config}
use net_mux.Util.Id.{Role}
use net_mux.Protocol.Frame.{Bitflags, Frame}
use net_mux.Protocol.Codec.{absolute_max_payload, decode_all}
use net_mux.Protocol.Codec.RoundTrip.{IsFrame}
use net_mux.Session.Carried.{codec_of}
use net_mux.Session.Reader.{frame, dispatch}
use net_mux.Session.Reader.Late.{IsLate}
use net_mux.Session.Machine.{Machine, Step, reads, pings, init}
use net_mux.Session.Machine.Proper.{IsProper, Runs, begins, goes_on, Runs-Reach}
use net_mux.Session.Machine.Heard.{hear, heard}
use net_mux.Session.Machine.Peer.{other, decoded-IsFrame, peer_frame-IsLate}

module _ (b : Bitflags) where
  -- What a decoding loop makes of the bytes that are out.
  abbrev pub Yields : Config → Machine → List Frame → Type 0
  Yields config n got =
      (rest : List ℕ) × (decode_all b (suc (length n.sink.written)) (codec_of config) n.sink.written
        ≡ some (rest, got, ok tt))

  -- A reader that has dealt with `got` takes the frame that comes behind these from the other end; it
  -- may find the connection closed or failed at any time. The nonces of the keepalive task are u32s.
  abbrev pub IsFed : Config → Machine → List Frame → {m m' : Machine} → Step b m m' → Type 0
  IsFed config n got (reads (frame f) e) = (more : List Frame) × Yields config n (got ++ f ∷ more)
  IsFed config n got (pings nonce e) = IsU32 nonce
  IsFed config n got _ = Unit {0}

  -- Both ends, and the frames that each reader has dealt with.
  pub data Pair (config config' : Config) (role : Role)
      : Machine → Machine → List Frame → List Frame → Type 0 where
    meet : Pair config config' role (init config role) (init config' (other role)) [] []
    near :
        {m m' n : Machine} {got got' : List Frame}
        → Pair config config' role m n got got'
        → (st : Step b m m') → IsFed config n got st
        → Pair config config' role m' n (hear b st got) got'
    far :
        {m n n' : Machine} {got got' : List Frame}
        → Pair config config' role m n got got'
        → (st : Step b n n') → IsFed config' m got' st
        → Pair config config' role m n' got (hear b st got')

  -- A run of one end, and what its reader has dealt with.
  abbrev End : Config → Role → Machine → List Frame → Type 0
  End config role m got = (r : Runs b config role m) × (heard b (Runs-Reach b r) ≡ got)

  module _ (config config' : Config) (same : config'.max_frame_size ≡ config.max_frame_size)
      (small : config'.max_frame_size ≤ absolute_max_payload) where
    fed-IsProper :
        (role : Role) (n : Machine) (got : List Frame) {m m' : Machine} (st : Step b m m')
        → Runs b config' role n
        → IsFed config n got st
        → IsProper b config st
    fed-IsProper role n got (reads (frame f) e) peer (more, (rest, yields)) =
        let frames =
          decoded-IsFrame b config' role rest (got ++ f ∷ more) small peer (rw same yields) in
        let next = (All-right (IsFrame (codec_of config')) got (f ∷ more) frames).0 in
        rw same at next
    fed-IsProper role n got (pings nonce e) peer h = h
    fed-IsProper role n got _ peer h = tt

    goes :
        (role role' : Role) (n : Machine) (got : List Frame) {m m' : Machine} (st : Step b m m')
        → Runs b config' role' n
        → IsFed config n got st
        → End config role m got
        → End config role m' (hear b st got)
    unfolding heard Runs-Reach
    goes role role' n got st peer h (r, e) =
        (goes_on r st (fed-IsProper role' n got st peer h), ap (hear b st) e)

  module _ (config config' : Config) (role : Role)
      (same : config'.max_frame_size ≡ config.max_frame_size)
      (small : config.max_frame_size ≤ absolute_max_payload) where
    Pair-Runs :
        {m n : Machine} {got got' : List Frame}
        → Pair config config' role m n got got'
        → End config role m got × End config' (other role) n got'
    unfolding heard Runs-Reach
    Pair-Runs meet = ((begins, refl), (begins, refl))
    Pair-Runs (near {n} {got} p st h) =
        let (one, two) = Pair-Runs p in
        (goes config config' same (rw same small) role (other role) n got st two.0 h one, two)
    Pair-Runs (far {m} {got'} p st h) =
        let (one, two) = Pair-Runs p in
        (one, goes config' config (sym same) small (other role) role m got' st one.0 h two)

    -- In every state that two sessions at the two ends of one connection can reach together, each with
    -- its tasks, its users and its calls of `open` in any order, and with connections that may close or
    -- fail at any time: the frame that the reader takes next from what the other end has put out is no
    -- error; but for "data after FIN", which only a data frame without SYN and with payload meets, whose
    -- stream is registered here and can receive no more. Both ends have the same frame size, within the
    -- codec's ceiling, and nonces that are u32s.
    pub Pair-IsLate :
        {m n : Machine} {got got' : List Frame} (f : Frame) (more : List Frame)
        → Pair config config' role m n got got'
        → Yields config n (got ++ f ∷ more)
        → let done = (dispatch b m.session f).1 in
          (done ≡ ok tt) ⊎ ((done ≡ err (protocol "data after FIN")) × IsLate b m.session f)
    Pair-IsLate {m} {n} {got} f more p (rest, yields) =
        let ((r, e), (peer, e')) = Pair-Runs p in
        peer_frame-IsLate b config config' role rest f more (rw same small) (Runs-Reach b r) peer
          (rw (same, e) yields)
