-- ===== src/Session/Machine/Peer.antt =====
-- Two sessions on one connection (src/session): what the writer of one has put out, under any
-- interleaving there, the reader of the other gets, under any interleaving here.
use mathlib.Core.List.{Sublistᴰ}
use mathlib.Core.List.Sublistᴰ
use net_mux.Base.{
  ℕ, suc, ◌<◌, ◌≤◌, ◌≡◌, ◌≢◌, ◌∙◌, sym, refl, true, false, some, ◌⊎◌, subst, List, [], ◌∷◌, ◌++◌,
  arith, All, append-nil, All-right, All-Sublist, All-map, length,
}
use net_mux.Error.{ok, err, protocol}
use net_mux.Config.{Config}
use net_mux.Util.Id.{Role, client, server, owns}
use net_mux.Protocol.Frame.{Bitflags, Frame, Flags, flags_syn, data_frame}
use net_mux.Protocol.Codec
use net_mux.Protocol.Codec.{absolute_max_payload, decode_all}
use net_mux.Protocol.Codec.RoundTrip.{IsFrame, new-IsCodec}
use net_mux.Session.Announce.{syns, syns-append, syns-Sublist, syn_of}
use net_mux.Session.Reader.{dispatch}
use net_mux.Session.Reader.Accept.{fresh_syn-ok}
use net_mux.Session.Writer.Failure.{front_decodes}
use net_mux.Session.Carried.{Named, IsSendable, codec_of}
use net_mux.Session.Reader.Late.{IsLate, dispatch_late}
use net_mux.Session.Machine.{Machine, Reach}
use net_mux.Session.Machine.Apart.{Distinct, Distinct-Sublist}
use net_mux.Session.Machine.Ids.{Reach-Inv}
use net_mux.Session.Machine.Says.{queued_syns}
use net_mux.Session.Machine.Sent.{sent_of, Reach-Spelt}
use net_mux.Session.Machine.Syns.{Reach-Said}
use net_mux.Session.Machine.Proper.{Runs, Runs-Reach}
use net_mux.Session.Machine.Decodes.{Runs-Fit, carries}
use net_mux.Session.Machine.Heard.{heard, Reach-Known}

-- The role of the other end.
abbrev pub other : Role → Role
other client = server
other server = client

other-owns :
    (role : Role) (id : ℕ) → owns (other role) id ≡ true → (owns role id ≡ false) × (0 < id)
unfolding owns
other-owns client id h = ground arith
other-owns server id h = ground arith

-- In a list with no id twice, what stands in front of an id is not that id.
Distinct-front : (xs ys : List ℕ) (x : ℕ) → Distinct (xs ++ x ∷ ys) → All (λ y. y ≢ x) xs
Distinct-front [] ys x d = tt
Distinct-front (z ∷ xs) ys x d =
    (λ e. (All-right (λ y. y ≢ z) xs (x ∷ ys) d.0).0 (sym e), Distinct-front xs ys x d.1)

module _ (b : Bitflags) where
  module _ (config : Config) (role : Role) {n : Machine} (rest : List ℕ) (got : List Frame)
      (small : config.max_frame_size ≤ absolute_max_payload) (r : Runs b config role n)
      (e : decode_all b
          (suc (length n.sink.written))
          (Codec.new config.max_frame_size)
          n.sink.written
        ≡ some (rest, got, ok tt)) where
    -- What the decoder of a peer makes of the bytes that are out.
    decoded-Sublist : Sublistᴰ got (sent_of b (Runs-Reach b r))
    decoded-Sublist =
        let reach = Runs-Reach b r in
        let sent = sent_of b reach in
        let good = carries b config small sent (Runs-Fit b config small role r).good in
        let (rest', got', part, e') =
          front_decodes b (Codec.new config.max_frame_size) sent n.sink.written n.sink.buffer
            (new-IsCodec config.max_frame_size) good (Reach-Spelt b config role reach).spelt in
        let same : got' ≡ got = ground (arith, e, e') in subst (λ g. Sublistᴰ g sent) same part

    pub decoded-IsFrame : All (IsFrame (codec_of config)) got
    decoded-IsFrame =
        All-map (IsSendable (codec_of config)) got (λ f h. h.0)
          (All-Sublist (IsSendable (codec_of config)) decoded-Sublist
            (Runs-Fit b config small role r).good)

    decoded-Named : All Named got
    decoded-Named =
        All-map (IsSendable (codec_of config)) got (λ f h. h.1)
          (All-Sublist (IsSendable (codec_of config)) decoded-Sublist
            (Runs-Fit b config small role r).good)

    decoded-Syns : All (λ id. owns role id ≡ true) (syns got) × Distinct (syns got)
    decoded-Syns =
        let said = Reach-Said b config role (Runs-Reach b r) in
        let fronted =
          Sublistᴰ.append (syns-Sublist decoded-Sublist)
            (Sublistᴰ.nil-sublist (queued_syns n.session)) in
        let within = rw (append-nil (syns got)) at fronted in
        (
          All-Sublist (λ id. owns role id ≡ true) within said.apart.ours,
          Distinct-Sublist within said.apart.once,
        )

  -- A SYN that comes next from the peer is no error: not for its parity, nor for an id that is in use,
  -- nor for its payload.
  peer_syn-ok :
      (config config' : Config) (role : Role) {m n : Machine} (rest : List ℕ) (more : List Frame)
      (id : ℕ) (flags : Flags) (payload : List ℕ)
      → config'.max_frame_size ≤ absolute_max_payload
      → (r : Reach b config role m) → Runs b config' (other role) n
      → decode_all b (suc (length n.sink.written)) (Codec.new config'.max_frame_size) n.sink.written
        ≡ some (rest, heard b r ++ data_frame id flags payload ∷ more, ok tt)
      → b.contains flags flags_syn ≡ true
      → (dispatch b m.session (data_frame id flags payload)).1 ≡ ok tt
  unfolding syns syn_of
  peer_syn-ok config config' role {m} rest more id flags payload small r peer e syn =
      let got = heard b r in
      let f = data_frame id flags payload in
      let (ours, once) = decoded-Syns config' (other role) rest (got ++ f ∷ more) small peer e in
      let said : syns (got ++ f ∷ more) ≡ syns got ++ id ∷ syns more =
        syns-append got (f ∷ more) ∙ rw (← b.contains_bits flags flags_syn, syn) refl in
      let own =
        (All-right (λ i. owns (other role) i ≡ true) (syns got) (id ∷ syns more)
          (rw said at ours)).0 in
      let (theirs, pos) = other-owns role id own in
      let unsaid = Distinct-front (syns got) (syns more) id (rw said at once) in
      let new = (Reach-Known b config role r).new id theirs unsaid in
      let same = (Reach-Inv b config role r).same_role in
      fresh_syn-ok b m.session id flags payload pos syn (rw same theirs) new

  -- Two ends of a connection, each in any state that its tasks, its users and its calls of `open` can
  -- reach; the peer has a frame size within the codec's ceiling, its own reader gets only frames that
  -- came through a decoder, and its nonces are u32s. If a decoding loop with the peer's limit makes of
  -- the bytes that the peer has put out the frames that the reader here has dealt with, one more, and
  -- more, then that one is no error here, a SYN least of all; but for the error "data after FIN",
  -- which only a data frame with payload meets, whose stream is registered here and can receive no
  -- more.
  pub peer_frame-IsLate :
      (config config' : Config) (role : Role) {m n : Machine} (rest : List ℕ) (f : Frame)
      (more : List Frame)
      → config'.max_frame_size ≤ absolute_max_payload
      → (r : Reach b config role m) → Runs b config' (other role) n
      → decode_all b (suc (length n.sink.written)) (Codec.new config'.max_frame_size) n.sink.written
        ≡ some (rest, heard b r ++ f ∷ more, ok tt)
      → let done = (dispatch b m.session f).1 in
        (done ≡ ok tt) ⊎ ((done ≡ err (protocol "data after FIN")) × IsLate b m.session f)
  peer_frame-IsLate config config' role {m} {n} rest f more small r peer e =
      let got = heard b r in
      let named = decoded-Named config' (other role) rest (got ++ f ∷ more) small peer e in
      let next = (All-right Named got (f ∷ more) named).0 in
      dispatch_late b m.session f next (λ id flags payload same syn.
        let first = subst (λ g. decoded (got ++ g ∷ more)) same e in
        let fine =
          peer_syn-ok config config' role rest more id flags payload small r peer first syn in
        subst (λ g. (dispatch b m.session g).1 ≡ ok tt) (sym same) fine)
    where
      decoded : List Frame → Type 0
      decoded got =
          decode_all b (suc (length n.sink.written)) (Codec.new config'.max_frame_size)
            n.sink.written
          ≡ some (rest, got, ok tt)
