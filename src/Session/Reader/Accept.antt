-- ===== src/Session/Reader/Accept.antt =====
-- How the peer opens a stream, and when that is refused (src/session/reader.rs).
use net_mux.Base.{
  ℕ, ◌<◌, ◌≤◌, ◌≡◌, ◌⊎◌, ◌∙◌, refl, ap, true, false, none, some, List, [], ◌∷◌, ◌++◌, ◌==◌,
  if◌then◌else◌, arith, length, leb, ==_false, Bool-cases, inl, inr,
}
use net_mux.Error.{ok, err, protocol}
use net_mux.Util.Id.{owns}
use net_mux.Protocol.Frame.{Flags, Bitflags, data_frame, rst, flags_syn}
use net_mux.Stream.Channel.{Sender, send, send_out}
use net_mux.Stream.Recv.Fifo.{contents}
use net_mux.Stream.Recv
use net_mux.Stream.State
use net_mux.Stream.Inner.{StreamInner, remote, can_recv}
use net_mux.Stream.Inner
use net_mux.Session.Manager.{get, len}
use net_mux.Session.Manager.Map.{get_new, insert_new}
use net_mux.Session.Inner.{SessionInner, stream_at}
use net_mux.Session.Inner.Store.{stream_at-last}
use net_mux.Session.Reader.{dispatch, handle_data, to_stream, open_remote, receive}
use net_mux.Session.Reader.Delivery.{received, to_stream_known, updated}

-- The session with a new stream registered, before its first frame is handed on.
unfoldable pub opened : SessionInner → ℕ → SessionInner
opened s id = record s {
  streams = s.streams ++ (Inner.new id remote s.config ∷ []);
  registry = (id, length s.streams) ∷ s.registry;
  accept_tx = (send s.accept_tx (length s.streams)).0;
}

pub open_remote_opens :
    (s : SessionInner) (id : ℕ)
    → owns s.role id ≡ false
    → s.peer_gone ≡ false
    → len s.registry < s.config.max_streams
    → get s.registry id ≡ none
    → s.accept_tx.alive ≡ true
    → open_remote s id ≡ (opened s id, none)
unfolding open_remote opened
open_remote_opens s id theirs here room new alive =
    let has_room : leb s.config.max_streams (len s.registry) ≡ false = ground arith in
    ground (arith, insert_new s.registry id (length s.streams) new)

queued : (tx : Sender ℕ) (r : ℕ) → tx.alive ≡ true → (send tx r).0.queue ≡ tx.queue ++ (r ∷ [])
queued tx r alive = rw alive

fresh-contents : (id : ℕ) (s : SessionInner) → contents (Inner.new id remote s.config).recv ≡ []
unfolding Inner.new Recv.new
fresh-contents id s = refl

fresh-can_recv : (id : ℕ) (s : SessionInner) → can_recv (Inner.new id remote s.config) ≡ true
unfolding Inner.new State.new can_recv
fresh-can_recv id s = refl

module _ (b : Bitflags) where
  pub handed_on :
      (s t : SessionInner) (id : ℕ) (flags : Flags) (payload : List ℕ)
      → 0 < id
      → b.contains flags flags_syn ≡ true
      → open_remote s id ≡ (t, none)
      → handle_data b s id flags payload ≡ to_stream b t id flags payload
  unfolding handle_data
  handed_on s t id flags payload pos syn opens =
      let nonzero : (id == 0) ≡ false = ==_false id 0 pos in rw (nonzero, syn, opens, opens)

  -- A SYN with an id of the peer's parity that is not in use, on a session that has room, whose peer has
  -- not gone away and whose accept queue is open, opens a stream: it is registered, handed to `accept`
  -- behind those that wait there, and has received the payload of that first frame; nothing is sent.
  pub syn_opens :
      (s : SessionInner) (id : ℕ) (flags : Flags) (payload : List ℕ)
      → 0 < id
      → b.contains flags flags_syn ≡ true
      → owns s.role id ≡ false
      → s.peer_gone ≡ false
      → len s.registry < s.config.max_streams
      → get s.registry id ≡ none
      → s.accept_tx.alive ≡ true
      → let t = dispatch b s (data_frame id flags payload) in
        let place = length s.streams in
        (t.1 ≡ ok tt)
        × (t.0.registry ≡ (id, place) ∷ s.registry)
        × (t.0.accept_tx.queue ≡ s.accept_tx.queue ++ (place ∷ []))
        × (t.0.wires.out_tx ≡ s.wires.out_tx)
        × ((y : StreamInner) × (stream_at t.0.streams place ≡ some y) × (contents y.recv ≡ payload))
  unfolding dispatch opened
  syn_opens s id flags payload pos syn theirs here room new alive =
      let opens = open_remote_opens s id theirs here room new alive in
      let hands = handed_on s (opened s id) id flags payload pos syn opens in
      let place = length s.streams in
      let x = Inner.new id remote s.config in
      let at = stream_at-last s.streams x in
      let (done, got, acked, half, torn, quiet) =
        received b x s.wires flags payload (fresh-can_recv id s) in
      let goes =
        to_stream_known b (opened s id) id place x flags payload (get_new s.registry id place) at in
      let y = (receive b x s.wires flags payload).0.0 in
      let here = updated (s.streams ++ (x ∷ [])) place x y at in
      rw (hands, goes)
        (
          done,
          refl,
          queued s.accept_tx place alive,
          quiet,
          (y, here, got ∙ ap (λ l. l ++ payload) (fresh-contents id s)),
        )

  -- A SYN is refused if its id has our own parity, if the peer has gone away or if the session is full.
  -- The first is a protocol error that sends nothing, the others are answered with a RST; none of them
  -- registers, makes or hands on a stream.
  pub syn_refused :
      (s : SessionInner) (id : ℕ) (flags : Flags) (payload : List ℕ)
      → 0 < id
      → b.contains flags flags_syn ≡ true
      → (owns s.role id ≡ true) ⊎ ((s.peer_gone ≡ true) ⊎ (s.config.max_streams ≤ len s.registry))
      → let t = dispatch b s (data_frame id flags payload) in
        (t.0.registry ≡ s.registry)
        × (t.0.streams ≡ s.streams)
        × (t.0.accept_tx ≡ s.accept_tx)
        × (if owns s.role id
            then (t.1 ≡ err (protocol "peer SYN with our parity")) × (t.0.wires ≡ s.wires)
            else (t.1 ≡ ok tt) × (t.0.wires ≡ send_out s.wires (rst id)))
  unfolding dispatch handle_data open_remote
  syn_refused s id flags payload pos syn why = ground arith

  syn_unaccepted :
      (s : SessionInner) (id : ℕ) (flags : Flags) (payload : List ℕ)
      → 0 < id
      → b.contains flags flags_syn ≡ true
      → owns s.role id ≡ false
      → s.peer_gone ≡ false
      → leb s.config.max_streams (len s.registry) ≡ false
      → get s.registry id ≡ none
      → s.accept_tx.alive ≡ false
      → (dispatch b s (data_frame id flags payload)).1 ≡ ok tt
  unfolding dispatch handle_data open_remote
  syn_unaccepted s id flags payload pos syn theirs here room new dead =
      rw
        (
          ==_false id 0 pos,
          syn,
          theirs,
          here,
          room,
          insert_new s.registry id (length s.streams) new,
          dead,
        )
        refl

  -- A SYN of the peer's parity that is not in use is no error, whether it opens a stream or not.
  pub fresh_syn-ok :
      (s : SessionInner) (id : ℕ) (flags : Flags) (payload : List ℕ)
      → 0 < id
      → b.contains flags flags_syn ≡ true
      → owns s.role id ≡ false
      → get s.registry id ≡ none
      → (dispatch b s (data_frame id flags payload)).1 ≡ ok tt
  fresh_syn-ok s id flags payload pos syn theirs new =
      let refused = syn_refused s id flags payload pos syn in
      elim (Bool-cases s.peer_gone) [
        | inl gone ↦ (rw theirs at (refused (inr (inl gone))).3).0
        | inr here ↦ elim (Bool-cases (leb s.config.max_streams (len s.registry))) [
          | inl full ↦ (rw theirs at (refused (inr (inr (ground arith)))).3).0
          | inr room ↦ elim (Bool-cases s.accept_tx.alive) [
            | inl alive ↦
                (syn_opens s id flags payload pos syn theirs here (ground arith) new alive).0
            | inr dead ↦ syn_unaccepted s id flags payload pos syn theirs here room new dead
          ]
        ]
      ]
