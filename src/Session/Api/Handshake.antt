-- ===== src/Session/Api/Handshake.antt =====
-- How a stream comes up between two sessions: Session::open on one side, the reader and
-- Session::accept on the other (src/session/mod.rs, src/session/reader.rs).
use net_mux.Base.{
  ℕ, ◌+◌, ◌≤◌, ◌<◌, ◌≡◌, ◌∙◌, refl, ap, true, false, none, some, [], ◌∷◌, ◌++◌, arith, length,
  u32_max,
}
use net_mux.Error.{ok}
use net_mux.Util.Id.{owns}
use net_mux.Protocol.Frame.{Bitflags, syn, ack, flags_syn, flags_ack, flags_fin, flags_rst}
use net_mux.Stream.Channel.{poll_ready, send, Sender, Wires}
use net_mux.Stream.State
use net_mux.Stream.Inner.{StreamInner, local, remote, push_data, can_recv}
use net_mux.Stream.Inner
use net_mux.Stream.Inner.Acked.{acked}
use net_mux.Session.Manager.{get, len}
use net_mux.Session.Manager.Map.{get_new}
use net_mux.Session.Inner.{SessionInner, stream_at}
use net_mux.Session.Inner.Store.{stream_at-last}
use net_mux.Session.Reader.{dispatch, receive, with_wires}
use net_mux.Session.Reader.Accept.{opened, open_remote_opens, handed_on}
use net_mux.Session.Reader.Delivery.{data_delivers, to_stream_known, updated}
use net_mux.Session.Api.{start_open, poll_accept}
use net_mux.Session.Api.Opening.{start_open_lem}

-- A session that may open a stream, with the writer there.
pub record CanOpen (s : SessionInner) : Type 0 where
  pub live : s.is_closing ≡ false
  pub here : s.peer_gone ≡ false
  pub room : len s.registry < s.config.max_streams
  pub left : s.id_alloc.next + 2 ≤ u32_max
  pub new : get s.registry s.id_alloc.next ≡ none
  pub writer : s.wires.out_tx.alive ≡ true

-- A session that lets its peer open a stream with the id, and whose user waits for one.
pub record CanAccept (s : SessionInner) (id : ℕ) : Type 0 where
  pub live : s.shutdown ≡ false
  pub here : s.peer_gone ≡ false
  pub theirs : owns s.role id ≡ false
  pub room : len s.registry < s.config.max_streams
  pub new : get s.registry id ≡ none
  pub writer : s.wires.out_tx.alive ≡ true
  pub waits : s.accept_tx.queue ≡ []
  pub acceptor : s.accept_tx.alive ≡ true

acked_yes : (y : StreamInner) → y.ack_received ≡ true → acked y ≡ some (ok tt)
unfolding acked
acked_yes y e = ground arith

fresh-can_recv : (id : ℕ) (s : SessionInner) → can_recv (Inner.new id local s.config) ≡ true
unfolding Inner.new State.new can_recv
fresh-can_recv id s = refl

sends_first :
    (tx : Sender ℕ) (r : ℕ) → tx.alive ≡ true → tx.queue ≡ [] → (send tx r).0.queue ≡ r ∷ []
sends_first tx r alive empty = rw (alive, empty)

new-id : (id : ℕ) (s : SessionInner) → (Inner.new id remote s.config).id ≡ id
unfolding Inner.new
new-id id s = refl

-- `accept` takes the first stream that waits, and acknowledges it.
poll_accept-acks :
    (s : SessionInner) (place id : ℕ) (x : StreamInner)
    → s.shutdown ≡ false
    → s.accept_tx.queue ≡ place ∷ []
    → stream_at s.streams place ≡ some x
    → x.id ≡ id
    → s.wires.out_tx.alive ≡ true
    → let a = poll_accept false s in
      (a.1 ≡ poll_ready (ok place))
      × (a.0.registry ≡ s.registry)
      × (a.0.wires.out_tx.queue ≡ s.wires.out_tx.queue ++ (ack id ∷ []))
unfolding poll_accept
poll_accept-acks s place id x live waits at same alive = ground arith

module _ (b : Bitflags) where
  syn_received : (x : StreamInner) (w : Wires) → receive b x w flags_syn [] ≡ ((x, w), ok tt)
  unfolding receive push_data
  syn_received x w = ground (
    arith,
    b.contains_bits flags_syn flags_ack,
    b.contains_bits flags_syn flags_fin,
    b.contains_bits flags_syn flags_rst,
  )

  -- The session behind the SYN.
  syn-opened :
      (s : SessionInner) (id : ℕ)
      → 0 < id
      → CanAccept s id
      → let place = length s.streams in
        dispatch b s (syn id)
        ≡ (with_wires (opened s id) place (Inner.new id remote s.config, s.wires), ok tt)
  unfolding dispatch opened
  syn-opened s id pos k =
      let place = length s.streams in
      let x = Inner.new id remote s.config in
      let opens = open_remote_opens s id k.theirs k.here k.room k.new k.acceptor in
      let hands =
        handed_on b s (opened s id) id flags_syn [] pos (b.contains_bits flags_syn flags_syn)
          opens in
      let known =
        to_stream_known b (opened s id) id place x flags_syn [] (get_new s.registry id place)
          (stream_at-last s.streams x) in
      hands ∙ (known ∙ ap (λ r. (with_wires (opened s id) place r.0, r.1)) (syn_received x s.wires))

  -- The peer answers the SYN.
  accepts :
      (s : SessionInner) (id : ℕ)
      → 0 < id
      → CanAccept s id
      → let place = length s.streams in
        let t = (dispatch b s (syn id)).0 in
        let a = poll_accept false t in
        (a.1 ≡ poll_ready (ok place))
        × (get a.0.registry id ≡ some place)
        × (a.0.wires.out_tx.queue ≡ s.wires.out_tx.queue ++ (ack id ∷ []))
  unfolding opened
  accepts s id pos k =
      let place = length s.streams in
      let x = Inner.new id remote s.config in
      let t = with_wires (opened s id) place (x, s.wires) in
      let at = updated (s.streams ++ (x ∷ [])) place x x (stream_at-last s.streams x) in
      let (ready, same, sent) =
        poll_accept-acks t place id x k.live (sends_first s.accept_tx place k.acceptor k.waits) at
          (new-id id s) k.writer in
      rw (syn-opened s id pos k) (ready, rw same (get_new s.registry id place), sent)

  -- The ACK of a stream that is registered and may receive answers the call that waits for it.
  ack_answers :
      (s : SessionInner) (id place : ℕ) (x : StreamInner)
      → 0 < id
      → get s.registry id ≡ some place
      → stream_at s.streams place ≡ some x
      → can_recv x ≡ true
      → let t = dispatch b s (ack id) in
        (t.1 ≡ ok tt)
        × ((y : StreamInner) × (stream_at t.0.streams place ≡ some y) × (acked y ≡ some (ok tt)))
  ack_answers s id place x pos found at live =
      let none_syn : b.contains flags_ack flags_syn ≡ false = b.contains_bits flags_ack flags_syn in
      let (done, quiet, (y, here, got, said, half, torn)) =
        data_delivers b s id place x flags_ack [] pos none_syn found at live in
      (done, (y, here, acked_yes y (ground (arith, said, b.contains_bits flags_ack flags_ack))))

  -- Two sessions bring a stream up. The one opens it: SYN goes out. When the peer's reader meets the
  -- SYN and its user accepts, the user gets the new stream and ACK goes out, both with the id of the
  -- opener. When the opener's reader meets the ACK, the call of `open` has its answer.
  pub open-accept :
      (c s : SessionInner)
      → 0 < c.id_alloc.next
      → CanOpen c
      → CanAccept s c.id_alloc.next
      → let id = c.id_alloc.next in
        let o = start_open (λ u. u) c in
        let a = poll_accept false (dispatch b s (syn id)).0 in
        let t = dispatch b o.0 (ack id) in
        (o.1 ≡ ok (id, length c.streams))
        × (o.0.wires.out_tx.queue ≡ c.wires.out_tx.queue ++ (syn id ∷ []))
        × (a.1 ≡ poll_ready (ok (length s.streams)))
        × (get a.0.registry id ≡ some (length s.streams))
        × (a.0.wires.out_tx.queue ≡ s.wires.out_tx.queue ++ (ack id ∷ []))
        × (t.1 ≡ ok tt)
        × ((y : StreamInner) × (stream_at t.0.streams (length c.streams) ≡ some y)
            × (acked y ≡ some (ok tt)))
  open-accept c s pos k l =
      let id = c.id_alloc.next in
      let place = length c.streams in
      let o = (start_open (λ u. u) c).0 in
      let (opens, entry, moved, sent, at) =
        start_open_lem c k.live k.here k.room k.left k.new k.writer in
      let (ready, known, answered) = accepts s id pos l in
      let found : get o.registry id ≡ some place = rw entry (get_new c.registry id place) in
      let (done, up) =
        ack_answers o id place (Inner.new id local c.config) pos found at (fresh-can_recv id c) in
      (opens, sent, ready, known, answered, done, up)
