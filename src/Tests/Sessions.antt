-- ===== src/Tests/Sessions.antt =====
-- One session: its registry, its shutdown and its reader.
use net_mux.Base.{
  ℕ, ◌≡◌, inr, refl, true, false, none, some, List, [], ◌∷◌, ◌++◌, if◌then◌else◌, arith,
}
use net_mux.Error.{ok, err, protocol, normal, protocol_error}
use net_mux.Util.Id.{client, owns}
use net_mux.Protocol.Frame.{Flags, data_frame, go_away, rst, flags_syn, flags_fin}
use net_mux.Stream.Recv.Fifo.{contents}
use net_mux.Stream.Channel.{send_out}
use net_mux.Stream.Inner.{StreamInner, can_recv}
use net_mux.Stream.Inner.Local.{local_reset}
use net_mux.Session.Manager.{StreamRegistry, get}
use net_mux.Session.Manager.Map.{Distinct}
use net_mux.Session.Inner.{SessionInner, stream_at, initiate_shutdown}
use net_mux.Session.Inner.Shutdown.{ShutAt, initiate_shutdown_lem}
use net_mux.Session.Reader.{frame, turn, dispatch, receive, with_wires}
use net_mux.Session.Reader.Registry.{IsSession}
use net_mux.Session.Reader.Isolation.{Concerns, dispatch_others}
use net_mux.Session.Reader.Accept.{syn_opens, syn_refused}
use net_mux.Session.Reader.Delivery.{data_delivers, reset_then_data}
use net_mux.Stream.Inner.{local}
use net_mux.Stream.Inner
use net_mux.Stream.Inner.Acked.{acked}
use net_mux.Stream.Channel.{poll_pending}
use net_mux.Session.Api.{start_open, start_accept, poll_accept}
use net_mux.Session.Api.Races.{open_after_drain, accept_sleeps}
use net_mux.Base.{length}
use net_mux.Error.{normal}
use net_mux.Session.Keepalive.{tick}
use net_mux.Session.Keepalive.Echo.{tick_lem}
use net_mux.Protocol.Frame.{ping, pong}
use net_mux.Tests.{bitflags, no_flags, wires, small}

abbrev stream_of : ℕ → StreamInner
stream_of id = record {
  id = id;
  config = small;
  state = record { read_open = true; write_open = true; reset = false };
  send_window = record { available = 8; closed = false; waker = [] };
  recv_window = record { initial = 8; pending_credit = 0 };
  recv = record { queue = (5 ∷ []) ∷ [] };
  recv_waker = [];
  ack_received = false;
  ack_waker = [];
  fin_sent = false;
}

abbrev pub session_of : StreamRegistry → List StreamInner → SessionInner
session_of registry streams = record {
  config = small;
  role = client;
  id_alloc = record { next = 3 };
  registry = registry;
  streams = streams;
  wires = wires;
  accept_tx = record { queue = []; alive = true };
  pong_tx = record { queue = []; alive = true };
  shutdown = false;
  is_closing = false;
  peer_gone = false;
  tasks = some 4;
}

-- A client with one stream of its own and one of its peer's: it is full.
abbrev two : SessionInner
two = session_of ((2, 1) ∷ (1, 0) ∷ []) (stream_of 1 ∷ stream_of 2 ∷ [])

abbrev pub one : SessionInner
one = session_of ((1, 0) ∷ []) (stream_of 1 ∷ [])

two-Distinct : Distinct two.registry
unfolding get
two-Distinct = (refl, (refl, tt))

finds : get two.registry 1 ≡ some 0
unfolding get
finds = refl

initiate_shutdown_lem_example :
    let t = initiate_shutdown two protocol_error in
    (t.registry ≡ [])
    × (t.shutdown ≡ true)
    × (t.is_closing ≡ true)
    × (t.wires ≡ send_out wires (go_away protocol_error))
    × ShutAt t.streams 0
    × (initiate_shutdown t normal ≡ t)
initiate_shutdown_lem_example =
    initiate_shutdown_lem two protocol_error normal 1 0 (stream_of 1) refl finds refl

-- The peer opens a stream twice.
one-IsSession : IsSession one
unfolding get
one-IsSession = record { distinct = (refl, tt); placed = ((stream_of 1, refl, refl), tt) }

other : ¬ (Concerns two (data_frame 1 flags_fin (7 ∷ [])) 1)
unfolding Concerns get
other h = absurd (ground arith)

dispatch_others_example :
    stream_at (dispatch bitflags two (data_frame 1 flags_fin (7 ∷ []))).0.streams 1
    ≡ some (stream_of 2)
dispatch_others_example =
    dispatch_others bitflags two (data_frame 1 flags_fin (7 ∷ [])) 1 (stream_of 2) other refl

receives : can_recv (stream_of 1) ≡ true
unfolding can_recv
receives = refl

data_delivers_example :
    let flags : Flags = record { bits = 6 } in
    let t = dispatch bitflags two (data_frame 1 flags (7 ∷ [])) in
    (t.1 ≡ ok tt)
    × (t.0.wires.out_tx ≡ wires.out_tx)
    × ((y : StreamInner) × (stream_at t.0.streams 0 ≡ some y)
        × (contents y.recv ≡ (5 ∷ []) ++ (7 ∷ []))
        × (y.ack_received ≡ true)
        × (y.state.read_open ≡ false)
        × (y.state.reset ≡ false))
data_delivers_example =
    data_delivers bitflags two 1 0 (stream_of 1) (record { bits = 6 }) (7 ∷ []) (omega arith) refl
      finds refl receives

theirs : owns client 2 ≡ false
unfolding owns
theirs = refl

free : get one.registry 2 ≡ none
unfolding get
free = refl

syn_opens_example :
    let t = dispatch bitflags one (data_frame 2 flags_syn (7 ∷ [])) in
    (t.1 ≡ ok tt)
    × (t.0.registry ≡ (2, 1) ∷ one.registry)
    × (t.0.accept_tx.queue ≡ one.accept_tx.queue ++ (1 ∷ []))
    × (t.0.wires.out_tx ≡ wires.out_tx)
    × ((y : StreamInner) × (stream_at t.0.streams 1 ≡ some y) × (contents y.recv ≡ 7 ∷ []))
syn_opens_example =
    syn_opens bitflags one 2 flags_syn (7 ∷ []) (omega arith) refl theirs refl (omega arith) free
      refl

syn_refused_example :
    let t = dispatch bitflags two (data_frame 4 flags_syn (7 ∷ [])) in
    (t.0.registry ≡ two.registry)
    × (t.0.streams ≡ two.streams)
    × (t.0.accept_tx ≡ two.accept_tx)
    × (if owns client 4
        then (t.1 ≡ err (protocol "peer SYN with our parity")) × (t.0.wires ≡ wires)
        else (t.1 ≡ ok tt) × (t.0.wires ≡ send_out wires (rst 4)))
syn_refused_example =
    syn_refused bitflags two 4 flags_syn (7 ∷ []) (omega arith) refl (inr (inr (omega arith)))

-- The user has reset stream 1, and the closer has not run yet.
abbrev torn : SessionInner
torn = session_of ((2, 1) ∷ (1, 0) ∷ []) ((local_reset (stream_of 1) wires).0 ∷ stream_of 2 ∷ [])

reset_then_data_example :
    let met = receive bitflags (local_reset (stream_of 1) wires).0 wires no_flags (7 ∷ []) in
    turn bitflags torn (frame (data_frame 1 no_flags (7 ∷ [])))
    ≡ (initiate_shutdown (with_wires torn 0 met.0) protocol_error, false)
reset_then_data_example =
    reset_then_data bitflags torn 1 0 (stream_of 1) wires no_flags (7 ∷ []) (omega arith) finds refl
      refl refl

unused : get one.registry one.id_alloc.next ≡ none
unfolding get
unused = refl

open_after_drain_example :
    let place = length (initiate_shutdown one protocol_error).streams in
    let t = start_open (λ u. initiate_shutdown u protocol_error) one in
    let x = Inner.new 3 local small in
    (t.1 ≡ ok (3, place))
    × (t.0.registry ≡ (3, place) ∷ [])
    × (stream_at t.0.streams place ≡ some x)
    × (acked x ≡ none)
    × (initiate_shutdown t.0 normal ≡ t.0)
open_after_drain_example =
    open_after_drain one protocol_error normal refl refl (omega arith) (omega arith) refl

accept_sleeps_example :
    let t = start_accept (λ u. initiate_shutdown u protocol_error) one in
    (t.0.is_closing ≡ true) × (t.1 ≡ ok true) × (poll_accept true one ≡ (one, poll_pending))
accept_sleeps_example = accept_sleeps one one protocol_error refl refl

-- A late pong still waits when the tick with nonce 6 comes.
abbrev pinged : SessionInner
pinged = record one { pong_tx = record { queue = 5 ∷ []; alive = true } }

tick_lem_example :
    let answered =
      tick bitflags (λ t. (dispatch bitflags t (pong bitflags 6)).0) false (pinged, 5) in
    let silent = tick bitflags (λ t. t) false (pinged, 5) in
    ((dispatch bitflags two (ping bitflags 6)).0.wires ≡ send_out wires (pong bitflags 6))
    × (answered.1 ≡ true)
    × (answered.0.1 ≡ 6)
    × (answered.0.0.is_closing ≡ false)
    × (silent.1 ≡ false)
    × (silent.0.0.is_closing ≡ true)
tick_lem_example = tick_lem bitflags pinged two 5 refl refl refl (refl, tt)
