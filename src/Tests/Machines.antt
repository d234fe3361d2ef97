-- ===== src/Tests/Machines.antt =====
-- Two sessions, and one session with all that shares it.
use net_mux.Base.{◌+◌, ◌≡◌, refl, true, false, none, some, [], ◌∷◌, ◌++◌, arith, length}
use net_mux.Error.{ok}
use net_mux.Util.Id.{client, server, owns, allocate, first_id}
use net_mux.Util.Id
use net_mux.Protocol.Frame.{syn, ack, ping}
use net_mux.Stream.Channel.{poll_ready}
use net_mux.Stream.Inner.{StreamInner}
use net_mux.Stream.Inner.Acked.{acked}
use net_mux.Session.Manager.{get, insert, len}
use net_mux.Session.Inner.{SessionInner, stream_at, new, send_frame, initiate_shutdown}
use net_mux.Session.Reader.{frame, dispatch}
use net_mux.Session.Reader
use net_mux.Session.Reader.Registry.{IsSession}
use net_mux.Session.Api.{may_open, start_open, poll_accept, start_close, closer_turn}
use net_mux.Session.Writer
use net_mux.Session.Writer.{takes_all}
use net_mux.Session.Keepalive.{tick}
use net_mux.Session.Api.Handshake.{CanOpen, CanAccept, open-accept}
use net_mux.Session.Api.Races.{opens_overshoot}
use net_mux.Session.Machine.{
  Machine, checked, allocated, init, moves_on, in_session, Reach, start, later, open_checks,
  open_allocates, reads, closes, pings,
}
use net_mux.Session.Machine.Ids.{Reach-IsSession, open_registers-ok}
use net_mux.Session.Machine.Closing.{closing_stops}
use net_mux.Tests.{bitflags, small}
use net_mux.Tests.Sessions.{one}

-- A new client, on which a call of `open` looks at the flags and gets its id; then the peer opens a
-- stream.
abbrev pub fresh : Machine
fresh = init small client

abbrev pub looked : Machine
looked = moves_on fresh 0 fresh.session checked

abbrev holds : Machine
holds =
    moves_on looked 0 (record (looked.session) { id_alloc = (allocate looked.session.id_alloc).0 })
      (allocated 1)

abbrev pub met : Machine
met = in_session holds (Reader.turn bitflags holds.session (frame (syn 2))).0

looked-Reach : Reach bitflags small client looked
unfolding may_open new
looked-Reach = later start (open_checks 0 refl refl refl)

pub met-Reach : Reach bitflags small client met
unfolding allocate new Id.new first_id
met-Reach =
    later (later looked-Reach (open_allocates 0 1 refl refl refl)) (reads (frame (syn 2)) refl)

Reach-IsSession_example : IsSession met.session
Reach-IsSession_example = Reach-IsSession bitflags small client met-Reach

open_registers-ok_example :
    insert met.session.registry 1 (length met.session.streams)
    ≡ ok ((1, length met.session.streams) ∷ met.session.registry)
open_registers-ok_example = open_registers-ok bitflags small client 0 1 met-Reach refl

-- The user closes the session, and the keepalive task has a ping left to send.
abbrev ended : Machine
ended = in_session met (start_close met.session)

ended-Reach : Reach bitflags small client ended
ended-Reach = later met-Reach (closes refl)

ended_closing : ended.session.is_closing ≡ true
unfolding initiate_shutdown new Reader.turn owns insert
ended_closing = refl

abbrev pinged : Machine
pinged = in_session ended (send_frame ended.session (ping bitflags 1))

closing_stops_example :
    let s = ended.session in
    (pinged.session.is_closing ≡ true)
    × (Reader.run bitflags s (frame (syn 4) ∷ []) ≡ s)
    × (Writer.turn bitflags (none, takes_all) (s, ended.sink) ≡ ((s, ended.sink), false))
    × (closer_turn s ≡ (s, false))
    × (tick bitflags (λ u. u) false (s, 1) ≡ ((s, 1), false))
closing_stops_example =
    closing_stops bitflags small client (frame (syn 4) ∷ []) (none, takes_all) (λ u. u) false 1
      ended-Reach ended_closing (pings 1 refl)

-- The peer of the client `one`.
abbrev peer : SessionInner
peer = record one { role = server }

one-CanOpen : CanOpen one
unfolding get
one-CanOpen = record {
  live = refl;
  here = refl;
  room = omega arith;
  left = omega arith;
  new = refl;
  writer = refl;
}

peer-CanAccept : CanAccept peer 3
unfolding get owns
peer-CanAccept = record {
  live = refl;
  here = refl;
  theirs = refl;
  room = omega arith;
  new = refl;
  writer = refl;
  waits = refl;
  acceptor = refl;
}

open-accept_example :
    let o = start_open (λ u. u) one in
    let a = poll_accept false (dispatch bitflags peer (syn 3)).0 in
    let t = dispatch bitflags o.0 (ack 3) in
    (o.1 ≡ ok (3, 1))
    × (o.0.wires.out_tx.queue ≡ [] ++ (syn 3 ∷ []))
    × (a.1 ≡ poll_ready (ok 1))
    × (get a.0.registry 3 ≡ some 1)
    × (a.0.wires.out_tx.queue ≡ [] ++ (ack 3 ∷ []))
    × (t.1 ≡ ok tt)
    × ((y : StreamInner) × (stream_at t.0.streams 1 ≡ some y) × (acked y ≡ some (ok tt)))
open-accept_example = open-accept bitflags one peer (omega arith) one-CanOpen peer-CanAccept

next_free : get one.registry (3 + 2) ≡ none
unfolding get
next_free = refl

opens_overshoot_example :
    let t = start_open (λ u. (start_open (λ v. v) u).0) one in
    (t.1 ≡ ok (3 + 2, 1 + 1)) × (len t.0.registry ≡ small.max_streams + 1)
opens_overshoot_example = opens_overshoot one one-CanOpen refl (omega arith) next_free
