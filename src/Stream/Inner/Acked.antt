-- ===== src/Stream/Inner/Acked.antt =====
-- StreamInner::wait_acked of src/stream/inner.rs.
pub mod Sleep
use net_mux.Base.{not, Option, none, some, List, ◌∷◌, if◌then◌else◌}
use net_mux.Error.{Result, ok, err, session_closed, stream_reset}
use net_mux.Flow.Window.{register}
use net_mux.Stream.Channel.{Wires, Poll, poll_ready, poll_pending}
use net_mux.Stream.Inner.{StreamInner, Event, deliver_all}

-- The answer of `wait_acked`, if it has one.
unfoldable pub acked : StreamInner → Option (Result (Unit {0}))
acked s =
    if s.ack_received
    then some (ok tt)
    else if s.state.reset
    then some (err (stream_reset s.id))
    else if not s.state.write_open
    then some (err session_closed)
    else none

-- A look, with what happens between its accesses to the three flags.
unfoldable pub look_again :
    List Event → List Event → StreamInner × Wires → (StreamInner × Wires) × Poll (Result (Unit {0}))
unfolding deliver_all
look_again received unreset sw =
    let sw1 = deliver_all received sw in
    let sw2 = deliver_all unreset sw1 in
    if sw.0.ack_received
    then (sw, poll_ready (ok tt))
    else if sw1.0.state.reset
    then (sw1, poll_ready (err (stream_reset sw1.0.id)))
    else if not sw2.0.state.write_open
    then (sw2, poll_ready (err session_closed))
    else (sw2, poll_pending)

-- What happens in one poll: between the looks at the three flags, before the registration and behind
-- it, and between the looks that follow.
pub record AckGaps : Type 0 where
  pub received : List Event
  pub unreset : List Event
  pub waited : List Event
  pub registered : List Event
  pub received_again : List Event
  pub unreset_again : List Event

-- One poll of the future that `wait_acked` awaits.
unfoldable pub poll_acked :
    AckGaps → StreamInner × Wires → (StreamInner × Wires) × Poll (Result (Unit {0}))
unfolding look_again
poll_acked g sw =
    let first = look_again g.received g.unreset sw in
    let sw1 = deliver_all g.waited first.0 in
    let sw2 =
      deliver_all g.registered (record (sw1.0) { ack_waker = register ∷ sw1.0.ack_waker }, sw1.1) in
    let second = look_again g.received_again g.unreset_again sw2 in
    elim first.1 [ poll_ready r ↦ first | poll_pending ↦ second ]
