-- ===== src/Session/Api.antt =====
-- Session::open, accept and close, and the closer task, of src/session/mod.rs. A call is cut where it
-- waits, and where other tasks may act between its looks at the shared state: what they do there is a
-- function on the session.
pub mod Opening
pub mod Handshake
pub mod Races
use net_mux.Base.{
  ℕ, ◌-◌, ◌^◌, Bool, true, false, not, ◌&&◌, ◌||◌, Option, none, some, List, [], ◌∷◌, ◌++◌, leb,
  if◌then◌else◌, length,
}
use net_mux.Error.{Error, Result, ok, err, session_closed, too_many_streams, timeout, normal}
use net_mux.Util.Id
use net_mux.Protocol.Frame.{syn, ack, rst}
use net_mux.Stream.Channel.{Poll, poll_ready, poll_pending, send_out}
use net_mux.Stream.Inner.{StreamInner, local}
use net_mux.Stream.Inner
use net_mux.Session.Manager
use net_mux.Session.Inner.{SessionInner, stream_at, send_frame, initiate_shutdown}

abbrev pub usize_max : ℕ
usize_max = 2 ^ 64 - 1

unfoldable pub may_open : SessionInner → Result (Unit {0})
may_open s =
    if s.is_closing || s.peer_gone
    then err session_closed
    else if leb s.config.max_streams (Manager.len s.registry)
    then err (too_many_streams s.config.max_streams)
    else ok tt

-- The rest of `open` up to its wait: the id of the new stream and its place.
unfoldable pub announce : SessionInner → SessionInner × Result (ℕ × ℕ)
announce s =
    let a = Id.allocate s.id_alloc in
    let place = length s.streams in
    elim a.1 [
      | none ↦ (s, err (too_many_streams usize_max))
      | some id ↦
          let made = record s {
            id_alloc = a.0;
            streams = s.streams ++ (Inner.new id local s.config ∷ []);
          } in
          elim (Manager.insert s.registry id place) [
            | err e ↦ (made, err e)
            | ok m ↦
                if s.wires.out_tx.alive
                then (
                  record made { registry = m; wires = send_out s.wires (syn id) },
                  ok (id, place),
                )
                else (record made { registry = Manager.remove m id }, err session_closed)
          ]
    ]

unfoldable pub start_open :
    (SessionInner → SessionInner) → SessionInner → SessionInner × Result (ℕ × ℕ)
unfolding may_open announce
start_open gap s =
    let announced = announce (gap s) in elim (may_open s) [ err e ↦ (s, err e) | ok _ ↦ announced ]

-- How the wait for the acknowledgement ended.
pub data Waited : Type 0 where
  waited : Result (Unit {0}) → Waited
  elapsed : Waited

-- `open` behind its wait: the place of the stream that the user gets.
unfoldable pub finish_open : SessionInner → ℕ × ℕ → Waited → SessionInner × Result ℕ
finish_open s (id, place) (waited (ok _)) = (s, ok place)
finish_open s (id, place) (waited (err e)) =
    (record s { registry = Manager.remove s.registry id }, err e)
finish_open s (id, place) elapsed =
    (record (send_frame s (rst id)) { registry = Manager.remove s.registry id }, err timeout)

-- `accept` up to its wait. A receiver of the watch sees the changes after its subscription: what the
-- watch holds then counts as seen.
unfoldable pub start_accept :
    (SessionInner → SessionInner) → SessionInner → SessionInner × Result Bool
start_accept gap s = if s.is_closing then (s, err session_closed) else (gap s, ok (gap s).shutdown)

-- One poll of the wait, and what `accept` does with the stream that it yields.
unfoldable pub poll_accept : Bool → SessionInner → SessionInner × Poll (Result ℕ)
poll_accept seen s =
    if not seen && s.shutdown
    then (s, poll_ready (err session_closed))
    else elim s.accept_tx.queue [
      | [] ↦ (s, poll_pending)
      | place ∷ q ↦
          let t = record s { accept_tx = record (s.accept_tx) { queue = q } } in
          elim (stream_at s.streams place) [
            | none ↦ (t, poll_pending)
            | some x ↦
                if s.wires.out_tx.alive
                then (send_frame t (ack x.id), poll_ready (ok place))
                else (t, poll_ready (err session_closed))
          ]
    ]

-- `close` up to its wait for the tasks.
abbrev pub start_close : SessionInner → SessionInner
start_close s = initiate_shutdown s normal

-- The rest of `close`, which holds the lock on the set from there on: how many tasks it joins.
unfoldable pub finish_close : SessionInner → SessionInner × ℕ
finish_close s = elim s.tasks [ none ↦ (s, 0) | some n ↦ (record s { tasks = none }, n) ]

-- One turn of `closer_task`; the flag tells whether it goes on.
unfoldable pub closer_turn : SessionInner → SessionInner × Bool
closer_turn s = if s.shutdown then (s, false) else elim s.wires.closer_tx.queue [
  | [] ↦ (s, true)
  | id ∷ q ↦ (
    record s {
      registry = Manager.remove s.registry id;
      wires = record (s.wires) { closer_tx = record (s.wires.closer_tx) { queue = q } };
    },
    true,
  )
]
