-- ===== src/Session/Reader.antt =====
-- src/session/reader.rs: what the reader task does with a frame, and with the end of its input.
pub mod Delivery
pub mod Registry
pub mod Accept
pub mod Isolation
pub mod Announce
pub mod Carried
pub mod News
pub mod Late
use net_mux.Base.{
  ℕ, Bool, true, false, not, ◌&&◌, Option, none, some, List, [], ◌∷◌, ◌++◌, ◌==◌, leb,
  if◌then◌else◌, length, is_nil,
}
use net_mux.Error.{
  Error, ErrorCode, Result, ok, err, protocol, normal, protocol_error, internal_error,
}
use net_mux.Util.Id.{owns}
use net_mux.Protocol.Frame.{
  Flags, Bitflags, Frame, data_frame, window_update_frame, ping_frame, go_away_frame, flags_syn,
  flags_ack, flags_fin, flags_rst, rst, pong,
}
use net_mux.Stream.Channel.{send, Wires}
use net_mux.Stream.Inner.{
  StreamInner, Origin, remote, can_recv, push_data, remote_fin, remote_reset, mark_acked,
  grant_send_credit,
}
use net_mux.Stream.Inner
use net_mux.Stream.Inner.Local.{local_reset}
use net_mux.Session.Manager
use net_mux.Session.Inner.{
  SessionInner, stream_at, update_at, send_frame, initiate_shutdown, note_peer_gone,
}

-- The first half of `handle_data`, for a frame with SYN: an answer if it returns there.
unfoldable pub open_remote : SessionInner → ℕ → SessionInner × Option (Result (Unit {0}))
open_remote s id =
    let place = length s.streams in
    let made = record s { streams = s.streams ++ (Inner.new id remote s.config ∷ []) } in
    if owns s.role id
    then (s, some (err (protocol "peer SYN with our parity")))
    else if s.peer_gone
    then (send_frame s (rst id), some (ok tt))
    else if leb s.config.max_streams (Manager.len s.registry)
    then (send_frame s (rst id), some (ok tt))
    else elim (Manager.insert s.registry id place) [
      | err _ ↦ (made, some (err (protocol "duplicate stream id")))
      | ok m ↦
          if s.accept_tx.alive
          then (record made { registry = m; accept_tx = (send s.accept_tx place).0 }, none)
          else (send_frame (record made { registry = Manager.remove m id }) (rst id), some (ok tt))
    ]

-- A frame of session scope, or one whose stream is known to be at a place.
abbrev pub with_stream : SessionInner → ℕ → (StreamInner → StreamInner) → SessionInner
with_stream s place f = record s { streams = update_at s.streams place f }

-- A method that also sends: `x` is the stream that stands at the place.
abbrev pub with_wires : SessionInner → ℕ → StreamInner × Wires → SessionInner
with_wires s place xw = record s { streams = update_at s.streams place (λ _. xw.0); wires = xw.1 }

-- What `framed.next()` yields.
pub data Input : Type 0 where
  closed : Input
  failed : Error → Input
  frame : Frame → Input

unfoldable pub code_of : Error → ErrorCode
code_of (protocol m) = protocol_error
code_of _ = internal_error

module _ (b : Bitflags) where
  -- The second half of `handle_data` on the stream `x`, with the channels.
  unfoldable pub receive :
      StreamInner → Wires → Flags → List ℕ → (StreamInner × Wires) × Result (Unit {0})
  receive x w flags payload =
      let x1 = if b.contains flags flags_ack then mark_acked x else x in
      let x2 = push_data x1 payload in
      let x3 = if b.contains flags flags_fin then remote_fin x2 else x2 in
      let xw = if b.contains flags flags_rst then remote_reset x3 w else (x3, w) in
      if not (is_nil payload) && not (can_recv x1)
      then (local_reset x1 w, err (protocol "data after FIN"))
      else (xw, ok tt)

  unfoldable pub to_stream : SessionInner → ℕ → Flags → List ℕ → SessionInner × Result (Unit {0})
  unfolding receive
  to_stream s id flags payload =
      let unknown =
        if not (b.contains flags flags_ack) && not (b.contains flags flags_rst)
        then send_frame s (rst id)
        else s in
      elim (Manager.get s.registry id) [
        | none ↦ (unknown, ok tt)
        | some place ↦ elim (stream_at s.streams place) [
          | none ↦ (unknown, ok tt)
          | some x ↦ let r = receive x s.wires flags payload in (with_wires s place r.0, r.1)
        ]
      ]

  unfoldable pub handle_data : SessionInner → ℕ → Flags → List ℕ → SessionInner × Result (Unit {0})
  unfolding open_remote to_stream
  handle_data s id flags payload =
      let opened = open_remote s id in
      if id == 0
      then (s, err (protocol "data on stream id 0"))
      else if b.contains flags flags_syn
      then elim opened.1 [ some r ↦ (opened.0, r) | none ↦ to_stream opened.0 id flags payload ]
      else to_stream s id flags payload

  unfoldable pub dispatch : SessionInner → Frame → SessionInner × Result (Unit {0})
  unfolding handle_data
  dispatch s (data_frame id flags payload) = handle_data s id flags payload
  dispatch s (window_update_frame id flags delta) = elim (Manager.get s.registry id) [
    | none ↦ (s, ok tt)
    | some place ↦ (with_stream s place (λ x. grant_send_credit x delta), ok tt)
  ]
  dispatch s (ping_frame flags opaque) =
      if b.contains flags flags_ack
      then (record s { pong_tx = (send s.pong_tx opaque).0 }, ok tt)
      else (send_frame s (pong b opaque), ok tt)
  dispatch s (go_away_frame code) = (initiate_shutdown (note_peer_gone s) code, ok tt)

  -- One turn of the loop; the flag tells whether the loop goes on.
  unfoldable pub turn : SessionInner → Input → SessionInner × Bool
  unfolding dispatch code_of
  turn s closed = (initiate_shutdown s normal, false)
  turn s (failed e) = (initiate_shutdown s (code_of e), false)
  turn s (frame f) =
      let r = dispatch s f in
      elim r.1 [ ok _ ↦ (r.0, true) | err e ↦ (initiate_shutdown r.0 (code_of e), false) ]

  -- The loop on what the connection yields. The watch is looked at first.
  unfoldable pub run : SessionInner → List Input → SessionInner
  unfolding turn
  run s [] = s
  run s (i ∷ is) =
      let r = turn s i in
      let rest = run r.0 is in if s.shutdown then s else if r.1 then rest else r.0
