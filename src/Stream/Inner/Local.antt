-- ===== src/Stream/Inner/Local.antt =====
-- StreamInner::local_fin, local_reset and on_user_drop of src/stream/inner.rs, the methods behind
-- `poll_shutdown`, `reset` and `drop` of the `Stream` of src/stream/mod.rs.
pub mod Once
use net_mux.Base.{true, not, ◌&&◌, ◌∷◌, if◌then◌else◌}
use net_mux.Protocol.Frame.{fin, rst}
use net_mux.Flow.Window.{wake, close}
use net_mux.Stream.State.{close_write, mark_reset}
use net_mux.Stream.Channel.{Wires, send_out, send_closer}
use net_mux.Stream.Inner.{StreamInner}

-- `Stream::poll_shutdown` calls this.
unfoldable pub local_fin : StreamInner → Wires → StreamInner × Wires
unfolding close_write
local_fin s w =
    let closed = record s { state = (close_write s.state).0 } in
    if s.state.reset
    then (s, w)
    else if not (close_write s.state).1
    then (closed, w)
    else if s.fin_sent
    then (closed, w)
    else (record closed { fin_sent = true }, send_out w (fin s.id))

-- `Stream::reset` calls this.
unfoldable pub local_reset : StreamInner → Wires → StreamInner × Wires
unfolding mark_reset
local_reset s w =
    let marked = record s { state = (mark_reset s.state).0 } in
    let torn = record marked {
      fin_sent = true;
      send_window = close s.send_window;
      recv_waker = wake ∷ s.recv_waker;
      ack_waker = wake ∷ s.ack_waker;
    } in
    if not (mark_reset s.state).1
    then (marked, w)
    else (torn, send_closer (if s.fin_sent then w else send_out w (rst s.id)) s.id)

-- `Stream::drop` calls this.
unfoldable pub on_user_drop : StreamInner → Wires → StreamInner × Wires
unfolding local_fin
on_user_drop s w =
    let sw = if s.state.write_open && not s.state.reset then local_fin s w else (s, w) in
    (sw.0, send_closer sw.1 s.id)
