-- ===== src/Stream/Inner/Local/Once.antt =====
-- StreamInner::local_fin, local_reset and on_user_drop of src/stream/inner.rs against each other.
use net_mux.Base.{◌≡◌, true, false, arith}
use net_mux.Protocol.Frame.{fin, rst}
use net_mux.Stream.Channel.{Wires, send_closer, send_out}
use net_mux.Stream.Inner.{StreamInner}
use net_mux.Stream.Inner.Local.{local_fin, local_reset, on_user_drop}

-- Shutting down closes the write half only: what was received, what may still be received and the
-- credit of both sides stay.
local_fin_half :
    (s : StreamInner) (w : Wires)
    → let t = (local_fin s w).0 in
      (t.recv ≡ s.recv)
      × (t.state.read_open ≡ s.state.read_open)
      × (t.state.reset ≡ s.state.reset)
      × (t.recv_window ≡ s.recv_window)
      × (t.send_window ≡ s.send_window)
unfolding local_fin
local_fin_half s w = ground arith

-- On an open stream that has sent no FIN a shutdown sends one; a second shutdown changes nothing.
local_fin_once :
    (s : StreamInner) (w : Wires)
    → s.state.reset ≡ false
    → s.state.write_open ≡ true
    → s.fin_sent ≡ false
    → let sw = local_fin s w in (sw.1 ≡ send_out w (fin s.id)) × (local_fin sw.0 sw.1 ≡ sw)
unfolding local_fin
local_fin_once s w live opened unsent = ground arith

-- A reset marks the stream, closes both halves and asks for the removal from the registry; a second
-- one changes nothing, and no shutdown or drop after it sends a frame.
local_reset_once :
    (s : StreamInner) (w : Wires)
    → s.state.reset ≡ false
    → let sw = local_reset s w in
      (sw.1.closer_tx ≡ (send_closer w s.id).closer_tx)
      × (local_reset sw.0 sw.1 ≡ sw)
      × (local_fin sw.0 sw.1 ≡ sw)
      × ((on_user_drop sw.0 sw.1).1.out_tx ≡ sw.1.out_tx)
unfolding local_reset on_user_drop
local_reset_once s w live = ground arith

-- A reset sends its RST on a stream that has sent no FIN. After a shutdown that has sent one it sends
-- nothing: the peer is not told that the stream was torn down.
reset_after_fin :
    (s : StreamInner) (w : Wires)
    → s.state.reset ≡ false
    → s.state.write_open ≡ true
    → s.fin_sent ≡ false
    → ((local_reset s w).1.out_tx ≡ (send_out w (rst s.id)).out_tx)
      × ((local_reset (local_fin s w).0 (local_fin s w).1).1.out_tx
          ≡ (send_out w (fin s.id)).out_tx)
      × ((local_reset (local_fin s w).0 (local_fin s w).1).0.state.reset ≡ true)
unfolding local_reset local_fin
reset_after_fin s w live opened unsent = ground arith
