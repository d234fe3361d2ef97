-- ===== src/Stream/Inner/Write.antt =====
-- StreamInner::poll_write of src/stream/inner.rs.
pub mod Results
use net_mux.Base.{ℕ, min, not, List, if◌then◌else◌, length, take, is_nil, u32_max}
use net_mux.Error.{IoError, of_message, connection_reset, broken_pipe}
use net_mux.Protocol.Frame.{Bitflags, data_of}
use net_mux.Flow.Window.{acquired, outcome_closed, pending, Gaps, grant, poll_acquire}
use net_mux.Stream.State.{close_write}
use net_mux.Stream.Channel.{send, Wires, Poll, poll_ready, poll_pending, IoResult, io_ok, io_err}
use net_mux.Stream.Inner.{StreamInner}

pub record WriteOutcome : Type 0 where
  pub stream : StreamInner
  pub wires : Wires
  pub result : Poll (IoResult ℕ)

abbrev pub write_error : StreamInner → Wires → IoError → WriteOutcome
write_error s w e = record { stream = s; wires = w; result = poll_ready (io_err e) }

abbrev pub want : StreamInner → List ℕ → ℕ
want s buf = min (min (length buf) s.config.max_frame_size) u32_max

module _ (b : Bitflags) where
  -- What `poll_write` does with the credit that it has acquired.
  unfoldable pub transmit : StreamInner → Wires → List ℕ → ℕ → WriteOutcome
  unfolding close_write
  transmit s w buf n =
      let sent = send w.out_tx (data_of s.id b.empty (take n buf)) in
      let refunded = record s {
        send_window = grant s.send_window n;
        state = (close_write s.state).0;
      } in
      if sent.1
      then record {
        stream = s;
        wires = record w { out_tx = sent.0 };
        result = poll_ready (io_ok n);
      }
      else write_error refunded w (of_message broken_pipe "session is shutting down")

  unfoldable pub poll_write : Gaps → StreamInner → Wires → List ℕ → WriteOutcome
  unfolding transmit
  poll_write g s w buf =
      let a = poll_acquire g s.send_window (want s buf) in
      let s' = record s { send_window = a.0 } in
      if s.state.reset
      then write_error s w (of_message connection_reset "stream reset")
      else if not s.state.write_open
      then write_error s w (of_message broken_pipe "write half closed")
      else if is_nil buf
      then record { stream = s; wires = w; result = poll_ready (io_ok 0) }
      else elim a.1 [
        | outcome_closed ↦ write_error s' w (of_message broken_pipe "send window closed")
        | pending ↦ record { stream = s'; wires = w; result = poll_pending }
        | acquired n ↦ transmit s' w buf n
      ]
