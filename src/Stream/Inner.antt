-- ===== src/Stream/Inner.antt =====
-- StreamInner of src/stream/inner.rs: its state, and what the session's tasks do to it. A method takes
-- the stream and the shared channels and returns both; each atomic access and each section under the
-- lock is indivisible.
pub mod Delivers
pub mod Acked
pub mod Read
pub mod Write
pub mod Local
use net_mux.Base.{
  ℕ, ◌%◌, ◌^◌, ◌<◌, min, Bool, true, false, not, ◌&&◌, ◌||◌, Option, none, some, List, [], ◌∷◌,
  ◌++◌, ◌==◌, ltb, if◌then◌else◌, length, take, is_nil, u32_max,
}
use net_mux.Error.{
  Error, IoError, of_message, connection_reset, broken_pipe, Result, ok, err, session_closed,
  stream_reset,
}
use net_mux.Config.{Config}
use net_mux.Protocol.Frame.{Flags, Bitflags, Frame, data_of, fin, rst, window_update}
use net_mux.Flow.Window.{
  AcquireOutcome, acquired, outcome_closed, pending, WakerCall, register, wake, SendWindow,
  RecvWindow, Gaps, grant, close, poll_acquire, on_consume, new_send, new_recv,
}
use net_mux.Stream.State.{StreamState, close_read, close_write, mark_reset}
use net_mux.Stream.State
use net_mux.Stream.Recv.{ReadBuf, RecvBuffer, push, is_empty, read_into}
use net_mux.Stream.Recv
use net_mux.Stream.Channel.{
  Sender, send, Wires, send_out, send_closer, Poll, poll_ready, poll_pending, IoResult, io_ok,
  io_err,
}

pub data Origin : Type 0 where
  local remote : Origin

pub record StreamInner : Type 0 where
  pub id : ℕ
  pub config : Config
  pub state : StreamState
  pub send_window : SendWindow
  pub recv_window : RecvWindow
  pub recv : RecvBuffer
  pub recv_waker : List WakerCall
  pub ack_received : Bool
  pub ack_waker : List WakerCall
  pub fin_sent : Bool

unfoldable pub new : ℕ → Origin → Config → StreamInner
new id origin config = record {
  id = id;
  config = config;
  state = State.new;
  send_window = new_send config.initial_stream_window;
  recv_window = new_recv config.initial_stream_window;
  recv = Recv.new;
  recv_waker = [];
  ack_received = elim origin [ local ↦ false | remote ↦ true ];
  ack_waker = [];
  fin_sent = false;
}

unfoldable pub can_recv : StreamInner → Bool
can_recv s = s.state.read_open && not s.state.reset

-- Inbound dispatch

unfoldable pub push_data : StreamInner → List ℕ → StreamInner
push_data s payload =
    if is_nil payload
    then s
    else record s { recv = push s.recv payload; recv_waker = wake ∷ s.recv_waker }

unfoldable pub remote_fin : StreamInner → StreamInner
unfolding close_read
remote_fin s = record s { state = (close_read s.state).0; recv_waker = wake ∷ s.recv_waker }

unfoldable pub remote_reset : StreamInner → Wires → StreamInner × Wires
unfolding mark_reset
remote_reset s w = (
  record s {
    state = (mark_reset s.state).0;
    send_window = close s.send_window;
    recv_waker = wake ∷ s.recv_waker;
    ack_waker = wake ∷ s.ack_waker;
  },
  send_closer w s.id,
)

unfoldable pub grant_send_credit : StreamInner → ℕ → StreamInner
grant_send_credit s delta = record s { send_window = grant s.send_window delta }

unfoldable pub mark_acked : StreamInner → StreamInner
mark_acked s = record s { ack_received = true; ack_waker = wake ∷ s.ack_waker }

unfoldable pub force_close : StreamInner → StreamInner
unfolding close_read close_write
force_close s = record s {
  state = (close_write (close_read s.state).0).0;
  send_window = close s.send_window;
  recv_waker = wake ∷ s.recv_waker;
  ack_waker = wake ∷ s.ack_waker;
}

-- What the session's tasks can do to a stream while one of its own methods runs.
pub data Event : Type 0 where
  pushes : List ℕ → Event
  fins resets acks closes : Event
  grants : ℕ → Event

unfoldable pub deliver : Event → StreamInner × Wires → StreamInner × Wires
unfolding push_data remote_fin remote_reset mark_acked force_close grant_send_credit
deliver (pushes p) (s, w) = (push_data s p, w)
deliver fins (s, w) = (remote_fin s, w)
deliver resets (s, w) = remote_reset s w
deliver acks (s, w) = (mark_acked s, w)
deliver closes (s, w) = (force_close s, w)
deliver (grants d) (s, w) = (grant_send_credit s d, w)

unfoldable pub deliver_all : List Event → StreamInner × Wires → StreamInner × Wires
unfolding deliver
deliver_all [] sw = sw
deliver_all (e ∷ es) sw = deliver_all es (deliver e sw)
