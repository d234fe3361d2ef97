-- ===== src/Stream/Inner/Read.antt =====
-- StreamInner::poll_read of src/stream/inner.rs. Other threads may act between its looks: what they do
-- there is an argument.
pub mod Keeps
pub mod Results
pub mod Sleep
use net_mux.Base.{ℕ, ◌%◌, ◌^◌, Bool, not, ◌||◌, none, some, List, [], ◌∷◌, ◌==◌, ltb, if◌then◌else◌}
use net_mux.Error.{of_message, connection_reset}
use net_mux.Protocol.Frame.{Bitflags, window_update}
use net_mux.Flow.Window.{register, on_consume}
use net_mux.Stream.Recv.{ReadBuf, is_empty, read_into}
use net_mux.Stream.Channel.{
  Wires, send_out, Poll, poll_ready, poll_pending, IoResult, io_ok, io_err,
}
use net_mux.Stream.Inner.{StreamInner, Event, deliver_all}

pub record ReadOutcome : Type 0 where
  pub stream : StreamInner
  pub wires : Wires
  pub buf : ReadBuf
  pub result : Poll (IoResult (Unit {0}))

-- What other threads do in one round of the loop: behind its look at the reset flag, its copy, its look
-- at the read half, its registration, and its second look at the buffer.
pub record Round : Type 0 where
  pub looked : List Event
  pub copied : List Event
  pub opened : List Event
  pub registered : List Event
  pub emptied : List Event

-- A round in which nothing happens.
abbrev pub calm : Round
calm = record { looked = []; copied = []; opened = []; registered = []; emptied = [] }

-- Whether the second look sends `poll_read` round the loop again: at the buffer first, then at the
-- flags.
unfoldable pub looks_again : StreamInner → StreamInner → Bool
looks_again s t = not (is_empty s.recv) || (not t.state.read_open || t.state.reset)

module _ (b : Bitflags) where
  -- What `poll_read` does with the bytes that it has just copied.
  unfoldable pub report : StreamInner → Wires → ℕ → StreamInner × Wires
  report s w consumed =
      let r = on_consume s.recv_window (consumed % 2 ^ 32) in
      let s' = record s { recv_window = r.0 } in
      elim r.1 [ none ↦ (s', w) | some delta ↦ (s', send_out w (window_update b s.id delta)) ]

  -- One round of the loop of `poll_read`, up to the registration of the waker: `poll_pending` stands
  -- for a round that has registered it.
  unfoldable pub read_round : Round → StreamInner → Wires → ReadBuf → ReadOutcome
  unfolding report deliver_all
  read_round g s w buf =
      let sw = deliver_all g.looked (s, w) in
      let r = read_into sw.0.recv buf in
      let s1 = record (sw.0) { recv = r.0 } in
      let done = report s1 sw.1 r.2 in
      let sw2 = deliver_all g.copied (s1, sw.1) in
      let sw3 = deliver_all g.opened sw2 in
      if s.state.reset
      then record {
        stream = s;
        wires = w;
        buf = buf;
        result = poll_ready (io_err (of_message connection_reset "stream reset"));
      }
      else if ltb 0 r.2
      then record { stream = done.0; wires = done.1; buf = r.1; result = poll_ready (io_ok tt) }
      else if not sw2.0.state.read_open
      then record { stream = sw2.0; wires = sw2.1; buf = r.1; result = poll_ready (io_ok tt) }
      else record {
        stream = record (sw3.0) { recv_waker = register ∷ sw3.0.recv_waker };
        wires = sw3.1;
        buf = r.1;
        result = poll_pending;
      }

  -- The loop. When no round is left nothing happens in the next one, and its second look changes
  -- nothing: `read_round-quiet`.
  unfoldable pub read_rounds : List Round → StreamInner → Wires → ReadBuf → ReadOutcome
  unfolding read_round looks_again deliver_all
  read_rounds [] s w buf = read_round calm s w buf
  read_rounds (g ∷ gaps) s w buf =
      let a = read_round g s w buf in
      let sw = deliver_all g.registered (a.stream, a.wires) in
      let sw2 = deliver_all g.emptied sw in
      let again = read_rounds gaps sw2.0 sw2.1 a.buf in
      elim a.result [
        | poll_ready r ↦ a
        | poll_pending ↦
            if looks_again sw.0 sw2.0 then again else record a { stream = sw2.0; wires = sw2.1 }
      ]

  unfoldable pub poll_read : List Round → StreamInner → Wires → ReadBuf → ReadOutcome
  unfolding read_rounds
  poll_read gaps s w buf =
      if buf.remaining == 0
      then record { stream = s; wires = w; buf = buf; result = poll_ready (io_ok tt) }
      else read_rounds gaps s w buf
