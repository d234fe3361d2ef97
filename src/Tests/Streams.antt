-- ===== src/Tests/Streams.antt =====
-- One stream: reading, writing, closing.
use net_mux.Base.{
  ◌<◌, ℕ, zero, suc, ◌+◌, ◌-◌, ◌≡◌, refl, min, true, false, List, [], ◌∷◌, ◌++◌, arith, length,
  take, drop,
}
use net_mux.Error.{err, protocol}
use net_mux.Protocol.Frame.{Frame, rst, data_of}
use net_mux.Protocol.Codec.{absolute_max_payload, encode}
use net_mux.Protocol.Codec
use net_mux.Flow.Window.{undisturbed, acquired, poll_acquire, try_take, run}
use net_mux.Stream.State.{StreamState}
use net_mux.Stream.Recv.{ReadBuf, read_into, read_loop, is_empty}
use net_mux.Stream.Recv.Fifo.{contents, read_into_lem}
use net_mux.Stream.Channel.{poll_ready, poll_pending, io_ok}
use net_mux.Stream.Inner.{StreamInner, remote, pushes, fins, acks, closes, grants, deliver_all, new}
use net_mux.Flow.Window.Send.{registrations}
use net_mux.Stream.Inner.Read.{Round, poll_read, read_rounds, read_round, looks_again}
use net_mux.Stream.Inner.Read.Sleep.{Asleep, pending-Asleep}
use net_mux.Stream.Inner.Acked.{AckGaps, look_again, poll_acked}
use net_mux.Stream.Inner.Acked.Sleep.{AwaitsAck, pending-AwaitsAck}
use net_mux.Stream.Inner.Local.{local_reset}
use net_mux.Stream.Inner.Write.{poll_write, transmit}
use net_mux.Stream.Inner.Write.Results.{poll_write_refused}
use net_mux.Stream.Life
use net_mux.Stream.Life.Order.{Tidy, run-Tidy, data_behind_reset}
use net_mux.Tests.{bitflags, wires, small}

abbrev pub both_open : StreamState
both_open = record { read_open = true; write_open = true; reset = false }

abbrev pub stream_of : StreamState → List (List ℕ) → StreamInner
stream_of state queue = record {
  id = 4;
  config = small;
  state = state;
  send_window = record { available = 8; closed = false; waker = [] };
  recv_window = record { initial = 8; pending_credit = 0 };
  recv = record { queue = queue };
  recv_waker = [];
  ack_received = true;
  ack_waker = [];
  fin_sent = false;
}

abbrev chunks : List (List ℕ)
chunks = (1 ∷ 2 ∷ []) ∷ (3 ∷ 4 ∷ []) ∷ []

abbrev room : ReadBuf
room = record { filled = 9 ∷ []; remaining = 3 }

read_into_lem_example :
    let r = read_into (record { queue = chunks }) room in
    (contents r.0 ≡ drop 3 (1 ∷ 2 ∷ 3 ∷ 4 ∷ []))
    × (r.1.filled ≡ (9 ∷ []) ++ take 3 (1 ∷ 2 ∷ 3 ∷ 4 ∷ []))
    × (r.1.remaining ≡ 3 - 4)
    × (r.2 ≡ min 3 4)
read_into_lem_example = read_into_lem (record { queue = chunks }) room

abbrev finished : StreamState
finished = record { read_open = false; write_open = true; reset = false }

-- A round in which credit and an acknowledgement come.
abbrev one_round : Round
one_round = record {
  looked = grants 1 ∷ [];
  copied = acks ∷ [];
  opened = grants 2 ∷ [];
  registered = [];
  emptied = acks ∷ [];
}

waits :
    (poll_read bitflags (one_round ∷ []) (stream_of both_open []) wires room).result ≡ poll_pending
unfolding poll_read read_rounds read_round read_into read_loop looks_again is_empty deliver_all
waits = refl

pending-Asleep_example :
    let o = poll_read bitflags (one_round ∷ []) (stream_of both_open []) wires room in
    (registrations [] < registrations o.stream.recv_waker)
    × Asleep (deliver_all (pushes (7 ∷ []) ∷ fins ∷ []) (o.stream, o.wires)).0
pending-Asleep_example =
    pending-Asleep bitflags (one_round ∷ []) (pushes (7 ∷ []) ∷ fins ∷ []) (stream_of both_open [])
      wires room waits

-- A stream that its opener waits for; the session closes behind the poll.
abbrev opening : StreamInner
opening = record (stream_of both_open []) { ack_received = false }

abbrev ack_gaps : AckGaps
ack_gaps = record {
  received = grants 3 ∷ [];
  unreset = [];
  waited = pushes (1 ∷ []) ∷ [];
  registered = [];
  received_again = [];
  unreset_again = grants 1 ∷ [];
}

still_waits : (poll_acked ack_gaps (opening, wires)).1 ≡ poll_pending
unfolding poll_acked look_again deliver_all
still_waits = refl

pending-AwaitsAck_example :
    (registrations [] < registrations (poll_acked ack_gaps (opening, wires)).0.0.ack_waker)
    × AwaitsAck (deliver_all (closes ∷ acks ∷ []) (poll_acked ack_gaps (opening, wires)).0).0
pending-AwaitsAck_example =
    pending-AwaitsAck ack_gaps (closes ∷ acks ∷ []) opening wires still_waits

abbrev pub six : List ℕ
six = 1 ∷ 2 ∷ 3 ∷ 4 ∷ 5 ∷ 6 ∷ []

writes_four :
    (poll_write bitflags undisturbed (stream_of both_open []) wires six).result
    ≡ poll_ready (io_ok 4)
unfolding poll_write transmit poll_acquire try_take run
writes_four = refl

-- A buffer that is larger than the codec's ceiling.
zeros : ℕ → List ℕ
zeros zero = []
zeros (suc n) = 0 ∷ zeros n

length-zeros : (n : ℕ) → length (zeros n) ≡ n
unfolding zeros
length-zeros zero = refl
length-zeros (suc n) = omega (arith, length-zeros n)

abbrev above : ℕ
above = absolute_max_payload + 1

abbrev wide : StreamInner
wide = record (stream_of both_open []) {
  config = record small { max_frame_size = above };
  send_window = record { available = above; closed = false; waker = [] };
}

poll_write_refused_example :
    (f : Frame) × ((poll_write bitflags undisturbed wide wires (zeros above)).wires.out_tx.queue
      ≡ [] ++ (f ∷ []))
    × (encode bitflags (Codec.new above) f [] ≡ ([], err (protocol "data payload exceeds limit")))
poll_write_refused_example =
    poll_write_refused bitflags wide wires (zeros above) [] refl refl refl refl (omega arith)
      (omega (arith, length-zeros above))

-- A user who writes, shuts down, drops the stream, and a peer who resets it.
abbrev acts : List Life.Act
acts =
    Life.writes undisturbed six
    ∷ Life.shuts_down
    ∷ Life.receives (pushes six)
    ∷ Life.drops
    ∷ Life.resets
    ∷ []

run-Tidy_example : Tidy (Life.run bitflags acts (new 4 remote small, wires)).1.out_tx.queue
run-Tidy_example = run-Tidy bitflags acts 4 remote small wires refl

four_acquired : (poll_acquire undisturbed (stream_of both_open []).send_window 4).1 ≡ acquired 4
unfolding poll_acquire try_take run
four_acquired = refl

data_behind_reset_example :
    let a = poll_acquire undisturbed (stream_of both_open []).send_window 4 in
    let sw = local_reset (record (stream_of both_open []) { send_window = a.0 }) wires in
    let o = transmit bitflags sw.0 sw.1 six 4 in
    (o.result ≡ poll_ready (io_ok 4))
    × (o.wires.out_tx.queue
        ≡ wires.out_tx.queue ++ rst 4 ∷ data_of 4 bitflags.empty (take 4 six) ∷ [])
data_behind_reset_example =
    data_behind_reset bitflags undisturbed (stream_of both_open []) wires six 4 refl refl refl
      four_acquired
