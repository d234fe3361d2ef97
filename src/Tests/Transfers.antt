-- ===== src/Tests/Transfers.antt =====
-- Bytes between two sessions: what writers put on their connections, and what arrives.
use mathlib.Core.List.{Sublistᴰ}
use net_mux.Base.{
  ℕ, suc, ◌≡◌, refl, true, none, some, All, List, [], ◌∷◌, ◌++◌, arith, length, concat, map, take,
}
use net_mux.Error.{ok, normal, internal_error, as_u32, of_message, broken_pipe}
use net_mux.Protocol.Frame.{Frame, syn, go_away}
use net_mux.Protocol.Codec.{encode_all, decode_all}
use net_mux.Protocol.Header
use net_mux.Protocol.Codec
use net_mux.Protocol.Codec.RoundTrip.{IsFrame}
use net_mux.Flow.Window.{Gaps, undisturbed, poll_acquire, try_take, run}
use net_mux.Stream.Inner.{StreamInner, can_recv}
use net_mux.Stream.Inner.Write.{poll_write, transmit}
use net_mux.Session.Manager.{get}
use net_mux.Session.Inner.{SessionInner, stream_at, initiate_shutdown}
use net_mux.Session.Reader.{frame}
use net_mux.Session.Reader
use net_mux.Session.Writer.{Answer, takes_all, breaks, new_sink}
use net_mux.Session.Writer
use net_mux.Session.Writer.Delivery.{run-decode_all}
use net_mux.Session.Writer.Failure.{run_may_fail}
use net_mux.Session.Transfer.{writes_all, chunk}
use net_mux.Session.Transfer.Reads.{reads_all}
use net_mux.Session.Transfer.Bytes.{writes_are_read}
use net_mux.Tests.{bitflags, wires}
use net_mux.Tests.Sessions.{one, session_of}
use net_mux.Tests.Streams.{stream_of, both_open, six}

-- Two frames wait for the writer: one turn of its loop, and then the drain.
abbrev busy : SessionInner
busy = record one {
  wires = record wires { out_tx = record { queue = syn 3 ∷ go_away normal ∷ []; alive = true } };
}

busy-IsFrame : All (IsFrame (Codec.new 4)) busy.wires.out_tx.queue
unfolding as_u32
busy-IsFrame =
    let first : IsFrame (Codec.new 4) (syn 3) = (omega arith, omega arith, omega arith) in
    let second : IsFrame (Codec.new 4) (go_away normal) = (tt, omega arith) in (first, (second, tt))

run-decode_all_example :
    let bytes =
      (Writer.run bitflags
        ((none, takes_all) ∷ [])
        (λ i. some takes_all)
        takes_all
        (busy, new_sink busy)).written in
    decode_all bitflags (suc (length bytes)) (Codec.new 4) bytes
    ≡ some ([], syn 3 ∷ go_away normal ∷ [], ok tt)
run-decode_all_example =
    run-decode_all bitflags ((none, takes_all) ∷ []) (λ i. some takes_all) busy ((tt, refl), tt)
      (λ i. refl) busy-IsFrame

-- The connection takes five bytes of the first frame and breaks; then it takes three more.
abbrev broken : Answer
broken = breaks 5 (of_message broken_pipe "broken")

abbrev cut : List ℕ
cut =
    (Writer.run bitflags ((none, broken) ∷ []) (λ i. none)
      (breaks 3 (of_message broken_pipe "broken")) (busy, new_sink busy)).written

run_may_fail_example :
    (rest : List ℕ) × (got : List Frame) × Sublistᴰ got
      ((syn 3 ∷ go_away normal ∷ []) ++ go_away internal_error ∷ [])
    × (decode_all bitflags (suc (length cut)) (Codec.new 4) cut ≡ some (rest, got, ok tt))
run_may_fail_example =
    run_may_fail bitflags ((none, broken) ∷ []) (λ i. none)
      (breaks 3 (of_message broken_pipe "broken")) busy busy-IsFrame

cut_short : cut ≡ 1 ∷ 0 ∷ 0 ∷ 1 ∷ 0 ∷ 0 ∷ 0 ∷ 3 ∷ []
unfolding Writer.run Codec.new Codec.encode initiate_shutdown Header.encode
cut_short = refl

-- Two writes of six bytes: the first takes a frame of four, the second the four that are left of the
-- window.
abbrev calls : List (Gaps × List ℕ)
calls = (undisturbed, six) ∷ (undisturbed, six) ∷ []

abbrev writer_stream : StreamInner
writer_stream = stream_of both_open []

abbrev reader_stream : StreamInner
reader_stream = stream_of both_open ((9 ∷ []) ∷ [])

abbrev receiver : SessionInner
receiver = session_of ((4, 0) ∷ []) (reader_stream ∷ [])

finds : get receiver.registry 4 ≡ some 0
unfolding get
finds = refl

receives : can_recv reader_stream ≡ true
unfolding can_recv
receives = refl

writes_are_read_example :
    let sent = writes_all bitflags calls writer_stream one.wires in
    let q = record one { wires = sent.0.1 } in
    let bytes =
      (Writer.run bitflags
        ((none, takes_all) ∷ [])
        (λ i. none)
        takes_all
        (q, new_sink q)).written in
    (fs : List Frame) × (decode_all bitflags (suc (length bytes)) (Codec.new 4) bytes
      ≡ some ([], fs, ok tt))
    × (let t = Reader.run bitflags receiver (map frame fs) in
        (z : StreamInner) × (stream_at t.streams 0 ≡ some z)
        × (concat (reads_all bitflags (3 ∷ 0 ∷ 4 ∷ []) z t.wires).1
            ≡ take 7 ((9 ∷ []) ++ concat sent.1)))
writes_are_read_example =
    writes_are_read bitflags calls ((none, takes_all) ∷ []) (λ i. none) (3 ∷ 0 ∷ 4 ∷ []) one
      receiver writer_stream reader_stream 0 refl refl (omega arith) (omega arith) (omega arith)
      ((tt, refl), tt) (λ i. tt) refl finds refl receives

takes_fours :
    (writes_all bitflags calls writer_stream wires).1
    ≡ (1 ∷ 2 ∷ 3 ∷ 4 ∷ []) ∷ (1 ∷ 2 ∷ 3 ∷ 4 ∷ []) ∷ []
unfolding writes_all chunk poll_write transmit poll_acquire try_take run
takes_fours = refl
