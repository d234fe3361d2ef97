-- ===== src/Lib.antt =====
-- net-mux: many streams over one connection, with credit-based flow control.
--
-- Parts of the program and how they interact. A session (src/session) owns the connection. Its reader
-- task decodes frames with the codec of src/protocol and hands each to a stream or to the session; its
-- users open, accept and use streams (src/stream); streams put frames into an outbound queue, which the
-- writer task encodes. Each stream has a send window, from which its writes take credit, and a receive
-- window, which turns bytes that were read into window updates for the peer (src/flow). Stream ids come
-- from the allocator of src/util/id.rs, odd on the client and even on the server.
--
-- Which file models which part:
--   Error      src/error.rs: ErrorCode, Error, the conversions; Result is the crate's Result.
--   Config     src/config.rs: Config, default, ConfigBuilder (its setters are one function, override).
--   Util.Id    src/util/id.rs: Role, StreamIdAllocator; Alloc runs allocate in many threads at once.
--   Protocol   src/protocol: Frame (frame.rs), Header (header.rs), Codec (codec.rs, with
--              Proptest for its property test).
--   Flow       src/flow/window.rs: Window has SendWindow and RecvWindow; Races and Consumers have one
--              step for each atomic access of the one and of the other; Link has both ends of one
--              direction of a stream.
--   Stream     src/stream: State (state.rs), Recv (recv.rs), Inner (inner.rs) with its children Read,
--              Write, Local and Acked; Life is a whole life of the Stream of mod.rs; Channel stands for
--              the channels and poll results of tokio.
--   Session    src/session: Manager (manager.rs), Inner (inner.rs, the state that Session::new makes),
--              Reader (reader.rs), Writer (writer.rs), Keepalive (keepalive.rs), Api (mod.rs:
--              open, accept, close, closer_task), Machine (all that shares one session, in any order; its child
--              Pair has two of them at the ends of one connection),
--              Announce (the GoAway and SYN frames of one session), Carried (its
--              frames and its codec), Transfer (from the writes of one side over
--              its writer task and the other's reader task to the reads of the other side).
--   Tests      runs on concrete input; Units has the unit tests of the source files.
-- A method that changes an object takes it and returns it. The streams of a session are shared between
-- registry, accept queue and users; they stand in one store and are referred to by their places. A
-- waker is the list of the calls made of it, the latest first. A channel is the list of what was sent
-- and not yet received, and whether the receiver is still there.
--
-- Concurrency. poll_acquire, poll_read and wait_acked take what others do between their accesses as
-- arguments (Gaps of Window, Round of Read, AckGaps of Acked), and poll_write what others do to its
-- window: the results hold for all of them. What others do to the flags of a stream between the looks
-- of poll_write and its send has no place in poll_write, and Stream.Life takes each call as a whole.
-- SendWindow, with one polling task and any number of others, and
-- RecvWindow and the allocator, with any number of threads, are also modelled access by access under
-- any interleaving; memory is sequentially consistent there, which is stronger than the orderings of
-- the source. In Session.Machine each step is what one task or one call does between two waits; a call
-- of open is cut further, into its look at the flags, its id, its registration and its SYN. The writer
-- has a step for a turn of its loop, one for each frame of its drain and one for the last flush.
--
-- Numbers. A u32 or u16 is a natural number; sums wrap around or saturate where the source does, and
-- stated bounds (IsU32) take the place of the types. A usize and a Duration are numbers without bound.
--
-- Fuel. decode_all, the loop over FrameCodec::decode, takes one round for each frame and one more; more
-- rounds than there are bytes are enough. decode_buffer and the property test have that many. poll_read
-- takes one Round for each round of its loop; where the list of them ends nothing happens, and the
-- loop ends.
--
-- Parameters. The methods of Flags that the crate bitflags generates are a record of operations with
-- the laws that its documentation states, Protocol.Frame.Bitflags; Tests has one that fulfils them.
-- How the connection answers the writer (Session.Writer.Answer) and how the wait of open ends
-- (Session.Api.Waited) are arguments.
--
-- Not modelled: the clock (what happens before a deadline is an argument), Display texts and logging,
-- integration tests, benches and examples.
pub mod Base
pub mod Error
pub mod Config
pub mod Util
pub mod Protocol
pub mod Flow
pub mod Stream
pub mod Session
pub mod Tests
