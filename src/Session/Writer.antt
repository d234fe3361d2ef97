-- ===== src/Session/Writer.antt =====
-- src/session/writer.rs: the writer task. How the connection answers a flush is an argument; a sink
-- (`FramedWrite` of tokio-util) may flush on its own before it takes a frame.
pub mod Cases
pub mod Delivery
pub mod Tries
pub mod Failure
use net_mux.Base.{
  ℕ, suc, Bool, true, false, Option, none, some, List, [], ◌∷◌, ◌++◌, take, drop, if◌then◌else◌,
}
use net_mux.Error.{Error, IoError, io, internal_error, Result, ok, err}
use net_mux.Protocol.Frame.{Bitflags, Frame}
use net_mux.Protocol.Codec.{FrameCodec}
use net_mux.Protocol.Codec
use net_mux.Session.Inner.{SessionInner, initiate_shutdown}

-- `buffer` holds what is encoded and not flushed; `written` is what the connection has taken.
pub record Sink : Type 0 where
  pub codec : FrameCodec
  pub buffer : List ℕ
  pub written : List ℕ

-- The sink that the task makes.
abbrev pub new_sink : SessionInner → Sink
new_sink s = record { codec = Codec.new s.config.max_frame_size; buffer = []; written = [] }

-- The connection takes all that is buffered, or some of it and then fails.
pub data Answer : Type 0 where
  takes_all : Answer
  breaks : (taken : ℕ) → IoError → Answer

unfoldable pub flush : Answer → Sink → Sink × Result (Unit {0})
flush takes_all k = (record k { buffer = []; written = k.written ++ k.buffer }, ok tt)
flush (breaks n e) k =
    (record k { buffer = drop n k.buffer; written = k.written ++ take n k.buffer }, err (io e))

-- `poll_ready` of the sink: `none` where it does not flush.
unfoldable pub make_room : Option Answer → Sink → Sink × Result (Unit {0})
unfolding flush
make_room none k = (k, ok tt)
make_room (some a) k = flush a k

module _ (b : Bitflags) where
  unfoldable pub feed : Option Answer → Sink → Frame → Sink × Result (Unit {0})
  unfolding make_room
  feed ready k f =
      let r = make_room ready k in
      let p = Codec.encode b r.0.codec f r.0.buffer in
      elim r.1 [ err e ↦ (r.0, err e) | ok _ ↦ (record (r.0) { buffer = p.0 }, p.1) ]

  unfoldable pub write_one : Option Answer × Answer → Sink → Frame → Sink × Result (Unit {0})
  unfolding feed flush
  write_one (ready, last) k f =
      let r = feed ready k f in
      let done = flush last r.0 in elim r.1 [ err e ↦ (r.0, err e) | ok _ ↦ done ]

  -- One turn of the loop; the flag tells whether it goes on.
  unfoldable pub turn : Option Answer × Answer → SessionInner × Sink → (SessionInner × Sink) × Bool
  unfolding write_one
  turn answers (s, k) = if s.shutdown then ((s, k), false) else elim s.wires.out_tx.queue [
    | [] ↦ ((s, k), true)
    | f ∷ q ↦
        let popped = record s {
          wires = record (s.wires) { out_tx = record (s.wires.out_tx) { queue = q } };
        } in
        let r = write_one answers k f in
        elim r.1 [
          | ok _ ↦ ((popped, r.0), true)
          | err e ↦ ((initiate_shutdown popped internal_error, r.0), false)
        ]
  ]

  unfoldable pub loop : List (Option Answer × Answer) → SessionInner × Sink → SessionInner × Sink
  unfolding turn
  loop [] sk = sk
  loop (a ∷ more) sk = let r = turn a sk in let rest = loop more r.0 in if r.1 then rest else r.0

  -- `drain`: the frames that are still queued, up to the first that fails, and then a flush.
  unfoldable pub drain : (ℕ → Option Answer) → Answer → List Frame → Sink → Sink
  unfolding feed flush
  drain ready last [] k = (flush last k).0
  drain ready last (f ∷ fs) k =
      let r = feed (ready 0) k f in
      let rest = drain (λ i. ready (suc i)) last fs r.0 in elim r.1 [ err e ↦ r.0 | ok _ ↦ rest ]

  -- The task: as many turns of the loop as the list has, then the drain.
  unfoldable pub run :
      List (Option Answer × Answer) → (ℕ → Option Answer) → Answer → SessionInner × Sink → Sink
  unfolding loop drain
  run turns ready last sk = let t = loop turns sk in drain ready last t.0.wires.out_tx.queue t.1
