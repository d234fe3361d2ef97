-- ===== src/Session/Writer/Cases.antt =====
-- One turn of the writer's loop (src/session/writer.rs), case by case.
use net_mux.Base.{◌≡◌, true, false, Option, List, [], ◌∷◌, arith}
use net_mux.Error.{Error, internal_error, ok, err}
use net_mux.Protocol.Frame.{Bitflags, Frame}
use net_mux.Session.Inner.{SessionInner, initiate_shutdown}
use net_mux.Session.Writer.{Sink, Answer, write_one, turn}

abbrev pub popped : SessionInner → List Frame → SessionInner
popped s q = record s {
  wires = record (s.wires) { out_tx = record (s.wires.out_tx) { queue = q } };
}

module _ (b : Bitflags) (a : Option Answer × Answer) (s : SessionInner) (k : Sink) where
  pub turn_stops : s.shutdown ≡ true → turn b a (s, k) ≡ ((s, k), false)
  unfolding turn
  turn_stops e = ground arith

  pub turn_waits : s.shutdown ≡ false → s.wires.out_tx.queue ≡ [] → turn b a (s, k) ≡ ((s, k), true)
  unfolding turn
  turn_waits live e = ground arith

  pub turn_writes :
      (f : Frame) (q : List Frame)
      → s.shutdown ≡ false
      → s.wires.out_tx.queue ≡ f ∷ q
      → (write_one b a k f).1 ≡ ok tt
      → turn b a (s, k) ≡ ((popped s q, (write_one b a k f).0), true)
  unfolding turn
  turn_writes f q live e fine = ground arith

  -- A frame that cannot be sent is gone from the queue, and ends the session.
  pub turn_fails :
      (f : Frame) (q : List Frame) (x : Error)
      → s.shutdown ≡ false
      → s.wires.out_tx.queue ≡ f ∷ q
      → (write_one b a k f).1 ≡ err x
      → turn b a (s, k)
        ≡ ((initiate_shutdown (popped s q) internal_error, (write_one b a k f).0), false)
  unfolding turn
  turn_fails f q x live e bad = ground arith
