-- ===== src/Session/Machine/Announce.antt =====
-- What a session says of its end, on its wire and in its queue, under any interleaving
-- (src/session/inner.rs and writer.rs).
use net_mux.Base.{◌+◌, ◌≤◌, ◌≡◌, refl, List, ◌++◌, arith, if◌then◌else◌}
use net_mux.Error.{code_timeout, normal}
use net_mux.Config.{Config}
use net_mux.Util.Id.{Role}
use net_mux.Protocol.Frame.{Bitflags, Frame, syn, ping}
use net_mux.Protocol.Codec
use net_mux.Protocol.Codec.{FrameCodec}
use net_mux.Protocol.Codec.Batch.{spelling}
use net_mux.Session.Inner.{new as new_session}
use net_mux.Session.Announce.{
  go_aways, go_aways-append, is_go_away, syn_of, budget, send-budget, send_frame-Spends,
  initiate_shutdown-Spends,
}
use net_mux.Session.Announce.Streams.{step-Spends}
use net_mux.Session.Reader.Announce.{turn-Spends}
use net_mux.Session.Machine.Sent.{extend, sent_of, Reach-Spelt}
use net_mux.Session.Machine.Says.{
  left, turn-Says, feed-Says, flush-Says, closer_turn-Spends, finish_close-Spends,
  poll_accept-Spends, finish_open-Spends,
}
use net_mux.Session.Machine.{
  Machine, Step, reads, writes, drains, flushes, writer_ends, removes, pings, takes_pongs,
  times_out, uses, accepts, closes, joins, open_checks, open_exhausted, open_allocates,
  open_clashes, open_registers, open_refused, open_announces, open_ends, Reach, start, later,
}

module _ (b : Bitflags) where
  -- The GoAways among the frames that the sink has accepted, and those to come.
  abbrev Once : List Frame → Machine → Type 0
  Once sent m = go_aways sent + left m.session ≤ 1

  Step-Once :
      (m n : Machine) (st : Step b m n) (sent : List Frame)
      → Once sent m
      → Once (extend b st sent) n
  unfolding extend budget is_go_away syn_of
  Step-Once m n (reads i e) sent v = rw e (omega (arith, v, (turn-Spends b m.session i).within))
  Step-Once m n (writes a e) sent v =
      let h = turn-Says b a m.session m.sink in
      rw e (omega (arith, v, h.less, go_aways-append sent h.sent))
  Step-Once m n (drains a f q x l e) sent v =
      let h = feed-Says b a m.session m.sink f q l in
      rw e (omega (arith, v, h.less, go_aways-append sent h.sent))
  Step-Once m n (flushes a x l e) sent v =
      let h = flush-Says b a m.session m.sink in
      rw e (omega (arith, v, h.less, go_aways-append sent h.sent))
  Step-Once m n (writer_ends e) sent v = rw e v
  Step-Once m n (removes e) sent v = rw e (omega (arith, v, (closer_turn-Spends m.session).within))
  Step-Once m n (pings k e) sent v =
      rw e (omega (arith, v, (send_frame-Spends m.session (ping b k) (refl, refl)).within))
  Step-Once m n (takes_pongs k g e) sent v = rw e v
  Step-Once m n (times_out e) sent v =
      rw e (omega (arith, v, (initiate_shutdown-Spends m.session code_timeout).within))
  Step-Once m n (uses p x a at e) sent v =
      let h = step-Spends b m.session.is_closing a x m.session.wires in
      rw e (omega (arith, v, h.within))
  Step-Once m n (accepts s e) sent v =
      rw e (omega (arith, v, (poll_accept-Spends s m.session).within))
  Step-Once m n (closes e) sent v =
      rw e (omega (arith, v, (initiate_shutdown-Spends m.session normal).within))
  Step-Once m n (joins e) sent v = rw e (omega (arith, v, (finish_close-Spends m.session).within))
  Step-Once m n (open_checks i h may e) sent v = rw e v
  Step-Once m n (open_exhausted i h x e) sent v = rw e v
  Step-Once m n (open_allocates i id h x e) sent v = rw e v
  Step-Once m n (open_clashes i id f h x e) sent v = rw e v
  Step-Once m n (open_registers i id r h x e) sent v = rw e v
  Step-Once m n (open_refused i id p h x e) sent v = rw e v
  Step-Once m n (open_announces i id p h x e) sent v =
      let same = send-budget m.session.wires.out_tx (syn id) m.session.is_closing refl in
      rw e (omega (arith, same, v))
  Step-Once m n (open_ends i id p w h e) sent v =
      rw e (omega (arith, v, (finish_open-Spends m.session id p w).within))

  Reach-Once :
      (config : Config) (role : Role) {m : Machine} (r : Reach b config role m)
      → Once (sent_of b r) m
  unfolding sent_of new_session budget go_aways
  Reach-Once config role start = omega arith
  Reach-Once config role (later {m} {n} r s) =
      Step-Once m n s (sent_of b r) (Reach-Once config role r)

  -- In every state that the tasks of a session, its users and any number of calls of `open` can reach
  -- together, what the writer has put on the connection, with what it still holds for it, is the
  -- encoding of whole frames; and these together with the queued frames have at most one GoAway, and
  -- none while the session is not closing.
  pub Reach-announces :
      (config : Config) (role : Role) {m : Machine}
      → Reach b config role m
      → (sent : List Frame) × (m.sink.written ++ m.sink.buffer
          ≡ spelling b (Codec.new config.max_frame_size) sent)
        × (go_aways (sent ++ m.session.wires.out_tx.queue)
            ≤ (if m.session.is_closing then 1 else 0))
  unfolding budget
  Reach-announces config role {m} r =
      let sent = sent_of b r in
      let v = Reach-Once config role r in
      (
        sent,
        (Reach-Spelt b config role r).spelt,
        ground (arith, v, go_aways-append sent m.session.wires.out_tx.queue),
      )
