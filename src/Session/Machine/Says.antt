-- ===== src/Session/Machine/Says.antt =====
-- What the steps of a session (src/session) announce: the calls and the closer, and a turn of the
-- writer.
use mathlib.Core.List.{Sublistᴰ}
use mathlib.Core.List.Sublistᴰ
use net_mux.Base.{
  ℕ, ◌+◌, ◌≤◌, ◌≡◌, refl, sym, ap, subst, Bool, Option, List, [], ◌∷◌, ◌++◌, arith, Bool-cases,
  Option-cases, List-cases, inl, inr,
}
use net_mux.Error.{internal_error, ok, err, Result-cases}
use net_mux.Protocol.Frame.{Bitflags, Frame, ack, rst}
use net_mux.Session.Manager.{remove}
use net_mux.Session.Inner.{SessionInner, stream_at}
use net_mux.Session.Announce.{
  go_aways, go_aways-append, go_aways-Sublist, is_go_away, syn_of, syns, syns-append, syns-Sublist,
  budget, SpendsIn, Spends-refl, send_frame-Spends, initiate_shutdown-Spends,
}
use net_mux.Session.Api.{
  Waited, waited, elapsed, finish_open, poll_accept, finish_close, closer_turn,
}
use net_mux.Session.Writer.{Sink, Answer, write_one}
use net_mux.Session.Writer
use net_mux.Session.Writer.Cases.{popped, turn_stops, turn_waits, turn_writes, turn_fails}
use net_mux.Session.Writer.Tries.{Accepts, write_one-Tries, feed-Tries, flush-Accepts, stays}

abbrev pub left : SessionInner → ℕ
left s = budget s.wires.out_tx s.is_closing

abbrev pub queued_syns : SessionInner → List ℕ
queued_syns s = syns s.wires.out_tx.queue

same_tx :
    (s t : SessionInner)
    → t.wires.out_tx ≡ s.wires.out_tx
    → t.is_closing ≡ s.is_closing
    → SpendsIn s t
same_tx s t e f = rw (e, f) (Spends-refl s.wires.out_tx s.is_closing)

pub closer_turn-Spends : (s : SessionInner) → SpendsIn s (closer_turn s).0
unfolding closer_turn
closer_turn-Spends s = same_tx s (closer_turn s).0 (ground arith) (ground arith)

pub finish_close-Spends : (s : SessionInner) → SpendsIn s (finish_close s).0
unfolding finish_close
finish_close-Spends s = same_tx s (finish_close s).0 (ground arith) (ground arith)

pub poll_accept-Spends : (seen : Bool) (s : SessionInner) → SpendsIn s (poll_accept seen s).0
unfolding poll_accept is_go_away syn_of
poll_accept-Spends seen s = elim (List-cases s.accept_tx.queue) [
  | inl q ↦ same_tx s (poll_accept seen s).0 (ground (arith, q)) (ground (arith, q))
  | inr (p, ps, q) ↦ elim (Option-cases (stream_at s.streams p)) [
    | inl n ↦ same_tx s (poll_accept seen s).0 (ground (arith, q, n)) (ground (arith, q, n))
    | inr (x, n) ↦ ground (
      arith,
      q,
      n,
      send_frame-Spends s (ack x.id) (refl, refl),
      Spends-refl s.wires.out_tx s.is_closing,
    )
  ]
]

pub finish_open-Spends :
    (s : SessionInner) (id place : ℕ) (w : Waited) → SpendsIn s (finish_open s (id, place) w).0
unfolding finish_open is_go_away syn_of
finish_open-Spends s id place (waited (ok u)) = same_tx s s refl refl
finish_open-Spends s id place (waited (err e)) =
    same_tx s (record s { registry = remove s.registry id }) refl refl
finish_open-Spends s id place elapsed = send_frame-Spends s (rst id) (refl, refl)

module _ (b : Bitflags) where
  -- What a turn of the writer has sent, and what it leaves.
  pub record Says (sk tl : SessionInner × Sink) : Type 0 where
    pub sent : List Frame
    pub from : Sublistᴰ sent sk.0.wires.out_tx.queue
    pub took : Accepts b sk.1 tl.1 sent
    pub less : go_aways sent + left tl.0 ≤ left sk.0
    pub order : Sublistᴰ (syns sent ++ queued_syns tl.0) (queued_syns sk.0)

  idle : (s : SessionInner) (k : Sink) → Says (s, k) (s, k)
  unfolding go_aways syns
  idle s k = record {
    sent = [];
    from = Sublistᴰ.nil-sublist s.wires.out_tx.queue;
    took = stays b k;
    less = omega arith;
    order = Sublistᴰ.refl (queued_syns s);
  }

  pop-left :
      (s : SessionInner) (f : Frame) (q sent : List Frame)
      → s.wires.out_tx.queue ≡ f ∷ q
      → Sublistᴰ sent (f ∷ [])
      → go_aways sent + left (popped s q) ≤ left s
  unfolding budget
  pop-left s f q sent e chosen =
      omega (arith, go_aways-append (f ∷ []) q, go_aways-Sublist chosen, ap go_aways e)

  pop-syns :
      (s : SessionInner) (f : Frame) (q sent : List Frame)
      → s.wires.out_tx.queue ≡ f ∷ q
      → Sublistᴰ sent (f ∷ [])
      → Sublistᴰ (syns sent ++ syns q) (queued_syns s)
  pop-syns s f q sent e chosen =
      rw (e, ← syns-append sent q) (syns-Sublist (Sublistᴰ.append chosen (Sublistᴰ.refl q)))

  pop-from :
      (s : SessionInner) (f : Frame) (q sent : List Frame)
      → s.wires.out_tx.queue ≡ f ∷ q
      → Sublistᴰ sent (f ∷ [])
      → Sublistᴰ sent s.wires.out_tx.queue
  pop-from s f q sent e chosen =
      rw e (Sublistᴰ.trans chosen (Sublistᴰ.cons-cons refl (Sublistᴰ.nil-sublist q)))

  -- The drain.
  pub feed-Says :
      (a : Option Answer) (s : SessionInner) (k : Sink) (f : Frame) (q : List Frame)
      → s.wires.out_tx.queue ≡ f ∷ q
      → Says (s, k) (popped s q, (Writer.feed b a k f).0)
  feed-Says a s k f q e =
      let h = feed-Tries b a k f in
      record {
        sent = h.sent;
        from = pop-from s f q h.sent e h.chosen;
        took = h.took;
        less = pop-left s f q h.sent e h.chosen;
        order = pop-syns s f q h.sent e h.chosen;
      }

  pub flush-Says :
      (a : Answer) (s : SessionInner) (k : Sink) → Says (s, k) (s, (Writer.flush a k).0)
  unfolding go_aways syns
  flush-Says a s k = record {
    sent = [];
    from = Sublistᴰ.nil-sublist s.wires.out_tx.queue;
    took = flush-Accepts b a k;
    less = omega arith;
    order = Sublistᴰ.refl (queued_syns s);
  }

  pub turn-Says :
      (a : Option Answer × Answer) (s : SessionInner) (k : Sink)
      → Says (s, k) (Writer.turn b a (s, k)).0
  turn-Says a s k = elim (Bool-cases s.shutdown) [
    | inl e ↦ becomes (turn_stops b a s k e) (idle s k)
    | inr e ↦ elim (List-cases s.wires.out_tx.queue) [
      | inl q ↦ becomes (turn_waits b a s k e q) (idle s k)
      | inr (f, fs, q) ↦
          let h = write_one-Tries b a k f in
          let less = pop-left s f fs h.sent q h.chosen in
          let order = pop-syns s f fs h.sent q h.chosen in
          let from = pop-from s f fs h.sent q h.chosen in
          let ends = initiate_shutdown-Spends (popped s fs) internal_error in
          elim (Result-cases (write_one b a k f).1) [
            | inl (u, r) ↦
                becomes (turn_writes b a s k f fs e q r)
                  (record { sent = h.sent; from = from; took = h.took; less = less; order = order })
            | inr (x, r) ↦ becomes (turn_fails b a s k f fs x e q r) (record {
              sent = h.sent;
              from = from;
              took = h.took;
              less = omega (arith, less, ends.within);
              order = rw ends.same_syns order;
            })
          ]
    ]
  ]
    where
      becomes :
          {r : (SessionInner × Sink) × Bool}
          → Writer.turn b a (s, k) ≡ r
          → Says (s, k) r.0
          → Says (s, k) (Writer.turn b a (s, k)).0
      becomes e h = subst (λ r. Says (s, k) r.0) (sym e) h
