-- ===== src/Stream/Inner/Acked/Sleep.antt =====
-- No wake-up of StreamInner::wait_acked (src/stream/inner.rs) is missed.
use net_mux.Base.{ℕ, ◌+◌, ◌≤◌, ◌<◌, ◌≡◌, ◌⊎◌, inl, inr, true, false, none, List, ◌∷◌, arith}
use net_mux.Flow.Window.{register}
use net_mux.Flow.Window.Send.{woken, registrations}
use net_mux.Stream.Channel.{Wires, poll_pending, Poll-cases}
use net_mux.Stream.Inner.{
  StreamInner, Event, pushes, fins, resets, acks, closes, grants, deliver, deliver_all,
}
use net_mux.Stream.Inner.Delivers.{all-keeps}
use net_mux.Stream.Inner.Acked.{acked, AckGaps, look_again, poll_acked}

-- A task that waits for the acknowledgement has no answer yet, or has been woken.
abbrev pub AwaitsAck : StreamInner → Type 0
AwaitsAck s = (woken s.ack_waker ≡ true) ⊎ (acked s ≡ none)

-- What the looks have found holds on, or the task has been woken.
record Found (count : ℕ) (s : StreamInner) : Type 0 where
  counted : count ≤ registrations s.ack_waker
  received : (woken s.ack_waker ≡ true) ⊎ (s.ack_received ≡ false)

record Unreset (count : ℕ) (s : StreamInner) : Type 0 where
  found : Found count s
  live : (woken s.ack_waker ≡ true) ⊎ (s.state.reset ≡ false)

deliver-Found :
    (count : ℕ) (e : Event) (s : StreamInner) (w : Wires)
    → Found count s
    → Found count (deliver e (s, w)).0
unfolding deliver
deliver-Found count (pushes p) s w h = ground arith
deliver-Found count fins s w h = ground arith
deliver-Found count resets s w h = ground arith
deliver-Found count acks s w h = ground arith
deliver-Found count closes s w h = ground arith
deliver-Found count (grants d) s w h = ground arith

deliver-Unreset :
    (count : ℕ) (e : Event) (s : StreamInner) (w : Wires)
    → Unreset count s
    → Unreset count (deliver e (s, w)).0
unfolding deliver
deliver-Unreset count e s w h = record {
  found = deliver-Found count e s w h.found;
  live = deliver-live e s w h.live;
}
  where
    deliver-live :
        (e : Event) (s : StreamInner) (w : Wires)
        → (woken s.ack_waker ≡ true) ⊎ (s.state.reset ≡ false)
        → let t = (deliver e (s, w)).0 in (woken t.ack_waker ≡ true) ⊎ (t.state.reset ≡ false)
    deliver-live (pushes p) s w h = ground arith
    deliver-live fins s w h = ground arith
    deliver-live resets s w h = ground arith
    deliver-live acks s w h = ground arith
    deliver-live closes s w h = ground arith
    deliver-live (grants d) s w h = ground arith

-- A task that has registered, and has been woken since or has no answer.
record Waits (count : ℕ) (s : StreamInner) : Type 0 where
  counted : count ≤ registrations s.ack_waker
  quiet : AwaitsAck s

deliver-Waits :
    (count : ℕ) (e : Event) (s : StreamInner) (w : Wires)
    → Waits count s
    → Waits count (deliver e (s, w)).0
unfolding deliver acked
deliver-Waits count (pushes p) s w h = ground arith
deliver-Waits count fins s w h = ground arith
deliver-Waits count resets s w h = ground arith
deliver-Waits count acks s w h = ground arith
deliver-Waits count closes s w h = ground arith
deliver-Waits count (grants d) s w h = ground arith

counts :
    (count : ℕ) (e : Event) (s : StreamInner) (w : Wires)
    → count ≤ registrations s.ack_waker
    → count ≤ registrations (deliver e (s, w)).0.ack_waker
unfolding deliver
counts count (pushes p) s w h = ground arith
counts count fins s w h = ground arith
counts count resets s w h = ground arith
counts count acks s w h = ground arith
counts count closes s w h = ground arith
counts count (grants d) s w h = ground arith

unanswered :
    (count : ℕ) (s : StreamInner) → Unreset count s → s.state.write_open ≡ true → Waits count s
unfolding acked
unanswered count s h e = record {
  counted = h.found.counted;
  quiet = elim h.found.received [
    | inl w ↦ inl w
    | inr r ↦ elim h.live [ inl w ↦ inl w | inr d ↦ inr (ground (arith, r, d, e)) ]
  ];
}

-- What a look that has found nothing has seen.
looked :
    (received unreset : List Event) (s : StreamInner) (w : Wires)
    → let o = look_again received unreset (s, w) in
      let sw1 = deliver_all received (s, w) in
      let sw2 = deliver_all unreset sw1 in
      o.1 ≡ poll_pending
      → (s.ack_received ≡ false)
        × (sw1.0.state.reset ≡ false)
        × (sw2.0.state.write_open ≡ true)
        × (o.0 ≡ sw2)
unfolding look_again
looked received unreset s w e = ground arith

look-Waits :
    (count : ℕ) (received unreset : List Event) (s : StreamInner) (w : Wires)
    → count ≤ registrations s.ack_waker
    → let o = look_again received unreset (s, w) in o.1 ≡ poll_pending → Waits count o.0.0
look-Waits count received unreset s w h e =
    let (r, d, open_half, same) = looked received unreset s w e in
    let sw1 = deliver_all received (s, w) in
    let found : Found count s = record { counted = h; received = inr r } in
    let found1 = all-keeps (λ t v. Found count t) (deliver-Found count) received s w found in
    let live : Unreset count sw1.0 = record { found = found1; live = inr d } in
    let live2 =
      all-keeps (λ t v. Unreset count t) (deliver-Unreset count) unreset sw1.0 sw1.1 live in
    rw same (unanswered count (deliver_all unreset sw1).0 live2 open_half)

-- No answer is missed: once a poll of `wait_acked` has said `Pending`, whatever happened between its
-- accesses and happens afterwards, the poll has registered the task, and the task has been woken since
-- its last registration or there is still no answer for it.
pub pending-AwaitsAck :
    (g : AckGaps) (later : List Event) (s : StreamInner) (w : Wires)
    → let o = poll_acked g (s, w) in
      o.1 ≡ poll_pending
      → (registrations s.ack_waker < registrations o.0.0.ack_waker)
        × AwaitsAck (deliver_all later o.0).0
unfolding poll_acked
pending-AwaitsAck g later s w e = elim (Poll-cases (look_again g.received g.unreset (s, w)).1) [
  | inl (r, p) ↦ absurd (ground (arith, rw (poll_acked, p) at e))
  | inr p ↦
      let first = (look_again g.received g.unreset (s, w)).0 in
      let keep =
        all-keeps (λ t v. registrations s.ack_waker ≤ registrations t.ack_waker)
          (counts (registrations s.ack_waker)) in
      let seen = keep g.received s w (omega arith) in
      let sw = deliver_all g.received (s, w) in
      let seen2 = keep g.unreset sw.0 sw.1 seen in
      let same = (looked g.received g.unreset s w p).3 in
      let seen3 : registrations s.ack_waker ≤ registrations first.0.ack_waker = rw same seen2 in
      let t = deliver_all g.waited first in
      let seen4 = keep g.waited first.0 first.1 seen3 in
      let t' = record (t.0) { ack_waker = register ∷ t.0.ack_waker } in
      let count = registrations s.ack_waker + 1 in
      let seen5 =
        all-keeps (λ t v. count ≤ registrations t.ack_waker) (counts count) g.registered t' t.1
          (omega arith) in
      let u = deliver_all g.registered (t', t.1) in
      let o = look_again g.received_again g.unreset_again u in
      let waits =
        look-Waits count g.received_again g.unreset_again u.0 u.1 seen5 (rw (poll_acked, p) at e) in
      rw (poll_acked, p)
        (
          omega (arith, waits.counted),
          (all-keeps (λ t v. Waits count t) (deliver-Waits count) later o.0.0 o.0.1 waits).quiet,
        )
]
