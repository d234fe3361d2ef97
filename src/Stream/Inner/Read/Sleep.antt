-- ===== src/Stream/Inner/Read/Sleep.antt =====
-- No wake-up of StreamInner::poll_read (src/stream/inner.rs) is missed.
use net_mux.Base.{
  ℕ, ◌+◌, ◌≤◌, ◌<◌, ◌≡◌, refl, sym, min, true, false, List, [], ◌∷◌, arith, length, ap, ◌∙◌, ◌⊎◌,
  inl, inr, Bool-cases, drop-nil, ◌==◌,
}
use net_mux.Protocol.Frame.{Bitflags}
use net_mux.Flow.Window.Send.{woken, registrations}
use net_mux.Stream.Recv.{ReadBuf, read_into}
use net_mux.Stream.Recv.Fifo.{contents, read_into_lem, is_empty_iff}
use net_mux.Stream.Channel.{Wires, poll_pending, Poll-cases}
use net_mux.Stream.Inner.{
  StreamInner, Event, pushes, fins, resets, acks, closes, grants, deliver, deliver_all,
}
use net_mux.Flow.Window.{register}
use net_mux.Stream.Inner.Delivers.{all-keeps}
use net_mux.Stream.Inner.Read.{Round, calm, read_round, looks_again, read_rounds, poll_read}

-- A task that waits for this stream has nothing to read, or has been woken.
abbrev pub Asleep : StreamInner → Type 0
Asleep s =
    (woken s.recv_waker ≡ true)
    ⊎ ((contents s.recv ≡ []) × (s.state.read_open ≡ true) × (s.state.reset ≡ false))

deliver-Asleep : (e : Event) (s : StreamInner) (w : Wires) → Asleep s → Asleep (deliver e (s, w)).0
unfolding deliver
deliver-Asleep (pushes p) s w h = ground arith
deliver-Asleep fins s w h = ground arith
deliver-Asleep resets s w h = ground arith
deliver-Asleep acks s w h = ground arith
deliver-Asleep closes s w h = ground arith
deliver-Asleep (grants d) s w h = ground arith

-- A task that has found the buffer empty, or has been woken.
abbrev Emptied : StreamInner → Type 0
Emptied s = (woken s.recv_waker ≡ true) ⊎ (contents s.recv ≡ [])

deliver-Emptied :
    (e : Event) (s : StreamInner) (w : Wires) → Emptied s → Emptied (deliver e (s, w)).0
unfolding deliver
deliver-Emptied (pushes p) s w h = ground arith
deliver-Emptied fins s w h = ground arith
deliver-Emptied resets s w h = ground arith
deliver-Emptied acks s w h = ground arith
deliver-Emptied closes s w h = ground arith
deliver-Emptied (grants d) s w h = ground arith

counts :
    (count : ℕ) (e : Event) (s : StreamInner) (w : Wires)
    → count ≤ registrations s.recv_waker
    → count ≤ registrations (deliver e (s, w)).0.recv_waker
unfolding deliver
counts count (pushes p) s w h = ground arith
counts count fins s w h = ground arith
counts count resets s w h = ground arith
counts count acks s w h = ground arith
counts count closes s w h = ground arith
counts count (grants d) s w h = ground arith

-- What a second look that does not go round again has found.
looks_again-quiet :
    (s t : StreamInner)
    → looks_again s t ≡ false
    → (contents s.recv ≡ []) × (t.state.read_open ≡ true) × (t.state.reset ≡ false)
unfolding looks_again
looks_again-quiet s t h = ground (arith, (is_empty_iff s.recv).0)

contents_nil : (xs : List ℕ) (n : ℕ) → 0 < n → min n (length xs) ≡ 0 → xs ≡ []
contents_nil [] n h e = refl
contents_nil (x ∷ xs) n h e = absurd (omega arith)

module _ (b : Bitflags) where
  -- What a round that has registered found and left.
  record Waits (s : StreamInner) (w : Wires) (buf : ReadBuf) : Type 0 where
    live : s.state.reset ≡ false
    read_open : s.state.read_open ≡ true
    none_read : (read_into s.recv buf).2 ≡ 0
    same_state : (read_round b calm s w buf).stream.state ≡ s.state
    same_recv : (read_round b calm s w buf).stream.recv ≡ (read_into s.recv buf).0
    same_buf : (read_round b calm s w buf).buf ≡ (read_into s.recv buf).1

  round-Waits :
      (s : StreamInner) (w : Wires) (buf : ReadBuf)
      → (read_round b calm s w buf).result ≡ poll_pending
      → Waits s w buf
  unfolding read_round
  round-Waits s w buf e = record {
    live = ground arith;
    read_open = ground arith;
    none_read = ground arith;
    same_state = ground arith;
    same_recv = ground arith;
    same_buf = ground arith;
  }

  -- Where no event comes between, the second look of a round that has registered changes nothing.
  pub read_round-quiet :
      (s : StreamInner) (w : Wires) (buf : ReadBuf)
      → 0 < buf.remaining
      → (read_round b calm s w buf).result ≡ poll_pending
      → let t = (read_round b calm s w buf).stream in looks_again t t ≡ false
  unfolding looks_again
  read_round-quiet s w buf room e =
      let v = round-Waits s w buf e in
      let (moved, _, _, count) = read_into_lem s.recv buf in
      let empty = contents_nil (contents s.recv) buf.remaining room (sym count ∙ v.none_read) in
      let left : contents (read_into s.recv buf).0 ≡ [] =
        moved ∙ rw empty (drop-nil buf.remaining) in
      rw (
        v.same_state,
        v.same_recv,
        v.live,
        v.read_open,
        (is_empty_iff (read_into s.recv buf).0).1 left,
      )

  -- A round that has registered has moved no byte.
  round_room :
      (g : Round) (s : StreamInner) (w : Wires) (buf : ReadBuf)
      → 0 < buf.remaining
      → (read_round b g s w buf).result ≡ poll_pending
      → 0 < (read_round b g s w buf).buf.remaining
  unfolding read_round
  round_room g s w buf room e =
      let recv = (deliver_all g.looked (s, w)).0.recv in
      let (_, _, left, count) = read_into_lem recv buf in
      let none_read : (read_into recv buf).2 ≡ 0 = ground arith in
      let same : (read_round b g s w buf).buf ≡ (read_into recv buf).1 = ground arith in
      omega (arith, ap (λ (x : ReadBuf). x.remaining) same, left, count, none_read)

  -- It has registered behind all that came before.
  round-registrations :
      (g : Round) (s : StreamInner) (w : Wires) (buf : ReadBuf)
      → let a = read_round b g s w buf in
        a.result ≡ poll_pending → registrations s.recv_waker + 1 ≤ registrations a.stream.recv_waker
  unfolding read_round
  round-registrations g s w buf e =
      let n = registrations s.recv_waker in
      let keep = all-keeps (λ t v. n ≤ registrations t.recv_waker) (counts n) in
      let sw = deliver_all g.looked (s, w) in
      let s1 = record (sw.0) { recv = (read_into sw.0.recv buf).0 } in
      let sw2 = deliver_all g.copied (s1, sw.1) in
      let sw3 = deliver_all g.opened sw2 in
      let seen = keep g.looked s w (omega arith) in
      let seen2 = keep g.copied s1 sw.1 seen in
      let seen3 = keep g.opened sw2.0 sw2.1 seen2 in
      let last : (read_round b g s w buf).stream.recv_waker ≡ register ∷ sw3.0.recv_waker =
        ground arith in
      rw last (omega (arith, seen3))

  -- A task that has registered since, and has been woken or has nothing to read.
  abbrev Registered : ℕ → StreamInner → Type 0
  Registered count s = (count ≤ registrations s.recv_waker) × Asleep s

  rounds-Waits :
      (gaps : List Round) (s : StreamInner) (w : Wires) (buf : ReadBuf)
      → 0 < buf.remaining
      → (read_rounds b gaps s w buf).result ≡ poll_pending
      → Registered (registrations s.recv_waker + 1) (read_rounds b gaps s w buf).stream
  unfolding read_rounds
  rounds-Waits [] s w buf room e =
      let t = (read_round b calm s w buf).stream in
      (
        round-registrations calm s w buf e,
        inr (looks_again-quiet t t (read_round-quiet s w buf room e)),
      )
  rounds-Waits (g ∷ gaps) s w buf room e =
      let a = read_round b g s w buf in
      elim (Poll-cases a.result) [
        | inl (r, p) ↦ absurd (ground (arith, rw (read_rounds, p) at e, p))
        | inr p ↦
            let count = registrations s.recv_waker + 1 in
            let keep = all-keeps (λ t v. count ≤ registrations t.recv_waker) (counts count) in
            let sw = deliver_all g.registered (a.stream, a.wires) in
            let sw2 = deliver_all g.emptied sw in
            let seen = keep g.registered a.stream a.wires (round-registrations g s w buf p) in
            let seen2 = keep g.emptied sw.0 sw.1 seen in
            elim (Bool-cases (looks_again sw.0 sw2.0)) [
              | inl l ↦
                  let rest =
                    rounds-Waits gaps sw2.0 sw2.1 a.buf (round_room g s w buf room p)
                      (rw (read_rounds, p, l) at e) in
                  rw (read_rounds, p, l) (omega (arith, rest.0, seen2), rest.1)
              | inr l ↦
                  let (empty, opened, live) = looks_again-quiet sw.0 sw2.0 l in
                  let still =
                    all-keeps (λ t v. Emptied t) deliver-Emptied g.emptied sw.0 sw.1 (inr empty) in
                  let asleep : Asleep sw2.0 = elim still [
                    | inl u ↦ inl u
                    | inr c ↦ inr (c, opened, live)
                  ] in
                  rw (read_rounds, p, l) (seen2, asleep)
            ]
      ]

  -- No wake-up is missed: once `poll_read` has said `Pending`, whatever happened between its accesses
  -- and happens afterwards, the call has registered the task, and the task has been woken since its
  -- last registration or there is still nothing for it to read.
  pub pending-Asleep :
      (gaps : List Round) (later : List Event) (s : StreamInner) (w : Wires) (buf : ReadBuf)
      → let o = poll_read b gaps s w buf in
        o.result ≡ poll_pending
        → (registrations s.recv_waker < registrations o.stream.recv_waker)
          × Asleep (deliver_all later (o.stream, o.wires)).0
  unfolding poll_read
  pending-Asleep gaps later s w buf e = elim (Bool-cases (buf.remaining == 0)) [
    | inl full ↦ absurd (ground (arith, rw full at e))
    | inr room ↦
        let o = read_rounds b gaps s w buf in
        let (seen, asleep) = rounds-Waits gaps s w buf (ground arith) (rw room at e) in
        rw room (
          omega (arith, seen),
          all-keeps (λ t v. Asleep t) deliver-Asleep later o.stream o.wires asleep,
        )
  ]
