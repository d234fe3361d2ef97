-- ===== src/Stream/Inner/Read/Keeps.antt =====
-- What StreamInner::poll_read (src/stream/inner.rs) and others behind its looks keep, step by step.
use net_mux.Base.{ℕ, Bool, true, false, List, [], ◌∷◌, if◌then◌else◌}
use net_mux.Protocol.Frame.{Bitflags}
use net_mux.Flow.Window.{register}
use net_mux.Stream.Recv.{RecvBuffer, ReadBuf, read_into}
use net_mux.Stream.Channel.{Wires, Poll, poll_ready, poll_pending, IoResult}
use net_mux.Stream.Inner.{StreamInner, Event, deliver, deliver_all}
use net_mux.Stream.Inner.Delivers.{all-keeps}
use net_mux.Stream.Inner.Read.{Round, calm, ReadOutcome, report, read_round, read_rounds, poll_read}

module _ (b : Bitflags) (P : StreamInner → Wires → Type 0)
    (delivers : (e : Event) (s : StreamInner) (w : Wires)
      → P s w
      → P (deliver e (s, w)).0 (deliver e (s, w)).1)
    (copies : (s : StreamInner) (w : Wires) (r : RecvBuffer) → P s w → P (record s { recv = r }) w)
    (reports : (s : StreamInner) (w : Wires) (n : ℕ)
      → P s w
      → P (report b s w n).0 (report b s w n).1)
    (registers : (s : StreamInner) (w : Wires)
      → P s w
      → P (record s { recv_waker = register ∷ s.recv_waker }) w) where
  abbrev Q : ReadOutcome → Type 0
  Q o = P o.stream o.wires

  if-Q : (c : Bool) (o o' : ReadOutcome) → Q o → Q o' → Q (if c then o else o')
  if-Q true o o' h k = h
  if-Q false o o' h k = k

  poll-Q :
      (r : Poll (IoResult (Unit {0}))) (o o' : ReadOutcome)
      → Q o
      → Q o'
      → Q (elim r [ poll_ready x ↦ o | poll_pending ↦ o' ])
  poll-Q (poll_ready x) o o' h k = h
  poll-Q poll_pending o o' h k = k

  round-keeps :
      (g : Round) (s : StreamInner) (w : Wires) (buf : ReadBuf)
      → P s w
      → let a = read_round b g s w buf in P a.stream a.wires
  unfolding read_round
  round-keeps g s w buf h =
      let sw = deliver_all g.looked (s, w) in
      let r = read_into sw.0.recv buf in
      let s1 = record (sw.0) { recv = r.0 } in
      let h1 = copies sw.0 sw.1 r.0 (all-keeps P delivers g.looked s w h) in
      let sw2 = deliver_all g.copied (s1, sw.1) in
      let h2 = all-keeps P delivers g.copied s1 sw.1 h1 in
      let sw3 = deliver_all g.opened sw2 in
      let h3 = all-keeps P delivers g.opened sw2.0 sw2.1 h2 in
      if-Q _ _ _ h (if-Q _ _ _ (reports s1 sw.1 r.2 h1) (if-Q _ _ _ h2 (registers sw3.0 sw3.1 h3)))

  pub rounds-keeps :
      (gaps : List Round) (s : StreamInner) (w : Wires) (buf : ReadBuf)
      → P s w
      → let a = read_rounds b gaps s w buf in P a.stream a.wires
  unfolding read_rounds
  rounds-keeps [] s w buf h = round-keeps calm s w buf h
  rounds-keeps (g ∷ gaps) s w buf h =
      let a = read_round b g s w buf in
      let h1 = round-keeps g s w buf h in
      let sw = deliver_all g.registered (a.stream, a.wires) in
      let sw2 = deliver_all g.emptied sw in
      let h2 =
        all-keeps P delivers g.emptied sw.0 sw.1
          (all-keeps P delivers g.registered a.stream a.wires h1) in
      poll-Q a.result _ _ h1 (if-Q _ _ _ (rounds-keeps gaps sw2.0 sw2.1 a.buf h2) h2)

  pub poll_read-keeps :
      (gaps : List Round) (s : StreamInner) (w : Wires) (buf : ReadBuf)
      → P s w
      → let a = poll_read b gaps s w buf in P a.stream a.wires
  unfolding poll_read
  poll_read-keeps gaps s w buf h = if-Q _ _ _ h (rounds-keeps gaps s w buf h)
