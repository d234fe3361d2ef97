-- ===== src/Session/Announce/Streams.antt =====
-- No method of a stream (src/stream/inner.rs) queues a GoAway or a SYN.
use net_mux.Base.{
  ℕ, ◌≡◌, ◌∙◌, refl, Bool, List, [], ◌∷◌, ◌%◌, ◌^◌, take, inl, inr, arith, Option-cases,
}
use net_mux.Protocol.Frame.{Bitflags, data_of, window_update, fin, rst}
use net_mux.Flow.Window.{
  Gaps, on_consume, poll_acquire, AcquireOutcome, acquired, outcome_closed, pending,
}
use net_mux.Stream.Recv.{ReadBuf}
use net_mux.Stream.Channel.{Wires}
use net_mux.Stream.Inner.{
  StreamInner, Event, pushes, fins, acks, closes, grants, deliver, deliver_all,
}
use net_mux.Stream.Inner.Read.{Round, report, poll_read}
use net_mux.Stream.Inner.Read.Keeps.{poll_read-keeps}
use net_mux.Stream.Inner.Write.{poll_write, transmit, want}
use net_mux.Stream.Inner.Local.{local_fin, local_reset, on_user_drop}
use net_mux.Stream.Life.{Act, reads, writes, shuts_down, resets, drops, receives, step}
use net_mux.Session.Announce.{
  Spends, Spends-refl, Spends-trans, send-Spends, is_go_away, syn_of, IsPlain,
}

abbrev pub SpendsOn : Bool → Wires → Wires → Type 0
SpendsOn c w w' = Spends w.out_tx c w'.out_tx c

pub deliver-same :
    (e : Event) (s : StreamInner) (w : Wires) → (deliver e (s, w)).1.out_tx ≡ w.out_tx
unfolding deliver
deliver-same (pushes p) s w = refl
deliver-same fins s w = refl
deliver-same Event.resets s w = ground arith
deliver-same acks s w = refl
deliver-same closes s w = refl
deliver-same (grants d) s w = refl

pub deliver_all-same :
    (es : List Event) (s : StreamInner) (w : Wires) → (deliver_all es (s, w)).1.out_tx ≡ w.out_tx
unfolding deliver_all
deliver_all-same [] s w = refl
deliver_all-same (e ∷ es) s w =
    let sw = deliver e (s, w) in deliver_all-same es sw.0 sw.1 ∙ deliver-same e s w

module _ (c : Bool) where
  local_fin-Spends : (s : StreamInner) (w : Wires) → SpendsOn c w (local_fin s w).1
  unfolding local_fin is_go_away syn_of
  local_fin-Spends s w =
      ground (arith, send-Spends w.out_tx (fin s.id) c (refl, refl), Spends-refl w.out_tx c)

  pub local_reset-Spends : (s : StreamInner) (w : Wires) → SpendsOn c w (local_reset s w).1
  unfolding local_reset is_go_away syn_of
  local_reset-Spends s w =
      ground (arith, send-Spends w.out_tx (rst s.id) c (refl, refl), Spends-refl w.out_tx c)

  on_user_drop-Spends : (s : StreamInner) (w : Wires) → SpendsOn c w (on_user_drop s w).1
  unfolding on_user_drop is_go_away syn_of
  on_user_drop-Spends s w =
      ground (arith, send-Spends w.out_tx (fin s.id) c (refl, refl), Spends-refl w.out_tx c)

module _ (b : Bitflags) (c : Bool) where
  report-Spends : (s : StreamInner) (w : Wires) (n : ℕ) → SpendsOn c w (report b s w n).1
  unfolding report is_go_away syn_of
  report-Spends s w n = elim (Option-cases (on_consume s.recv_window (n % 2 ^ 32)).1) [
    | inl e ↦ rw (e, report) (Spends-refl w.out_tx c)
    | inr (delta, e) ↦
        rw (e, report) (send-Spends w.out_tx (window_update b s.id delta) c (refl, refl))
  ]

  read-Spends :
      (gaps : List Round) (s : StreamInner) (w : Wires) (buf : ReadBuf)
      → SpendsOn c w (poll_read b gaps s w buf).wires
  read-Spends gaps s w buf =
      poll_read-keeps b (λ t v. SpendsOn c w v) (λ e t v k. rw (deliver-same e t v) k)
        (λ t v r k. k) (λ t v n k. Spends-trans k (report-Spends t v n)) (λ t v k. k) gaps s w buf
        (Spends-refl w.out_tx c)

  transmit-Spends :
      (s : StreamInner) (w : Wires) (buf : List ℕ) (n : ℕ)
      → SpendsOn c w (transmit b s w buf n).wires
  unfolding transmit is_go_away syn_of
  transmit-Spends s w buf n =
      let f = data_of s.id b.empty (take n buf) in
      let plain : IsPlain f = (refl, rw b.empty_bits) in
      ground (arith, send-Spends w.out_tx f c plain, Spends-refl w.out_tx c)

  write-Spends :
      (g : Gaps) (s : StreamInner) (w : Wires) (buf : List ℕ)
      → SpendsOn c w (poll_write b g s w buf).wires
  unfolding poll_write
  write-Spends g s w buf = go (poll_acquire g s.send_window (want s buf)).1 refl
    where
      go :
          (o : AcquireOutcome)
          → (poll_acquire g s.send_window (want s buf)).1 ≡ o
          → SpendsOn c w (poll_write b g s w buf).wires
      go (acquired n) e =
          let s' = record s { send_window = (poll_acquire g s.send_window (want s buf)).0 } in
          ground (arith, transmit-Spends s' w buf n, Spends-refl w.out_tx c)
      go outcome_closed e = ground (arith, Spends-refl w.out_tx c)
      go pending e = ground (arith, Spends-refl w.out_tx c)

  pub step-Spends : (a : Act) (s : StreamInner) (w : Wires) → SpendsOn c w (step b a (s, w)).1
  unfolding step
  step-Spends (reads gaps buf) s w = read-Spends gaps s w buf
  step-Spends (writes g buf) s w = write-Spends g s w buf
  step-Spends shuts_down s w = local_fin-Spends c s w
  step-Spends resets s w = local_reset-Spends c s w
  step-Spends drops s w = on_user_drop-Spends c s w
  step-Spends (receives e) s w = rw (deliver-same e s w) (Spends-refl w.out_tx c)
