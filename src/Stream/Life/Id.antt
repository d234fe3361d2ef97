-- ===== src/Stream/Life/Id.antt =====
-- A stream keeps its id and its configuration (src/stream/inner.rs).
use net_mux.Base.{ℕ, ◌≡◌, ◌∙◌, refl, List, [], ◌∷◌, arith}
use net_mux.Protocol.Frame.{Bitflags}
use net_mux.Flow.Window.{Gaps}
use net_mux.Stream.Recv.{ReadBuf}
use net_mux.Stream.Channel.{Wires}
use net_mux.Stream.Inner.{
  StreamInner, Event, pushes, fins, acks, closes, grants, deliver, deliver_all,
}
use net_mux.Stream.Inner.Read.{Round, report, poll_read}
use net_mux.Stream.Inner.Read.Keeps.{poll_read-keeps}
use net_mux.Stream.Inner.Write.{poll_write, transmit}
use net_mux.Stream.Inner.Local.{local_fin, local_reset, on_user_drop}
use net_mux.Stream.Life.{Act, reads, writes, shuts_down, resets, drops, receives, step}

abbrev pub Same : StreamInner → StreamInner → Type 0
Same s t = (t.id ≡ s.id) × (t.config ≡ s.config)

abbrev pub Keeps : StreamInner → StreamInner × Wires → Type 0
Keeps s sw = Same s sw.0

Same-trans : (s t u : StreamInner) → Same t u → Same s t → Same s u
Same-trans s t u h k = (h.0 ∙ k.0, h.1 ∙ k.1)

pub deliver-Same : (e : Event) (s : StreamInner) (w : Wires) → Keeps s (deliver e (s, w))
unfolding deliver
deliver-Same (pushes p) s w = ground arith
deliver-Same fins s w = (refl, refl)
deliver-Same Event.resets s w = (refl, refl)
deliver-Same acks s w = (refl, refl)
deliver-Same closes s w = (refl, refl)
deliver-Same (grants d) s w = (refl, refl)

pub deliver_all-Same :
    (es : List Event) (s : StreamInner) (w : Wires) → Keeps s (deliver_all es (s, w))
unfolding deliver_all
deliver_all-Same [] s w = (refl, refl)
deliver_all-Same (e ∷ es) s w =
    let sw = deliver e (s, w) in
    Same-trans s sw.0 (deliver_all es sw).0 (deliver_all-Same es sw.0 sw.1) (deliver-Same e s w)

module _ (b : Bitflags) where
  pub report-Same : (s : StreamInner) (w : Wires) (n : ℕ) → Keeps s (report b s w n)
  unfolding report
  report-Same s w n = ground arith

  pub poll_read-Same :
      (gaps : List Round) (s : StreamInner) (w : Wires) (buf : ReadBuf)
      → Same s (poll_read b gaps s w buf).stream
  poll_read-Same gaps s w buf =
      poll_read-keeps b (λ t v. Same s t)
        (λ e t v k. Same-trans s t (deliver e (t, v)).0 (deliver-Same e t v) k) (λ t v r k. k)
        (λ t v n k. Same-trans s t (report b t v n).0 (report-Same t v n) k) (λ t v k. k) gaps s w
        buf (refl, refl)

  transmit-Same :
      (s : StreamInner) (w : Wires) (buf : List ℕ) (n : ℕ) → Same s (transmit b s w buf n).stream
  unfolding transmit
  transmit-Same s w buf n = ground arith

  pub poll_write-Same :
      (g : Gaps) (s : StreamInner) (w : Wires) (buf : List ℕ)
      → Same s (poll_write b g s w buf).stream
  unfolding poll_write transmit
  poll_write-Same g s w buf = ground arith

  pub step-Same : (a : Act) (s : StreamInner) (w : Wires) → Keeps s (step b a (s, w))
  unfolding step local_fin local_reset on_user_drop
  step-Same (reads gaps buf) s w = poll_read-Same gaps s w buf
  step-Same (writes g buf) s w = poll_write-Same g s w buf
  step-Same shuts_down s w = ground arith
  step-Same resets s w = ground arith
  step-Same drops s w = ground arith
  step-Same (receives e) s w = deliver-Same e s w

  pub step-id : (a : Act) (s : StreamInner) (w : Wires) → (step b a (s, w)).0.id ≡ s.id
  step-id a s w = (step-Same a s w).0
