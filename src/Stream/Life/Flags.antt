-- ===== src/Stream/Life/Flags.antt =====
-- The three flags of a stream (src/stream/state.rs) over its whole life.
use net_mux.Base.{ℕ, ◌≡◌, true, false, List, [], ◌∷◌, ◌⊎◌, arith}
use net_mux.Protocol.Frame.{Bitflags}
use net_mux.Stream.State.{StreamState}
use net_mux.Stream.Recv.{ReadBuf}
use net_mux.Stream.Channel.{Wires}
use net_mux.Stream.Inner.{
  StreamInner, Event, pushes, fins, acks, closes, grants, deliver, deliver_all,
}
use net_mux.Stream.Inner.Read.{Round, report, poll_read}
use net_mux.Stream.Inner.Read.Keeps.{poll_read-keeps}
use net_mux.Stream.Inner.Write.{poll_write, transmit}
use net_mux.Stream.Inner.Local.{local_fin, local_reset, on_user_drop}
use net_mux.Stream.Life.{Act, reads, writes, shuts_down, resets, drops, receives, step, run}

-- `t` comes after `s` in the life of a stream: a half that was closed stays closed, a reset stays, and
-- a stream that is reset has both halves closed.
pub record Later (s t : StreamState) : Type 0 where
  pub read_closed : (s.read_open ≡ true) ⊎ (t.read_open ≡ false)
  pub write_closed : (s.write_open ≡ true) ⊎ (t.write_open ≡ false)
  pub stays_reset : (s.reset ≡ false) ⊎ (t.reset ≡ true)
  pub both : (t.reset ≡ false) ⊎ ((t.read_open ≡ false) × (t.write_open ≡ false))

abbrev pub IsState : StreamState → Type 0
IsState s = (s.reset ≡ false) ⊎ ((s.read_open ≡ false) × (s.write_open ≡ false))

Later-refl : (s : StreamState) → IsState s → Later s s
Later-refl s h = ground arith

Later-trans : (s t u : StreamState) → Later s t → Later t u → Later s u
Later-trans s t u p q = ground arith

deliver-Later :
    (e : Event) (s : StreamInner) (w : Wires)
    → IsState s.state
    → Later s.state (deliver e (s, w)).0.state
unfolding deliver
deliver-Later (pushes p) s w h = ground arith
deliver-Later fins s w h = ground arith
deliver-Later Event.resets s w h = ground arith
deliver-Later acks s w h = ground arith
deliver-Later closes s w h = ground arith
deliver-Later (grants d) s w h = ground arith

deliver_all-Later :
    (es : List Event) (s : StreamInner) (w : Wires)
    → IsState s.state
    → Later s.state (deliver_all es (s, w)).0.state
unfolding deliver_all
deliver_all-Later [] s w h = Later-refl s.state h
deliver_all-Later (e ∷ es) s w h =
    let sw = deliver e (s, w) in
    let first = deliver-Later e s w h in
    Later-trans s.state sw.0.state _ first (deliver_all-Later es sw.0 sw.1 first.both)

module _ (b : Bitflags) where
  report-state : (s : StreamInner) (w : Wires) (n : ℕ) → (report b s w n).0.state ≡ s.state
  unfolding report
  report-state s w n = ground arith

  read-Later :
      (gaps : List Round) (s : StreamInner) (w : Wires) (buf : ReadBuf)
      → IsState s.state
      → Later s.state (poll_read b gaps s w buf).stream.state
  read-Later gaps s w buf h =
      poll_read-keeps b (λ t v. Later s.state t.state)
        (λ e t v k. Later-trans s.state t.state _ k (deliver-Later e t v k.both)) (λ t v r k. k)
        (λ t v n k. rw (report-state t v n) k) (λ t v k. k) gaps s w buf (Later-refl s.state h)

  step-Later :
      (a : Act) (s : StreamInner) (w : Wires)
      → IsState s.state
      → Later s.state (step b a (s, w)).0.state
  unfolding step poll_write transmit local_fin local_reset on_user_drop
  step-Later (reads gaps buf) s w h = read-Later gaps s w buf h
  step-Later (writes g buf) s w h = ground arith
  step-Later shuts_down s w h = ground arith
  step-Later resets s w h = ground arith
  step-Later drops s w h = ground arith
  step-Later (receives e) s w h = deliver-Later e s w h

  -- Whatever happens to a stream, its flags only ever change one way: a closed half stays closed, a reset
  -- stays, and a stream that is reset has both halves closed.
  run-Later :
      (acts : List Act) (s : StreamInner) (w : Wires)
      → IsState s.state
      → Later s.state (run b acts (s, w)).0.state
  unfolding run
  run-Later [] s w h = Later-refl s.state h
  run-Later (a ∷ acts) s w h =
      let sw = step b a (s, w) in
      let first = step-Later a s w h in
      Later-trans s.state sw.0.state _ first (run-Later acts sw.0 sw.1 first.both)
