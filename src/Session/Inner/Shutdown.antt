-- ===== src/Session/Inner/Shutdown.antt =====
-- What `initiate_shutdown` of src/session/inner.rs leaves behind.
use net_mux.Base.{
  ℕ, ◌≡◌, refl, inl, inr, true, false, some, List, [], ◌∷◌, ◌==◌, if◌then◌else◌, arith, Bool-cases,
  ==_refl,
}
use net_mux.Error.{ErrorCode}
use net_mux.Protocol.Frame.{go_away}
use net_mux.Flow.Window.{close}
use net_mux.Flow.Window.Send.{woken}
use net_mux.Stream.Channel.{send_out}
use net_mux.Stream.Inner.{StreamInner, force_close}
use net_mux.Session.Inner.Store.{stream_at-update_at}
use net_mux.Session.Manager.{StreamRegistry, get, drained}
use net_mux.Session.Inner.{SessionInner, stream_at, update_at, close_all, initiate_shutdown}

-- A stream whose user is not left waiting: no half is open, no credit will be waited for, and the
-- reader, the writer and the opener have been woken.
pub record IsShut (x : StreamInner) : Type 0 where
  pub read_shut : x.state.read_open ≡ false
  pub write_shut : x.state.write_open ≡ false
  pub window_shut : x.send_window.closed ≡ true
  pub reader_woken : woken x.recv_waker ≡ true
  pub writer_woken : woken x.send_window.waker ≡ true
  pub opener_woken : woken x.ack_waker ≡ true

force_close-IsShut : (x : StreamInner) → IsShut (force_close x)
unfolding force_close close
force_close-IsShut x = ground arith

-- The store holds a shut stream at the place.
pub ShutAt : List StreamInner → ℕ → Type 0
ShutAt xs r = (y : StreamInner) × (stream_at xs r ≡ some y) × IsShut y

update_at-ShutAt :
    (xs : List StreamInner) (i r : ℕ) → ShutAt xs r → ShutAt (update_at xs i force_close) r
unfolding ShutAt
update_at-ShutAt xs i r (y, e, h) =
    let both = (if i == r then force_close y else y) in
    let at : stream_at (update_at xs i force_close) r ≡ some both =
      rw (stream_at-update_at xs i r force_close, e) in
    (both, at, elim (Bool-cases (i == r)) [ inl q ↦ rw q (force_close-IsShut y) | inr q ↦ rw q h ])

close_all-ShutAt :
    (rs : List ℕ) (xs : List StreamInner) (r : ℕ) → ShutAt xs r → ShutAt (close_all rs xs) r
unfolding close_all
close_all-ShutAt [] xs r h = h
close_all-ShutAt (q ∷ rs) xs r h =
    close_all-ShutAt rs (update_at xs q force_close) r (update_at-ShutAt xs q r h)

-- The streams that a registry refers to are shut by closing what it drains.
close_all-drained :
    (m : StreamRegistry) (xs : List StreamInner) (id r : ℕ) (x : StreamInner)
    → get m id ≡ some r
    → stream_at xs r ≡ some x
    → ShutAt (close_all (drained m) xs) r
unfolding close_all get ShutAt
close_all-drained [] xs id r x found at = absurd (ground arith)
close_all-drained ((k, q) ∷ m) xs id r x found at = elim (Bool-cases (q == r)) [
  | inl e ↦
      let here : stream_at (update_at xs q force_close) r ≡ some (force_close x) =
        rw (stream_at-update_at xs q r force_close, at, e) in
      close_all-ShutAt (drained m) (update_at xs q force_close) r
        (force_close x, here, force_close-IsShut x)
  | inr e ↦
      let here : stream_at (update_at xs q force_close) r ≡ some x =
        rw (stream_at-update_at xs q r force_close, at, e) in
      close_all-drained m (update_at xs q force_close) id r x (ground (arith, ==_refl r)) here
]

-- Shutting down a session that is not closing empties the registry, sends the GoAway, trips the watch
-- and leaves a stream that was registered shut, its reader, writer and opener woken; to do it again,
-- with any code, changes nothing.
pub initiate_shutdown_lem :
    (s : SessionInner) (code again : ErrorCode) (id r : ℕ) (x : StreamInner)
    → s.is_closing ≡ false
    → get s.registry id ≡ some r
    → stream_at s.streams r ≡ some x
    → let t = initiate_shutdown s code in
      (t.registry ≡ [])
      × (t.shutdown ≡ true)
      × (t.is_closing ≡ true)
      × (t.wires ≡ send_out s.wires (go_away code))
      × ShutAt t.streams r
      × (initiate_shutdown t again ≡ t)
unfolding initiate_shutdown
initiate_shutdown_lem s code again id r x live found at =
    let shut = close_all-drained s.registry s.streams id r x found at in
    rw live (refl, refl, refl, refl, shut, refl)
