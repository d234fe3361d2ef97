-- ===== src/Session/Api/Races.antt =====
-- Calls of Session::open and Session::accept (src/session/mod.rs) that meet a shutdown half-way.
use net_mux.Base.{
  ℕ, ◌+◌, ◌≤◌, ◌<◌, ◌≡◌, ◌∙◌, refl, ap, ap₂, true, false, none, some, [], ◌∷◌, arith, length,
  length-append, u32_max,
}
use net_mux.Error.{ErrorCode, ok}
use net_mux.Config.{Config}
use net_mux.Stream.Channel.{poll_pending}
use net_mux.Stream.State
use net_mux.Stream.Inner.{StreamInner, local}
use net_mux.Stream.Inner
use net_mux.Stream.Inner.Acked.{acked}
use net_mux.Session.Manager.{StreamRegistry, get, len}
use net_mux.Session.Inner.{SessionInner, stream_at, initiate_shutdown}
use net_mux.Session.Inner.Store.{stream_at-last}
use net_mux.Session.Api.{may_open, announce, start_open, start_accept, poll_accept}
use net_mux.Session.Api.Handshake.{CanOpen}
use net_mux.Session.Api.Opening.{announced, start_open-announce, announce-announced, may_open_lem}

fresh-acked : (id : ℕ) (c : Config) → acked (Inner.new id local c) ≡ none
unfolding acked Inner.new State.new
fresh-acked id c = refl

-- What a shutdown leaves of the session for a call of `open` that it overtakes.
record Overtaken (s u : SessionInner) : Type 0 where
  same_alloc : u.id_alloc ≡ s.id_alloc
  emptied : u.registry ≡ []
  same_writer : u.wires.out_tx.alive ≡ s.wires.out_tx.alive
  over : u.is_closing ≡ true
  same_config : u.config ≡ s.config

initiate_shutdown-Overtaken :
    (s : SessionInner) (code : ErrorCode)
    → s.is_closing ≡ false
    → s.wires.out_tx.alive ≡ true
    → Overtaken s (initiate_shutdown s code)
unfolding initiate_shutdown
initiate_shutdown-Overtaken s code live alive = ground arith

free : (m : StreamRegistry) (id : ℕ) → m ≡ [] → get m id ≡ none
unfolding get
free m id e = rw e

shut_again :
    (u : SessionInner) (code : ErrorCode) → u.is_closing ≡ true → initiate_shutdown u code ≡ u
unfolding initiate_shutdown
shut_again u code over = ground arith

-- If the session is shut down between the look of `open` at its flags and the registration, the new
-- stream is registered behind the drain: it is open, its opener has no answer, and no further
-- shutdown closes it. The call waits until its timeout.
pub open_after_drain :
    (s : SessionInner) (code again : ErrorCode)
    → s.is_closing ≡ false
    → s.peer_gone ≡ false
    → len s.registry < s.config.max_streams
    → s.id_alloc.next + 2 ≤ u32_max
    → s.wires.out_tx.alive ≡ true
    → let place = length (initiate_shutdown s code).streams in
      let t = start_open (λ u. initiate_shutdown u code) s in
      let x = Inner.new s.id_alloc.next local s.config in
      (t.1 ≡ ok (s.id_alloc.next, place))
      × (t.0.registry ≡ (s.id_alloc.next, place) ∷ [])
      × (stream_at t.0.streams place ≡ some x)
      × (acked x ≡ none)
      × (initiate_shutdown t.0 again ≡ t.0)
unfolding announced
open_after_drain s code again live here room left alive =
    let u = initiate_shutdown s code in
    let o = initiate_shutdown-Overtaken s code live alive in
    let next : u.id_alloc.next ≡ s.id_alloc.next = ap (λ a. a.next) o.same_alloc in
    let room' : u.id_alloc.next + 2 ≤ u32_max = omega (arith, next) in
    let alive' = o.same_writer ∙ alive in
    let goes =
      start_open-announce (λ v. initiate_shutdown v code) s (may_open_lem s live here room)
      ∙ announce-announced u room' (free u.registry u.id_alloc.next o.emptied) alive' in
    let last = stream_at-last u.streams (Inner.new u.id_alloc.next local u.config) in
    let same = ap₂ (λ n c. Inner.new n local c) next o.same_config in
    rw goes (
      ap (λ n. ok (n, length u.streams)) next,
      ap₂ (λ n m. (n, length u.streams) ∷ m) next o.emptied,
      last ∙ ap some same,
      fresh-acked s.id_alloc.next s.config,
      shut_again (announced u) again o.over,
    )

-- If the session is shut down between the look of `accept` at `is_closing` and its subscription to the
-- watch, and no stream waits to be accepted, the call waits, and waits for as long as none comes.
pub accept_sleeps :
    (s later : SessionInner) (code : ErrorCode)
    → s.is_closing ≡ false
    → later.accept_tx.queue ≡ []
    → let t = start_accept (λ u. initiate_shutdown u code) s in
      (t.0.is_closing ≡ true) × (t.1 ≡ ok true) × (poll_accept true later ≡ (later, poll_pending))
unfolding start_accept poll_accept initiate_shutdown
accept_sleeps s later code live empty = ground arith

roomy : (s : SessionInner) → CanOpen s → may_open s ≡ ok tt
roomy s k = may_open_lem s k.live k.here k.room

next_new :
    (s : SessionInner)
    → get s.registry (s.id_alloc.next + 2) ≡ none
    → get (announced s).registry (s.id_alloc.next + 2) ≡ none
unfolding announced get
next_new s e = ground arith

announced-alive :
    (s : SessionInner) → s.wires.out_tx.alive ≡ true → (announced s).wires.out_tx.alive ≡ true
unfolding announced
announced-alive s e = rw e refl

-- If another call of `open` runs between the look of a call at its limit and its registration, and
-- there was room for one stream, both register one, and the session has more streams than
-- `max_streams` allows.
pub opens_overshoot :
    (s : SessionInner)
    → CanOpen s
    → len s.registry + 1 ≡ s.config.max_streams
    → s.id_alloc.next + 4 ≤ u32_max
    → get s.registry (s.id_alloc.next + 2) ≡ none
    → let t = start_open (λ u. (start_open (λ v. v) u).0) s in
      (t.1 ≡ ok (s.id_alloc.next + 2, length s.streams + 1))
      × (len t.0.registry ≡ s.config.max_streams + 1)
unfolding announced
opens_overshoot s k last left new =
    let other =
      start_open-announce (λ v. v) s (roomy s k) ∙ announce-announced s k.left k.new k.writer in
    let u = announced s in
    let mine = announce-announced u (omega arith) (next_new s new) (announced-alive s k.writer) in
    let both =
      start_open-announce (λ v. (start_open (λ w. w) v).0) s (roomy s k)
      ∙ (ap (λ r. announce r.0) other ∙ mine) in
    let counted : length u.streams ≡ length s.streams + 1 = length-append s.streams _ in
    rw both (ap (λ n. ok (s.id_alloc.next + 2, n)) counted, omega (arith, last))
