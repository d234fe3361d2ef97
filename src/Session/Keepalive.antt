-- ===== src/Session/Keepalive.antt =====
-- src/session/keepalive.rs: the keepalive task. What the other tasks do to the session while it waits
-- for a pong, until the deadline, is a function on the session; whether the reader has ended by then,
-- and with it the only sender of pongs, is a flag.
pub mod Echo
use net_mux.Base.{ℕ, Bool, true, false, not, List, [], ◌∷◌, ◌==◌, if◌then◌else◌, wrapping_add}
use net_mux.Error.{code_timeout}
use net_mux.Protocol.Frame.{Bitflags, ping}
use net_mux.Stream.Channel.{Sender}
use net_mux.Session.Inner.{SessionInner, send_frame, initiate_shutdown}

-- `await_pong` on the pongs that arrive before the deadline: the channel after it, and whether it has
-- returned in time. It also returns when the channel is empty and its sender gone.
unfoldable pub await_pong : ℕ → Bool → List ℕ → List ℕ × Bool
await_pong expected gone [] = ([], gone)
await_pong expected gone (got ∷ q) =
    let rest = await_pong expected gone q in if got == expected then (q, true) else rest

module _ (b : Bitflags) where
  -- One tick with its wait, and the nonce; the flag tells whether the loop goes on.
  unfoldable pub tick :
      (SessionInner → SessionInner) → Bool → SessionInner × ℕ → (SessionInner × ℕ) × Bool
  unfolding await_pong
  tick gap gone (s, nonce) =
      let n = wrapping_add nonce 1 in
      let t = gap (send_frame s (ping b n)) in
      let r = await_pong n gone t.pong_tx.queue in
      let u = record t { pong_tx = record (t.pong_tx) { queue = r.0 } } in
      if s.shutdown
      then ((s, nonce), false)
      else if not s.wires.out_tx.alive
      then ((s, n), false)
      else if r.1
      then ((u, n), true)
      else ((initiate_shutdown u code_timeout, n), false)
