-- ===== src/Session/Keepalive/Echo.antt =====
-- The keepalive task (src/session/keepalive.rs) against the reader of src/session/reader.rs on both
-- sides.
use net_mux.Base.{
  ℕ, ◌≡◌, refl, Bool, true, false, List, [], ◌∷◌, ◌++◌, ◌==◌, arith, All, wrapping_add, ==_refl,
}
use net_mux.Protocol.Frame.{Bitflags, flags_ack, ping, pong}
use net_mux.Stream.Channel.{send_out}
use net_mux.Session.Inner.{SessionInner, initiate_shutdown}
use net_mux.Session.Reader.{dispatch}
use net_mux.Session.Keepalive.{await_pong, tick}

-- The expected pong is found behind any number of late ones.
await_pong-last : (n : ℕ) (o : Bool) (q : List ℕ) → (await_pong n o (q ++ (n ∷ []))).1 ≡ true
unfolding await_pong
await_pong-last n o [] = ground (arith, ==_refl n)
await_pong-last n o (x ∷ q) = ground (arith, await_pong-last n o q)

await_pong-none :
    (n : ℕ) (q : List ℕ) → All (λ x. (x == n) ≡ false) q → (await_pong n false q).1 ≡ false
unfolding await_pong
await_pong-none n [] h = refl
await_pong-none n (x ∷ q) h = ground (arith, await_pong-none n q h.1)

module _ (b : Bitflags) where
  empty_ack : b.contains b.empty flags_ack ≡ false
  empty_ack = rw (b.contains_bits b.empty flags_ack, b.empty_bits)

  ack_ack : b.contains flags_ack flags_ack ≡ true
  ack_ack = rw (b.contains_bits flags_ack flags_ack)

  -- The reader of the peer answers the ping of a tick with a pong of the same nonce. Take a session that
  -- is not shut down, with its writer there, and with none but pongs of other nonces waiting. If its
  -- reader dispatches that pong before the deadline the tick goes through and leaves `is_closing` as it
  -- was; if the reader lives on and nothing arrives, the task ends and the session is closing.
  pub tick_lem :
      (s peer : SessionInner) (nonce : ℕ)
      → s.shutdown ≡ false
      → s.wires.out_tx.alive ≡ true
      → s.pong_tx.alive ≡ true
      → All (λ x. (x == wrapping_add nonce 1) ≡ false) s.pong_tx.queue
      → let n = wrapping_add nonce 1 in
        let answered = tick b (λ t. (dispatch b t (pong b n)).0) false (s, nonce) in
        let silent = tick b (λ t. t) false (s, nonce) in
        ((dispatch b peer (ping b n)).0.wires ≡ send_out peer.wires (pong b n))
        × (answered.1 ≡ true)
        × (answered.0.1 ≡ n)
        × (answered.0.0.is_closing ≡ s.is_closing)
        × (silent.1 ≡ false)
        × (silent.0.0.is_closing ≡ true)
  unfolding tick dispatch initiate_shutdown
  tick_lem s peer nonce live writes hears late = ground (
    arith,
    empty_ack,
    ack_ack,
    await_pong-last (wrapping_add nonce 1) false s.pong_tx.queue,
    await_pong-none (wrapping_add nonce 1) s.pong_tx.queue late,
  )
