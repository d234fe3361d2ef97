-- ===== src/Stream/Inner/Write/Results.antt =====
-- What StreamInner::poll_write of src/stream/inner.rs sends, and whether the writer's codec of
-- src/session/writer.rs takes it.
use net_mux.Base.{
  ℕ, ◌≤◌, ◌<◌, ◌≡◌, ◌≢◌, refl, min, Bool-cases, not, ◌||◌, ◌⊎◌, inl, inr, is_nil, true, false, List,
  [], ◌∷◌, ◌++◌, arith, length, take, length-take, IsU32,
}
use net_mux.Error.{protocol, err}
use net_mux.Protocol.Frame.{Bitflags, Frame, data_of}
use net_mux.Protocol.Codec.{FrameCodec, absolute_max_payload, encode}
use net_mux.Protocol.Codec
use net_mux.Protocol.Codec.RoundTrip.{IsFrame}
use net_mux.Flow.Window.{
  Gaps, undisturbed, acquired, outcome_closed, pending, AcquireOutcome, poll_acquire,
}
use net_mux.Flow.Window.Send.{acquired_bounds, poll_acquire_alone}
use net_mux.Stream.Channel.{Wires, poll_ready, io_ok}
use net_mux.Stream.Inner.{StreamInner}
use net_mux.Stream.Inner.Write.{want, poll_write}

module _ (b : Bitflags) where
  -- A write that succeeds with bytes to write has sent one data frame with the first `n` of them, and
  -- nothing else; it sends at least one byte, unless the configuration forbids all, and never more
  -- than a frame may hold. The stream was open for writing.
  pub poll_write_sends :
      (g : Gaps) (s : StreamInner) (w : Wires) (buf : List ℕ) (n : ℕ)
      → buf ≢ []
      → (poll_write b g s w buf).result ≡ poll_ready (io_ok n)
      → ((poll_write b g s w buf).wires.out_tx.queue
          ≡ w.out_tx.queue ++ (data_of s.id b.empty (take n buf) ∷ []))
        × (n ≤ length buf)
        × (n ≤ s.config.max_frame_size)
        × (min 1 s.config.max_frame_size ≤ n)
        × (s.state.write_open ≡ true)
        × (s.state.reset ≡ false)
  unfolding poll_write
  poll_write_sends g s w [] n some_bytes e = absurd (some_bytes refl)
  poll_write_sends g s w (x ∷ xs) n some_bytes e = ground (
    arith,
    acquired_bounds g s.send_window (poll_acquire g s.send_window (want s (x ∷ xs))).0
        (want s (x ∷ xs)) n,
  )

  -- A write either reports how many bytes it has taken, or sends nothing: no error and no `Pending`
  -- comes with a frame on its way.
  pub poll_write_silent :
      (g : Gaps) (s : StreamInner) (w : Wires) (buf : List ℕ)
      → ((n : ℕ) × ((poll_write b g s w buf).result ≡ poll_ready (io_ok n)))
        ⊎ ((poll_write b g s w buf).wires ≡ w)
  unfolding poll_write
  poll_write_silent g s w buf = go (poll_acquire g s.send_window (want s buf)).1 refl
    where
      go :
          (o : AcquireOutcome)
          → (poll_acquire g s.send_window (want s buf)).1 ≡ o
          → ((n : ℕ) × ((poll_write b g s w buf).result ≡ poll_ready (io_ok n)))
            ⊎ ((poll_write b g s w buf).wires ≡ w)
      go (acquired n) e =
          elim (Bool-cases
            (s.state.reset || (not s.state.write_open || (is_nil buf || not w.out_tx.alive)))) [
              | inl stopped ↦ inr (ground arith)
              | inr goes ↦ inl (n, ground arith)
            ]
      go outcome_closed e = inr (ground arith)
      go pending e = inr (ground arith)

  -- With the frame size of the configuration within the codec's ceiling, every frame that a write
  -- sends on a stream with a proper id passes the codec of the writer task.
  pub fragment-IsFrame :
      (s : StreamInner) (buf : List ℕ) (n : ℕ)
      → IsU32 s.id
      → s.config.max_frame_size ≤ absolute_max_payload
      → n ≤ s.config.max_frame_size
      → IsFrame (Codec.new s.config.max_frame_size) (data_of s.id b.empty (take n buf))
  fragment-IsFrame s buf n i small h = (
    i,
    rw b.empty_bits (omega arith),
    omega (arith, length-take n buf, Codec.new_max s.config.max_frame_size),
  )

  -- Beyond that ceiling a write can send a frame that the writer's own codec refuses: it does as soon
  -- as the window, the frame size and the buffer are all larger.
  pub poll_write_refused :
      (s : StreamInner) (w : Wires) (buf dst : List ℕ)
      → s.state.reset ≡ false
      → s.state.write_open ≡ true
      → s.send_window.closed ≡ false
      → w.out_tx.alive ≡ true
      → absolute_max_payload < s.send_window.available
      → absolute_max_payload < want s buf
      → (f : Frame) × ((poll_write b undisturbed s w buf).wires.out_tx.queue
          ≡ w.out_tx.queue ++ (f ∷ []))
        × (encode b (Codec.new s.config.max_frame_size) f dst
            ≡ (dst, err (protocol "data payload exceeds limit")))
  unfolding poll_write
  poll_write_refused s w [] dst live writable opened alive credit large = absurd (omega arith)
  poll_write_refused s w (x ∷ xs) dst live writable opened alive credit large =
      let n = min s.send_window.available (want s (x ∷ xs)) in
      (
        data_of s.id b.empty (take n (x ∷ xs)),
        ground (arith, poll_acquire_alone s.send_window (want s (x ∷ xs)) opened (omega arith)),
        Codec.encode_refuses b _ s.id b.empty (take n (x ∷ xs)) dst
            (omega (arith, length-take n (x ∷ xs), Codec.new_max s.config.max_frame_size)),
      )
