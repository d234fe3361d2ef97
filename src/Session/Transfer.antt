-- ===== src/Session/Transfer.antt =====
-- Bytes on their way from a write on one side to the receive buffer on the other: poll_write of
-- src/stream/inner.rs, the codec, and the reader's loop of src/session/reader.rs.
pub mod Sent
pub mod Reads
pub mod Bytes
use net_mux.Base.{ℕ, Bool, List, [], ◌∷◌, ◌++◌, take}
use net_mux.Protocol.Frame.{Bitflags, Frame, data_of}
use net_mux.Flow.Window.{Gaps}
use net_mux.Stream.Channel.{Wires, Poll, poll_ready, poll_pending, IoResult, io_ok, io_err}
use net_mux.Stream.Inner.{StreamInner}
use net_mux.Stream.Inner.Write.{poll_write}

-- What a call of `poll_write` has taken of its buffer, as the payload of one frame or of none.
unfoldable pub chunk : List ℕ → Poll (IoResult ℕ) → List (List ℕ)
chunk [] r = []
chunk (x ∷ xs) (poll_ready (io_ok n)) = take n (x ∷ xs) ∷ []
chunk (x ∷ xs) (poll_ready (io_err e)) = []
chunk (x ∷ xs) poll_pending = []

module _ (b : Bitflags) where
  -- One write after the other, whatever they answer; with what they have taken.
  unfoldable pub writes_all :
      List (Gaps × List ℕ) → StreamInner → Wires → (StreamInner × Wires) × List (List ℕ)
  writes_all [] s w = ((s, w), [])
  writes_all ((g, buf) ∷ more) s w =
      let o = poll_write b g s w buf in
      let rest = writes_all more o.stream o.wires in (rest.0, chunk buf o.result ++ rest.1)
