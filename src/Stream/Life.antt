-- ===== src/Stream/Life.antt =====
-- The life of one stream: any sequence of calls of the `Stream` of src/stream/mod.rs by its user, and
-- of what the session's tasks do to it (src/stream/inner.rs).
pub mod Order
pub mod Flags
pub mod Id
use net_mux.Base.{ℕ, List, [], ◌∷◌}
use net_mux.Protocol.Frame.{Bitflags}
use net_mux.Flow.Window.{Gaps}
use net_mux.Stream.Recv.{ReadBuf}
use net_mux.Stream.Channel.{Wires}
use net_mux.Stream.Inner.{StreamInner, Event, deliver}
use net_mux.Stream.Inner.Read.{Round, poll_read}
use net_mux.Stream.Inner.Write.{poll_write}
use net_mux.Stream.Inner.Local.{local_fin, local_reset, on_user_drop}

pub data Act : Type 0 where
  reads : List Round → ReadBuf → Act
  writes : Gaps → List ℕ → Act
  shuts_down resets drops : Act
  receives : Event → Act

module _ (b : Bitflags) where
  unfoldable pub step : Act → StreamInner × Wires → StreamInner × Wires
  step (reads gaps buf) (s, w) =
      ((poll_read b gaps s w buf).stream, (poll_read b gaps s w buf).wires)
  step (writes g buf) (s, w) = ((poll_write b g s w buf).stream, (poll_write b g s w buf).wires)
  step shuts_down (s, w) = local_fin s w
  step resets (s, w) = local_reset s w
  step drops (s, w) = on_user_drop s w
  step (receives e) (s, w) = deliver e (s, w)

  unfoldable pub run : List Act → StreamInner × Wires → StreamInner × Wires
  unfolding step
  run [] sw = sw
  run (a ∷ as') sw = run as' (step a sw)
