-- ===== src/Stream/State.antt =====
-- src/stream/state.rs: the three flags of a stream. A `swap` returns the old value.
use net_mux.Base.{Bool, true, false, not}

pub record StreamState : Type 0 where
  pub read_open : Bool
  pub write_open : Bool
  pub reset : Bool

unfoldable pub new : StreamState
new = record { read_open = true; write_open = true; reset = false }

-- `true` the first time.
unfoldable pub close_read : StreamState → StreamState × Bool
close_read s = (record s { read_open = false }, s.read_open)

unfoldable pub close_write : StreamState → StreamState × Bool
close_write s = (record s { write_open = false }, s.write_open)

unfoldable pub mark_reset : StreamState → StreamState × Bool
mark_reset s = (record { read_open = false; write_open = false; reset = true }, not s.reset)
