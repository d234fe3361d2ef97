-- ===== src/Session/Inner.antt =====
-- src/session/inner.rs: the state that the tasks of a session share. `streams` is the store of all
-- streams that the session has made; the registry, the accept queue and the users' handles refer to
-- them by their places, so they share one stream and not a copy of it.
pub mod Store
pub mod Shutdown
use net_mux.Base.{
  ℕ, zero, suc, Bool, true, false, Option, none, some, List, [], ◌∷◌, ◌++◌, if◌then◌else◌, length,
}
use net_mux.Error.{ErrorCode}
use net_mux.Config.{Config}
use net_mux.Util.Id.{Role, StreamIdAllocator}
use net_mux.Util.Id
use net_mux.Protocol.Frame.{Frame, go_away}
use net_mux.Stream.Channel.{Sender, Wires, send_out}
use net_mux.Stream.Inner.{StreamInner, force_close}
use net_mux.Session.Manager.{StreamRegistry, drained}

pub record SessionInner : Type 0 where
  pub config : Config
  pub role : Role
  pub id_alloc : StreamIdAllocator
  pub registry : StreamRegistry
  pub streams : List StreamInner
  pub wires : Wires  -- out_tx and closer_tx
  pub accept_tx : Sender ℕ
  pub pong_tx : Sender ℕ
  pub shutdown : Bool  -- the value of the watch
  pub is_closing : Bool
  pub peer_gone : Bool
  pub tasks : Option ℕ  -- the tasks not joined yet; `none` once `close` has taken the set

-- The session that `Session::new` makes.
unfoldable pub new : Config → Role → SessionInner
new config role = record {
  config = config;
  role = role;
  id_alloc = Id.new role;
  registry = [];
  streams = [];
  wires = record {
    out_tx = record { queue = []; alive = true };
    closer_tx = record { queue = []; alive = true };
  };
  accept_tx = record { queue = []; alive = true };
  -- Without keepalive the receiver is dropped.
  pong_tx = record {
    queue = [];
    alive = elim config.keepalive_interval [ none ↦ false | some _ ↦ true ];
  };
  shutdown = false;
  is_closing = false;
  peer_gone = false;
  -- The writer, the reader, the closer and, with keepalive, its task.
  tasks = elim config.keepalive_interval [ none ↦ some 3 | some _ ↦ some 4 ];
}

abbrev pub stream_at : List StreamInner → ℕ → Option StreamInner
stream_at [] r = none
stream_at (x ∷ xs) zero = some x
stream_at (x ∷ xs) (suc r) = stream_at xs r

-- A method that changes the stream at a place.
abbrev pub update_at : List StreamInner → ℕ → (StreamInner → StreamInner) → List StreamInner
update_at [] r f = []
update_at (x ∷ xs) zero f = f x ∷ xs
update_at (x ∷ xs) (suc r) f = x ∷ update_at xs r f

abbrev pub send_frame : SessionInner → Frame → SessionInner
send_frame s f = record s { wires = send_out s.wires f }

unfoldable pub close_all : List ℕ → List StreamInner → List StreamInner
close_all [] xs = xs
close_all (r ∷ rs) xs = close_all rs (update_at xs r force_close)

unfoldable pub initiate_shutdown : SessionInner → ErrorCode → SessionInner
unfolding close_all
initiate_shutdown s code = if s.is_closing then s else record s {
  is_closing = true;
  wires = send_out s.wires (go_away code);
  registry = [];
  streams = close_all (drained s.registry) s.streams;
  shutdown = true;
}

unfoldable pub note_peer_gone : SessionInner → SessionInner
note_peer_gone s = record s { peer_gone = true }
