-- ===== src/Session/Machine.antt =====
-- All that shares one session (src/session): the reader, the writer, the closer and the keepalive
-- task, the users of its streams, and any number of calls of Session::open, under any interleaving of
-- what they do between two waits. A call of `open` takes a step for its look at the flags, one for
-- its id, one for the registration and one for the SYN, and others may act between them.
pub mod Keeps
pub mod Turns
pub mod Inv
pub mod Ids
pub mod Closing
pub mod Says
pub mod Sent
pub mod Announce
pub mod Apart
pub mod Syns
pub mod Carried
pub mod Proper
pub mod Decodes
pub mod Heard
pub mod Peer
pub mod Pair
use net_mux.Base.{
  ℕ, ◌≡◌, Bool, true, false, Option, none, some, List, [], ◌∷◌, ◌++◌, ◌==◌, if◌then◌else◌, length,
}
use net_mux.Error.{Error, Result, ok, err, code_timeout}
use net_mux.Config.{Config}
use net_mux.Util.Id.{Role, StreamIdAllocator, allocate}
use net_mux.Session.Writer.Cases.{popped}
use net_mux.Protocol.Frame.{Bitflags, Frame, syn, ping}
use net_mux.Stream.Inner.{StreamInner, local}
use net_mux.Stream.Inner
use net_mux.Stream.Life.{Act}
use net_mux.Stream.Life
use net_mux.Session.Manager.{StreamRegistry, insert, remove}
use net_mux.Session.Inner.{
  SessionInner, stream_at, send_frame, initiate_shutdown, new as new_session,
}
use net_mux.Session.Api.{
  Waited, may_open, finish_open, poll_accept, start_close, finish_close, closer_turn,
}
use net_mux.Session.Reader.{Input, with_wires}
use net_mux.Session.Reader
use net_mux.Session.Writer.{Sink, Answer, new_sink}
use net_mux.Session.Writer
use net_mux.Session.Keepalive.{await_pong}

-- Where a call of `open` stands: outside a call, behind its look at the flags, with an id, with a
-- registered stream, or at its wait.
pub data Open : Type 0 where
  outside checked : Open
  allocated : (id : ℕ) → Open
  registered announced : (id place : ℕ) → Open

pub record Machine : Type 0 where
  pub session : SessionInner
  pub sink : Sink  -- the writer's
  pub opens : ℕ → Open

abbrev pub set_open : (ℕ → Open) → ℕ → Open → ℕ → Open
set_open opens i p j = if i == j then p else opens j

-- The session that the machine is in, behind what one of its tasks does.
abbrev pub in_session : Machine → SessionInner → Machine
in_session m s = record m { session = s }

abbrev pub moves_on : Machine → ℕ → SessionInner → Open → Machine
moves_on m i s p = record m { session = s; opens = set_open m.opens i p }

-- The stream of an `open` is in the store, whether or not its registration succeeds.
abbrev pub stored : SessionInner → ℕ → SessionInner
stored s id = record s { streams = s.streams ++ (Inner.new id local s.config ∷ []) }

-- A new session, with no call under way.
abbrev pub init : Config → Role → Machine
init config role =
    let s = new_session config role in
    record { session = s; sink = new_sink s; opens = λ _. outside }

module _ (b : Bitflags) where
  pub data Step (m n : Machine) : Type 0 where
    reads : (i : Input) → n ≡ in_session m (Reader.turn b m.session i).0 → Step m n
    writes :
        (a : Option Answer × Answer)
        → n ≡ record m {
          session = (Writer.turn b a (m.session, m.sink)).0.0;
          sink = (Writer.turn b a (m.session, m.sink)).0.1;
        }
        → Step m n
    -- The drain behind the writer's loop: one frame, and the flush when none is left. The task ends its
    -- drain at the first error; these steps may go on behind it.
    drains :
        (a : Option Answer) (f : Frame) (q : List Frame)
        → m.session.shutdown ≡ true
        → m.session.wires.out_tx.queue ≡ f ∷ q
        → n ≡ record m { session = popped m.session q; sink = (Writer.feed b a m.sink f).0 }
        → Step m n
    flushes :
        (a : Answer)
        → m.session.shutdown ≡ true
        → m.session.wires.out_tx.queue ≡ []
        → n ≡ record m { sink = (Writer.flush a m.sink).0 }
        → Step m n
    -- The receiver of the queue is dropped with the writer.
    writer_ends :
        n
          ≡ in_session m (record (m.session) {
            wires = record (m.session.wires) {
              out_tx = record (m.session.wires.out_tx) { alive = false };
            };
          })
        → Step m n
    removes : n ≡ in_session m (closer_turn m.session).0 → Step m n
    -- The keepalive task.
    pings : (nonce : ℕ) → n ≡ in_session m (send_frame m.session (ping b nonce)) → Step m n
    takes_pongs :
        (nonce : ℕ) (gone : Bool)
        → n
          ≡ in_session m (record (m.session) {
            pong_tx = record (m.session.pong_tx) {
              queue = (await_pong nonce gone m.session.pong_tx.queue).0;
            };
          })
        → Step m n
    times_out : n ≡ in_session m (initiate_shutdown m.session code_timeout) → Step m n
    -- Users: of a stream, and of the session. An act on a stream may also be one of those that only
    -- the tasks do to it (`receives`), so the steps allow more than the program does.
    uses :
        (place : ℕ) (x : StreamInner) (a : Act)
        → stream_at m.session.streams place ≡ some x
        → n ≡ in_session m (with_wires m.session place (Life.step b a (x, m.session.wires)))
        → Step m n
    accepts : (seen : Bool) → n ≡ in_session m (poll_accept seen m.session).0 → Step m n
    closes : n ≡ in_session m (start_close m.session) → Step m n
    joins : n ≡ in_session m (finish_close m.session).0 → Step m n
    -- A call of `open`.
    open_checks :
        (i : ℕ)
        → m.opens i ≡ outside
        → may_open m.session ≡ ok tt
        → n ≡ moves_on m i m.session checked
        → Step m n
    open_exhausted :
        (i : ℕ)
        → m.opens i ≡ checked
        → (allocate m.session.id_alloc).1 ≡ none
        → n ≡ moves_on m i m.session outside
        → Step m n
    open_allocates :
        (i id : ℕ)
        → m.opens i ≡ checked
        → (allocate m.session.id_alloc).1 ≡ some id
        → n
          ≡ moves_on m i
              (record (m.session) { id_alloc = (allocate m.session.id_alloc).0 })
              (allocated id)
        → Step m n
    open_clashes :
        (i id : ℕ) (e : Error)
        → m.opens i ≡ allocated id
        → insert m.session.registry id (length m.session.streams) ≡ err e
        → n ≡ moves_on m i (stored m.session id) outside
        → Step m n
    open_registers :
        (i id : ℕ) (r : StreamRegistry)
        → m.opens i ≡ allocated id
        → insert m.session.registry id (length m.session.streams) ≡ ok r
        → n
          ≡ moves_on m i
              (record (stored m.session id) { registry = r })
              (registered id (length m.session.streams))
        → Step m n
    open_refused :
        (i id place : ℕ)
        → m.opens i ≡ registered id place
        → m.session.wires.out_tx.alive ≡ false
        → n ≡ moves_on m i (record (m.session) { registry = remove m.session.registry id }) outside
        → Step m n
    open_announces :
        (i id place : ℕ)
        → m.opens i ≡ registered id place
        → m.session.wires.out_tx.alive ≡ true
        → n ≡ moves_on m i (send_frame m.session (syn id)) (announced id place)
        → Step m n
    open_ends :
        (i id place : ℕ) (w : Waited)
        → m.opens i ≡ announced id place
        → n ≡ moves_on m i (finish_open m.session (id, place) w).0 outside
        → Step m n

  pub data Reach (config : Config) (role : Role) : Machine → Type 0 where
    start : Reach config role (init config role)
    later : {m n : Machine} → Reach config role m → Step m n → Reach config role n
