-- ===== src/Tests/Sends.antt =====
-- What a session puts into its queue and on its connection, on one run of all that shares it.
use net_mux.Base.{
  ℕ, suc, All, ◌≤◌, ◌≡◌, refl, if◌then◌else◌, true, false, none, some, List, [], ◌∷◌, ◌++◌, arith,
  length,
}
use net_mux.Error.{ok, normal, as_u32}
use net_mux.Util.Id.{client, server, owns, allocate, first_id}
use net_mux.Util.Id
use net_mux.Protocol.Frame.{Frame, syn, go_away}
use net_mux.Protocol.Codec.{encode_all, decode_all}
use net_mux.Protocol.Codec
use net_mux.Stream.Inner
use net_mux.Stream.Inner.{StreamInner, can_recv, push_data}
use net_mux.Session.Manager.{insert}
use net_mux.Session.Inner.{new, send_frame, initiate_shutdown}
use net_mux.Session.Reader.{frame, dispatch}
use net_mux.Session.Reader
use net_mux.Session.Api.{may_open, poll_accept, start_close}
use net_mux.Session.Writer
use net_mux.Session.Writer.Cases.{popped}
use net_mux.Session.Writer.{takes_all}
use net_mux.Session.Machine.{
  Machine, registered, announced, stored, open_registers, open_announces, accepts, writes, moves_on,
  in_session, Reach, later, drains, flushes, open_checks, open_allocates, reads, closes,
}
use net_mux.Session.Machine.Ids.{open_registers-ok}
use net_mux.Session.Machine.Announce.{Reach-announces}
use net_mux.Session.Machine.Syns.{Reach-syns}
use net_mux.Session.Machine.Apart.{Distinct}
use net_mux.Session.Announce.{go_aways, syns, syn_of}
use net_mux.Protocol.Codec.{decode_all}
use net_mux.Protocol.Codec.RoundTrip.{IsFrame}
use net_mux.Protocol.Codec.Batch.{spelling}
use net_mux.Protocol.Header
use net_mux.Tests.{bitflags, small}
use net_mux.Session.Machine.Proper.{Runs, begins, goes_on}
use net_mux.Session.Machine.Decodes.{Runs-decodes}
use net_mux.Tests.Machines.{looked, met, met-Reach}

-- A user accepts the peer's stream, the writer sends the ACK, and then the session closes.
abbrev accepted : Machine
accepted = in_session met (poll_accept false met.session).0

abbrev wrote : Machine
wrote = record accepted {
  session = (Writer.turn bitflags (none, takes_all) (accepted.session, accepted.sink)).0.0;
  sink = (Writer.turn bitflags (none, takes_all) (accepted.session, accepted.sink)).0.1;
}

abbrev parted : Machine
parted = in_session wrote (start_close wrote.session)

parted-Reach : Reach bitflags small client parted
parted-Reach =
    later (later (later met-Reach (accepts false refl)) (writes (none, takes_all) refl))
      (closes refl)

-- The drain sends the GoAway.
abbrev drained : Machine
drained = record parted {
  session = popped parted.session [];
  sink = (Writer.feed bitflags none parted.sink (go_away normal)).0;
}

abbrev flushed : Machine
flushed = record drained { sink = (Writer.flush takes_all drained.sink).0 }

flushed-Reach : Reach bitflags small client flushed
unfolding Writer.turn initiate_shutdown new Reader.turn owns insert poll_accept Codec.encode
    Codec.new
flushed-Reach =
    later (later parted-Reach (drains none (go_away normal) [] refl refl refl))
      (flushes takes_all refl refl refl)

Reach-announces_example :
    (sent : List Frame) × (flushed.sink.written ++ flushed.sink.buffer
      ≡ spelling bitflags (Codec.new small.max_frame_size) sent)
    × (go_aways (sent ++ flushed.session.wires.out_tx.queue)
        ≤ (if flushed.session.is_closing then 1 else 0))
Reach-announces_example = Reach-announces bitflags small client flushed-Reach

flushed_lem :
    (parted.sink.written ≡ 1 ∷ 0 ∷ 0 ∷ 2 ∷ 0 ∷ 0 ∷ 0 ∷ 2 ∷ 0 ∷ 0 ∷ 0 ∷ 0 ∷ [])
    × (flushed.sink.written
        ≡ parted.sink.written ++ 1 ∷ 3 ∷ 0 ∷ 0 ∷ 0 ∷ 0 ∷ 0 ∷ 0 ∷ 0 ∷ 0 ∷ 0 ∷ 0 ∷ [])
unfolding Writer.turn Codec.new initiate_shutdown new Reader.turn owns insert poll_accept
    Writer.feed Writer.flush Header.encode Codec.encode push_data Inner.new as_u32
flushed_lem = (refl, refl)

-- The call of `open` goes on while the peer's stream is there.
abbrev listed : Machine
listed =
    moves_on met 0
      (record (stored met.session 1) {
        registry = (1, length met.session.streams) ∷ met.session.registry;
      })
      (registered 1 (length met.session.streams))

abbrev synced : Machine
synced =
    moves_on listed 0 (send_frame listed.session (syn 1)) (announced 1 (length met.session.streams))

listed_alive : listed.session.wires.out_tx.alive ≡ true
unfolding new Reader.turn owns insert
listed_alive = refl

synced-Reach : Reach bitflags small client synced
synced-Reach =
    later
      (later met-Reach (
        open_registers 0 1 _ refl (open_registers-ok bitflags small client 0 1 met-Reach refl)
          refl))
      (open_announces 0 1 _ refl listed_alive refl)

Reach-syns_example :
    (sent : List Frame) × (synced.sink.written ++ synced.sink.buffer
      ≡ spelling bitflags (Codec.new small.max_frame_size) sent)
    × All (λ id. owns client id ≡ true) (syns (sent ++ synced.session.wires.out_tx.queue))
    × Distinct (syns (sent ++ synced.session.wires.out_tx.queue))
Reach-syns_example = Reach-syns bitflags small client synced-Reach

synced_lem : syns synced.session.wires.out_tx.queue ≡ 1 ∷ []
unfolding new Reader.turn owns insert syns syn_of
synced_lem = refl

-- The same run again, step by step; the SYN of the peer is a frame that a codec carries.
met-Runs : Runs bitflags small client met
unfolding may_open allocate new Id.new first_id
met-Runs =
    let checks : Runs bitflags small client looked =
      goes_on begins (open_checks 0 refl refl refl) tt in
    goes_on (goes_on checks (open_allocates 0 1 refl refl refl) tt) (reads (frame (syn 2)) refl)
      (omega arith, omega arith, omega arith)

parted-Runs : Runs bitflags small client parted
parted-Runs =
    let one : Runs bitflags small client accepted = goes_on met-Runs (accepts false refl) tt in
    let two : Runs bitflags small client wrote = goes_on one (writes (none, takes_all) refl) tt in
    goes_on two (closes refl) tt

flushed-Runs : Runs bitflags small client flushed
unfolding Writer.turn initiate_shutdown new Reader.turn owns insert poll_accept Codec.encode
    Codec.new
flushed-Runs =
    goes_on (goes_on parted-Runs (drains none (go_away normal) [] refl refl refl) tt)
      (flushes takes_all refl refl refl) tt

Runs-decodes_example :
    All (IsFrame (Codec.new small.max_frame_size)) flushed.session.wires.out_tx.queue
    × ((rest : List ℕ) × (got : List Frame) × (decode_all bitflags
            (suc (length flushed.sink.written))
            (Codec.new small.max_frame_size)
            flushed.sink.written
          ≡ some (rest, got, ok tt)))
Runs-decodes_example = Runs-decodes bitflags small (omega arith) client flushed-Runs
