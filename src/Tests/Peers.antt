-- ===== src/Tests/Peers.antt =====
-- A client that opens two streams, and the server that reads its bytes.
use net_mux.Base.{ℕ, ◌≡◌, ◌⊎◌, refl, none, [], ◌∷◌, arith, length}
use net_mux.Error.{ok, err, protocol}
use net_mux.Util.Id.{client, server, owns, allocate, first_id}
use net_mux.Util.Id
use net_mux.Protocol.Frame.{syn}
use net_mux.Protocol.Header
use net_mux.Protocol.Codec.{decode_all, decode}
use net_mux.Protocol.Codec
use net_mux.Session.Manager.{get, insert}
use net_mux.Session.Inner.{new, send_frame}
use net_mux.Session.Api.{may_open}
use net_mux.Session.Reader.{frame, dispatch}
use net_mux.Session.Reader
use net_mux.Session.Writer.{takes_all}
use net_mux.Session.Writer
use net_mux.Session.Machine.{
  Machine, checked, allocated, registered, announced, init, stored, moves_on, in_session,
  open_checks, open_allocates, open_registers, open_announces, reads, writes,
}
use net_mux.Session.Reader.Late.{IsLate}
use net_mux.Session.Machine.Heard.{hear}
use net_mux.Session.Machine.Pair.{Pair, meet, near, far, Yields, Pair-IsLate}
use net_mux.Tests.{bitflags, small}

-- The four steps of a call of `open`, and a turn of the writer.
abbrev checking : Machine → ℕ → Machine
checking m i = moves_on m i m.session checked

abbrev allocating : Machine → ℕ → ℕ → Machine
allocating m i id =
    moves_on m i (record (m.session) { id_alloc = (allocate m.session.id_alloc).0 }) (allocated id)

abbrev listing : Machine → ℕ → ℕ → Machine
listing m i id =
    let place = length m.session.streams in
    moves_on m i (record (stored m.session id) { registry = (id, place) ∷ m.session.registry })
      (registered id place)

abbrev announcing : Machine → ℕ → ℕ → ℕ → Machine
announcing m i id place = moves_on m i (send_frame m.session (syn id)) (announced id place)

abbrev writing : Machine → Machine
writing m = record m {
  session = (Writer.turn bitflags (none, takes_all) (m.session, m.sink)).0.0;
  sink = (Writer.turn bitflags (none, takes_all) (m.session, m.sink)).0.1;
}

abbrev first : Machine
first = listing (allocating (checking (init small client) 0) 0 1) 0 1

abbrev second : Machine
second = listing (allocating (checking (announcing first 0 1 0) 1) 1 3) 1 3

abbrev told : Machine
told = writing (writing (announcing second 1 3 1))

-- The server has met the client, which opens its streams.
abbrev Opens : Machine → Type 0
Opens n = Pair bitflags small small server (init small server) n [] []

first-Opens : Opens first
unfolding may_open allocate new Id.new first_id insert get hear
first-Opens =
    let checks : Opens (checking (init small client) 0) =
      far meet (open_checks 0 refl refl refl) tt in
    far (far checks (open_allocates 0 1 refl refl refl) tt) (open_registers 0 1 _ refl refl refl) tt

second-Opens : Opens second
unfolding may_open allocate new Id.new first_id insert get hear
second-Opens =
    let one : Opens (announcing first 0 1 0) =
      far first-Opens (open_announces 0 1 0 refl refl refl) tt in
    let checks : Opens (checking (announcing first 0 1 0) 1) =
      far one (open_checks 1 refl refl refl) tt in
    far (far checks (open_allocates 1 3 refl refl refl) tt) (open_registers 1 3 _ refl refl refl) tt

told-Opens : Opens told
unfolding new hear
told-Opens =
    let two : Opens (announcing second 1 3 1) =
      far second-Opens (open_announces 1 3 1 refl refl refl) tt in
    far (far two (writes (none, takes_all) refl) tt) (writes (none, takes_all) refl) tt

told-Yields : Yields bitflags small told (syn 1 ∷ syn 3 ∷ [])
unfolding decode_all decode Header.decode Writer.turn Codec.new new Header.encode Codec.encode
told-Yields = ([], refl)

-- The server reads the first SYN.
abbrev reader : Machine
reader =
    in_session (init small server)
      (Reader.turn bitflags (init small server).session (frame (syn 1))).0

reader_opens : Pair bitflags small small server reader told (syn 1 ∷ []) []
unfolding hear
reader_opens = near told-Opens (reads (frame (syn 1)) refl) (syn 3 ∷ [], told-Yields)

Pair-IsLate_example :
    let done = (dispatch bitflags reader.session (syn 3)).1 in
    (done ≡ ok tt)
    ⊎ ((done ≡ err (protocol "data after FIN")) × IsLate bitflags reader.session (syn 3))
Pair-IsLate_example =
    Pair-IsLate bitflags small small server refl (omega arith) (syn 3) [] reader_opens told-Yields
