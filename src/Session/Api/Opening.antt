-- ===== src/Session/Api/Opening.antt =====
-- What Session::open (src/session/mod.rs) does up to its wait.
use net_mux.Base.{
  ◌+◌, ◌≤◌, ◌<◌, ◌≡◌, ◌∙◌, refl, true, false, none, some, [], ◌∷◌, ◌++◌, arith, length, u32_max,
}
use net_mux.Error.{ok}
use net_mux.Util.Id.{StreamIdAllocator}
use net_mux.Util.Id
use net_mux.Util.Id.Alloc.{allocate_lem}
use net_mux.Protocol.Frame.{syn}
use net_mux.Stream.Channel.{send_out}
use net_mux.Stream.Inner.{StreamInner, local}
use net_mux.Stream.Inner
use net_mux.Session.Manager.{get, len}
use net_mux.Session.Manager.Map.{insert_new}
use net_mux.Session.Inner.{SessionInner, stream_at}
use net_mux.Session.Inner.Store.{stream_at-last}
use net_mux.Session.Api.{may_open, announce, start_open}

-- The session in which `open` waits for the acknowledgement.
unfoldable pub announced : SessionInner → SessionInner
announced s = record s {
  id_alloc = record { next = s.id_alloc.next + 2 };
  streams = s.streams ++ (Inner.new s.id_alloc.next local s.config ∷ []);
  registry = (s.id_alloc.next, length s.streams) ∷ s.registry;
  wires = send_out s.wires (syn s.id_alloc.next);
}

allocates :
    (a : StreamIdAllocator)
    → a.next + 2 ≤ u32_max
    → Id.allocate a ≡ (record { next = a.next + 2 }, some a.next)
allocates a room = ground (arith, allocate_lem a)

pub announce-announced :
    (s : SessionInner)
    → s.id_alloc.next + 2 ≤ u32_max
    → get s.registry s.id_alloc.next ≡ none
    → s.wires.out_tx.alive ≡ true
    → announce s ≡ (announced s, ok (s.id_alloc.next, length s.streams))
unfolding announce announced
announce-announced s room new alive =
    ground (
      arith,
      allocates s.id_alloc room,
      insert_new s.registry s.id_alloc.next (length s.streams) new,
    )

pub may_open_lem :
    (s : SessionInner)
    → s.is_closing ≡ false
    → s.peer_gone ≡ false
    → len s.registry < s.config.max_streams
    → may_open s ≡ ok tt
unfolding may_open
may_open_lem s live here room = ground arith

pub start_open-announce :
    (gap : SessionInner → SessionInner) (s : SessionInner)
    → may_open s ≡ ok tt
    → start_open gap s ≡ announce (gap s)
unfolding start_open
start_open-announce gap s may = rw (start_open, may)

-- On a live session with room, an id left that is not in use and the writer there, an undisturbed
-- `open` registers one new stream under the allocator's next id, moves the allocator on by two and
-- sends SYN with that id, behind all that was sent before.
pub start_open_lem :
    (s : SessionInner)
    → s.is_closing ≡ false
    → s.peer_gone ≡ false
    → len s.registry < s.config.max_streams
    → s.id_alloc.next + 2 ≤ u32_max
    → get s.registry s.id_alloc.next ≡ none
    → s.wires.out_tx.alive ≡ true
    → let id = s.id_alloc.next in
      let place = length s.streams in
      let t = start_open (λ u. u) s in
      (t.1 ≡ ok (id, place))
      × (t.0.registry ≡ (id, place) ∷ s.registry)
      × (t.0.id_alloc.next ≡ id + 2)
      × (t.0.wires.out_tx.queue ≡ s.wires.out_tx.queue ++ (syn id ∷ []))
      × (stream_at t.0.streams place ≡ some (Inner.new id local s.config))
unfolding announced
start_open_lem s live here room left new alive =
    let goes =
      start_open-announce (λ u. u) s (may_open_lem s live here room)
      ∙ announce-announced s left new alive in
    let last = stream_at-last s.streams (Inner.new s.id_alloc.next local s.config) in
    rw goes (refl, refl, refl, sent alive, last)
  where
    sent :
        s.wires.out_tx.alive ≡ true
        → (send_out s.wires (syn s.id_alloc.next)).out_tx.queue
          ≡ s.wires.out_tx.queue ++ (syn s.id_alloc.next ∷ [])
    sent a = rw a
