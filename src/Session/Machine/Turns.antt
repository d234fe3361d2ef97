-- ===== src/Session/Machine/Turns.antt =====
-- What the turns of the tasks and the calls of the users keep of a session (src/session).
use net_mux.Base.{
  ℕ, ◌≡◌, refl, Bool, false, not, ◌&&◌, Option, some, List, ◌==◌, arith, Bool-cases, Option-cases,
  inl, inr, length, leb, ==_iff, List-cases,
}
use net_mux.Error.{ok, err, normal, internal_error, Result-cases}
use net_mux.Util.Id.{Role, owns}
use net_mux.Protocol.Frame.{
  Frame, Flags, Bitflags, flags_syn, flags_ack, flags_rst, data_frame, window_update_frame,
  ping_frame, go_away_frame, rst,
}
use net_mux.Stream.Inner.{StreamInner}
use net_mux.Stream.Life.{Act}
use net_mux.Stream.Life
use net_mux.Stream.Life.Id.{step-id}
use net_mux.Session.Manager.{StreamRegistry, get, insert, remove, len}
use net_mux.Session.Manager.Map.{get-insert}
use net_mux.Session.Inner.{SessionInner, stream_at, send_frame, note_peer_gone}
use net_mux.Session.Reader.{
  Input, closed, failed, frame, turn, dispatch, handle_data, to_stream, open_remote, code_of,
  with_wires,
}
use net_mux.Session.Reader.Registry.{turn-IsSession, at-IsRegistry}
use net_mux.Session.Writer.{Sink, Answer}
use net_mux.Session.Writer
use net_mux.Session.Api.{
  finish_close, Waited, waited, elapsed, finish_open, poll_accept, closer_turn,
}
use net_mux.Session.Machine.Keeps.{
  NoOwn, Keeps, changes, kept, if-Keeps, Keeps-trans, remove-none, initiate_shutdown-Keeps, Safe,
  Safe-trans, same-Safe, removes-Safe, shutdown-Safe,
}

-- A registration of an id that is not the role's own.
insert-NoOwn :
    (role : Role) (m m' : StreamRegistry) (id r : ℕ)
    → owns role id ≡ false
    → insert m id r ≡ ok m'
    → NoOwn role m m'
insert-NoOwn role m m' id r foreign e j own new = elim (Bool-cases (id == j)) [
  | inl h ↦ let same = (==_iff id j).0 h in absurd (ground (arith, same))
  | inr h ↦ ground (arith, (get-insert m m' id r j e).1)
]

open_remote-Keeps : (s : SessionInner) (id : ℕ) → Keeps s (open_remote s id).0
unfolding open_remote
open_remote-Keeps s id = elim (Bool-cases (owns s.role id)) [
  | inl e ↦ rw e (kept refl refl refl refl refl)
  | inr e ↦ elim (Bool-cases s.peer_gone) [
    | inl e1 ↦ rw (e, e1) (kept refl refl refl refl refl)
    | inr e1 ↦ elim (Bool-cases (leb s.config.max_streams (len s.registry))) [
      | inl e2 ↦ rw (e, e1, e2) (kept refl refl refl refl refl)
      | inr e2 ↦ elim (Result-cases (insert s.registry id (length s.streams))) [
        | inl (m, e3) ↦
            let new = insert-NoOwn s.role s.registry m id (length s.streams) e e3 in
            elim (Bool-cases s.accept_tx.alive) [
              | inl a ↦ rw (e, e1, e2, e3, a) (changes refl refl new refl refl)
              | inr a ↦
                  rw (e, e1, e2, e3, a)
                    (changes refl refl (λ j o n. remove-none m id j (new j o n)) refl refl)
            ]
        | inr (f, e3) ↦ rw (e, e1, e2, e3) (kept refl refl refl refl refl)
      ]
    ]
  ]
]

pub poll_accept-Safe : (seen : Bool) (s : SessionInner) → Safe s (poll_accept seen s).0
unfolding poll_accept
poll_accept-Safe seen s =
    same-Safe (ground arith) (ground arith) (ground arith) (ground arith) (ground arith)
      (ground arith)

pub finish_close-Safe : (s : SessionInner) → Safe s (finish_close s).0
unfolding finish_close
finish_close-Safe s = elim (Option-cases s.tasks) [
  | inl e ↦ rw e (same-Safe refl refl refl refl refl refl)
  | inr (n, e) ↦ rw e (same-Safe refl refl refl refl refl refl)
]

pub closer_turn-Safe : (s : SessionInner) → Safe s (closer_turn s).0
unfolding closer_turn
closer_turn-Safe s = elim (Bool-cases s.shutdown) [
  | inl e ↦ rw e (same-Safe refl refl refl refl refl refl)
  | inr e ↦ elim (List-cases s.wires.closer_tx.queue) [
    | inl q ↦ rw (e, closer_turn, q) (same-Safe {t = s} refl refl refl refl refl e)
    | inr (id, ids, q) ↦
        let taken = record (s.wires.closer_tx) { queue = ids } in
        let t = record s {
          registry = remove s.registry id;
          wires = record (s.wires) { closer_tx = taken };
        } in
        rw (e, closer_turn, q) (removes-Safe {t = t} id refl refl refl refl refl e)
  ]
]

pub finish_open-Safe :
    (s : SessionInner) (id place : ℕ) (w : Waited) → Safe s (finish_open s (id, place) w).0
unfolding finish_open
finish_open-Safe s id place (waited (ok u)) = same-Safe refl refl refl refl refl refl
finish_open-Safe s id place (waited (err e)) = removes-Safe id refl refl refl refl refl refl
finish_open-Safe s id place elapsed = removes-Safe id refl refl refl refl refl refl

module _ (b : Bitflags) where
  to_stream-Keeps :
      (s : SessionInner) (id : ℕ) (flags : Flags) (payload : List ℕ)
      → Keeps s (to_stream b s id flags payload).0
  unfolding to_stream
  to_stream-Keeps s id flags payload =
      let answer = not (b.contains flags flags_ack) && not (b.contains flags flags_rst) in
      let unknown = if-Keeps answer s (send_frame s (rst id)) (kept refl refl refl refl refl) in
      elim (Option-cases (get s.registry id)) [
        | inl e ↦ rw (to_stream, e) unknown
        | inr (r, e) ↦ elim (Option-cases (stream_at s.streams r)) [
          | inl at ↦ rw (to_stream, e, at) unknown
          | inr (x, at) ↦ rw (to_stream, e, at) (kept refl refl refl refl refl)
        ]
      ]

  handle_data-Keeps :
      (s : SessionInner) (id : ℕ) (flags : Flags) (payload : List ℕ)
      → Keeps s (handle_data b s id flags payload).0
  unfolding handle_data
  handle_data-Keeps s id flags payload =
      let t = (open_remote s id).0 in
      let opened = open_remote-Keeps s id in
      let after = Keeps-trans s t _ opened (to_stream-Keeps t id flags payload) in
      elim (Bool-cases (id == 0)) [
        | inl e ↦ rw e (kept refl refl refl refl refl)
        | inr e ↦ elim (Bool-cases (b.contains flags flags_syn)) [
          | inl e1 ↦ elim (Option-cases (open_remote s id).1) [
            | inl o ↦ rw (e, e1, o) after
            | inr (r, o) ↦ rw (e, e1, o) opened
          ]
          | inr e1 ↦ rw (e, e1) (to_stream-Keeps s id flags payload)
        ]
      ]

  dispatch-Keeps : (s : SessionInner) (f : Frame) → Keeps s (dispatch b s f).0
  unfolding dispatch note_peer_gone
  dispatch-Keeps s (data_frame id flags payload) = handle_data-Keeps s id flags payload
  dispatch-Keeps s (window_update_frame id flags d) = elim (Option-cases (get s.registry id)) [
    | inl e ↦ rw (dispatch, e) (kept refl refl refl refl refl)
    | inr (r, e) ↦ rw (dispatch, e) (kept refl refl refl refl refl)
  ]
  dispatch-Keeps s (ping_frame flags o) = elim (Bool-cases (b.contains flags flags_ack)) [
    | inl e ↦ rw e (kept refl refl refl refl refl)
    | inr e ↦ rw e (kept refl refl refl refl refl)
  ]
  dispatch-Keeps s (go_away_frame code) =
      Keeps-trans s (note_peer_gone s) _ (kept refl refl refl refl refl)
        (initiate_shutdown-Keeps (note_peer_gone s) code)

  turn-Keeps : (s : SessionInner) (i : Input) → Keeps s (turn b s i).0
  unfolding turn
  turn-Keeps s closed = initiate_shutdown-Keeps s normal
  turn-Keeps s (failed e) = initiate_shutdown-Keeps s (code_of e)
  turn-Keeps s (frame f) =
      let after = dispatch-Keeps s f in
      let t = (dispatch b s f).0 in
      elim (Result-cases (dispatch b s f).1) [
        | inl (o, e) ↦ rw (turn, e) after
        | inr (x, e) ↦
            rw (turn, e) (Keeps-trans s t _ after (initiate_shutdown-Keeps t (code_of x)))
      ]

  pub turn-Safe : (s : SessionInner) (i : Input) → Safe s (turn b s i).0
  turn-Safe s i = record { keeps = turn-Keeps s i; sound = turn-IsSession b s i }

  pub writer_turn-Safe :
      (a : Option Answer × Answer) (s : SessionInner) (k : Sink)
      → Safe s (Writer.turn b a (s, k)).0.0
  unfolding Writer.turn
  writer_turn-Safe a s k = elim (Bool-cases s.shutdown) [
    | inl e ↦ rw e (same-Safe refl refl refl refl refl refl)
    | inr e ↦ elim (List-cases s.wires.out_tx.queue) [
      | inl q ↦ rw (e, Writer.turn, q) (same-Safe {t = s} refl refl refl refl refl e)
      | inr (f, fs, q) ↦
          let taken = record (s.wires.out_tx) { queue = fs } in
          let t = record s { wires = record (s.wires) { out_tx = taken } } in
          let pops = same-Safe {t = t} refl refl refl refl refl e in
          elim (Result-cases (Writer.write_one b a k f).1) [
            | inl (u, r) ↦ rw (e, Writer.turn, q, r) pops
            | inr (x, r) ↦
                rw (e, Writer.turn, q, r) (Safe-trans pops (shutdown-Safe t internal_error))
          ]
    ]
  ]

  pub uses-Safe :
      (s : SessionInner) (place : ℕ) (x : StreamInner) (a : Act)
      → stream_at s.streams place ≡ some x
      → Safe s (with_wires s place (Life.step b a (x, s.wires)))
  uses-Safe s place x a at =
      let y = (Life.step b a (x, s.wires)).0 in
      record {
        keeps = kept refl refl refl refl refl;
        sound = at-IsRegistry b s.registry s.streams place x (λ _. y) at (step-id b a x s.wires);
      }
