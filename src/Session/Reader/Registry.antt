-- ===== src/Session/Reader/Registry.antt =====
-- What the reader (src/session/reader.rs) keeps true of the registry.
use net_mux.Base.{
  ℕ, ◌≡◌, refl, Bool, true, false, some, List, [], ◌∷◌, ◌++◌, ◌==◌, if◌then◌else◌, arith,
  Bool-cases, Option-cases, not, ◌&&◌, inl, inr, length, leb,
}
use net_mux.Error.{ErrorCode, ok, normal, Result-cases}
use net_mux.Config.{Config}
use net_mux.Util.Id.{owns}
use net_mux.Protocol.Frame.{
  Frame, Flags, Bitflags, flags_syn, flags_ack, flags_rst, data_frame, window_update_frame,
  ping_frame, go_away_frame,
}
use net_mux.Stream.Channel.{Wires}
use net_mux.Stream.Inner.{
  StreamInner, can_recv, push_data, Origin, remote, mark_acked, remote_fin, remote_reset,
  grant_send_credit,
}
use net_mux.Stream.Inner
use net_mux.Stream.Inner.Local.{local_reset}
use net_mux.Session.Manager.{StreamRegistry, get, insert, len}
use net_mux.Session.Manager.Map.{Distinct, insert-Distinct, remove-Distinct}
use net_mux.Session.Inner.{SessionInner, stream_at, update_at, initiate_shutdown, note_peer_gone}
use net_mux.Session.Inner.Store.{
  Placed, PlacedAt, get-PlacedAt, append-Placed, update_at-Placed, remove-Placed, stream_at-last,
}
use net_mux.Session.Reader.{
  Input, closed, failed, frame, turn, run, dispatch, handle_data, to_stream, receive, open_remote,
  code_of,
}

-- No id is registered twice, and each leads to the stream with that id.
pub record IsRegistry (m : StreamRegistry) (xs : List StreamInner) : Type 0 where
  pub distinct : Distinct m
  pub placed : Placed m xs

abbrev pub IsSession : SessionInner → Type 0
IsSession s = IsRegistry s.registry s.streams

pub initiate_shutdown-IsSession :
    (s : SessionInner) (code : ErrorCode) → IsSession s → IsSession (initiate_shutdown s code)
unfolding initiate_shutdown
initiate_shutdown-IsSession s code h = elim (Bool-cases s.is_closing) [
  | inl e ↦ rw e h
  | inr e ↦ rw e (record { distinct = tt; placed = tt })
]

pub insert-Placed :
    (m m' : StreamRegistry) (xs : List StreamInner) (id r : ℕ)
    → insert m id r ≡ ok m'
    → Placed m xs
    → PlacedAt xs id r
    → Placed m' xs
unfolding insert
insert-Placed m m' xs id r e p h = elim (Option-cases (get m id)) [
  | inl n ↦ let same : m' ≡ (id, r) ∷ m = ground arith in rw same (h, p)
  | inr (q, n) ↦ absurd (ground arith)
]

pub new-id : (id : ℕ) (o : Origin) (c : Config) → (Inner.new id o c).id ≡ id
unfolding Inner.new
new-id id o c = refl

open_remote-IsSession : (s : SessionInner) (id : ℕ) → IsSession s → IsSession (open_remote s id).0
unfolding open_remote
open_remote-IsSession s id h =
    let x = Inner.new id remote s.config in
    let stored = append-Placed s.registry s.streams x h.placed in
    let made = record s { streams = s.streams ++ (x ∷ []) } in
    elim (Bool-cases (owns s.role id)) [
      | inl e ↦ rw e h
      | inr e ↦ elim (Bool-cases s.peer_gone) [
        | inl e1 ↦ rw (e, e1) h
        | inr e1 ↦ elim (Bool-cases (leb s.config.max_streams (len s.registry))) [
          | inl e2 ↦ rw (e, e1, e2) h
          | inr e2 ↦ elim (Result-cases (insert s.registry id (length s.streams))) [
            | inl (m, e3) ↦
                let d = insert-Distinct s.registry m id (length s.streams) e3 h.distinct in
                let own : PlacedAt (s.streams ++ (x ∷ [])) id (length s.streams) =
                  (x, stream_at-last s.streams x, new-id id remote s.config) in
                let p =
                  insert-Placed s.registry m (s.streams ++ (x ∷ [])) id (length s.streams) e3 stored
                    own in
                elim (Bool-cases s.accept_tx.alive) [
                  | inl a ↦ rw (e, e1, e2, e3, a) (record { distinct = d; placed = p })
                  | inr a ↦
                      rw (e, e1, e2, e3, a)
                        (record {
                          distinct = remove-Distinct m id d;
                          placed = remove-Placed m (s.streams ++ (x ∷ [])) id p;
                        })
                ]
            | inr (f, e3) ↦ rw (e, e1, e2, e3) (record { distinct = h.distinct; placed = stored })
          ]
        ]
      ]
    ]

if-IsSession :
    (c : Bool) (s t : SessionInner) → IsSession s → IsSession t → IsSession (if c then s else t)
if-IsSession true s t h k = h
if-IsSession false s t h k = k

module _ (b : Bitflags) where
  receive-id :
      (x : StreamInner) (w : Wires) (flags : Flags) (payload : List ℕ)
      → (receive b x w flags payload).0.0.id ≡ x.id
  unfolding receive mark_acked push_data remote_fin remote_reset local_reset
  receive-id x w flags payload = ground arith

  grant_send_credit-id : (x : StreamInner) (d : ℕ) → (grant_send_credit x d).id ≡ x.id
  unfolding grant_send_credit
  grant_send_credit-id x d = refl

  -- A method that keeps the id of its stream keeps the registry sound.
  pub at-IsRegistry :
      (m : StreamRegistry) (xs : List StreamInner) (i : ℕ) (x : StreamInner)
      (f : StreamInner → StreamInner)
      → stream_at xs i ≡ some x
      → (f x).id ≡ x.id
      → IsRegistry m xs
      → IsRegistry m (update_at xs i f)
  at-IsRegistry m xs i x f at keeps h = record {
    distinct = h.distinct;
    placed = update_at-Placed m xs i x f at keeps h.placed;
  }

  to_stream-IsSession :
      (s : SessionInner) (id : ℕ) (flags : Flags) (payload : List ℕ)
      → IsSession s
      → IsSession (to_stream b s id flags payload).0
  unfolding to_stream
  to_stream-IsSession s id flags payload h = elim (Option-cases (get s.registry id)) [
    | inl e ↦
        rw (to_stream, e)
          (elim (Bool-cases
            (not (b.contains flags flags_ack) && not (b.contains flags flags_rst))) [
              | inl c ↦ rw c h
              | inr c ↦ rw c h
            ])
    | inr (r, e) ↦
        let (x, at, same) = get-PlacedAt s.registry s.streams id r h.placed e in
        let keeps = receive-id x s.wires flags payload in
        rw (to_stream, e, at)
          (at-IsRegistry s.registry s.streams r x (λ _. (receive b x s.wires flags payload).0.0) at
            keeps h)
  ]

  handle_data-IsSession :
      (s : SessionInner) (id : ℕ) (flags : Flags) (payload : List ℕ)
      → IsSession s
      → IsSession (handle_data b s id flags payload).0
  unfolding handle_data
  handle_data-IsSession s id flags payload h =
      let opened = open_remote-IsSession s id h in
      let after = to_stream-IsSession (open_remote s id).0 id flags payload opened in
      elim (Bool-cases (id == 0)) [
        | inl e ↦ rw e h
        | inr e ↦ elim (Bool-cases (b.contains flags flags_syn)) [
          | inl e1 ↦ elim (Option-cases (open_remote s id).1) [
            | inl o ↦ rw (e, e1, o) after
            | inr (r, o) ↦ rw (e, e1, o) opened
          ]
          | inr e1 ↦ rw (e, e1) (to_stream-IsSession s id flags payload h)
        ]
      ]

  pub dispatch-IsSession :
      (s : SessionInner) (f : Frame) → IsSession s → IsSession (dispatch b s f).0
  unfolding dispatch note_peer_gone
  dispatch-IsSession s (data_frame id flags payload) h = handle_data-IsSession s id flags payload h
  dispatch-IsSession s (window_update_frame id flags d) h =
      elim (Option-cases (get s.registry id)) [
        | inl e ↦ rw (dispatch, e) h
        | inr (r, e) ↦
            let (x, at, same) = get-PlacedAt s.registry s.streams id r h.placed e in
            rw (dispatch, e)
              (at-IsRegistry s.registry s.streams r x (λ y. grant_send_credit y d) at
                (grant_send_credit-id x d) h)
      ]
  dispatch-IsSession s (ping_frame flags o) h = elim (Bool-cases (b.contains flags flags_ack)) [
    | inl e ↦ rw e h
    | inr e ↦ rw e h
  ]
  dispatch-IsSession s (go_away_frame code) h =
      initiate_shutdown-IsSession (note_peer_gone s) code h

  pub turn-IsSession : (s : SessionInner) (i : Input) → IsSession s → IsSession (turn b s i).0
  unfolding turn
  turn-IsSession s closed h = initiate_shutdown-IsSession s normal h
  turn-IsSession s (failed e) h = initiate_shutdown-IsSession s (code_of e) h
  turn-IsSession s (frame f) h =
      let after = dispatch-IsSession s f h in
      elim (Result-cases (dispatch b s f).1) [
        | inl (o, e) ↦ rw (turn, e) after
        | inr (e', e) ↦
            rw (turn, e) (initiate_shutdown-IsSession (dispatch b s f).0 (code_of e') after)
      ]

  -- The registry stays sound whatever the peer sends: no id is registered twice, and each registered id
  -- leads to the stream that has it.
  run-IsSession : (is : List Input) (s : SessionInner) → IsSession s → IsSession (run b s is)
  unfolding run
  run-IsSession [] s h = h
  run-IsSession (i ∷ is) s h =
      let after = turn-IsSession s i h in
      let rest = run-IsSession is (turn b s i).0 after in
      if-IsSession s.shutdown s _ h
        (if-IsSession (turn b s i).1 (run b (turn b s i).0 is) _ rest after)
