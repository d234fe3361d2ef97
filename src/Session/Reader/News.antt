-- ===== src/Session/Reader/News.antt =====
-- Which ids of the peer a turn of the reader (src/session/reader.rs) registers: those of the SYN frames
-- that it reads, at most.
use net_mux.Base.{
  ℕ, ◌≡◌, ◌≢◌, refl, none, List, [], ◌∷◌, ◌==◌, arith, All, Bool-cases, Option-cases, ==_iff, inl,
  inr, length, leb,
}
use net_mux.Error.{ErrorCode, normal, ok, Result-cases}
use net_mux.Util.Id.{owns}
use net_mux.Protocol.Frame.{
  Frame, Flags, Bitflags, flags_syn, flags_ack, data_frame, window_update_frame, ping_frame,
  go_away_frame,
}
use net_mux.Session.Manager.{StreamRegistry, get, insert, remove, len}
use net_mux.Session.Manager.Map.{get-insert}
use net_mux.Session.Inner.{SessionInner, initiate_shutdown, note_peer_gone}
use net_mux.Session.Announce.{syn_of}
use net_mux.Session.Reader.{
  Input, closed, failed, frame, turn, dispatch, handle_data, to_stream, open_remote, code_of,
}
use net_mux.Session.Machine.Keeps.{remove-none}

-- No id is new in the registry but these.
pub record News (ids : List ℕ) (m m' : StreamRegistry) : Type 0 where
  pub new : (id : ℕ) → All (λ y. y ≢ id) ids → get m id ≡ none → get m' id ≡ none

pub News-refl : (ids : List ℕ) (m : StreamRegistry) → News ids m m
News-refl ids m = record { new = λ id others e. e }

pub News-remove : (ids : List ℕ) (m : StreamRegistry) (j : ℕ) → News ids m (remove m j)
News-remove ids m j = record { new = λ id others e. remove-none m j id e }

News-trans :
    {ids : List ℕ} {m m' m'' : StreamRegistry} → News ids m m' → News ids m' m'' → News ids m m''
News-trans h k = record { new = λ id others e. k.new id others (h.new id others e) }

-- A shutdown empties the registry, or finds the session closing.
pub shutdown-News :
    (ids : List ℕ) (s : SessionInner) (code : ErrorCode)
    → News ids s.registry (initiate_shutdown s code).registry
unfolding initiate_shutdown get
shutdown-News ids s code = elim (Bool-cases s.is_closing) [
  | inl e ↦ rw e (News-refl ids s.registry)
  | inr e ↦ rw e (record { new = λ id others h. refl })
]

insert-News : (m m' : StreamRegistry) (id r : ℕ) → insert m id r ≡ ok m' → News (id ∷ []) m m'
insert-News m m' id r e = record {
  new = λ j others h. elim (Bool-cases (id == j)) [
    | inl same ↦ absurd (others.0 ((==_iff id j).0 same))
    | inr other ↦ ground (arith, (get-insert m m' id r j e).1)
  ];
}

open_remote-News :
    (s : SessionInner) (id : ℕ) → News (id ∷ []) s.registry (open_remote s id).0.registry
unfolding open_remote
open_remote-News s id =
    let stays = News-refl (id ∷ []) s.registry in
    elim (Bool-cases (owns s.role id)) [
      | inl e ↦ rw e stays
      | inr e ↦ elim (Bool-cases s.peer_gone) [
        | inl e1 ↦ rw (e, e1) stays
        | inr e1 ↦ elim (Bool-cases (leb s.config.max_streams (len s.registry))) [
          | inl e2 ↦ rw (e, e1, e2) stays
          | inr e2 ↦ elim (Result-cases (insert s.registry id (length s.streams))) [
            | inl (m, e3) ↦
                let adds = insert-News s.registry m id (length s.streams) e3 in
                elim (Bool-cases s.accept_tx.alive) [
                  | inl a ↦ rw (e, e1, e2, e3, a) adds
                  | inr a ↦ rw (e, e1, e2, e3, a) (News-trans adds (News-remove (id ∷ []) m id))
                ]
            | inr (f, e3) ↦ rw (e, e1, e2, e3) stays
          ]
        ]
      ]
    ]

module _ (b : Bitflags) where
  to_stream-registry :
      (s : SessionInner) (id : ℕ) (flags : Flags) (payload : List ℕ)
      → (to_stream b s id flags payload).0.registry ≡ s.registry
  unfolding to_stream
  to_stream-registry s id flags payload = ground arith

  handle_data-News :
      (s : SessionInner) (id : ℕ) (flags : Flags) (payload : List ℕ)
      → News
          (syn_of (data_frame id flags payload))
          s.registry
          (handle_data b s id flags payload).0.registry
  unfolding handle_data syn_of
  handle_data-News s id flags payload =
      let t = (open_remote s id).0 in
      let opened = open_remote-News s id in
      let bit = b.contains_bits flags flags_syn in
      elim (Bool-cases (id == 0)) [
        | inl e ↦ rw e (News-refl _ s.registry)
        | inr e ↦ elim (Bool-cases (b.contains flags flags_syn)) [
          | inl e1 ↦ elim (Option-cases (open_remote s id).1) [
            | inl o ↦ rw (e, e1, o, to_stream-registry t id flags payload, ← bit, e1) opened
            | inr (r, o) ↦ rw (e, e1, o, ← bit, e1) opened
          ]
          | inr e1 ↦ rw (e, e1, to_stream-registry s id flags payload) (News-refl _ s.registry)
        ]
      ]

  dispatch-News :
      (s : SessionInner) (f : Frame) → News (syn_of f) s.registry (dispatch b s f).0.registry
  unfolding dispatch note_peer_gone
  dispatch-News s (data_frame id flags payload) = handle_data-News s id flags payload
  dispatch-News s (window_update_frame id flags d) = elim (Option-cases (get s.registry id)) [
    | inl e ↦ rw (dispatch, e) (News-refl _ s.registry)
    | inr (r, e) ↦ rw (dispatch, e) (News-refl _ s.registry)
  ]
  dispatch-News s (ping_frame flags o) = elim (Bool-cases (b.contains flags flags_ack)) [
    | inl e ↦ rw e (News-refl _ s.registry)
    | inr e ↦ rw e (News-refl _ s.registry)
  ]
  dispatch-News s (go_away_frame code) = shutdown-News _ (note_peer_gone s) code

  -- The ids that come with an input.
  abbrev pub announced_by : Input → List ℕ
  announced_by (frame f) = syn_of f
  announced_by _ = []

  pub turn-News :
      (s : SessionInner) (i : Input) → News (announced_by i) s.registry (turn b s i).0.registry
  unfolding turn
  turn-News s closed = shutdown-News [] s normal
  turn-News s (failed e) = shutdown-News [] s (code_of e)
  turn-News s (frame f) =
      let after = dispatch-News s f in
      let t = (dispatch b s f).0 in
      elim (Result-cases (dispatch b s f).1) [
        | inl (o, e) ↦ rw (turn, e) after
        | inr (x, e) ↦ rw (turn, e) (News-trans after (shutdown-News _ t (code_of x)))
      ]
