-- ===== src/Session/Reader/Announce.antt =====
-- How often the reader's loop (src/session/reader.rs) announces the end of the session.
use net_mux.Base.{
  ℕ, ◌≡◌, refl, Bool, true, List, [], ◌∷◌, ◌==◌, if◌then◌else◌, arith, Bool-cases, Option-cases,
  inl, inr, not, ◌&&◌,
}
use net_mux.Error.{normal, Result-cases}
use net_mux.Protocol.Frame.{
  Frame, Flags, Bitflags, data_frame, window_update_frame, ping_frame, go_away_frame, rst, pong,
  flags_ack, flags_syn, flags_rst,
}
use net_mux.Stream.Channel.{Wires, Sender}
use net_mux.Stream.Inner.{StreamInner, mark_acked, remote_reset}
use net_mux.Session.Manager.{get}
use net_mux.Session.Inner.{SessionInner, stream_at, note_peer_gone}
use net_mux.Session.Announce.{
  go_aways, is_go_away, syn_of, budget, SpendsIn, Spends-refl, Spends-trans, if-Spends,
  send_frame-Spends, initiate_shutdown-Spends,
}
use net_mux.Session.Announce.Streams.{SpendsOn, local_reset-Spends}
use net_mux.Session.Reader.{
  Input, closed, failed, frame, turn, run, dispatch, handle_data, to_stream, receive, open_remote,
  code_of,
}

-- The writer is there, and a GoAway has been sent exactly if the session is closing, and then one.
unfoldable pub Announced : Sender Frame → Bool → Type 0
Announced tx closing = (tx.alive ≡ true) × (go_aways tx.queue ≡ (if closing then 1 else 0))

abbrev pub IsAnnounced : SessionInner → Type 0
IsAnnounced s = Announced s.wires.out_tx s.is_closing

spent-IsAnnounced : (s t : SessionInner) → SpendsIn s t → IsAnnounced s → IsAnnounced t
unfolding Announced budget
spent-IsAnnounced s t h a =
    ground (arith, h.alive, h.exact a.0, Bool-cases s.is_closing, Bool-cases t.is_closing)

open_remote-Spends : (s : SessionInner) (id : ℕ) → SpendsIn s (open_remote s id).0
unfolding open_remote is_go_away syn_of
open_remote-Spends s id =
    ground
      (arith, send_frame-Spends s (rst id) (refl, refl), Spends-refl s.wires.out_tx s.is_closing)

module _ (b : Bitflags) where
  receive-Spends :
      (c : Bool) (x : StreamInner) (w : Wires) (flags : Flags) (payload : List ℕ)
      → SpendsOn c w (receive b x w flags payload).0.1
  unfolding receive remote_reset
  receive-Spends c x w flags payload = ground (
    arith,
    local_reset-Spends c x w,
    local_reset-Spends c (mark_acked x) w,
    Spends-refl w.out_tx c,
  )

  to_stream-Spends :
      (s : SessionInner) (id : ℕ) (flags : Flags) (payload : List ℕ)
      → SpendsIn s (to_stream b s id flags payload).0
  unfolding to_stream is_go_away syn_of
  to_stream-Spends s id flags payload =
      let same = Spends-refl s.wires.out_tx s.is_closing in
      let reply = send_frame-Spends s (rst id) (refl, refl) in
      let unknown =
        if-Spends (not (b.contains flags flags_ack) && not (b.contains flags flags_rst)) s _ s reply
          same in
      elim (Option-cases (get s.registry id)) [
        | inl e ↦ rw (to_stream, e) unknown
        | inr (r, e) ↦ elim (Option-cases (stream_at s.streams r)) [
          | inl e1 ↦ rw (to_stream, e, e1) unknown
          | inr (x, e1) ↦
              rw (to_stream, e, e1) (receive-Spends s.is_closing x s.wires flags payload)
        ]
      ]

  handle_data-Spends :
      (s : SessionInner) (id : ℕ) (flags : Flags) (payload : List ℕ)
      → SpendsIn s (handle_data b s id flags payload).0
  unfolding handle_data
  handle_data-Spends s id flags payload =
      let opened = open_remote-Spends s id in
      let after = Spends-trans opened (to_stream-Spends (open_remote s id).0 id flags payload) in
      elim (Bool-cases (id == 0)) [
        | inl e ↦ rw e (Spends-refl s.wires.out_tx s.is_closing)
        | inr e ↦ elim (Bool-cases (b.contains flags flags_syn)) [
          | inl e1 ↦ elim (Option-cases (open_remote s id).1) [
            | inl o ↦ rw (e, e1, o) after
            | inr (r, o) ↦ rw (e, e1, o) opened
          ]
          | inr e1 ↦ rw (e, e1) (to_stream-Spends s id flags payload)
        ]
      ]

  dispatch-Spends : (s : SessionInner) (f : Frame) → SpendsIn s (dispatch b s f).0
  unfolding dispatch note_peer_gone is_go_away syn_of
  dispatch-Spends s (data_frame id flags payload) = handle_data-Spends s id flags payload
  dispatch-Spends s (window_update_frame id flags d) = elim (Option-cases (get s.registry id)) [
    | inl e ↦ rw (dispatch, e) (Spends-refl s.wires.out_tx s.is_closing)
    | inr (r, e) ↦ rw (dispatch, e) (Spends-refl s.wires.out_tx s.is_closing)
  ]
  dispatch-Spends s (ping_frame flags o) = elim (Bool-cases (b.contains flags flags_ack)) [
    | inl e ↦ rw e (Spends-refl s.wires.out_tx s.is_closing)
    | inr e ↦ rw e (send_frame-Spends s (pong b o) (refl, refl))
  ]
  dispatch-Spends s (go_away_frame code) = initiate_shutdown-Spends (note_peer_gone s) code

  pub turn-Spends : (s : SessionInner) (i : Input) → SpendsIn s (turn b s i).0
  unfolding turn
  turn-Spends s closed = initiate_shutdown-Spends s normal
  turn-Spends s (failed e) = initiate_shutdown-Spends s (code_of e)
  turn-Spends s (frame f) =
      let after = dispatch-Spends s f in
      elim (Result-cases (dispatch b s f).1) [
        | inl (o, e) ↦ rw (turn, e) after
        | inr (e', e) ↦
            rw (turn, e)
              (Spends-trans after (initiate_shutdown-Spends (dispatch b s f).0 (code_of e')))
      ]

  run-Spends : (is : List Input) (s : SessionInner) → SpendsIn s (run b s is)
  unfolding run
  run-Spends [] s = Spends-refl s.wires.out_tx s.is_closing
  run-Spends (i ∷ is) s =
      let after = turn-Spends s i in
      let rest = Spends-trans after (run-Spends is (turn b s i).0) in
      if-Spends s.shutdown s s _ (Spends-refl s.wires.out_tx s.is_closing)
        (if-Spends (turn b s i).1 s (run b (turn b s i).0 is) _ rest after)

  -- Whatever the peer sends, the reader's loop announces the end of the session at most once: as long as
  -- the writer is there, one GoAway has been sent if the session is closing and none if it is not.
  pub run-IsAnnounced :
      (is : List Input) (s : SessionInner) → IsAnnounced s → IsAnnounced (run b s is)
  run-IsAnnounced is s h = spent-IsAnnounced s (run b s is) (run-Spends is s) h
