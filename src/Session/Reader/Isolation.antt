-- ===== src/Session/Reader/Isolation.antt =====
-- A frame reaches one stream at most (src/session/reader.rs).
use net_mux.Base.{
  ℕ, ◌≡◌, ◌≢◌, ◌∙◌, refl, ap, Bool, true, false, not, ◌&&◌, none, some, List, ◌==◌, if◌then◌else◌,
  arith, Bool-cases, Option-cases, inl, inr, length, ==_refl,
}
use net_mux.Error.{Result-cases}
use net_mux.Protocol.Frame.{
  Frame, Flags, Bitflags, data_frame, window_update_frame, ping_frame, go_away_frame, rst,
  flags_ack, flags_rst, flags_syn,
}
use net_mux.Stream.Inner.{StreamInner, remote}
use net_mux.Stream.Inner
use net_mux.Session.Manager.{get, insert}
use net_mux.Session.Manager.Map.{get-insert}
use net_mux.Session.Inner.{SessionInner, stream_at, send_frame}
use net_mux.Session.Inner.Store.{update_at_other, stream_at-append, stream_at-bound}
use net_mux.Session.Reader.{dispatch, handle_data, to_stream, open_remote}

-- Whether the frame is a GoAway, or is for the stream at the place.
unfoldable pub Concerns : SessionInner → Frame → ℕ → Type 0
Concerns s (data_frame id flags payload) r = get s.registry id ≡ some r
Concerns s (window_update_frame id flags delta) r = get s.registry id ≡ some r
Concerns s (ping_frame flags opaque) r = ⊥
Concerns s (go_away_frame code) r = Unit {0}

answer-streams :
    (c : Bool) (s : SessionInner) (f : Frame)
    → (if c then send_frame s f else s).streams ≡ s.streams
answer-streams true s f = refl
answer-streams false s f = refl

-- To open a stream keeps the streams there are, and if the frame is to be handed on, the new one is
-- the one that its id leads to.
open_remote-keeps :
    (s : SessionInner) (id r : ℕ) (x : StreamInner)
    → stream_at s.streams r ≡ some x
    → stream_at (open_remote s id).0.streams r ≡ some x
unfolding open_remote
open_remote-keeps s id r x at =
    ground (arith, stream_at-append s.streams (Inner.new id remote s.config) x r at)

open_remote-leads :
    (s : SessionInner) (id : ℕ)
    → (open_remote s id).1 ≡ none
    → get (open_remote s id).0.registry id ≡ some (length s.streams)
unfolding open_remote
open_remote-leads s id on = elim (Result-cases (insert s.registry id (length s.streams))) [
  | inl (m, e) ↦
      let new = get-insert s.registry m id (length s.streams) id e in
      ground (arith, new.1, ==_refl id)
  | inr (f, e) ↦ ground arith
]

module _ (b : Bitflags) where
  to_stream_others :
      (s : SessionInner) (id r : ℕ) (flags : Flags) (payload : List ℕ)
      → get s.registry id ≢ some r
      → stream_at (to_stream b s id flags payload).0.streams r ≡ stream_at s.streams r
  unfolding to_stream
  to_stream_others s id r flags payload other =
      let replies = not (b.contains flags flags_ack) && not (b.contains flags flags_rst) in
      let same = ap (λ xs. stream_at xs r) (answer-streams replies s (rst id)) in
      elim (Option-cases (get s.registry id)) [
        | inl e ↦ rw (to_stream, e) same
        | inr (q, e) ↦ elim (Option-cases (stream_at s.streams q)) [
          | inl e1 ↦ rw (to_stream, e, e1) same
          | inr (x, e1) ↦
              rw (to_stream, e, e1) (update_at_other s.streams q r _ (λ h. other (e ∙ ap some h)))
        ]
      ]

  handle_data-others :
      (s : SessionInner) (id r : ℕ) (x : StreamInner) (flags : Flags) (payload : List ℕ)
      → get s.registry id ≢ some r
      → stream_at s.streams r ≡ some x
      → stream_at (handle_data b s id flags payload).0.streams r ≡ some x
  unfolding handle_data
  handle_data-others s id r x flags payload other at =
      let t = (open_remote s id).0 in
      let kept = open_remote-keeps s id r x at in
      elim (Bool-cases (id == 0)) [
        | inl e ↦ rw e at
        | inr e ↦ elim (Bool-cases (b.contains flags flags_syn)) [
          | inl e1 ↦ elim (Option-cases (open_remote s id).1) [
            | inl o ↦
                let leads = open_remote-leads s id o in
                let bound = stream_at-bound s.streams r x at in
                let new : get t.registry id ≢ some r =
                  λ h. absurd (ground (arith, leads, h, bound)) in
                rw (e, e1, o) (to_stream_others t id r flags payload new ∙ kept)
            | inr (q, o) ↦ rw (e, e1, o) kept
          ]
          | inr e1 ↦ rw (e, e1) (to_stream_others s id r flags payload other ∙ at)
        ]
      ]

  -- A frame leaves every stream alone but the registered one that it names, unless it is a GoAway: what
  -- such a stream has received, its flags, its credit and its wakers stay.
  pub dispatch_others :
      (s : SessionInner) (f : Frame) (r : ℕ) (x : StreamInner)
      → ¬ (Concerns s f r)
      → stream_at s.streams r ≡ some x
      → stream_at (dispatch b s f).0.streams r ≡ some x
  unfolding dispatch Concerns
  dispatch_others s (data_frame id flags payload) r x other at =
      handle_data-others s id r x flags payload other at
  dispatch_others s (window_update_frame id flags delta) r x other at =
      elim (Option-cases (get s.registry id)) [
        | inl e ↦ rw (dispatch, e) at
        | inr (q, e) ↦
            rw (dispatch, e) (update_at_other s.streams q r _ (λ h. other (e ∙ ap some h)) ∙ at)
      ]
  dispatch_others s (ping_frame flags opaque) r x other at =
      elim (Bool-cases (b.contains flags flags_ack)) [ inl e ↦ rw e at | inr e ↦ rw e at ]
  dispatch_others s (go_away_frame code) r x other at = absurd (other tt)
