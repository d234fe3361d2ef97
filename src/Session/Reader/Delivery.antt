-- ===== src/Session/Reader/Delivery.antt =====
-- Where a data frame goes, and which streams it leaves alone (src/session/reader.rs).
use net_mux.Base.{
  ℕ, ◌<◌, ◌≡◌, true, false, some, List, [], ◌∷◌, ◌++◌, ◌==◌, arith, ==_false, is_nil, not, ◌||◌,
  append-nil, sym, ==_refl,
}
use net_mux.Error.{ok, err, protocol, protocol_error}
use net_mux.Protocol.Frame.{Flags, Bitflags, data_frame, flags_ack, flags_rst, flags_fin, flags_syn}
use net_mux.Stream.Channel.{Wires}
use net_mux.Stream.Inner.{StreamInner, can_recv, push_data, mark_acked, remote_fin, remote_reset}
use net_mux.Stream.Inner.Local.{local_reset}
use net_mux.Stream.Recv.Fifo.{contents, contents-push}
use net_mux.Session.Manager.{get}
use net_mux.Session.Inner.{SessionInner, stream_at, update_at, initiate_shutdown}
use net_mux.Session.Inner.Store.{stream_at-update_at}
use net_mux.Session.Reader.{
  frame, turn, dispatch, handle_data, to_stream, receive, with_wires, code_of,
}

pub updated :
    (xs : List StreamInner) (place : ℕ) (x y : StreamInner)
    → stream_at xs place ≡ some x
    → stream_at (update_at xs place (λ _. y)) place ≡ some y
updated xs place x y at = rw (stream_at-update_at xs place place (λ _. y), at, ==_refl place)

push_data-contents :
    (x : StreamInner) (payload : List ℕ)
    → contents (push_data x payload).recv ≡ contents x.recv ++ payload
unfolding push_data
push_data-contents x [] = sym (append-nil _)
push_data-contents x (v ∷ vs) = contents-push x.recv (v ∷ vs)

module _ (b : Bitflags) where
  pub to_stream_known :
      (s : SessionInner) (id place : ℕ) (x : StreamInner) (flags : Flags) (payload : List ℕ)
      → get s.registry id ≡ some place
      → stream_at s.streams place ≡ some x
      → let r = receive b x s.wires flags payload in
        to_stream b s id flags payload ≡ (with_wires s place r.0, r.1)
  unfolding to_stream
  to_stream_known s id place x flags payload found at = rw (to_stream, found, at)

  -- A frame without SYN of a registered stream goes to that stream.
  pub handle_data_known :
      (s : SessionInner) (id place : ℕ) (x : StreamInner) (flags : Flags) (payload : List ℕ)
      → 0 < id
      → b.contains flags flags_syn ≡ false
      → get s.registry id ≡ some place
      → stream_at s.streams place ≡ some x
      → let r = receive b x s.wires flags payload in
        handle_data b s id flags payload ≡ (with_wires s place r.0, r.1)
  unfolding handle_data
  handle_data_known s id place x flags payload pos no_syn found at =
      let other : (id == 0) ≡ false = ==_false id 0 pos in
      rw (other, no_syn, to_stream_known s id place x flags payload found at)

  refused :
      (x : StreamInner) (w : Wires) (flags : Flags) (payload : List ℕ)
      → x.state.read_open ≡ false
      → is_nil payload ≡ false
      → (receive b x w flags payload).1 ≡ err (protocol "data after FIN")
  unfolding receive can_recv mark_acked
  refused x w flags payload shut some_data = ground arith

  local_reset-shut : (x : StreamInner) (w : Wires) → (local_reset x w).0.state.read_open ≡ false
  unfolding local_reset
  local_reset-shut x w = ground arith

  -- Data that was in flight when this side reset its stream, and that the reader meets before the
  -- closer has removed the stream from the registry, is answered by the shutdown of the whole session
  -- with ProtocolError.
  pub reset_then_data :
      (s : SessionInner) (id place : ℕ) (x : StreamInner) (w : Wires) (flags : Flags)
      (payload : List ℕ)
      → 0 < id
      → get s.registry id ≡ some place
      → stream_at s.streams place ≡ some (local_reset x w).0
      → is_nil payload ≡ false
      → b.contains flags flags_syn ≡ false
      → let r = turn b s (frame (data_frame id flags payload)) in
        let met = receive b (local_reset x w).0 s.wires flags payload in
        r ≡ (initiate_shutdown (with_wires s place met.0) protocol_error, false)
  unfolding turn dispatch code_of
  reset_then_data s id place x w flags payload pos found at some_data no_syn =
      let y = (local_reset x w).0 in
      let known = handle_data_known s id place y flags payload pos no_syn found at in
      let no = refused y s.wires flags payload (local_reset-shut x w) some_data in
      rw (turn, dispatch, known, no, dispatch, known)

  -- What `receive` makes of a stream that may still receive.
  pub received :
      (x : StreamInner) (w : Wires) (flags : Flags) (payload : List ℕ)
      → can_recv x ≡ true
      → let r = receive b x w flags payload in
        (r.1 ≡ ok tt)
        × (contents r.0.0.recv ≡ contents x.recv ++ payload)
        × (r.0.0.ack_received ≡ (b.contains flags flags_ack || x.ack_received))
        × (r.0.0.state.read_open ≡ not (b.contains flags flags_fin || b.contains flags flags_rst))
        × (r.0.0.state.reset ≡ b.contains flags flags_rst)
        × (r.0.1.out_tx ≡ w.out_tx)
  unfolding receive can_recv mark_acked push_data remote_fin remote_reset
  received x w flags payload open' =
      ground (arith, push_data-contents x payload, push_data-contents (mark_acked x) payload)

  -- A data frame without SYN for a registered stream that may still receive: its payload goes behind
  -- what waits on that stream, which a RST does not drop, its flags mark that stream acknowledged,
  -- finished or reset, and the dispatch succeeds and sends nothing.
  pub data_delivers :
      (s : SessionInner) (id place : ℕ) (x : StreamInner) (flags : Flags) (payload : List ℕ)
      → 0 < id
      → b.contains flags flags_syn ≡ false
      → get s.registry id ≡ some place
      → stream_at s.streams place ≡ some x
      → can_recv x ≡ true
      → let t = dispatch b s (data_frame id flags payload) in
        (t.1 ≡ ok tt)
        × (t.0.wires.out_tx ≡ s.wires.out_tx)
        × ((y : StreamInner) × (stream_at t.0.streams place ≡ some y)
            × (contents y.recv ≡ contents x.recv ++ payload)
            × (y.ack_received ≡ (b.contains flags flags_ack || x.ack_received))
            × (y.state.read_open ≡ not (b.contains flags flags_fin || b.contains flags flags_rst))
            × (y.state.reset ≡ b.contains flags flags_rst))
  unfolding dispatch
  data_delivers s id place x flags payload pos no_syn found at live =
      let known = handle_data_known s id place x flags payload pos no_syn found at in
      let (done, got, acked, half, torn, quiet) = received x s.wires flags payload live in
      let y = (receive b x s.wires flags payload).0.0 in
      let here : stream_at (update_at s.streams place (λ _. y)) place ≡ some y =
        updated s.streams place x y at in
      rw known (done, quiet, (y, here, got, acked, half, torn))
