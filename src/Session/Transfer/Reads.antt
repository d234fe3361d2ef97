-- ===== src/Session/Transfer/Reads.antt =====
-- Reads of a stream, one after the other (poll_read of src/stream/inner.rs).
use net_mux.Base.{
  ℕ, zero, suc, ◌≡◌, ◌∙◌, refl, sym, ap, false, List, [], ◌∷◌, arith, take, drop, take-add,
  drop-add, sum, concat, ==_false,
}
use net_mux.Protocol.Frame.{Bitflags}
use net_mux.Stream.Recv.{ReadBuf, read_into}
use net_mux.Stream.Recv.Fifo.{contents, read_into_lem}
use net_mux.Stream.Channel.{Wires}
use net_mux.Stream.Inner.{StreamInner}
use net_mux.Stream.Inner.Read.{calm, read_round, poll_read}

abbrev pub empty_buf : ℕ → ReadBuf
empty_buf room = record { filled = []; remaining = room }

module _ (b : Bitflags) where
  -- One read for each room, whatever it answers; with what it has put into its buffer.
  unfoldable pub reads_all : List ℕ → StreamInner → Wires → (StreamInner × Wires) × List (List ℕ)
  unfolding poll_read
  reads_all [] s w = ((s, w), [])
  reads_all (room ∷ more) s w =
      let o = poll_read b [] s w (empty_buf room) in
      let rest = reads_all more o.stream o.wires in (rest.0, o.buf.filled ∷ rest.1)

  round_moves :
      (s : StreamInner) (w : Wires) (buf : ReadBuf)
      → s.state.reset ≡ false
      → let o = read_round b calm s w buf in
        (o.buf ≡ (read_into s.recv buf).1)
        × (o.stream.recv ≡ (read_into s.recv buf).0)
        × (o.stream.state.reset ≡ false)
  unfolding read_round
  round_moves s w buf live = ground arith

  -- A read moves what there is room for, whether or not it has to wait.
  poll_read_moves :
      (s : StreamInner) (w : Wires) (room : ℕ)
      → s.state.reset ≡ false
      → let o = poll_read b [] s w (empty_buf room) in
        (o.buf.filled ≡ take room (contents s.recv))
        × (contents o.stream.recv ≡ drop room (contents s.recv))
        × (o.stream.state.reset ≡ false)
  unfolding poll_read
  poll_read_moves s w zero live = (refl, refl, live)
  poll_read_moves s w (suc n) live =
      let (f, g, h) = round_moves s w (empty_buf (suc n)) live in
      let (left, put, _, _) = read_into_lem s.recv (empty_buf (suc n)) in
      rw (==_false (suc n) 0 (omega arith)) (ap (λ x. x.filled) f ∙ put, ap contents g ∙ left, h)

  -- On a stream that is not reset, reads return the bytes that wait in order: together as many as
  -- they have room for, and the others wait on.
  pub reads_all_moves :
      (rooms : List ℕ) (s : StreamInner) (w : Wires)
      → s.state.reset ≡ false
      → let r = reads_all rooms s w in
        (concat r.1 ≡ take (sum rooms) (contents s.recv))
        × (contents r.0.0.recv ≡ drop (sum rooms) (contents s.recv))
  unfolding reads_all
  reads_all_moves [] s w live = (refl, refl)
  reads_all_moves (room ∷ rooms) s w live =
      let o = poll_read b [] s w (empty_buf room) in
      let (got, left, live') = poll_read_moves s w room live in
      let (more, left') = reads_all_moves rooms o.stream o.wires live' in
      (
        rw (got, more, left) (sym (take-add room (sum rooms) (contents s.recv))),
        rw (left', left) (sym (drop-add room (sum rooms) (contents s.recv))),
      )
