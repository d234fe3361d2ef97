-- ===== src/Stream/Inner/Read/Results.antt =====
-- What StreamInner::poll_read of src/stream/inner.rs returns, and what it leaves.
use net_mux.Base.{
  ℕ, ◌%◌, ◌^◌, ◌<◌, ◌≡◌, ◌≢◌, refl, true, false, List, [], ◌∷◌, ◌++◌, arith, ==_false, length, take,
  drop, append-nil, take-nil, ap, ◌∙◌,
}
use net_mux.Error.{of_message, connection_reset}
use net_mux.Protocol.Frame.{Bitflags}
use net_mux.Flow.Window.{on_consume}
use net_mux.Stream.Recv.{ReadBuf, read_into}
use net_mux.Stream.Recv.Fifo.{contents, read_into_lem}
use net_mux.Stream.Channel.{Wires, poll_ready, IoResult, io_ok, io_err}
use net_mux.Stream.Inner.{StreamInner, deliver_all}
use net_mux.Stream.Inner.Read.{Round, calm, read_round, read_rounds, poll_read}

length-ne_nil : (xs : List ℕ) → xs ≢ [] → 0 < length xs
length-ne_nil [] h = absurd (h refl)
length-ne_nil (x ∷ xs) h = omega arith

-- Nothing happens in the first round before its look at the read half.
abbrev pub StartsCalm : List Round → Type 0
StartsCalm [] = Unit {0}
StartsCalm (g ∷ gaps) = (g.looked ≡ []) × (g.copied ≡ [])

abbrev first : List Round → Round
first [] = calm
first (g ∷ gaps) = g

first-calm :
    (gaps : List Round) → StartsCalm gaps → ((first gaps).looked ≡ []) × ((first gaps).copied ≡ [])
first-calm [] h = (refl, refl)
first-calm (g ∷ gaps) h = h

module _ (b : Bitflags) (s : StreamInner) (w : Wires) (buf : ReadBuf) where
  round_delivers :
      (g : Round)
      → g.looked ≡ []
      → s.state.reset ≡ false
      → 0 < buf.remaining
      → contents s.recv ≢ []
      → let o = read_round b g s w buf in
        let r = read_into s.recv buf in
        (o.result ≡ poll_ready (io_ok tt))
        × (o.buf ≡ r.1)
        × (o.stream.recv ≡ r.0)
        × (o.stream.recv_window ≡ (on_consume s.recv_window (r.2 % 2 ^ 32)).0)
  unfolding read_round deliver_all
  round_delivers g quiet live room some_bytes =
      rw quiet
        (ground (arith, read_into_lem s.recv buf, length-ne_nil (contents s.recv) some_bytes))

  -- A round that ends the call is the last.
  rounds_end :
      (gaps : List Round) {r : IoResult (Unit {0})}
      → (read_round b (first gaps) s w buf).result ≡ poll_ready r
      → read_rounds b gaps s w buf ≡ read_round b (first gaps) s w buf
  unfolding read_rounds
  rounds_end [] e = refl
  rounds_end (gap ∷ gaps) e = rw (e, read_rounds)

  -- With room in the buffer and bytes waiting, a read on a stream that is not reset succeeds at once:
  -- it moves as many bytes as there is room for, in the order of their arrival, also after a FIN.
  pub poll_read_delivers :
      (gaps : List Round)
      → StartsCalm gaps
      → s.state.reset ≡ false
      → 0 < buf.remaining
      → contents s.recv ≢ []
      → let o = poll_read b gaps s w buf in
        (o.result ≡ poll_ready (io_ok tt))
        × (o.buf.filled ≡ buf.filled ++ take buf.remaining (contents s.recv))
        × (contents o.stream.recv ≡ drop buf.remaining (contents s.recv))
  unfolding poll_read
  poll_read_delivers gaps quiet live room some_bytes =
      let (e, f, g, h) =
        round_delivers (first gaps) (first-calm gaps quiet).0 live room some_bytes in
      let (moved, put, _, _) = read_into_lem s.recv buf in
      rw (==_false buf.remaining 0 room, rounds_end gaps e)
        (e, ap (λ x. x.filled) f ∙ put, ap contents g ∙ moved)

  round_ends :
      (g : Round)
      → (g.looked ≡ []) × (g.copied ≡ [])
      → s.state.reset ≡ false
      → contents s.recv ≡ []
      → s.state.read_open ≡ false
      → ((read_round b g s w buf).result ≡ poll_ready (io_ok tt))
        × ((read_round b g s w buf).buf.filled ≡ buf.filled)
        × ((read_round b g s w buf).wires ≡ w)
  unfolding read_round deliver_all
  round_ends g quiet live empty shut =
      let (_, put, _, count) = read_into_lem s.recv buf in
      let none_put : (read_into s.recv buf).1.filled ≡ buf.filled =
        put ∙ rw (empty, take-nil buf.remaining) (append-nil buf.filled) in
      let none_read : (read_into s.recv buf).2 ≡ 0 =
        omega (arith, count, ap (length {A = ℕ}) empty) in
      rw (quiet.0, quiet.1) (ground (arith, none_put, none_read))

  -- A read reports the end of the stream, success with nothing put into the buffer, once the read half
  -- is closed and every byte that had arrived has been read.
  poll_read_eof :
      (gaps : List Round)
      → StartsCalm gaps
      → s.state.reset ≡ false
      → 0 < buf.remaining
      → contents s.recv ≡ []
      → s.state.read_open ≡ false
      → let o = poll_read b gaps s w buf in
        (o.result ≡ poll_ready (io_ok tt)) × (o.buf.filled ≡ buf.filled) × (o.wires ≡ w)
  unfolding poll_read
  poll_read_eof gaps quiet live room empty shut =
      let (e, f, g) = round_ends (first gaps) (first-calm gaps quiet) live empty shut in
      rw (==_false buf.remaining 0 room, rounds_end gaps e) (e, f, g)

  round_fails :
      (g : Round)
      → s.state.reset ≡ true
      → read_round b g s w buf ≡ record {
        stream = s;
        wires = w;
        buf = buf;
        result = poll_ready (io_err (of_message connection_reset "stream reset"));
      }
  unfolding read_round
  round_fails g dead = rw (dead, read_round)

  -- On a stream that is reset a read with room in the buffer fails, whatever is still buffered.
  poll_read_reset :
      (gaps : List Round)
      → s.state.reset ≡ true
      → 0 < buf.remaining
      → poll_read b gaps s w buf ≡ record {
        stream = s;
        wires = w;
        buf = buf;
        result = poll_ready (io_err (of_message connection_reset "stream reset"));
      }
  unfolding poll_read
  poll_read_reset gaps dead room =
      let e = round_fails (first gaps) dead in
      rw (==_false buf.remaining 0 room, rounds_end gaps (ap (λ o. o.result) e)) e
