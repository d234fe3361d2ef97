-- ===== src/Stream/Life/Order.antt =====
-- The order of the frames that one stream sends (src/stream/inner.rs) over its whole life.
use net_mux.Base.{
  ℕ, ◌≡◌, refl, Bool, true, false, ◌||◌, List, [], ◌∷◌, ◌++◌, ◌==◌, ◌⊎◌, inl, inr, arith, All,
  Bool-cases, Option-cases, if◌then◌else◌, ◌%◌, ◌^◌, take, append_assoc,
}
use net_mux.Config.{Config}
use net_mux.Protocol.Frame.{Bitflags, Frame, data_frame, window_update, data_of, fin, rst}
use net_mux.Flow.Window.{
  register, Gaps, on_consume, poll_acquire, AcquireOutcome, acquired, outcome_closed, pending,
}
use net_mux.Stream.Recv.{RecvBuffer}
use net_mux.Stream.Channel.{Wires, poll_ready, io_ok}
use net_mux.Stream.Inner.{
  StreamInner, Event, pushes, fins, acks, closes, grants, deliver, deliver_all, Origin, new,
}
use net_mux.Stream.Inner.Read.{report}
use net_mux.Stream.Inner.Read.Keeps.{poll_read-keeps}
use net_mux.Stream.Inner.Write.{poll_write, transmit, want}
use net_mux.Stream.Inner.Local.{local_fin, local_reset, on_user_drop}
use net_mux.Stream.Life.{Act, reads, writes, shuts_down, resets, drops, receives, step, run}

-- A frame that ends the sending side: FIN or RST.
abbrev pub ends : Frame → Bool
ends (data_frame id flags payload) = (flags.bits == 4) || (flags.bits == 8)
ends _ = false

abbrev pub is_data : Frame → Bool
is_data (data_frame id flags payload) = true
is_data _ = false

abbrev pub any_end : List Frame → Bool
any_end [] = false
any_end (f ∷ fs) = ends f || any_end fs

-- Nothing but window updates stands behind a FIN or an RST.
abbrev pub Tidy : List Frame → Type 0
Tidy [] = Unit {0}
Tidy (f ∷ fs) = if ends f then All (λ g. is_data g ≡ false) fs else Tidy fs

any_end-snoc : (fs : List Frame) (f : Frame) → any_end (fs ++ (f ∷ [])) ≡ any_end fs || ends f
any_end-snoc [] f = ground arith
any_end-snoc (g ∷ fs) f = ground (arith, any_end-snoc fs f)

All-snoc_update :
    (fs : List Frame) (f : Frame)
    → is_data f ≡ false
    → All (λ g. is_data g ≡ false) fs
    → All (λ g. is_data g ≡ false) (fs ++ (f ∷ []))
All-snoc_update [] f h v = (h, tt)
All-snoc_update (g ∷ fs) f h v = (v.0, All-snoc_update fs f h v.1)

Tidy-snoc_update :
    (fs : List Frame) (f : Frame) → is_data f ≡ false → Tidy fs → Tidy (fs ++ (f ∷ []))
Tidy-snoc_update [] f h v = ground arith
Tidy-snoc_update (g ∷ fs) f h v = elim (Bool-cases (ends g)) [
  | inl e ↦ rw e (All-snoc_update fs f h (rw e at v))
  | inr e ↦ rw e (Tidy-snoc_update fs f h (rw e at v))
]

Tidy-snoc : (fs : List Frame) (f : Frame) → any_end fs ≡ false → Tidy (fs ++ (f ∷ []))
Tidy-snoc [] f h = ground arith
Tidy-snoc (g ∷ fs) f h = ground (arith, Tidy-snoc fs f)

pub record IsTidy (s : StreamInner) (w : Wires) : Type 0 where
  pub tidy : Tidy w.out_tx.queue
  pub over : (any_end w.out_tx.queue ≡ false) ⊎ ((s.fin_sent ≡ true) × (s.state.write_open ≡ false))

abbrev Keeps : StreamInner × Wires → Type 0
Keeps sw = IsTidy sw.0 sw.1

deliver-Keeps : (e : Event) (s : StreamInner) (w : Wires) → IsTidy s w → Keeps (deliver e (s, w))
unfolding deliver
deliver-Keeps (pushes p) s w v = ground arith
deliver-Keeps fins s w v = ground arith
deliver-Keeps Event.resets s w v = ground arith
deliver-Keeps acks s w v = ground arith
deliver-Keeps closes s w v = ground arith
deliver-Keeps (grants d) s w v = ground arith

deliver_all-Keeps :
    (es : List Event) (s : StreamInner) (w : Wires) → IsTidy s w → Keeps (deliver_all es (s, w))
unfolding deliver_all
deliver_all-Keeps [] s w v = v
deliver_all-Keeps (e ∷ es) s w v =
    let sw = deliver e (s, w) in deliver_all-Keeps es sw.0 sw.1 (deliver-Keeps e s w v)

local_fin-Keeps : (s : StreamInner) (w : Wires) → IsTidy s w → Keeps (local_fin s w)
unfolding local_fin
local_fin-Keeps s w v =
    ground (arith, Tidy-snoc w.out_tx.queue (fin s.id), any_end-snoc w.out_tx.queue (fin s.id))

local_reset-Keeps : (s : StreamInner) (w : Wires) → IsTidy s w → Keeps (local_reset s w)
unfolding local_reset
local_reset-Keeps s w v =
    ground (arith, Tidy-snoc w.out_tx.queue (rst s.id), any_end-snoc w.out_tx.queue (rst s.id))

on_user_drop-Keeps : (s : StreamInner) (w : Wires) → IsTidy s w → Keeps (on_user_drop s w)
unfolding on_user_drop
on_user_drop-Keeps s w v =
    ground (arith, Tidy-snoc w.out_tx.queue (fin s.id), any_end-snoc w.out_tx.queue (fin s.id))

module _ (b : Bitflags) where
  report-Keeps : (s : StreamInner) (w : Wires) (n : ℕ) → IsTidy s w → Keeps (report b s w n)
  unfolding report
  report-Keeps s w n v = elim (Option-cases (on_consume s.recv_window (n % 2 ^ 32)).1) [
    | inl e ↦ rw (e, report) (record { tidy = v.tidy; over = v.over })
    | inr (delta, e) ↦
        rw (e, report)
          (ground (
            arith,
            Tidy-snoc_update w.out_tx.queue (window_update b s.id delta),
            any_end-snoc w.out_tx.queue (window_update b s.id delta),
          ))
  ]

  copied-Keeps :
      (s : StreamInner) (w : Wires) (r : RecvBuffer) → IsTidy s w → IsTidy (record s { recv = r }) w
  copied-Keeps s w r v = record { tidy = v.tidy; over = v.over }

  registered-Keeps :
      (s : StreamInner) (w : Wires)
      → IsTidy s w
      → IsTidy (record s { recv_waker = register ∷ s.recv_waker }) w
  registered-Keeps s w v = record { tidy = v.tidy; over = v.over }

  transmit-Keeps :
      (s : StreamInner) (w : Wires) (buf : List ℕ) (n : ℕ)
      → s.state.write_open ≡ true
      → IsTidy s w
      → let o = transmit b s w buf n in IsTidy o.stream o.wires
  unfolding transmit
  transmit-Keeps s w buf n opened v =
      let f = data_of s.id b.empty (take n buf) in
      let plain : ends f ≡ false = rw b.empty_bits in
      ground (arith, plain, Tidy-snoc w.out_tx.queue f, any_end-snoc w.out_tx.queue f)

  poll_write-Keeps :
      (g : Gaps) (s : StreamInner) (w : Wires) (buf : List ℕ)
      → IsTidy s w
      → let o = poll_write b g s w buf in IsTidy o.stream o.wires
  unfolding poll_write
  poll_write-Keeps g s w buf v = go (poll_acquire g s.send_window (want s buf)).1 refl
    where
      s' : StreamInner
      s' = record s { send_window = (poll_acquire g s.send_window (want s buf)).0 }

      go :
          (o : AcquireOutcome)
          → (poll_acquire g s.send_window (want s buf)).1 ≡ o
          → let o = poll_write b g s w buf in IsTidy o.stream o.wires
      go (acquired n) e =
          let v' : IsTidy s' w = record { tidy = v.tidy; over = v.over } in
          ground (arith, transmit-Keeps s' w buf n, v')
      go outcome_closed e = ground arith
      go pending e = ground arith

  step-Keeps : (a : Act) (s : StreamInner) (w : Wires) → IsTidy s w → Keeps (step b a (s, w))
  unfolding step
  step-Keeps (reads gaps buf) s w v =
      poll_read-keeps b IsTidy deliver-Keeps copied-Keeps report-Keeps registered-Keeps gaps s w buf
        v
  step-Keeps (writes g buf) s w v = poll_write-Keeps g s w buf v
  step-Keeps shuts_down s w v = local_fin-Keeps s w v
  step-Keeps resets s w v = local_reset-Keeps s w v
  step-Keeps drops s w v = on_user_drop-Keeps s w v
  step-Keeps (receives e) s w v = deliver-Keeps e s w v

  run-Keeps :
      (acts : List Act) (s : StreamInner) (w : Wires) → IsTidy s w → Keeps (run b acts (s, w))
  unfolding run
  run-Keeps [] s w v = v
  run-Keeps (a ∷ acts) s w v =
      let sw = step b a (s, w) in run-Keeps acts sw.0 sw.1 (step-Keeps a s w v)

  -- Whatever its user and its peer do, and in any order, as long as each call of a method is done before
  -- the next begins, a stream sends at most one FIN or RST, and after it nothing but window updates: no
  -- data frame.
  pub run-Tidy :
      (acts : List Act) (id : ℕ) (origin : Origin) (c : Config) (w : Wires)
      → w.out_tx.queue ≡ []
      → Tidy (run b acts (new id origin c, w)).1.out_tx.queue
  run-Tidy acts id origin c w e =
      (run-Keeps acts (new id origin c) w (record { tidy = rw e tt; over = inl (rw e) })).tidy

  -- Where the reader resets the stream after `poll_write` has looked at the flags and acquired its
  -- credit, and before it sends, the data frame goes out behind the RST, and the write succeeds.
  pub data_behind_reset :
      (g : Gaps) (s : StreamInner) (w : Wires) (buf : List ℕ) (n : ℕ)
      → s.state.reset ≡ false
      → s.fin_sent ≡ false
      → w.out_tx.alive ≡ true
      → let a = poll_acquire g s.send_window (want s buf) in
        a.1 ≡ acquired n
        → let sw = local_reset (record s { send_window = a.0 }) w in
          let o = transmit b sw.0 sw.1 buf n in
          (o.result ≡ poll_ready (io_ok n))
          × (o.wires.out_tx.queue
              ≡ w.out_tx.queue ++ rst s.id ∷ data_of s.id b.empty (take n buf) ∷ [])
  unfolding transmit local_reset
  data_behind_reset g s w buf n live unsent alive e =
      rw (← append_assoc w.out_tx.queue (rst s.id ∷ []) (data_of s.id b.empty (take n buf) ∷ []))
        (ground arith)
