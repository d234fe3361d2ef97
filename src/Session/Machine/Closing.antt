-- ===== src/Session/Machine/Closing.antt =====
-- The end of a session under any interleaving: once it closes its tasks leave their loops
-- (src/session/reader.rs, writer.rs, keepalive.rs, and closer_task of mod.rs).
use net_mux.Base.{arith, ℕ, ◌≡◌, ◌∙◌, refl, sym, Bool, true, false, Option, List, [], ◌∷◌}
use net_mux.Error.{code_timeout, normal}
use net_mux.Config.{Config}
use net_mux.Util.Id.{Role}
use net_mux.Protocol.Frame.{Bitflags}
use net_mux.Session.Inner.{SessionInner, new as new_session}
use net_mux.Session.Api.{closer_turn}
use net_mux.Session.Reader.{Input, run}
use net_mux.Session.Writer.{Sink, Answer}
use net_mux.Session.Writer
use net_mux.Session.Keepalive.{tick}
use net_mux.Session.Machine.{
  Machine, Step, reads, writes, drains, flushes, writer_ends, removes, pings, takes_pongs,
  times_out, uses, accepts, closes, joins, open_checks, open_exhausted, open_allocates,
  open_clashes, open_registers, open_refused, open_announces, open_ends, Reach, start, later,
}
use net_mux.Session.Machine.Keeps.{Safe, shutdown-Safe}
use net_mux.Session.Machine.Turns.{
  turn-Safe, writer_turn-Safe, closer_turn-Safe, poll_accept-Safe, finish_close-Safe,
  finish_open-Safe, uses-Safe,
}

-- What a step does to the two marks of a closed session.
record Closes (s t : SessionInner) : Type 0 where
  watch : s.shutdown ≡ s.is_closing → t.shutdown ≡ t.is_closing
  stays : s.is_closing ≡ true → t.is_closing ≡ true

of_Safe : {s t : SessionInner} → Safe s t → Closes s t
of_Safe k = record { watch = k.keeps.watch; stays = k.keeps.stays }

same : {s t : SessionInner} → t.is_closing ≡ s.is_closing → t.shutdown ≡ s.shutdown → Closes s t
same c d = record { watch = λ e. d ∙ (e ∙ sym c); stays = λ e. c ∙ e }

module _ (b : Bitflags) where
  Step-Closes : (m n : Machine) → Step b m n → Closes m.session n.session
  Step-Closes m n (reads i e) = rw e (of_Safe (turn-Safe b m.session i))
  Step-Closes m n (writes a e) = rw e (of_Safe (writer_turn-Safe b a m.session m.sink))
  Step-Closes m n (drains a f q x l e) = rw e (same refl refl)
  Step-Closes m n (flushes a x l e) = rw e (same refl refl)
  Step-Closes m n (writer_ends e) = rw e (same refl refl)
  Step-Closes m n (removes e) = rw e (of_Safe (closer_turn-Safe m.session))
  Step-Closes m n (pings k e) = rw e (same refl refl)
  Step-Closes m n (takes_pongs k g e) = rw e (same refl refl)
  Step-Closes m n (times_out e) = rw e (of_Safe (shutdown-Safe m.session code_timeout))
  Step-Closes m n (uses p x a at e) = rw e (of_Safe (uses-Safe b m.session p x a at))
  Step-Closes m n (accepts s e) = rw e (of_Safe (poll_accept-Safe s m.session))
  Step-Closes m n (closes e) = rw e (of_Safe (shutdown-Safe m.session normal))
  Step-Closes m n (joins e) = rw e (of_Safe (finish_close-Safe m.session))
  Step-Closes m n (open_checks i h may e) = rw e (same refl refl)
  Step-Closes m n (open_exhausted i h x e) = rw e (same refl refl)
  Step-Closes m n (open_allocates i id h x e) = rw e (same refl refl)
  Step-Closes m n (open_clashes i id f h x e) = rw e (same refl refl)
  Step-Closes m n (open_registers i id r h x e) = rw e (same refl refl)
  Step-Closes m n (open_refused i id p h x e) = rw e (same refl refl)
  Step-Closes m n (open_announces i id p h x e) = rw e (same refl refl)
  Step-Closes m n (open_ends i id p w h e) = rw e (of_Safe (finish_open-Safe m.session id p w))

  Reach-watch :
      (config : Config) (role : Role) {m : Machine}
      → Reach b config role m
      → m.session.shutdown ≡ m.session.is_closing
  unfolding new_session
  Reach-watch config role start = refl
  Reach-watch config role (later {m} {n} r s) =
      (Step-Closes m n s).watch (Reach-watch config role r)

  run_stops : (s : SessionInner) (is : List Input) → s.shutdown ≡ true → run b s is ≡ s
  unfolding run
  run_stops s [] e = refl
  run_stops s (i ∷ is) e = ground arith

  writer_stops :
      (a : Option Answer × Answer) (s : SessionInner) (k : Sink)
      → s.shutdown ≡ true
      → Writer.turn b a (s, k) ≡ ((s, k), false)
  unfolding Writer.turn
  writer_stops a s k e = ground arith

  tick_stops :
      (gap : SessionInner → SessionInner) (gone : Bool) (s : SessionInner) (nonce : ℕ)
      → s.shutdown ≡ true
      → tick b gap gone (s, nonce) ≡ ((s, nonce), false)
  unfolding tick
  tick_stops gap gone s nonce e = ground arith

  closer_stops : (s : SessionInner) → s.shutdown ≡ true → closer_turn s ≡ (s, false)
  unfolding closer_turn
  closer_stops s e = ground arith

  -- Once a session closes, whatever made it, it stays closed in every step, and each of its tasks leaves
  -- its loop at its next turn and changes nothing there: the reader whatever its connection yields,
  -- the writer whatever is queued, the closer, and the keepalive task.
  pub closing_stops :
      (config : Config) (role : Role) {m n : Machine} (is : List Input) (a : Option Answer × Answer)
      (gap : SessionInner → SessionInner) (gone : Bool) (nonce : ℕ)
      → Reach b config role m
      → m.session.is_closing ≡ true
      → Step b m n
      → let s = m.session in
        (n.session.is_closing ≡ true)
        × (run b s is ≡ s)
        × (Writer.turn b a (s, m.sink) ≡ ((s, m.sink), false))
        × (closer_turn s ≡ (s, false))
        × (tick b gap gone (s, nonce) ≡ ((s, nonce), false))
  closing_stops config role {m} {n} is a gap gone nonce r closed st =
      let shut = Reach-watch config role r ∙ closed in
      (
        (Step-Closes m n st).stays closed,
        run_stops m.session is shut,
        writer_stops a m.session m.sink shut,
        closer_stops m.session shut,
        tick_stops gap gone m.session nonce shut,
      )
