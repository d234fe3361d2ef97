-- ===== src/Session/Machine/Ids.antt =====
-- The ids of a session under any interleaving of its tasks, its users and its calls of Session::open
-- (src/session/mod.rs).
use net_mux.Base.{ℕ, ◌≡◌, refl, ◌∷◌, arith, inl, inr, length}
use net_mux.Error.{ok, code_timeout, normal}
use net_mux.Config.{Config}
use net_mux.Util.Id.{Role, StreamIdAllocator, owns, allocate}
use net_mux.Util.Id
use net_mux.Util.Id.Alloc.{allocate_lem, owns-first_id}
use net_mux.Protocol.Frame.{Bitflags}
use net_mux.Session.Manager.{get, insert}
use net_mux.Session.Manager.Map.{insert_new}
use net_mux.Session.Inner.{new as new_session}
use net_mux.Session.Reader.Registry.{IsSession}
use net_mux.Session.Machine.{
  Machine, outside, checked, allocated, announced, Step, reads, writes, drains, flushes,
  writer_ends, removes, pings, takes_pongs, times_out, uses, accepts, closes, joins, open_checks,
  open_exhausted, open_allocates, open_clashes, open_registers, open_refused, open_announces,
  open_ends, Reach, init, start, later, in_session,
}
use net_mux.Session.Machine.Keeps.{same-Safe, removes-Safe, shutdown-Safe}
use net_mux.Session.Machine.Turns.{
  turn-Safe, writer_turn-Safe, closer_turn-Safe, poll_accept-Safe, finish_close-Safe,
  finish_open-Safe, uses-Safe,
}
use net_mux.Session.Machine.Inv.{
  Inv, allocates_step, registers_step, same_opens, goes_on, other_sink,
}

module _ (b : Bitflags) where
  Step-Inv : (role : Role) (m n : Machine) → Step b m n → Inv role m → Inv role n
  Step-Inv role m n (reads i e) v = rw e (same_opens role m _ (turn-Safe b m.session i) v)
  Step-Inv role m n (writes a e) v = rw e (
      other_sink role (in_session m _) _
        (same_opens role m _ (writer_turn-Safe b a m.session m.sink) v))
  Step-Inv role m n (drains a f q x l e) v = rw e (
      other_sink role (in_session m _) _
        (same_opens role m _ (same-Safe refl refl refl refl refl refl) v))
  Step-Inv role m n (flushes a x l e) v = rw e (other_sink role m _ v)
  Step-Inv role m n (writer_ends e) v =
      rw e (same_opens role m _ (same-Safe refl refl refl refl refl refl) v)
  Step-Inv role m n (removes e) v = rw e (same_opens role m _ (closer_turn-Safe m.session) v)
  Step-Inv role m n (pings k e) v =
      rw e (same_opens role m _ (same-Safe refl refl refl refl refl refl) v)
  Step-Inv role m n (takes_pongs k g e) v =
      rw e (same_opens role m _ (same-Safe refl refl refl refl refl refl) v)
  Step-Inv role m n (times_out e) v =
      rw e (same_opens role m _ (shutdown-Safe m.session code_timeout) v)
  Step-Inv role m n (uses p x a at e) v =
      rw e (same_opens role m _ (uses-Safe b m.session p x a at) v)
  Step-Inv role m n (accepts s e) v = rw e (same_opens role m _ (poll_accept-Safe s m.session) v)
  Step-Inv role m n (closes e) v = rw e (same_opens role m _ (shutdown-Safe m.session normal) v)
  Step-Inv role m n (joins e) v = rw e (same_opens role m _ (finish_close-Safe m.session) v)
  Step-Inv role m n (open_checks i h may e) v = rw e (
      goes_on role m i _ checked (same-Safe refl refl refl refl refl refl)
        (λ j q. absurd (ground (arith, q))) v)
  Step-Inv role m n (open_exhausted i h x e) v = rw e (
      goes_on role m i _ outside (same-Safe refl refl refl refl refl refl)
        (λ j q. absurd (ground (arith, q))) v)
  Step-Inv role m n (open_allocates i id h x e) v = elim (allocate_lem m.session.id_alloc) [
    | inl (full, a) ↦ absurd (ground (arith, a, x))
    | inr (room, a) ↦
        let same : id ≡ m.session.id_alloc.next = ground (arith, a, x) in
        rw (e, a, same) (allocates_step role m i v)
  ]
  Step-Inv role m n (open_clashes i id f h x e) v = absurd (
      ground
        (arith, insert_new m.session.registry id (length m.session.streams) (v.held i id h).new, x))
  Step-Inv role m n (open_registers i id r h x e) v = rw e (registers_step role m i id r h x v)
  Step-Inv role m n (open_refused i id p h x e) v = rw e (
      goes_on role m i _ outside (removes-Safe id refl refl refl refl refl refl)
        (λ j q. absurd (ground (arith, q))) v)
  Step-Inv role m n (open_announces i id p h x e) v = rw e (
      goes_on role m i _ (announced id p) (same-Safe refl refl refl refl refl refl)
        (λ j q. absurd (ground (arith, q))) v)
  Step-Inv role m n (open_ends i id p w h e) v = rw e (
      goes_on role m i _ outside (finish_open-Safe m.session id p w)
        (λ j q. absurd (ground (arith, q))) v)

  init-Inv : (config : Config) (role : Role) → Inv role (init config role)
  unfolding get new_session Id.new
  init-Inv config role = record {
    sound = record { distinct = tt; placed = tt };
    same_role = refl;
    parity = owns-first_id role;
    ahead = λ id o le. refl;
    held = λ i id h. absurd (ground (arith, h));
    apart = λ i j id h l. absurd (ground (arith, h));
  }

  pub Reach-Inv : (config : Config) (role : Role) {m : Machine} → Reach b config role m → Inv role m
  Reach-Inv config role start = init-Inv config role
  Reach-Inv config role (later {m} {n} r s) = Step-Inv role m n s (Reach-Inv config role r)

  -- In every state that the tasks of a session, its users and any number of calls of `open` can reach
  -- together, no id is registered twice and each registered id leads to the stream that has it.
  pub Reach-IsSession :
      (config : Config) (role : Role) {m : Machine} → Reach b config role m → IsSession m.session
  Reach-IsSession config role r = (Reach-Inv config role r).sound

  -- Under the same interleavings, a call of `open` that has an id can register it: the id is not in
  -- use, whatever the peer and the other calls have done since the call got it.
  pub open_registers-ok :
      (config : Config) (role : Role) {m : Machine} (i id : ℕ)
      → Reach b config role m
      → m.opens i ≡ allocated id
      → let place = length m.session.streams in
        insert m.session.registry id place ≡ ok ((id, place) ∷ m.session.registry)
  open_registers-ok config role {m} i id r h =
      let free = (Reach-Inv config role r).held i id h in
      insert_new m.session.registry id (length m.session.streams) free.new
