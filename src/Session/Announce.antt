-- ===== src/Session/Announce.antt =====
-- What a session announces: the GoAway and the SYN frames that it queues (src/session/inner.rs and
-- mod.rs).
pub mod Streams
use mathlib.Core.List.{Sublistᴰ}
use mathlib.Core.List.Sublistᴰ
use net_mux.Base.{
  ℕ, ◌+◌, ◌≤◌, ◌≡◌, ◌∙◌, Bool, true, false, List, [], ◌∷◌, ◌++◌, if◌then◌else◌, arith, bit_and,
  ◌==◌, Bool-cases, append-nil, append_assoc, ap, sym, refl, inl, inr,
}
use net_mux.Error.{ErrorCode}
use net_mux.Protocol.Frame.{Frame, data_frame, window_update_frame, ping_frame, go_away_frame}
use net_mux.Stream.Channel.{Wires, Sender, send}
use net_mux.Session.Inner.{SessionInner, initiate_shutdown, send_frame}

-- The GoAway frames in a sequence.
unfoldable pub go_aways : List Frame → ℕ
go_aways [] = 0
go_aways (go_away_frame c ∷ fs) = 1 + go_aways fs
go_aways (_ ∷ fs) = go_aways fs

unfoldable pub is_go_away : Frame → Bool
is_go_away (go_away_frame c) = true
is_go_away _ = false

go_aways-cons :
    (f : Frame) (fs : List Frame)
    → go_aways (f ∷ fs) ≡ (if is_go_away f then 1 else 0) + go_aways fs
unfolding go_aways is_go_away
go_aways-cons (go_away_frame c) fs = ground arith
go_aways-cons (data_frame i l p) fs = ground arith
go_aways-cons (window_update_frame i l p) fs = ground arith
go_aways-cons (ping_frame l p) fs = ground arith

pub go_aways-append : (fs gs : List Frame) → go_aways (fs ++ gs) ≡ go_aways fs + go_aways gs
go_aways-append [] gs = unfold go_aways in omega arith
go_aways-append (f ∷ fs) gs =
    omega (arith, go_aways-cons f (fs ++ gs), go_aways-cons f fs, go_aways-append fs gs)

pub go_aways-Sublist : {fs gs : List Frame} → Sublistᴰ fs gs → go_aways fs ≤ go_aways gs
go_aways-Sublist Sublistᴰ.slnil = omega arith
go_aways-Sublist (Sublistᴰ.cons {a} {l₂ = gs} s) =
    omega (arith, go_aways-cons a gs, go_aways-Sublist s)
go_aways-Sublist (Sublistᴰ.cons-cons {a} {b} {l₁ = fs} {l₂ = gs} e s) =
    rw e (omega (arith, go_aways-cons b fs, go_aways-cons b gs, go_aways-Sublist s))

-- The stream ids of the SYN frames in a sequence.
unfoldable pub syn_of : Frame → List ℕ
syn_of (data_frame id flags payload) = if bit_and flags.bits 1 == 1 then id ∷ [] else []
syn_of _ = []

unfoldable pub syns : List Frame → List ℕ
syns [] = []
syns (f ∷ fs) = syn_of f ++ syns fs

pub syns-append : (fs gs : List Frame) → syns (fs ++ gs) ≡ syns fs ++ syns gs
unfolding syns
syns-append [] gs = refl
syns-append (f ∷ fs) gs =
    ap (λ l. syn_of f ++ l) (syns-append fs gs) ∙ sym (append_assoc (syn_of f) (syns fs) (syns gs))

pub syns-Sublist : {fs gs : List Frame} → Sublistᴰ fs gs → Sublistᴰ (syns fs) (syns gs)
unfolding syns
syns-Sublist Sublistᴰ.slnil = Sublistᴰ.slnil
syns-Sublist (Sublistᴰ.cons {a} s) =
    Sublistᴰ.append (Sublistᴰ.nil-sublist (syn_of a)) (syns-Sublist s)
syns-Sublist (Sublistᴰ.cons-cons {b} e s) =
    rw e (Sublistᴰ.append (Sublistᴰ.refl (syn_of b)) (syns-Sublist s))

-- The GoAways that are queued, and the one that a session which is not closing may still queue.
unfoldable pub budget : Sender Frame → Bool → ℕ
budget tx closing = go_aways tx.queue + (if closing then 0 else 1)

-- What a step of the session does to it: as long as the writer is there nothing, and otherwise it does
-- not raise it; and the step queues no SYN.
pub record Spends (tx : Sender Frame) (closing : Bool) (tx' : Sender Frame) (closing' : Bool)
    : Type 0 where
  pub alive : tx'.alive ≡ tx.alive
  pub within : budget tx' closing' ≤ budget tx closing
  pub exact : tx.alive ≡ true → budget tx' closing' ≡ budget tx closing
  pub same_syns : syns tx'.queue ≡ syns tx.queue

abbrev pub SpendsIn : SessionInner → SessionInner → Type 0
SpendsIn s t = Spends s.wires.out_tx s.is_closing t.wires.out_tx t.is_closing

pub Spends-refl : (tx : Sender Frame) (c : Bool) → Spends tx c tx c
Spends-refl tx c = ground arith

pub Spends-trans :
    {tx tx' tx'' : Sender Frame} {c c' c'' : Bool}
    → Spends tx c tx' c'
    → Spends tx' c' tx'' c''
    → Spends tx c tx'' c''
Spends-trans h k = record {
  alive = k.alive ∙ h.alive;
  within = omega (arith, h.within, k.within);
  exact = λ e. k.exact (h.alive ∙ e) ∙ h.exact e;
  same_syns = k.same_syns ∙ h.same_syns;
}

-- A frame that is neither.
abbrev pub IsPlain : Frame → Type 0
IsPlain f = (is_go_away f ≡ false) × (syn_of f ≡ [])

send_syns :
    (tx : Sender Frame) (f : Frame) → syn_of f ≡ [] → syns (send tx f).0.queue ≡ syns tx.queue
unfolding syns
send_syns tx f e = elim (Bool-cases tx.alive) [
  | inl a ↦ rw a (syns-append tx.queue (f ∷ []) ∙ rw (e, append-nil) refl)
  | inr a ↦ rw a
]

pub send-budget :
    (tx : Sender Frame) (f : Frame) (c : Bool)
    → is_go_away f ≡ false
    → budget (send tx f).0 c ≡ budget tx c
unfolding budget go_aways
send-budget tx f c other = ground (arith, go_aways-append tx.queue (f ∷ []), go_aways-cons f [])

pub send-Spends :
    (tx : Sender Frame) (f : Frame) (c : Bool) → IsPlain f → Spends tx c (send tx f).0 c
send-Spends tx f c (other, quiet) =
    let same = send-budget tx f c other in
    record {
      alive = ground arith;
      within = omega (arith, same);
      exact = λ e. same;
      same_syns = send_syns tx f quiet;
    }

pub send_frame-Spends : (s : SessionInner) (f : Frame) → IsPlain f → SpendsIn s (send_frame s f)
send_frame-Spends s f plain = send-Spends s.wires.out_tx f s.is_closing plain

pub if-Spends :
    (c : Bool) (s t u : SessionInner)
    → SpendsIn s t
    → SpendsIn s u
    → SpendsIn s (if c then t else u)
if-Spends true s t u h k = h
if-Spends false s t u h k = k

pub initiate_shutdown-Spends :
    (s : SessionInner) (code : ErrorCode) → SpendsIn s (initiate_shutdown s code)
unfolding initiate_shutdown budget go_aways syn_of
initiate_shutdown-Spends s code = ground (
  arith,
  go_aways-append s.wires.out_tx.queue (go_away_frame code ∷ []),
  send_syns s.wires.out_tx (go_away_frame code) refl,
)
