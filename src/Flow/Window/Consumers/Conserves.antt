-- ===== src/Flow/Window/Consumers/Conserves.antt =====
-- No credit is lost in RecvWindow::on_consume (src/flow/window.rs), whoever calls it when.
use net_mux.Base.{
  ℕ, ◌+◌, ◌≤◌, ◌<◌, ◌≡◌, ◌≢◌, ◌∙◌, refl, sym, List, [], ◌∷◌, ◌==◌, if◌then◌else◌, leb, arith, All,
  IsU32, ◌⊎◌, wrapping_add, saturating_add, Bool-cases, ==_refl, inl, inr, dec_le,
}
use net_mux.Flow.Window.{new_recv, threshold}
use net_mux.Flow.Window.Consumers.{
  Pc, outside, at_exchange, Shared, set_pc, with_pending, Step, adds, exchange_ok, exchange_err,
  init,
}

abbrev pub sum : List ℕ → ℕ
sum [] = 0
sum (n ∷ ns) = n + sum ns

-- Every consumed byte is held back or announced, once; no announcement is below the threshold; and
-- where the threshold has been reached, a call is under way that sees to it.
record Inv (initial : ℕ) (s : Shared) : Type 0 where
  same : s.window.initial ≡ initial
  balance : s.consumed ≡ s.window.pending_credit + sum s.announced
  enough : All (λ n. threshold s.window ≤ n) s.announced
  seen : (i cur : ℕ) → s.pc i ≡ at_exchange cur → threshold s.window ≤ cur
  cared : threshold s.window ≤ s.window.pending_credit → (i : ℕ) × (s.pc i ≢ outside)

init-Inv : (initial : ℕ) → IsU32 initial → Inv initial (init initial)
unfolding new_recv threshold
init-Inv initial h = record {
  same = refl;
  balance = refl;
  enough = tt;
  seen = λ i cur e. absurd (ground (arith, e));
  cared = λ k. absurd (omega (arith, k));
}

not_outside : (cur : ℕ) → at_exchange cur ≢ outside
not_outside cur e = absurd (ground (arith, e))

exchange_value : (c d : ℕ) → at_exchange c ≡ at_exchange d → c ≡ d
exchange_value c d e = ground (arith, e)

-- To set where one call stands.
set_pc-same : (pc : ℕ → Pc) (i : ℕ) (p : Pc) → set_pc pc i p i ≡ p
set_pc-same pc i p = rw (==_refl i)

-- A property of all exchanges, after one call has moved.
set_pc-seen :
    (pc : ℕ → Pc) (i : ℕ) (p : Pc) (least : ℕ)
    → ((cur : ℕ) → p ≡ at_exchange cur → least ≤ cur)
    → ((j cur : ℕ) → pc j ≡ at_exchange cur → least ≤ cur)
    → (j cur : ℕ) → set_pc pc i p j ≡ at_exchange cur
    → least ≤ cur
set_pc-seen pc i p least mine others j cur e = elim (Bool-cases (i == j)) [
  | inl h ↦ mine cur (rw h at e)
  | inr h ↦ others j cur (rw h at e)
]

adds-Inv :
    (initial : ℕ) (s : Shared) (i bytes : ℕ)
    → Inv initial s
    → let k = s.window.pending_credit + bytes in
      Inv initial (record {
        window = with_pending s.window k;
        consumed = s.consumed + bytes;
        announced = s.announced;
        pc = if leb (threshold s.window) k then set_pc s.pc i (at_exchange k) else s.pc;
      })
unfolding threshold
adds-Inv initial s i bytes v =
    let k = s.window.pending_credit + bytes in
    let whole : s.consumed + bytes ≡ k + sum s.announced = omega (arith, v.balance) in
    elim (Bool-cases (leb (threshold s.window) k)) [
      | inl h ↦ rw h (record {
        same = v.same;
        balance = whole;
        enough = v.enough;
        seen =
            set_pc-seen s.pc i (at_exchange k) _ (λ cur q. ground (arith, exchange_value k cur q))
              v.seen;
        cared = λ l. (i, λ q. not_outside k (sym (set_pc-same s.pc i (at_exchange k)) ∙ q));
      })
      | inr h ↦ rw h (record {
        same = v.same;
        balance = whole;
        enough = v.enough;
        seen = v.seen;
        cared = λ l. absurd (ground arith);
      })
    ]

exchange_ok-Inv :
    (initial : ℕ) (s : Shared) (i cur : ℕ)
    → s.pc i ≡ at_exchange cur
    → s.window.pending_credit ≡ cur
    → Inv initial s
    → Inv initial (record {
      window = with_pending s.window 0;
      consumed = s.consumed;
      announced = cur ∷ s.announced;
      pc = set_pc s.pc i outside;
    })
unfolding threshold
exchange_ok-Inv initial s i cur p same v = record {
  same = v.same;
  balance = omega (arith, v.balance, same);
  enough = (v.seen i cur p, v.enough);
  seen = set_pc-seen s.pc i outside _ (λ c q. absurd (not_outside c (sym q))) v.seen;
  cared = λ l. absurd (omega (arith, l));
}

exchange_err-Inv :
    (initial : ℕ) (s : Shared) (i : ℕ)
    → Inv initial s
    → Inv initial (record s {
      pc = set_pc s.pc i (
          if leb (threshold s.window) s.window.pending_credit
          then at_exchange s.window.pending_credit
          else outside);
    })
exchange_err-Inv initial s i v =
    let n = s.window.pending_credit in
    elim (Bool-cases (leb (threshold s.window) n)) [
      | inl h ↦ rw h (record {
        same = v.same;
        balance = v.balance;
        enough = v.enough;
        seen =
            set_pc-seen s.pc i (at_exchange n) _ (λ cur q. ground (arith, exchange_value n cur q))
              v.seen;
        cared = λ l. (i, λ q. not_outside n (sym (set_pc-same s.pc i (at_exchange n)) ∙ q));
      })
      | inr h ↦ rw h (record {
        same = v.same;
        balance = v.balance;
        enough = v.enough;
        seen = set_pc-seen s.pc i outside _ (λ c q. absurd (not_outside c (sym q))) v.seen;
        cared = λ l. absurd (ground arith);
      })
    ]

-- The call does not make the credit that is held back overflow.
abbrev pub IsRoomy : {s t : Shared} → Step s t → Type 0
IsRoomy {s} (adds i n p pos e) = IsU32 (s.window.pending_credit + n)
IsRoomy _ = Unit {0}

-- A run of such calls.
pub data Runs (initial : ℕ) : Shared → Type 0 where
  begins : Runs initial (init initial)
  goes_on : {s t : Shared} → Runs initial s → (st : Step s t) → IsRoomy st → Runs initial t

Step-Inv : (initial : ℕ) (s t : Shared) (st : Step s t) → IsRoomy st → Inv initial s → Inv initial t
Step-Inv initial s t (adds i n p pos e) small v =
    let sum' : wrapping_add s.window.pending_credit n ≡ s.window.pending_credit + n =
      omega (arith, small) in
    let sum'' : saturating_add s.window.pending_credit n ≡ s.window.pending_credit + n =
      omega (arith, small) in
    rw (e, sum', sum'') (adds-Inv initial s i n v)
Step-Inv initial s t (exchange_ok i cur p same e) small v =
    rw e (exchange_ok-Inv initial s i cur p same v)
Step-Inv initial s t (exchange_err i cur p e) small v = rw e (exchange_err-Inv initial s i v)

Runs-Inv : (initial : ℕ) {s : Shared} → IsU32 initial → Runs initial s → Inv initial s
Runs-Inv initial h begins = init-Inv initial h
Runs-Inv initial h (goes_on {s} {t} r st small) =
    Step-Inv initial s t st small (Runs-Inv initial h r)

-- Whatever the interleaving of the calls, as long as none of them adds more to the credit that is held
-- back than a u32 has room for: every byte is held back or announced, once, however many there are in
-- all, and no announcement is below the threshold. When no call is under way, less than the threshold
-- is held back.
pub Runs-conserves :
    (initial : ℕ) {s : Shared}
    → IsU32 initial
    → Runs initial s
    → (s.consumed ≡ s.window.pending_credit + sum s.announced)
      × All (λ n. threshold s.window ≤ n) s.announced
      × ((s.window.pending_credit < threshold s.window) ⊎ ((i : ℕ) × (s.pc i ≢ outside)))
Runs-conserves initial {s} h r =
    let v = Runs-Inv initial h r in
    (
      v.balance,
      v.enough,
      elim (dec_le (threshold s.window) s.window.pending_credit) [
        | yes l ↦ inr (v.cared l)
        | no l ↦ inl (omega arith)
      ],
    )
