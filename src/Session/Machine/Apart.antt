-- ===== src/Session/Machine/Apart.antt =====
-- The ids of a session that have been announced, and those that calls of Session::open
-- (src/session/mod.rs) hold for a SYN to come.
use mathlib.Core.List.{Sublistᴰ}
use net_mux.Base.{
  ℕ, ◌+◌, ◌<◌, ◌≡◌, ◌≢◌, ◌∙◌, sym, ap, subst, true, Option, none, some, List, [], ◌∷◌, ◌++◌, ◌==◌,
  arith, All, All-append, All-map, All-Sublist, Bool-cases, ==_iff, inl, inr,
}
use net_mux.Util.Id.{Role, owns}
use net_mux.Util.Id.Alloc.{owns-next}
use net_mux.Session.Machine.{Open, allocated, registered, announced, set_open}

-- The id that a call of `open` has and has not sent a SYN for.
abbrev pub holds : Open → Option ℕ
holds (allocated id) = some id
holds (registered id place) = some id
holds _ = none

-- No id stands twice in the list.
abbrev pub Distinct : List ℕ → Type 0
Distinct [] = Unit {0}
Distinct (x ∷ xs) = All (λ y. y ≢ x) xs × Distinct xs

pub Distinct-Sublist : {xs ys : List ℕ} → Sublistᴰ xs ys → Distinct ys → Distinct xs
Distinct-Sublist Sublistᴰ.slnil d = tt
Distinct-Sublist (Sublistᴰ.cons s) d = Distinct-Sublist s d.1
Distinct-Sublist (Sublistᴰ.cons-cons {a} {b} {l₁ = xs} e s) d = (
  subst (λ x. All (λ y. y ≢ x) xs) (sym e) (All-Sublist (λ y. y ≢ b) s d.0),
  Distinct-Sublist s d.1,
)

Distinct-snoc : (xs : List ℕ) (x : ℕ) → All (λ y. y ≢ x) xs → Distinct xs → Distinct (xs ++ x ∷ [])
Distinct-snoc [] x a d = (tt, tt)
Distinct-snoc (y ∷ ys) x a d =
    (All-append (λ z. z ≢ y) ys (x ∷ []) d.0 (λ e. a.0 (sym e), tt), Distinct-snoc ys x a.1 d.1)

-- What has been announced is apart from what calls hold, and both from what the allocator has left.
pub record Apart (role : Role) (next : ℕ) (said : List ℕ) (opens : ℕ → Open) : Type 0 where
  pub parity : owns role next ≡ true
  pub ours : All (λ id. owns role id ≡ true) said
  pub old : All (λ id. id < next) said
  pub once : Distinct said
  pub mine :
      (i id : ℕ)
      → holds (opens i) ≡ some id
      → (owns role id ≡ true) × (id < next) × All (λ y. y ≢ id) said
  pub one_each : (i j id : ℕ) → holds (opens i) ≡ some id → holds (opens j) ≡ some id → i ≡ j

pub some-id : {id j : ℕ} → some id ≡ some j → id ≡ j
some-id e = ground (arith, e)

module _ (role : Role) (next : ℕ) (said : List ℕ) (opens : ℕ → Open)
    (v : Apart role next said opens) where
  -- Nothing new is said, and no call holds more than it did.
  pub Apart-less :
      (said' : List ℕ) (opens' : ℕ → Open)
      → Sublistᴰ said' said
      → ((i id : ℕ) → holds (opens' i) ≡ some id → holds (opens i) ≡ some id)
      → Apart role next said' opens'
  Apart-less said' opens' part same = record {
    parity = v.parity;
    ours = All-Sublist (λ id. owns role id ≡ true) part v.ours;
    old = All-Sublist (λ id. id < next) part v.old;
    once = Distinct-Sublist part v.once;
    mine = λ i id h.
        let (own, behind, new) = v.mine i id (same i id h) in
        (own, behind, All-Sublist (λ y. y ≢ id) part new);
    one_each = λ i j id h l. v.one_each i j id (same i id h) (same j id l);
  }

  -- A call that moves on to `p`, which holds nothing, or what the call held before.
  pub moves_less :
      (i : ℕ) (p : Open)
      → ((id : ℕ) → holds p ≡ some id → holds (opens i) ≡ some id)
      → (j id : ℕ) → holds (set_open opens i p j) ≡ some id
      → holds (opens j) ≡ some id
  moves_less i p less j id h = elim (Bool-cases (i == j)) [
    | inl e ↦ rw (← (==_iff i j).0 e) (less id (rw e at h))
    | inr e ↦ rw e at h
  ]

  -- A call gets the next id.
  pub Apart-allocates : (i : ℕ) → Apart role (next + 2) said (set_open opens i (allocated next))
  Apart-allocates i = record {
    parity = owns-next role next v.parity;
    ours = v.ours;
    old = All-map (λ id. id < next) said (λ id h. omega arith) v.old;
    once = v.once;
    mine = λ j id h. elim (Bool-cases (i == j)) [
      | inl e ↦
          let same = some-id (rw e at h) in
          rw (← same) (
            v.parity,
            omega arith,
            All-map (λ y. y < next) said (λ y l q. absurd (omega (arith, l, q))) v.old,
          )
      | inr e ↦ let (own, behind, new) = v.mine j id (rw e at h) in (own, omega arith, new)
    ];
    one_each = λ j k id h l. elim (Bool-cases (i == j)) [
      | inl e ↦ elim (Bool-cases (i == k)) [
        | inl e1 ↦ sym ((==_iff i j).0 e) ∙ (==_iff i k).0 e1
        | inr e1 ↦ absurd (omega (arith, some-id (rw e at h), (v.mine k id (rw e1 at l)).1))
      ]
      | inr e ↦ elim (Bool-cases (i == k)) [
        | inl e1 ↦ absurd (omega (arith, some-id (rw e1 at l), (v.mine j id (rw e at h)).1))
        | inr e1 ↦ v.one_each j k id (rw e at h) (rw e1 at l)
      ]
    ];
  }

  -- A call sends the SYN for its id.
  pub Apart-announces :
      (i id place : ℕ)
      → holds (opens i) ≡ some id
      → Apart role next (said ++ id ∷ []) (set_open opens i (announced id place))
  Apart-announces i id place has =
      let (own, behind, new) = v.mine i id has in
      let back = moves_less i (announced id place) (λ j q. absurd (ground (arith, q))) in
      record {
        parity = v.parity;
        ours = All-append (λ j. owns role j ≡ true) said (id ∷ []) v.ours (own, tt);
        old = All-append (λ j. j < next) said (id ∷ []) v.old (behind, tt);
        once = Distinct-snoc said id new v.once;
        mine = λ j k h.
            let (own', behind', new') = v.mine j k (back j k h) in
            (own', behind', All-append (λ y. y ≢ k) said (id ∷ []) new' (other j k h, tt));
        one_each = λ j k l h h'. v.one_each j k l (back j l h) (back k l h');
      }
    where
      other : (j k : ℕ) → holds (set_open opens i (announced id place) j) ≡ some k → id ≢ k
      other j k h q = elim (Bool-cases (i == j)) [
        | inl e ↦ absurd (ground (arith, rw e at h))
        | inr e ↦
            let same = v.one_each i j id has (rw e at h ∙ ap some (sym q)) in
            absurd (ground (arith, same, (==_iff i j).1 same))
      ]
