-- ===== src/Session/Inner/Store.antt =====
-- The session's store of streams (src/session/inner.rs), and a registry whose entries lead into it.
use net_mux.Base.{
  ◌≢◌, ℕ, zero, suc, ◌≡◌, refl, ap, none, some, List, [], ◌∷◌, ◌++◌, ◌==◌, if◌then◌else◌, arith,
  length, All, Bool-cases, ==_iff, ◌<◌, ◌∙◌, sym, subst, inl, inr,
}
use net_mux.Stream.Inner.{StreamInner}
use net_mux.Session.Manager.{StreamRegistry, get, remove}
use net_mux.Session.Inner.{stream_at, update_at}

pub stream_at-update_at :
    (xs : List StreamInner) (i r : ℕ) (f : StreamInner → StreamInner)
    → stream_at (update_at xs i f) r
      ≡ elim (stream_at xs r) [ none ↦ none | some x ↦ some (if i == r then f x else x) ]
stream_at-update_at [] i r f = refl
stream_at-update_at (x ∷ xs) zero zero f = refl
stream_at-update_at (x ∷ xs) zero (suc r) f = ground arith
stream_at-update_at (x ∷ xs) (suc i) zero f = ground arith
stream_at-update_at (x ∷ xs) (suc i) (suc r) f = ground (arith, stream_at-update_at xs i r f)

pub update_at_other :
    (xs : List StreamInner) (i r : ℕ) (f : StreamInner → StreamInner)
    → i ≢ r
    → stream_at (update_at xs i f) r ≡ stream_at xs r
update_at_other [] i r f other = refl
update_at_other (x ∷ xs) zero zero f other = absurd (other refl)
update_at_other (x ∷ xs) zero (suc r) f other = refl
update_at_other (x ∷ xs) (suc i) zero f other = refl
update_at_other (x ∷ xs) (suc i) (suc r) f other = update_at_other xs i r f (λ e. other (ap suc e))

pub stream_at-append :
    (xs : List StreamInner) (y x : StreamInner) (r : ℕ)
    → stream_at xs r ≡ some x
    → stream_at (xs ++ (y ∷ [])) r ≡ some x
stream_at-append [] y x r e = ground arith
stream_at-append (z ∷ xs) y x zero e = e
stream_at-append (z ∷ xs) y x (suc r) e = stream_at-append xs y x r e

pub stream_at-bound :
    (xs : List StreamInner) (r : ℕ) (x : StreamInner) → stream_at xs r ≡ some x → r < length xs
stream_at-bound [] r x e = absurd (ground arith)
stream_at-bound (y ∷ xs) zero x e = omega arith
stream_at-bound (y ∷ xs) (suc r) x e = omega (arith, stream_at-bound xs r x e)

pub stream_at-last :
    (xs : List StreamInner) (y : StreamInner) → stream_at (xs ++ (y ∷ [])) (length xs) ≡ some y
stream_at-last [] y = refl
stream_at-last (x ∷ xs) y = stream_at-last xs y

-- An entry leads to a stream that has its id.
abbrev pub PlacedAt : List StreamInner → ℕ → ℕ → Type 0
PlacedAt xs id r = (x : StreamInner) × (stream_at xs r ≡ some x) × (x.id ≡ id)

abbrev pub Placed : StreamRegistry → List StreamInner → Type 0
Placed m xs = All (λ e. PlacedAt xs e.0 e.1) m

pub get-PlacedAt :
    (m : StreamRegistry) (xs : List StreamInner) (id r : ℕ)
    → Placed m xs
    → get m id ≡ some r
    → PlacedAt xs id r
unfolding get
get-PlacedAt [] xs id r p e = absurd (ground arith)
get-PlacedAt ((k, q) ∷ m) xs id r p e = elim (Bool-cases (k == id)) [
  | inl h ↦
      let key : k ≡ id = (==_iff k id).0 h in
      let place : q ≡ r = ground arith in
      subst (λ j. PlacedAt xs j r) key (subst (λ j. PlacedAt xs k j) place p.0)
  | inr h ↦ get-PlacedAt m xs id r p.1 (ground arith)
]

pub append-Placed :
    (m : StreamRegistry) (xs : List StreamInner) (y : StreamInner)
    → Placed m xs
    → Placed m (xs ++ (y ∷ []))
append-Placed [] xs y p = tt
append-Placed ((k, q) ∷ m) xs y ((x, at, same), ps) =
    ((x, stream_at-append xs y x q at, same), append-Placed m xs y ps)

-- To change a stream without its id keeps every entry.
pub update_at-Placed :
    (m : StreamRegistry) (xs : List StreamInner) (i : ℕ) (x : StreamInner)
    (f : StreamInner → StreamInner)
    → stream_at xs i ≡ some x
    → (f x).id ≡ x.id
    → Placed m xs
    → Placed m (update_at xs i f)
update_at-Placed [] xs i x f at keeps p = tt
update_at-Placed ((k, q) ∷ m) xs i x f at keeps ((z, at', same), ps) =
    let moved : stream_at (update_at xs i f) q ≡ some (if i == q then f z else z) =
      rw (stream_at-update_at xs i q f, at') in
    let id' : (if i == q then f z else z).id ≡ k = elim (Bool-cases (i == q)) [
      | inl h ↦
          let place : i ≡ q = (==_iff i q).0 h in
          let one : some z ≡ some x = sym at' ∙ (ap (λ j. stream_at xs j) (sym place) ∙ at) in
          let stream : z ≡ x = ground (arith, one) in
          rw h (ap (λ y. (f y).id) stream ∙ (keeps ∙ (ap (λ y. y.id) (sym stream) ∙ same)))
      | inr h ↦ rw h same
    ] in
    ((if i == q then f z else z, moved, id'), update_at-Placed m xs i x f at keeps ps)

pub remove-Placed :
    (m : StreamRegistry) (xs : List StreamInner) (id : ℕ) → Placed m xs → Placed (remove m id) xs
unfolding remove
remove-Placed [] xs id p = tt
remove-Placed ((k, q) ∷ m) xs id p = elim (Bool-cases (k == id)) [
  | inl h ↦ rw h p.1
  | inr h ↦ rw h (p.0, remove-Placed m xs id p.1)
]
