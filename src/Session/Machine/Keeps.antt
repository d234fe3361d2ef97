-- ===== src/Session/Machine/Keeps.antt =====
-- What everything but an `open` of its own keeps of a session (src/session): its registry stays sound,
-- its allocator stays, and no id of its own role is registered.
use net_mux.Base.{
  ℕ, ◌≡◌, ◌∙◌, refl, sym, Bool, true, false, none, [], ◌∷◌, if◌then◌else◌, arith, Bool-cases, inl,
  inr,
}
use net_mux.Error.{ErrorCode}
use net_mux.Util.Id.{Role, owns}
use net_mux.Session.Manager.{StreamRegistry, get, remove}
use net_mux.Session.Manager.Map.{remove-Distinct}
use net_mux.Session.Inner.{SessionInner, initiate_shutdown}
use net_mux.Session.Inner.Store.{remove-Placed}
use net_mux.Session.Reader.Registry.{IsSession, initiate_shutdown-IsSession}

-- The registry `m'` has no id of the role that `m` has not.
abbrev pub NoOwn : Role → StreamRegistry → StreamRegistry → Type 0
NoOwn role m m' = (id : ℕ) → owns role id ≡ true → get m id ≡ none → get m' id ≡ none

pub record Keeps (s t : SessionInner) : Type 0 where
  pub same_role : t.role ≡ s.role
  pub same_alloc : t.id_alloc ≡ s.id_alloc
  pub no_own : NoOwn s.role s.registry t.registry
  pub watch : s.shutdown ≡ s.is_closing → t.shutdown ≡ t.is_closing
  pub stays : s.is_closing ≡ true → t.is_closing ≡ true

-- What changes the registry only, and what does not change it.
pub changes :
    {s t : SessionInner}
    → t.role ≡ s.role
    → t.id_alloc ≡ s.id_alloc
    → NoOwn s.role s.registry t.registry
    → t.is_closing ≡ s.is_closing
    → t.shutdown ≡ s.shutdown
    → Keeps s t
changes r a new c d = record {
  same_role = r;
  same_alloc = a;
  no_own = new;
  watch = λ e. d ∙ (e ∙ sym c);
  stays = λ e. c ∙ e;
}

pub kept :
    {s t : SessionInner}
    → t.role ≡ s.role
    → t.id_alloc ≡ s.id_alloc
    → t.registry ≡ s.registry
    → t.is_closing ≡ s.is_closing
    → t.shutdown ≡ s.shutdown
    → Keeps s t
kept r a m c d = changes r a (λ id o n. rw m n) c d

pub if-Keeps : (c : Bool) (s t : SessionInner) → Keeps s t → Keeps s (if c then t else s)
if-Keeps true s t k = k
if-Keeps false s t k = kept refl refl refl refl refl

pub Keeps-trans : (s t u : SessionInner) → Keeps s t → Keeps t u → Keeps s u
Keeps-trans s t u k l = record {
  same_role = l.same_role ∙ k.same_role;
  same_alloc = l.same_alloc ∙ k.same_alloc;
  no_own = λ id o e. l.no_own id (rw k.same_role o) (k.no_own id o e);
  watch = λ e. l.watch (k.watch e);
  stays = λ e. l.stays (k.stays e);
}

pub remove-none : (m : StreamRegistry) (id j : ℕ) → get m j ≡ none → get (remove m id) j ≡ none
unfolding get remove
remove-none [] id j e = refl
remove-none ((k, r) ∷ m) id j e = ground (arith, remove-none m id j)

pub initiate_shutdown-Keeps :
    (s : SessionInner) (code : ErrorCode) → Keeps s (initiate_shutdown s code)
unfolding initiate_shutdown get
initiate_shutdown-Keeps s code = elim (Bool-cases s.is_closing) [
  | inl e ↦ rw e (kept refl refl refl refl refl)
  | inr e ↦ rw e (record {
    same_role = refl;
    same_alloc = refl;
    no_own = λ id o e. refl;
    watch = λ h. refl;
    stays = λ h. refl;
  })
]

-- What keeps the registry sound besides.
pub record Safe (s t : SessionInner) : Type 0 where
  pub keeps : Keeps s t
  pub sound : IsSession s → IsSession t

pub Safe-trans : {s t u : SessionInner} → Safe s t → Safe t u → Safe s u
Safe-trans {s} {t} {u} k l = record {
  keeps = Keeps-trans s t u k.keeps l.keeps;
  sound = λ h. l.sound (k.sound h);
}

-- What leaves the registry and the streams alone, and what takes an id out.
pub same-Safe :
    {s t : SessionInner}
    → t.role ≡ s.role
    → t.id_alloc ≡ s.id_alloc
    → t.registry ≡ s.registry
    → t.streams ≡ s.streams
    → t.is_closing ≡ s.is_closing
    → t.shutdown ≡ s.shutdown
    → Safe s t
same-Safe r a m x c d = record { keeps = kept r a m c d; sound = λ h. rw (m, x) h }

pub removes-Safe :
    {s t : SessionInner} (id : ℕ)
    → t.role ≡ s.role
    → t.id_alloc ≡ s.id_alloc
    → t.registry ≡ remove s.registry id
    → t.streams ≡ s.streams
    → t.is_closing ≡ s.is_closing
    → t.shutdown ≡ s.shutdown
    → Safe s t
removes-Safe {s} id r a m x c d = record {
  keeps = changes r a (λ j o n. rw m (remove-none s.registry id j n)) c d;
  sound = λ h.
      rw (m, x)
        (record {
          distinct = remove-Distinct s.registry id h.distinct;
          placed = remove-Placed s.registry s.streams id h.placed;
        });
}

pub shutdown-Safe : (s : SessionInner) (code : ErrorCode) → Safe s (initiate_shutdown s code)
shutdown-Safe s code = record {
  keeps = initiate_shutdown-Keeps s code;
  sound = initiate_shutdown-IsSession s code;
}
