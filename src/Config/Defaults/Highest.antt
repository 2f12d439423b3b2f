-- ===== src/Config/Defaults/Highest.antt =====
-- The order of the registry of crates/gola-core/src/config/defaults/traits.rs, and the defaults it finds.
use mathlib.Core.List.{Perm, Mem, mem-cons_self, mem-cons_of_mem, not-mem-nil}
use mathlib.Core.List.Perm
use native.Mathlib.Bridge.{le_prop}
use gola.Prelude.{
  ◌≤◌, ◌≡◌, refl, sym, true, false, Bool-cases, Option, none, some, List, [], ◌∷◌, ◌++◌, append-nil,
  append_assoc, arith, sort_by-Perm, sort_by-InOrder, Every-always, Mem-cons, Mem-Every, InOrder,
  ◌⊎◌, inl, inr,
}
use gola.Core.Errors.{Result, ok, ◌>>=◌}
use gola.Config.Defaults.{
  DefaultsContext, DefaultProvider, rank, before, register, get_best_defaults,
}

module _ {T : Type 0} where
  -- A registry after the providers were registered one after the other.
  unfoldable pub register_all :
      List (DefaultProvider T) → List (DefaultProvider T) → List (DefaultProvider T)
  register_all registry [] = registry
  register_all registry (p ∷ ps) = register_all (register registry p) ps

  before_total : (p q : DefaultProvider T) → before p q ≡ false → before q p ≡ true
  before_total p q h = ground arith

  before_trans :
      (p q r : DefaultProvider T) → before p q ≡ true → before q r ≡ true → before p r ≡ true
  before_trans p q r h k = ground arith

  register-InOrder :
      (registry : List (DefaultProvider T)) (p : DefaultProvider T)
      → InOrder before (register registry p)
  unfolding register
  register-InOrder registry p =
      sort_by-InOrder before (λ q. Unit {0}) (λ q r t u. before_total q r)
        (λ q r s t u v. before_trans q r s) (registry ++ p ∷ []) (Every-always (registry ++ p ∷ []))

  register_all-InOrder :
      (registry ps : List (DefaultProvider T))
      → InOrder before registry
      → InOrder before (register_all registry ps)
  unfolding register_all
  register_all-InOrder registry [] h = h
  register_all-InOrder registry (p ∷ ps) h =
      register_all-InOrder (register registry p) ps (register-InOrder registry p)

  register_all-Perm :
      (registry ps : List (DefaultProvider T)) → Perm (register_all registry ps) (registry ++ ps)
  unfolding register_all register
  register_all-Perm registry [] = rw (append-nil registry) (Perm.refl registry)
  register_all-Perm registry (p ∷ ps) = Perm.trans (register_all-Perm (register registry p) ps) (
      rw (sym (append_assoc registry (p ∷ []) ps))
        (Perm.append_right ps (sort_by-Perm before (registry ++ p ∷ []))))

  -- A provider that can provide, and none that can has a higher priority.
  pub record IsHighest (context : DefaultsContext) (ps : List (DefaultProvider T))
      (p : DefaultProvider T) : Type 0 where
    pub member : Mem p ps
    pub able : p.can_provide context ≡ true
    pub highest :
        (q : DefaultProvider T)
        → Mem q ps
        → q.can_provide context ≡ true
        → rank q.priority ≤ rank p.priority

  abbrev pub NoneAble : DefaultsContext → List (DefaultProvider T) → Type 0
  NoneAble context ps = (q : DefaultProvider T) → Mem q ps → q.can_provide context ≡ false

  -- What the search for the best defaults may find.
  abbrev pub IsBest : DefaultsContext → List (DefaultProvider T) → Result (Option T) → Type 0
  IsBest context ps r =
      (NoneAble context ps × (r ≡ ok none))
      ⊎ ((p : DefaultProvider T) × IsHighest context ps p
          × (r ≡ (p.provide_defaults context >>= λ defaults. ok (some defaults))))

  rank_of_before : (p q : DefaultProvider T) → before p q ≡ true → rank q.priority ≤ rank p.priority
  rank_of_before p q h = ground arith

  -- The search past a provider that cannot provide.
  past :
      (context : DefaultsContext) (p : DefaultProvider T) (ps : List (DefaultProvider T))
      (r : Result (Option T))
      → p.can_provide context ≡ false
      → IsBest context ps r
      → IsBest context (p ∷ ps) r
  past context p ps r e (inl (n, f)) =
      inl (Mem-cons (λ q. q.can_provide context ≡ false) p ps (λ q. hlevel) e n, f)
  past context p ps r e (inr (b, i, f)) = inr (
    b,
    record {
      member = mem-cons_of_mem p i.member;
      able = i.able;
      highest =
          Mem-cons (λ q. q.can_provide context ≡ true → rank q.priority ≤ rank b.priority) p ps
            (λ q. hlevel le_prop) (λ h. cc) i.highest;
    },
    f,
  )

  get_best_defaults-of-InOrder :
      (context : DefaultsContext) (ps : List (DefaultProvider T))
      → InOrder before ps
      → IsBest context ps (get_best_defaults ps context)
  unfolding get_best_defaults
  get_best_defaults-of-InOrder context [] h = inl ((λ q m. absurd (not-mem-nil m)), refl)
  get_best_defaults-of-InOrder context (p ∷ ps) h = elim (Bool-cases (p.can_provide context)) [
    | inl e ↦ rw e (
        inr (
          p,
          record {
            member = mem-cons_self;
            able = e;
            highest =
                Mem-cons (λ q. q.can_provide context ≡ true → rank q.priority ≤ rank p.priority) p
                  ps (λ q. hlevel le_prop) (λ k. ground arith)
                  (λ q m k.
                    rank_of_before p q
                      (Mem-Every (λ q. before p q ≡ true) ps (λ q. hlevel) h.0 q m));
          },
          refl,
        ))
    | inr e ↦ rw e (
        past context p ps (get_best_defaults ps context) e
          (get_best_defaults-of-InOrder context ps h.1))
  ]

  IsBest-Perm :
      (context : DefaultsContext) (ps qs : List (DefaultProvider T)) (r : Result (Option T))
      → Perm ps qs
      → IsBest context ps r
      → IsBest context qs r
  IsBest-Perm context ps qs r perm (inl (n, f)) = inl ((λ q m. n q ((Perm.mem_iff perm).1 m)), f)
  IsBest-Perm context ps qs r perm (inr (b, i, f)) = inr (
    b,
    record {
      member = (Perm.mem_iff perm).0 i.member;
      able = i.able;
      highest = λ q m. i.highest q ((Perm.mem_iff perm).1 m);
    },
    f,
  )

  -- Whatever providers are registered, in whatever order, the best defaults are those of a provider of the
  -- highest priority among the providers that can provide in the context, its error included, and there are
  -- none when no provider can.
  pub get_best_defaults-register_all :
      (context : DefaultsContext) (ps : List (DefaultProvider T))
      → IsBest context ps (get_best_defaults (register_all [] ps) context)
  get_best_defaults-register_all context ps =
      IsBest-Perm context (register_all [] ps) ps (get_best_defaults (register_all [] ps) context)
        (register_all-Perm [] ps)
        (get_best_defaults-of-InOrder context (register_all [] ps) (register_all-InOrder [] ps tt))
