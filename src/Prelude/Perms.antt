-- ===== src/Prelude/Perms.antt =====
-- Rearrangements of a list: the length, and what holds of every element.
use Prim.Native.Nat.{ℕ, zero, suc}
use mathlib.Core.Nat as M
use mathlib.Core.List.{
  List, [], ◌∷◌, Perm, Mem, mem-cons_self, mem-cons_of_mem, eq-or-mem_of_mem-cons, not-mem-nil,
}
use mathlib.Core.List
use mathlib.Core.List.Perm
use mathlib.Core.Logic.{inl, inr, ∥∥₁_elim}
use mathlib.Core.Path.{◌≡◌, refl, sym, ap, subst, ◌∙◌}
use gola.Prelude.Lists.{Every, length}

abbrev native : M.ℕ → ℕ
native M.zero = zero
native (M.suc n) = suc (native n)

module _ {A : Type 0} where
  native-length : (xs : List A) → native (List.length xs) ≡ length xs
  native-length [] = refl
  native-length (x ∷ xs) = ap suc (native-length xs)

  pub length-Perm : {xs ys : List A} → Perm xs ys → length xs ≡ length ys
  length-Perm {xs} {ys} p = sym (native-length xs) ∙ ap native (Perm.length-eq p) ∙ native-length ys

  module _ (P : A → Type 0) where
    pub Mem-cons :
        (x : A) (xs : List A)
        → ((a : A) → IsProp (P a))
        → P x
        → ((a : A) → Mem a xs → P a)
        → (a : A) → Mem a (x ∷ xs)
        → P a
    Mem-cons x xs prop h k a m =
        ∥∥₁_elim (eq-or-mem_of_mem-cons m) (prop a)
          (λ d. elim d [ inl e ↦ subst P (sym e) h | inr n ↦ k a n ])

    pub Mem-Every : (xs : List A) → ((a : A) → IsProp (P a)) → Every P xs → (a : A) → Mem a xs → P a
    Mem-Every [] prop h a m = absurd (not-mem-nil m)
    Mem-Every (x ∷ xs) prop h a m = Mem-cons x xs prop h.0 (Mem-Every xs prop h.1) a m

    Every-Mem : (xs : List A) → ((a : A) → Mem a xs → P a) → Every P xs
    Every-Mem [] h = tt
    Every-Mem (x ∷ xs) h = (h x mem-cons_self, Every-Mem xs (λ a m. h a (mem-cons_of_mem x m)))

    pub Every-Perm :
        {xs ys : List A} → ((a : A) → IsProp (P a)) → Perm xs ys → Every P xs → Every P ys
    Every-Perm {xs} {ys} prop p h =
        Every-Mem ys (λ a m. Mem-Every xs prop h a ((Perm.mem_iff p).1 m))
