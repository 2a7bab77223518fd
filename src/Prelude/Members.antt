-- ===== src/Prelude/Members.antt =====
-- `in` and the library's membership.
use mathlib.Core.List.{
  List, [], ◌∷◌, Mem, Perm, not-mem-nil, mem-cons, mem-cons_self, mem-cons_of_mem,
}
use mathlib.Core.List.Perm
use mathlib.Core.Logic.Or
use mathlib.Core.Logic.{inl, inr}
use mathlib.Core.Path.{◌≡◌}
use mathlib.Core.Bool.{Bool, true, false}
use native.Mathlib.Omega.{arith}
use convert2rhel.Prelude.Equality.{Eq, contains, Bool-cases}
use convert2rhel.Prelude.Lists.{All, any}

module _ {ℓ} {A : Type ℓ} ⦃e : Eq A⦄ where
  pub contains-mem : (xs : List A) (x : A) → contains xs x ≡ true → Mem x xs
  contains-mem [] x h = cc
  contains-mem (y ∷ ys) x h = elim (e.dec x y) [
    | yes p ↦ rw p mem-cons_self
    | no n ↦ mem-cons_of_mem y (contains-mem ys x (ground arith))
  ]

  pub mem-contains : (xs : List A) (x : A) → Mem x xs → contains xs x ≡ true
  mem-contains [] x m = absurd (not-mem-nil m)
  mem-contains (y ∷ ys) x m =
      Or.elim (hlevel) (mem-cons.0 m) (λ p. ground arith)
        (λ rest. ground (arith, mem-contains ys x rest))

  pub not-contains : (xs : List A) (x : A) → ¬ Mem x xs → contains xs x ≡ false
  not-contains xs x n = elim (Bool-cases (contains xs x)) [
    | inl p ↦ absurd (n (contains-mem xs x p))
    | inr p ↦ p
  ]

  pub contains-perm_sub :
      (xs ys : List A) (x : A) → Perm xs ys → contains xs x ≡ true → contains ys x ≡ true
  contains-perm_sub xs ys x p h = mem-contains ys x (Perm.subset p x (contains-mem xs x h))

module _ {ℓ} {A : Type ℓ} where
  pub All-mem {κ} :
      (P : A → Type κ)
      → ((x : A) → IsProp (P x))
      → (xs : List A) (x : A) → All P xs
      → Mem x xs
      → P x
  All-mem P prop [] x h m = absurd (not-mem-nil m)
  All-mem P prop (y ∷ ys) x h m =
      Or.elim (prop x) (mem-cons.0 m) (λ p. rw p h.0) (λ rest. All-mem P prop ys x h.1 rest)

  pub any_mono :
      (test wider : A → Bool)
      → ((x : A) → test x ≡ true → wider x ≡ true)
      → (xs : List A) → any test xs ≡ true
      → any wider xs ≡ true
  any_mono test wider h [] t = t
  any_mono test wider h (x ∷ xs) t = ground (arith, h x, any_mono test wider h xs)
