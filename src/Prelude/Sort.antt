-- ===== src/Prelude/Sort.antt =====
-- Python's `sorted`: stable, by a Boolean order on the items.
use Prim.Native.String.{String, compare}
use native.Mathlib.Omega.{arith}
use mathlib.Core.Bool.{Bool, true, false}
use mathlib.Core.List.{List, [], ◌∷◌, Perm}
use mathlib.Core.List.Perm
use text.Mathlib.Text.{is_le}
use convert2rhel.Prelude.Equality.{if◌then◌else◌, Bool-cases}
use convert2rhel.Prelude.Lists.{length, All, All-imp}
use mathlib.Core.Logic.{inl, inr}
use mathlib.Core.Path.{◌≡◌, refl}
use Prim.Native.Nat.{suc}

-- The order of texts, by code points.
abbrev pub text_le : String → String → Bool
text_le s t = is_le (compare s t)

module _ {ℓ} {A : Type ℓ} where
  -- Behind no item that it may precede, so items that are equal in the order keep theirs.
  unfoldable pub insert_sorted : (A → A → Bool) → A → List A → List A
  insert_sorted le x [] = x ∷ []
  insert_sorted le x (y ∷ ys) =
      let rest = insert_sorted le x ys in if le x y then x ∷ y ∷ ys else y ∷ rest

  unfoldable pub sorted : (A → A → Bool) → List A → List A
  unfolding insert_sorted
  sorted le [] = []
  sorted le (x ∷ xs) = insert_sorted le x (sorted le xs)

  pub insert_sorted-perm :
      (le : A → A → Bool) (x : A) (xs : List A) → Perm (insert_sorted le x xs) (x ∷ xs)
  unfolding insert_sorted
  insert_sorted-perm le x [] = Perm.rfl
  insert_sorted-perm le x (y ∷ ys) =
      let moved = Perm.trans (Perm.cons y (insert_sorted-perm le x ys)) (Perm.swap x y ys) in
      ground (arith, Perm.refl (x ∷ y ∷ ys), moved)

  pub sorted-perm : (le : A → A → Bool) (xs : List A) → Perm (sorted le xs) xs
  unfolding sorted
  sorted-perm le [] = Perm.rfl
  sorted-perm le (x ∷ xs) =
      Perm.trans (insert_sorted-perm le x (sorted le xs)) (Perm.cons x (sorted-perm le xs))

  length-insert_sorted :
      (le : A → A → Bool) (x : A) (xs : List A) → length (insert_sorted le x xs) ≡ suc (length xs)
  unfolding insert_sorted
  length-insert_sorted le x [] = refl
  length-insert_sorted le x (y ∷ ys) = ground (arith, length-insert_sorted le x ys)

  pub length-sorted : (le : A → A → Bool) (xs : List A) → length (sorted le xs) ≡ length xs
  unfolding sorted
  length-sorted le [] = refl
  length-sorted le (x ∷ xs) =
      omega (arith, length-insert_sorted le x (sorted le xs), length-sorted le xs)

  -- Each item may precede all that stand behind it.
  abbrev pub Ascending : (A → A → Bool) → List A → Type 0
  Ascending le [] = Unit
  Ascending le (x ∷ xs) = All (λ y. le x y ≡ true) xs × Ascending le xs

  pub record IsTotalOrder (le : A → A → Bool) : Type ℓ where
    pub total : (x y : A) → le x y ≡ false → le y x ≡ true
    pub trans : (x y z : A) → le x y ≡ true → le y z ≡ true → le x z ≡ true

  All-insert_sorted :
      (le : A → A → Bool) (P : A → Type 0) (x : A) (xs : List A)
      → P x
      → All P xs
      → All P (insert_sorted le x xs)
  unfolding insert_sorted
  All-insert_sorted le P x [] p h = (p, tt)
  All-insert_sorted le P x (y ∷ ys) p h = elim (Bool-cases (le x y)) [
    | inl t ↦ rw t (p, h)
    | inr f ↦ rw f (h.0, All-insert_sorted le P x ys p h.1)
  ]

  insert_sorted-Ascending :
      (le : A → A → Bool)
      → IsTotalOrder le
      → (x : A) (xs : List A) → Ascending le xs
      → Ascending le (insert_sorted le x xs)
  unfolding insert_sorted
  insert_sorted-Ascending le o x [] h = (tt, tt)
  insert_sorted-Ascending le o x (y ∷ ys) h = elim (Bool-cases (le x y)) [
    | inl t ↦
        let below =
          All-imp (λ z. le y z ≡ true) (λ z. le x z ≡ true) (λ z. o.trans x y z t) ys h.0 in
        rw t ((t, below), h)
    | inr f ↦ rw f (
      All-insert_sorted le (λ z. le y z ≡ true) x ys (o.total x y f) h.0,
      insert_sorted-Ascending le o x ys h.1,
    )
  ]

  pub sorted-Ascending :
      (le : A → A → Bool) → IsTotalOrder le → (xs : List A) → Ascending le (sorted le xs)
  unfolding sorted
  sorted-Ascending le o [] = tt
  sorted-Ascending le o (x ∷ xs) =
      insert_sorted-Ascending le o x (sorted le xs) (sorted-Ascending le o xs)
