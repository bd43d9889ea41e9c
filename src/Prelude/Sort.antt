-- ===== src/Prelude/Sort.antt =====
-- A stable sort by a Boolean order: Rust's `sort`, `sort_by` and `sort_by_key`, by insertion.
use mathlib.Core.Path.{◌≡◌, refl}
use mathlib.Core.Logic.{inl, inr}
use mathlib.Core.Bool.{Bool, true, false}
use mathlib.Core.List.{List, [], ◌∷◌, ◌++◌, Perm, append_assoc, perm_append_comm}
use mathlib.Core.List.Perm
use native.Mathlib.Omega.{arith}
use mathlib.Core.Bool.{◌||◌}
use tryke.Prelude.Equality.{Eq}
use tryke.Prelude.Sets.{contains}
use tryke.Prelude.Tests.{if◌then◌else◌, Bool-cases}
use tryke.Prelude.Lists.{filter, All}

module _ {ℓ} {A : Type ℓ} (le : A → A → Bool) where
  abbrev pub insert_sorted : A → List A → List A
  insert_sorted x [] = x ∷ []
  insert_sorted x (y ∷ ys) = if le x y then x ∷ y ∷ ys else y ∷ insert_sorted x ys

  abbrev pub sort_by : List A → List A
  sort_by [] = []
  sort_by (x ∷ xs) = insert_sorted x (sort_by xs)

  -- Each element comes before all that follow it.
  abbrev pub IsSorted : List A → Type ℓ
  IsSorted [] = Unit
  IsSorted (x ∷ xs) = All (λ y. le x y ≡ true) xs × IsSorted xs

  pub insert_sorted-perm : (x : A) (xs : List A) → Perm (insert_sorted x xs) (x ∷ xs)
  insert_sorted-perm x [] = Perm.rfl
  insert_sorted-perm x (y ∷ ys) = elim (Bool-cases (le x y)) [
    | inl e ↦ rw e Perm.rfl
    | inr e ↦ rw e (Perm.trans (Perm.cons y (insert_sorted-perm x ys)) (Perm.swap x y ys))
  ]

  pub sort_by-perm : (xs : List A) → Perm (sort_by xs) xs
  sort_by-perm [] = Perm.rfl
  sort_by-perm (x ∷ xs) =
      Perm.trans (insert_sorted-perm x (sort_by xs)) (Perm.cons x (sort_by-perm xs))

  pub All-insert_sorted {κ} :
      (P : A → Type κ) (x : A) (xs : List A) → P x → All P xs → All P (insert_sorted x xs)
  All-insert_sorted P x [] p h = (p, tt)
  All-insert_sorted P x (y ∷ ys) p h = elim (Bool-cases (le x y)) [
    | inl e ↦ rw e (p, h)
    | inr e ↦ rw e (h.0, All-insert_sorted P x ys p h.1)
  ]

  pub All-sort_by {κ} : (P : A → Type κ) (xs : List A) → All P xs → All P (sort_by xs)
  All-sort_by P [] h = tt
  All-sort_by P (x ∷ xs) h = All-insert_sorted P x (sort_by xs) h.0 (All-sort_by P xs h.1)

  -- A class whose members the order does not tell apart keeps its order: the sort is stable.
  pub filter-insert_sorted :
      (p : A → Bool) (tied : (a b : A) → p a ≡ true → p b ≡ true → le a b ≡ true) (x : A)
      (xs : List A)
      → filter p (insert_sorted x xs) ≡ filter p (x ∷ xs)
  filter-insert_sorted p tied x [] = refl
  filter-insert_sorted p tied x (y ∷ ys) =
      ground (arith, tied x y, filter-insert_sorted p tied x ys)

  pub filter-sort_by :
      (p : A → Bool) (tied : (a b : A) → p a ≡ true → p b ≡ true → le a b ≡ true) (xs : List A)
      → filter p (sort_by xs) ≡ filter p xs
  filter-sort_by p tied [] = refl
  filter-sort_by p tied (x ∷ xs) =
      ground (arith, filter-insert_sorted p tied x (sort_by xs), filter-sort_by p tied xs)

  module _ (total : (a b : A) → le a b ≡ false → le b a ≡ true)
      (trans : (a b c : A) → le a b ≡ true → le b c ≡ true → le a c ≡ true) where
    All-le_trans :
        (x y : A) (ys : List A)
        → le x y ≡ true
        → All (λ z. le y z ≡ true) ys
        → All (λ z. le x z ≡ true) ys
    All-le_trans x y [] e h = tt
    All-le_trans x y (z ∷ zs) e h = (trans x y z e h.0, All-le_trans x y zs e h.1)

    pub insert_sorted-IsSorted : (x : A) (xs : List A) → IsSorted xs → IsSorted (insert_sorted x xs)
    insert_sorted-IsSorted x [] h = (tt, tt)
    insert_sorted-IsSorted x (y ∷ ys) h = elim (Bool-cases (le x y)) [
      | inl e ↦ rw e ((e, All-le_trans x y ys e h.0), h)
      | inr e ↦ rw e (All-insert_sorted _ x ys (total x y e) h.0, insert_sorted-IsSorted x ys h.1)
    ]

    pub sort_by-IsSorted : (xs : List A) → IsSorted (sort_by xs)
    sort_by-IsSorted [] = tt
    sort_by-IsSorted (x ∷ xs) = insert_sorted-IsSorted x (sort_by xs) (sort_by-IsSorted xs)

-- Two blocks in front of a list change places.
pub swap_blocks {ℓ} : {A : Type ℓ} (xs ys zs : List A) → Perm (ys ++ (xs ++ zs)) (xs ++ (ys ++ zs))
swap_blocks xs ys zs =
    rw (← append_assoc, ← append_assoc) (Perm.append_right zs (perm_append_comm ys xs))

-- A sort keeps the members.
module _ {ℓ} {A : Type ℓ} ⦃e : Eq A⦄ (le : A → A → Bool) where
  contains-insert_sorted :
      (x : A) (xs : List A) (a : A)
      → contains (insert_sorted le x xs) a ≡ (e.beq x a || contains xs a)
  unfolding contains
  contains-insert_sorted x [] a = refl
  contains-insert_sorted x (y ∷ ys) a = ground (arith, contains-insert_sorted x ys a)

  pub contains-sort_by : (xs : List A) (a : A) → contains (sort_by le xs) a ≡ contains xs a
  unfolding contains
  contains-sort_by [] a = refl
  contains-sort_by (x ∷ xs) a =
      ground (arith, contains-insert_sorted x (sort_by le xs) a, contains-sort_by xs a)
