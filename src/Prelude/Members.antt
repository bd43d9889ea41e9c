-- ===== src/Prelude/Members.antt =====
-- Membership in a list.
use mathlib.Core.Path.{◌≡◌, refl, subst}
use mathlib.Core.Logic.{◌⊎◌, inl, inr}
use mathlib.Core.Bool.{Bool, true}
use mathlib.Core.List.{List, [], ◌∷◌}
use tryke.Prelude.Tests.{Bool-cases}
use tryke.Prelude.Lists.{filter}

-- `a` is one of the list.
abbrev pub Member : {A : Type 0} → A → List A → Type 0
Member a [] = ⊥
Member a (x ∷ xs) = (x ≡ a) ⊎ Member a xs

pub Member-filter :
    {A : Type 0} (p : A → Bool) (a : A) (xs : List A)
    → Member a (filter p xs)
    → Member a xs × (p a ≡ true)
Member-filter p a [] h = absurd h
Member-filter p a (x ∷ xs) h = elim (Bool-cases (p x)) [
  | inl e ↦ elim (rw e at h) [
    | inl eq ↦ (inl eq, subst (λ y. p y ≡ true) eq e)
    | inr m ↦ let (rest, fits) = Member-filter p a xs m in (inr rest, fits)
  ]
  | inr e ↦ let (rest, fits) = Member-filter p a xs (rw e at h) in (inr rest, fits)
]

pub filter-Member :
    {A : Type 0} (p : A → Bool) (a : A) (xs : List A)
    → Member a xs
    → p a ≡ true
    → Member a (filter p xs)
filter-Member p a [] m h = m
filter-Member p a (x ∷ xs) (inl eq) h = rw (eq, h) (inl refl)
filter-Member p a (x ∷ xs) (inr m) h = elim (Bool-cases (p x)) [
  | inl e ↦ rw e (inr (filter-Member p a xs m h))
  | inr e ↦ rw e (filter-Member p a xs m h)
]
