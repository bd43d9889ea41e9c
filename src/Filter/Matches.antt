-- ===== src/Filter/Matches.antt =====
-- crates/tryke_types/src/filter.rs: which files a path spec names, and which tests a filter keeps.
use mathlib.Core.List as List
use tryke.Prelude.{
  ◌≤◌, ◌≡◌, ◌≢◌, refl, sym, ◌∙◌, ap, inl, inr, ◌⊎◌, ◌↔◌, Bool, true, false, List, [], ◌∷◌, ◌++◌,
  reverse, filter, Text, length, length-append, ltb, Bool-cases, ==→eq, ==_refl, if◌then◌else◌,
  arith,
}
use tryke.Paths.{FilePath, Component, component_eq, components}
use tryke.Types.{TestItem}
use tryke.Filter.Matching.{
  TestFilter, all_equal, suffix_of, prefix_of, path_suffix_match, path_prefix_match,
  path_spec_matches, matches, apply, filter_is_empty,
}

-- The needle's components at the front of the haystack's.
abbrev pub Begins : List Component → List Component → Type 0
Begins h n = (rest : List Component) × (h ≡ n ++ rest)

abbrev pub Ends : List Component → List Component → Type 0
Ends h n = (before : List Component) × (h ≡ before ++ n)

all_equal→Begins : (n h : List Component) → all_equal n h ≡ true → length n ≤ length h → Begins h n
unfolding all_equal
all_equal→Begins [] h e l = (h, refl)
all_equal→Begins (a ∷ n) [] e l = absurd (omega (arith, l))
all_equal→Begins (a ∷ n) (b ∷ h) e l =
    let same : a ≡ b = ==→eq a b (ground (arith, e)) in
    let (rest, eq) = all_equal→Begins n h (ground (arith, e)) (omega (arith, l)) in
    (rest, cc (same, eq))

all_equal-append : (n rest : List Component) → all_equal n (n ++ rest) ≡ true
unfolding all_equal
all_equal-append [] rest = refl
all_equal-append (a ∷ n) rest = rw (==_refl a, all_equal-append n rest) refl

length-reverse : (xs : List Component) → length (reverse xs) ≡ length xs
length-reverse [] = refl
length-reverse (x ∷ xs) =
    ap length (List.reverse-cons x xs)
    ∙ omega (arith, length-append {0} (reverse xs) (x ∷ []), length-reverse xs)

-- The test that both directions share.
abbrev fits : List Component → List Component → Bool
fits h n = if ltb (length h) (length n) then false else all_equal n h

fits→Begins : (h n : List Component) → fits h n ≡ true → Begins h n
fits→Begins h n e = all_equal→Begins n h (ground (arith, e)) (ground (arith, e))

Begins→fits : (h n : List Component) → Begins h n → fits h n ≡ true
Begins→fits h n (rest, eq) =
    ground
      (arith, ap length eq, length-append {0} n rest, ap (all_equal n) eq ∙ all_equal-append n rest)

prefix_of_iff : (h n : List Component) → (prefix_of h n ≡ true) ↔ ((n ≢ []) × Begins h n)
prefix_of_iff h [] = ((λ e. cc), λ b. absurd (b.0 refl))
prefix_of_iff h (a ∷ n) = ((λ e. ((cc), fits→Begins h (a ∷ n) e)), λ b. Begins→fits h (a ∷ n) b.1)

Ends→Begins : (h n : List Component) → Ends h n → Begins (reverse h) (reverse n)
Ends→Begins h n (before, eq) = (reverse before, ap reverse eq ∙ List.reverse-append before n)

Begins→Ends : (h n : List Component) → Begins (reverse h) (reverse n) → Ends h n
Begins→Ends h n (rest, eq) = (
  reverse rest,
  sym (List.reverse-reverse h)
      ∙ (ap reverse eq
          ∙ (List.reverse-append (reverse n) rest
              ∙ ap (λ l. reverse rest ++ l) (List.reverse-reverse n))),
)

suffix_of-fits : (h n : List Component) → suffix_of h n ≡ fits (reverse h) (reverse n)
suffix_of-fits h n = rw (length-reverse h, length-reverse n) refl

suffix_of_iff : (h n : List Component) → (suffix_of h n ≡ true) ↔ Ends h n
suffix_of_iff h n = (
  (λ e. Begins→Ends h n (fits→Begins (reverse h) (reverse n) (sym (suffix_of-fits h n) ∙ e))),
  λ b. suffix_of-fits h n ∙ Begins→fits (reverse h) (reverse n) (Ends→Begins h n b),
)

-- A path spec names a file exactly when the components of the spec are the last ones of the file's
-- path, or are some and the first ones of it.
pub path_spec_matches_iff :
    (path spec : FilePath)
    → (path_spec_matches path spec ≡ true) ↔ (
        Ends (components path) (components spec)
        ⊎ ((components spec ≢ []) × Begins (components path) (components spec)))
unfolding path_spec_matches path_suffix_match path_prefix_match
path_spec_matches_iff path spec =
    let h = components path in
    let n = components spec in
    (
      (λ e. elim (Bool-cases (suffix_of h n)) [
        | inl ends ↦ inl ((suffix_of_iff h n).0 ends)
        | inr apart ↦ inr ((prefix_of_iff h n).0 (ground (arith, e, apart)))
      ]),
      λ either. elim either [
        | inl ends ↦ rw ((suffix_of_iff h n).1 ends) refl
        | inr begins ↦ ground (arith, (prefix_of_iff h n).1 begins)
      ],
    )

filter-everything :
    (p : TestItem → Bool) (ts : List TestItem) → ((t : TestItem) → p t ≡ true) → filter p ts ≡ ts
filter-everything p [] h = refl
filter-everything p (t ∷ ts) h = rw (h t, filter-everything p ts h) refl

module _ (to_lowercase : Text → Text) where
  empty-matches :
      (f : TestFilter) (t : TestItem) → filter_is_empty f ≡ true → matches to_lowercase f t ≡ true
  unfolding matches
  empty-matches f t e = ground (arith, e)

  -- What a filter keeps are the tests that it matches, in their order, also where it is empty and
  -- `apply` takes its short cut.
  pub apply-filter :
      (f : TestFilter) (tests : List TestItem)
      → apply to_lowercase f tests ≡ filter (matches to_lowercase f) tests
  unfolding apply
  apply-filter f tests = elim (Bool-cases (filter_is_empty f)) [
    | inl e ↦
        rw e (sym (filter-everything (matches to_lowercase f) tests (λ t. empty-matches f t e)))
    | inr e ↦ rw e refl
  ]
