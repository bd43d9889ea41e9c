-- ===== src/Types/Chosen.antt =====
-- crates/tryke_types/src/lib.rs: what `select_expected_assertion` may choose.
use mathlib.Core.Bool.{false≢true}
use tryke.Prelude.{
  Member, Member-filter, filter-Member, sym, ◌∙◌, if◌then◌else◌, ℕ, ◌≡◌, ◌⊎◌, refl, inl, inr, Bool,
  true, false, List, [], ◌∷◌, filter, Option, some, Bool-cases, nat_eq, arith,
}
use tryke.Types.Item.{ExpectedAssertion}
use tryke.Types.Select.{
  AssertionWire, expected_contains_line, expected_contains_position, Rank, rank_lt, expected_rank,
  min_from, min_by_rank, choose, select_expected_assertion,
}

-- What is not before `x` is not before what is before `x`.
rank_lt_trans : (x y z : Rank) → rank_lt y x ≡ true → rank_lt z x ≡ false → rank_lt z y ≡ false
rank_lt_trans (a, b, c) (d, e, f) (g, h, i) p q = ground arith

rank_lt_irrefl : (x : Rank) → rank_lt x x ≡ false
rank_lt_irrefl (a, b, c) = ground arith

position→line :
    (m : ExpectedAssertion) (line : ℕ) (column : Option ℕ)
    → expected_contains_position m line column ≡ true
    → expected_contains_line m line ≡ true
unfolding expected_contains_position
position→line m line column h = elim (Bool-cases (expected_contains_line m line)) [
  | inl e ↦ e
  | inr e ↦ absurd (false≢true (rw e at h))
]

-- `m` does not rank before `ea`.
abbrev pub NotBefore : ExpectedAssertion → ExpectedAssertion → Type 0
NotBefore m ea = rank_lt (expected_rank m) (expected_rank ea) ≡ false

-- The better of two, as each round of `min_by_key` keeps it.
abbrev better : ExpectedAssertion → ExpectedAssertion → ExpectedAssertion
better best ea = if rank_lt (expected_rank ea) (expected_rank best) then ea else best

better-either : (best ea : ExpectedAssertion) → (better best ea ≡ best) ⊎ (better best ea ≡ ea)
better-either best ea = elim (Bool-cases (rank_lt (expected_rank ea) (expected_rank best))) [
  | inl e ↦ rw e (inr refl)
  | inr e ↦ rw e (inl refl)
]

better-NotBefore :
    (best ea m : ExpectedAssertion) → NotBefore m best ⊎ (ea ≡ m) → NotBefore m (better best ea)
better-NotBefore best ea m h = elim (Bool-cases (rank_lt (expected_rank ea) (expected_rank best))) [
  | inl e ↦ rw e (elim h [
    | inl old ↦ rank_lt_trans (expected_rank best) (expected_rank ea) (expected_rank m) e old
    | inr eq ↦ rw (← eq) (rank_lt_irrefl (expected_rank ea))
  ])
  | inr e ↦ rw e (elim h [ inl old ↦ old | inr eq ↦ rw (← eq) e ])
]

min_from-Member :
    (best : ExpectedAssertion) (eas : List ExpectedAssertion)
    → Member (min_from best eas) (best ∷ eas)
min_from-Member best [] = inl refl
min_from-Member best (ea ∷ eas) = elim (min_from-Member (better best ea) eas) [
  | inr later ↦ inr (inr later)
  | inl here ↦ elim (better-either best ea) [
    | inl eq ↦ inl (sym eq ∙ here)
    | inr eq ↦ inr (inl (sym eq ∙ here))
  ]
]

min_from-NotBefore :
    (best : ExpectedAssertion) (eas : List ExpectedAssertion) (m : ExpectedAssertion)
    → NotBefore m best ⊎ Member m eas
    → NotBefore m (min_from best eas)
min_from-NotBefore best [] m (inl h) = h
min_from-NotBefore best [] m (inr h) = absurd h
min_from-NotBefore best (ea ∷ eas) m (inl h) =
    min_from-NotBefore (better best ea) eas m (inl (better-NotBefore best ea m (inl h)))
min_from-NotBefore best (ea ∷ eas) m (inr (inl h)) =
    min_from-NotBefore (better best ea) eas m (inl (better-NotBefore best ea m (inr h)))
min_from-NotBefore best (ea ∷ eas) m (inr (inr h)) =
    min_from-NotBefore (better best ea) eas m (inr h)

-- The choice by rank: it is one of the list, and nothing of the list ranks before it.
IsLeast : List ExpectedAssertion → ExpectedAssertion → ExpectedAssertion → Type 0
IsLeast eas m ea = (min_by_rank eas ≡ some ea) × Member ea eas × NotBefore m ea

min_by_rank-IsLeast :
    (eas : List ExpectedAssertion) (m : ExpectedAssertion)
    → Member m eas
    → (ea : ExpectedAssertion) × IsLeast eas m ea
unfolding IsLeast
min_by_rank-IsLeast [] m h = absurd h
min_by_rank-IsLeast (best ∷ eas) m (inl h) = (
  min_from best eas,
  (
    refl,
    min_from-Member best eas,
    min_from-NotBefore best eas m (inl (rw (← h) (rank_lt_irrefl (expected_rank best)))),
  ),
)
min_by_rank-IsLeast (best ∷ eas) m (inr h) =
    (min_from best eas, (refl, min_from-Member best eas, min_from-NotBefore best eas m (inr h)))

-- Where the worker reports a column and some assertion spans that position, the one selected spans
-- it too, and no assertion that spans it ranks before it: by lines, by length and by start column.
pub select_expected_assertion-least :
    (eas : List ExpectedAssertion) (wire : AssertionWire) (column : ℕ) (m : ExpectedAssertion)
    → wire.column ≡ some column
    → Member m eas
    → expected_contains_position m wire.line (some column) ≡ true
    → (ea : ExpectedAssertion) × (select_expected_assertion eas wire ≡ some ea)
      × Member ea eas
      × (expected_contains_position ea wire.line (some column) ≡ true)
      × NotBefore m ea
unfolding select_expected_assertion choose IsLeast
select_expected_assertion-least eas wire column m at_column member spans =
    let on_line : ExpectedAssertion → Bool = λ ea. expected_contains_line ea wire.line in
    let at_position : ExpectedAssertion → Bool =
      λ ea. expected_contains_position ea wire.line (some column) in
    let candidates = filter at_position (filter on_line eas) in
    let (ea, (chosen, among, least)) = min_by_rank-IsLeast candidates m (
      filter-Member at_position m (filter on_line eas)
        (filter-Member on_line m eas member (position→line m wire.line (some column) spans))
        spans) in
    let (lined, fits) = Member-filter at_position ea (filter on_line eas) among in
    (ea, rw (at_column, choose) (rw chosen), (Member-filter on_line ea eas lined).0, fits, least)
