-- ===== src/Schedule/Keeping.antt =====
-- crates/tryke_runner/src/schedule.rs: what a list of units keeps together, and the units made of
-- slices of a list.
use tryke.Prelude.{
  contains, ◌≡◌, ◌≢◌, refl, sym, ◌∙◌, ap, subst, Bool, Bool-cases, inl, inr, true, false, not, ◌&&◌,
  List, [], ◌∷◌, map, filter, Text, Eq, ◌==◌, nat_eq, list_eq, option_eq, pair_eq, ==→eq, arith,
  All, All-mono, All-filter, filter-filter_implied,
}
use tryke.Paths.{component_eq}
use tryke.Types.{TestItem}
use tryke.Schedule.Grouping.{group_by, group_by-eq-entries, entries, same}
use tryke.Schedule.Units.{WorkUnit, unit_of, file_key, group_key, one_each}
use tryke.Schedule.{within}

-- For each test of the unit that is of module `m`, the unit has all the tests of that module that
-- `near` says belong with it, in the order of the run.
abbrev pub Keeps : (TestItem → TestItem → Bool) → Text → List TestItem → WorkUnit → Type 0
Keeps near m tests u =
    All
      (λ a.
        a.module_path ≡ m
        → filter (λ b. near a b && b.module_path == m) u.tests
          ≡ filter (λ b. near a b && b.module_path == m) tests)
      u.tests

abbrev pub same_file : TestItem → TestItem → Bool
same_file a b = file_key b == file_key a

abbrev pub same_group : TestItem → TestItem → Bool
same_group a b = group_key b == group_key a

module _ {K : Type 0} ⦃e : Eq K⦄ (key : TestItem → K) where
  -- A unit is a slice of `held` when it has the tests of one key.
  abbrev IsSlice : List TestItem → WorkUnit → Type 0
  IsSlice held u = (k : K) × (u.tests ≡ filter (same key k) held)

  slices :
      (held : List TestItem) (ks : List K)
      → All (IsSlice held) (map (λ g. unit_of g.1) (entries key ks held))
  slices held [] = tt
  slices held (k ∷ ks) = ((k, refl), slices held ks)

  group_by-slices :
      (held : List TestItem) → All (IsSlice held) (map (λ g. unit_of g.1) (group_by key held))
  group_by-slices held = rw (group_by-eq-entries key held) (slices held _)

All-filter_of {ℓ} :
    {A : Type 0} (P : A → Type ℓ) (p : A → Bool) (ts : List A) → All P ts → All P (filter p ts)
All-filter_of P p [] h = tt
All-filter_of P p (t ∷ ts) h = elim (Bool-cases (p t)) [
  | inl e ↦ rw e (h.0, All-filter_of P p ts h.1)
  | inr e ↦ rw e (All-filter_of P p ts h.1)
]

module _ (near : TestItem → TestItem → Bool) (m : Text) (tests : List TestItem) where
  -- A list that has all that the run has of the module.
  abbrev pub Covers : List TestItem → Type 0
  Covers held =
      (q : TestItem → Bool)
      → ((b : TestItem) → q b ≡ true → b.module_path ≡ m)
      → filter q held ≡ filter q tests

  slice-Keeps :
      {K : Type 0} ⦃e : Eq K⦄ (key : TestItem → K)
      → ((a b : TestItem) → near a b ≡ true → key b ≡ key a)
      → (held : List TestItem) → Covers held
      → (u : WorkUnit) → IsSlice key held u
      → Keeps near m tests u
  slice-Keeps ⦃e⦄ key finer held covers u (k, h) =
      All-mono
        (λ a at_k at_m.
          ap (filter (nearby a)) h
          ∙ (filter-filter_implied (nearby a) (same key k) held (λ b both.
                (e.beq_iff (key b) k).1 (finer a b (ground (arith, both)) ∙ ==→eq (key a) k at_k))
              ∙ covers (nearby a) (λ b both. ==→eq b.module_path m (ground (arith, both)))))
        u.tests (subst (All (λ a. same key k a ≡ true)) (sym h) (All-filter (same key k) held))
    where
      nearby : TestItem → TestItem → Bool
      nearby a b = near a b && b.module_path == m

  pub slices-Keep :
      {K : Type 0} ⦃e : Eq K⦄ (key : TestItem → K)
      → ((a b : TestItem) → near a b ≡ true → key b ≡ key a)
      → (held : List TestItem) → Covers held
      → All (Keeps near m tests) (map (λ g. unit_of g.1) (group_by key held))
  slices-Keep key finer held covers =
      All-mono (slice-Keeps key finer held covers) _ (group_by-slices key held)

  pub Covers-all : Covers tests
  Covers-all q h = refl

  pub Covers-within :
      (modules : List Text) → contains modules m ≡ true → Covers (filter (within modules) tests)
  Covers-within modules h q only =
      filter-filter_implied q (within modules) tests (λ b e. rw (only b e) h)

  -- A unit with no test of the module has nothing to keep.
  abbrev IsFree : WorkUnit → Type 0
  IsFree u = All (λ a. a.module_path ≢ m) u.tests

  IsFree-Keeps : (u : WorkUnit) → IsFree u → Keeps near m tests u
  IsFree-Keeps u = All-mono (λ a away at_m. absurd (away at_m)) u.tests

  away :
      (modules : List Text)
      → contains modules m ≡ true
      → (a : TestItem) → not (within modules a) ≡ true
      → a.module_path ≢ m
  away modules h a free at_m = ground (arith, ap (contains modules) at_m)

  abbrev pub free : List Text → List TestItem
  free modules = filter (λ t. not (within modules t)) tests

  pub free-IsAway :
      (modules : List Text)
      → contains modules m ≡ true
      → All (λ a. a.module_path ≢ m) (free modules)
  free-IsAway modules h =
      All-mono (away modules h) _ (All-filter (λ t. not (within modules t)) tests)

  pub held-IsAway :
      (modules : List Text)
      → contains modules m ≡ false
      → All (λ a. a.module_path ≢ m) (filter (within modules) tests)
  held-IsAway modules h =
      All-mono (λ a inside at_m. ground (arith, ap (contains modules) at_m)) _
        (All-filter (within modules) tests)

  pub Covers-free : (modules : List Text) → contains modules m ≡ false → Covers (free modules)
  Covers-free modules h q only =
      filter-filter_implied q (λ t. not (within modules t)) tests (λ b e. rw (only b e, h))

  pub one_each-Keeps :
      (ts : List TestItem)
      → All (λ a. a.module_path ≢ m) ts
      → All (Keeps near m tests) (one_each ts)
  unfolding one_each
  one_each-Keeps [] h = tt
  one_each-Keeps (t ∷ ts) h = (((λ at_m. absurd (h.0 at_m)), tt), one_each-Keeps ts h.1)

  pub slices-Free :
      {K : Type 0} ⦃e : Eq K⦄ (key : TestItem → K) (ts : List TestItem)
      → All (λ a. a.module_path ≢ m) ts
      → All (Keeps near m tests) (map (λ g. unit_of g.1) (group_by key ts))
  slices-Free key ts h =
      All-mono
        (λ u (k, e). IsFree-Keeps u (subst (All _) (sym e) (All-filter_of _ (same key k) ts h))) _
        (group_by-slices key ts)
