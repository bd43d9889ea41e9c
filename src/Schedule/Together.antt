-- ===== src/Schedule/Together.antt =====
-- crates/tryke_runner/src/schedule.rs: tests that share a cached fixture stay in one unit.
use tryke.Prelude.{
  contains-distinct, contains-filter, contains, any, All-append, All-map, ◌≡◌, refl, ap, Bool,
  Bool-cases, inl, inr, true, false, ◌&&◌, List, [], ◌∷◌, map, filter, is_empty, Text, ◌==◌, nat_eq,
  list_eq, option_eq, pair_eq, ==→eq, arith, All, All-map, All-append,
}
use tryke.Prelude.Sort.{All-sort_by}
use tryke.Paths.{component_eq}
use tryke.Types.{constrains_scheduling, TestItem, HookItem}
use tryke.Schedule.Units.{
  DistMode, by_test, by_file, by_group, WorkUnit, file_key, group_key, group_by_file,
  group_by_describe, one_each,
}
use tryke.Schedule.{
  modules_in_run, within, upgrade_test, upgrade_group, as_asked, plan, attach_hooks, attach_all,
  larger_first, constrained_modules, file_constrained_modules, partition_with_hooks,
}
use tryke.Schedule.Keeping.{
  Keeps, same_file, same_group, Covers, free, slices-Keep, Covers-all, Covers-within, free-IsAway,
  held-IsAway, Covers-free, one_each-Keeps, slices-Free,
}

module _ (near : TestItem → TestItem → Bool) (m : Text) (tests : List TestItem) where
  module _ (finer_file : (a b : TestItem) → near a b ≡ true → file_key b ≡ file_key a) where
    file-Keeps :
        (held : List TestItem)
        → Covers near m tests held
        → All (Keeps near m tests) (group_by_file held)
    unfolding group_by_file
    file-Keeps = slices-Keep near m tests file_key finer_file

    -- What `near` needs of a distribution by groups: a module without a file-wide fixture.
    abbrev FinerGroup : List Text → Type 0
    FinerGroup fm =
        contains fm m ≡ false → (a b : TestItem) → near a b ≡ true → group_key b ≡ group_key a

    upgrade_test-Keep :
        (cm fm : List Text)
        → contains cm m ≡ true
        → FinerGroup fm
        → All (Keeps near m tests) (upgrade_test tests cm fm).units
    unfolding upgrade_test contains group_by_describe
    upgrade_test-Keep cm [] in_cm finer =
        All-append _ (one_each (free near m tests cm)) _
          (one_each-Keeps near m tests (free near m tests cm) (free-IsAway near m tests cm in_cm))
          (slices-Keep near m tests group_key (finer refl) (filter (within cm) tests)
            (Covers-within near m tests cm in_cm))
    upgrade_test-Keep cm (f ∷ fm) in_cm finer =
        All-append _ (one_each (free near m tests cm)) _
          (one_each-Keeps near m tests (free near m tests cm) (free-IsAway near m tests cm in_cm))
          (file-Keeps (filter (within cm) tests) (Covers-within near m tests cm in_cm))

    upgrade_group-Keep :
        (fm : List Text) → FinerGroup fm → All (Keeps near m tests) (upgrade_group tests fm).units
    unfolding upgrade_group group_by_describe group_by_file
    upgrade_group-Keep fm finer = elim (Bool-cases (contains fm m)) [
      | inl h ↦
          All-append _ (group_by_describe (free near m tests fm)) _
            (slices-Free near m tests group_key (free near m tests fm)
              (free-IsAway near m tests fm h))
            (file-Keeps (filter (within fm) tests) (Covers-within near m tests fm h))
      | inr h ↦
          All-append _ (group_by_describe (free near m tests fm)) _
            (slices-Keep near m tests group_key (finer h) (free near m tests fm)
              (Covers-free near m tests fm h))
            (slices-Free near m tests file_key (filter (within fm) tests)
              (held-IsAway near m tests fm h))
    ]

    plan-Keep :
        (mode : DistMode) (cm fm : List Text)
        → contains cm m ≡ true
        → FinerGroup fm
        → All (Keeps near m tests) (plan mode tests cm fm).units
    unfolding plan as_asked contains group_by_describe
    plan-Keep by_test [] fm in_cm finer = cc
    plan-Keep by_test (c ∷ cm) fm in_cm finer = upgrade_test-Keep (c ∷ cm) fm in_cm finer
    plan-Keep by_file cm fm in_cm finer = file-Keeps tests (Covers-all near m tests)
    plan-Keep by_group cm [] in_cm finer =
        slices-Keep near m tests group_key (finer refl) tests (Covers-all near m tests)
    plan-Keep by_group cm (f ∷ fm) in_cm finer = upgrade_group-Keep (f ∷ fm) finer

    -- The hooks and the final order change nothing.
    attach_all-Keep :
        (hooks : List HookItem) (us : List WorkUnit)
        → All (Keeps near m tests) us
        → All (Keeps near m tests) (attach_all hooks us)
    unfolding attach_all attach_hooks
    attach_all-Keep [] us h = h
    attach_all-Keep (k ∷ hooks) us h = All-map _ (attach_hooks (k ∷ hooks)) us h

    partition-Keep :
        (hooks : List HookItem) (mode : DistMode)
        → contains (constrained_modules tests hooks) m ≡ true
        → FinerGroup (file_constrained_modules tests hooks)
        → All (Keeps near m tests) (partition_with_hooks tests hooks mode).units
    unfolding partition_with_hooks
    partition-Keep hooks mode in_cm finer =
        All-sort_by larger_first _ _ (attach_all-Keep hooks _ (plan-Keep mode _ _ in_cm finer))

contains-map-filter :
    (p : HookItem → Bool) (hooks : List HookItem) (m : Text)
    → contains (map (λ h. h.module_path) (filter p hooks)) m
      ≡ any (λ h. p h && h.module_path == m) hooks
unfolding contains
contains-map-filter p [] m = refl
contains-map-filter p (h ∷ hooks) m = ground (arith, contains-map-filter p hooks m)

modules_in_run_lem :
    (p : HookItem → Bool) (tests : List TestItem) (hooks : List HookItem) (m : Text)
    → any (λ h. p h && h.module_path == m) hooks ≡ true
    → contains (map (λ t. t.module_path) tests) m ≡ true
    → contains (modules_in_run tests (filter p hooks)) m ≡ true
modules_in_run_lem p tests hooks m some_hook some_test = rw (
  contains-distinct
      (filter (contains (map (λ t. t.module_path) tests))
        (map (λ h. h.module_path) (filter p hooks)))
      m,
  contains-filter (contains (map (λ t. t.module_path) tests))
      (map (λ h. h.module_path) (filter p hooks)) m,
  contains-map-filter p hooks m,
  some_hook,
  some_test,
)

-- A fixture of module `m` that is cached for a scope, inside a `describe` or not.
abbrev pub has_scope_fixture : Text → List HookItem → Bool
has_scope_fixture m hooks = any (λ h. constrains_scheduling h.per && h.module_path == m) hooks

-- One that is cached for the whole file.
abbrev pub has_file_fixture : Text → List HookItem → Bool
has_file_fixture m hooks =
    any (λ h. (constrains_scheduling h.per && is_empty h.groups) && h.module_path == m) hooks

has_file→has_scope :
    (m : Text) (hooks : List HookItem)
    → has_file_fixture m hooks ≡ true
    → has_scope_fixture m hooks ≡ true
has_file→has_scope m [] h = cc
has_file→has_scope m (k ∷ hooks) h = ground (arith, has_file→has_scope m hooks)

in_constrained :
    (tests : List TestItem) (hooks : List HookItem) (m : Text)
    → has_scope_fixture m hooks ≡ true
    → contains (map (λ t. t.module_path) tests) m ≡ true
    → contains (constrained_modules tests hooks) m ≡ true
unfolding constrained_modules
in_constrained tests hooks m = modules_in_run_lem _ tests hooks m

in_file_constrained :
    (tests : List TestItem) (hooks : List HookItem) (m : Text)
    → has_file_fixture m hooks ≡ true
    → contains (map (λ t. t.module_path) tests) m ≡ true
    → contains (file_constrained_modules tests hooks) m ≡ true
unfolding file_constrained_modules
in_file_constrained tests hooks m = modules_in_run_lem _ tests hooks m

-- Where a module with tests in the run has a fixture cached for the file, a unit with one of its
-- tests has all tests of that file and module, in the order of the run, in every distribution mode.
pub partition_with_hooks-Keeps_file :
    (tests : List TestItem) (hooks : List HookItem) (mode : DistMode) (m : Text)
    → has_file_fixture m hooks ≡ true
    → contains (map (λ t. t.module_path) tests) m ≡ true
    → All (Keeps same_file m tests) (partition_with_hooks tests hooks mode).units
partition_with_hooks-Keeps_file tests hooks mode m fixture run =
    partition-Keep same_file m tests (λ a b h. ==→eq (file_key b) (file_key a) h) hooks mode
      (in_constrained tests hooks m (has_file→has_scope m hooks fixture) run)
      (λ h. cc (in_file_constrained tests hooks m fixture run))

-- Where a module with tests in the run has a cached fixture of any scope, a unit with one of its
-- tests has all tests of that file, outermost group and module, in the order of the run, in every
-- distribution mode.
pub partition_with_hooks-Keeps_group :
    (tests : List TestItem) (hooks : List HookItem) (mode : DistMode) (m : Text)
    → has_scope_fixture m hooks ≡ true
    → contains (map (λ t. t.module_path) tests) m ≡ true
    → All (Keeps same_group m tests) (partition_with_hooks tests hooks mode).units
partition_with_hooks-Keeps_group tests hooks mode m fixture run =
    partition-Keep same_group m tests (λ a b h. ap (λ k. k.0) (==→eq (group_key b) (group_key a) h))
      hooks mode (in_constrained tests hooks m fixture run)
      (λ _ a b h. ==→eq (group_key b) (group_key a) h)
