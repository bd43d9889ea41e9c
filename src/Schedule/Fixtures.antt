-- ===== src/Schedule/Fixtures.antt =====
-- crates/tryke_runner/src/schedule.rs: the hooks that a unit carries.
use tryke.Prelude.{
  contains, ◌≡◌, refl, List, [], ◌∷◌, map, filter, Text, list_eq, nat_eq, All, All-map, All-append,
  All-mono,
}
use tryke.Prelude.Sort.{All-sort_by}
use tryke.Types.{TestItem, HookItem}
use tryke.Schedule.Units.{
  DistMode, by_test, by_file, by_group, WorkUnit, unit_of, group_by_file, group_by_describe,
  one_each,
}
use tryke.Schedule.{
  upgrade_test, upgrade_group, as_asked, plan, attach_hooks, attach_all, larger_first,
  partition_with_hooks,
}

abbrev IsBare : WorkUnit → Type 0
IsBare u = u.hooks ≡ []

units_of-IsBare {ℓ} :
    {K : Type ℓ} (m : List (K × List TestItem)) → All IsBare (map (λ g. unit_of g.1) m)
units_of-IsBare [] = tt
units_of-IsBare (g ∷ m) = (refl, units_of-IsBare m)

one_each-IsBare : (ts : List TestItem) → All IsBare (one_each ts)
unfolding one_each
one_each-IsBare [] = tt
one_each-IsBare (t ∷ ts) = (refl, one_each-IsBare ts)

files-IsBare : (ts : List TestItem) → All IsBare (group_by_file ts)
unfolding group_by_file
files-IsBare ts = units_of-IsBare _

groups-IsBare : (ts : List TestItem) → All IsBare (group_by_describe ts)
unfolding group_by_describe
groups-IsBare ts = units_of-IsBare _

plan-IsBare :
    (mode : DistMode) (ts : List TestItem) (cm fm : List Text)
    → All IsBare (plan mode ts cm fm).units
unfolding plan upgrade_test upgrade_group as_asked
plan-IsBare by_test ts [] fm = one_each-IsBare ts
plan-IsBare by_test ts (c ∷ cm) [] =
    All-append IsBare (one_each _) _ (one_each-IsBare _) (groups-IsBare _)
plan-IsBare by_test ts (c ∷ cm) (f ∷ fm) =
    All-append IsBare (one_each _) _ (one_each-IsBare _) (files-IsBare _)
plan-IsBare by_file ts cm fm = files-IsBare ts
plan-IsBare by_group ts cm [] = groups-IsBare ts
plan-IsBare by_group ts cm (f ∷ fm) =
    All-append IsBare (group_by_describe _) _ (groups-IsBare _) (files-IsBare _)

-- The unit's hooks are those of `hooks` whose module has a test in the unit, in their order.
abbrev pub CarriesHooks : List HookItem → WorkUnit → Type 0
CarriesHooks hooks u =
    u.hooks ≡ filter (λ h. contains (map (λ t. t.module_path) u.tests) h.module_path) hooks

attach_all-CarriesHooks :
    (hooks : List HookItem) (us : List WorkUnit)
    → All IsBare us
    → All (CarriesHooks hooks) (attach_all hooks us)
unfolding attach_all attach_hooks
attach_all-CarriesHooks [] us h = h
attach_all-CarriesHooks (k ∷ hooks) us h =
    All-map (CarriesHooks (k ∷ hooks)) (attach_hooks (k ∷ hooks)) us (All-mono (λ u _. refl) us h)

-- Every unit carries exactly the hooks of the modules of its tests, in the order of discovery.
pub partition_with_hooks-CarriesHooks :
    (tests : List TestItem) (hooks : List HookItem) (mode : DistMode)
    → All (CarriesHooks hooks) (partition_with_hooks tests hooks mode).units
unfolding partition_with_hooks
partition_with_hooks-CarriesHooks tests hooks mode =
    All-sort_by larger_first (CarriesHooks hooks) _
      (attach_all-CarriesHooks hooks _ (plan-IsBare mode tests _ _))
