-- ===== src/Schedule/Samples.antt =====
-- A small run for the scheduler: what it plans, and its theorems at that run.
use mathlib.Core.List.{Perm}
use tryke.Prelude.{
  distinct, contains, text_le, decimal, join, ℕ, ◌≡◌, refl, List, [], ◌∷◌, map, filter, String,
  Text, codes, none, some, All,
}
use tryke.Paths.{components}
use tryke.Prelude.Sort.{IsSorted}
use tryke.Types.{TestItem, HookItem, FixturePer, per_test, per_scope, default_item}
use tryke.Schedule.Grouping.{group_by}
use tryke.Schedule.Units.{
  DistMode, by_test, by_file, by_group, group_by_file, group_by_describe, one_each,
}
use tryke.Schedule.{
  plan, attach_all, larger_first, partition_with_hooks, constrained_modules,
  file_constrained_modules,
}
use tryke.Schedule.Complete.{tests_of, partition_with_hooks-perm}
use tryke.Schedule.Sizes.{has_size, unsorted, partition_with_hooks-IsSorted}
use tryke.Schedule.Keeping.{Keeps, same_file, same_group}
use tryke.Schedule.Together.{partition_with_hooks-Keeps_file, partition_with_hooks-Keeps_group}
use tryke.Schedule.Fixtures.{CarriesHooks, partition_with_hooks-CarriesHooks}

abbrev item : String → String → String → List Text → TestItem
item file mod_path name groups = record default_item {
  name = codes name;
  module_path = codes mod_path;
  file_path = some (codes file);
  groups = groups;
}

abbrev math : List Text
math = codes "math" ∷ []

abbrev given : List TestItem
given =
    item "b.py" "b" "free" []
    ∷ item "a.py" "a" "add" math
    ∷ item "a.py" "a" "plain" []
    ∷ item "./a.py" "a" "sub" math
    ∷ []

abbrev hook : FixturePer → List Text → HookItem
hook per groups = record {
  name = codes "db";
  module_path = codes "a";
  per = per;
  groups = groups;
  depends_on = [];
  line_number = none;
}

abbrev file_hooks : List HookItem
file_hooks = hook per_test [] ∷ hook per_scope [] ∷ []

abbrev group_hooks : List HookItem
group_hooks = hook per_scope math ∷ []

abbrev names : DistMode → List HookItem → List (List Text)
names mode hooks =
    map (λ u. map (λ t. t.name) u.tests) (partition_with_hooks given hooks mode).units

scheduler : Unit {0}
unfolding partition_with_hooks plan attach_all group_by_file group_by_describe one_each group_by
    distinct contains constrained_modules file_constrained_modules components text_le decimal join
scheduler = tt

-- A path that starts with `./` is another key, here as in the source.
upgrade_to_file :
    names by_test file_hooks
    ≡ (codes "add" ∷ codes "plain" ∷ []) ∷ (codes "free" ∷ []) ∷ (codes "sub" ∷ []) ∷ []
unfolding scheduler
upgrade_to_file = refl

partition_with_hooks-perm_example :
    Perm (tests_of (partition_with_hooks given file_hooks by_test).units) given
partition_with_hooks-perm_example = partition_with_hooks-perm given file_hooks by_test

partition_with_hooks-IsSorted_example :
    IsSorted larger_first (partition_with_hooks given group_hooks by_group).units
    × ((n : ℕ)
        → filter (has_size n) (partition_with_hooks given group_hooks by_group).units
          ≡ filter (has_size n) (unsorted given group_hooks by_group))
partition_with_hooks-IsSorted_example = partition_with_hooks-IsSorted given group_hooks by_group

partition_with_hooks-Keeps_file_example :
    All (Keeps same_file (codes "a") given) (partition_with_hooks given file_hooks by_group).units
partition_with_hooks-Keeps_file_example =
    partition_with_hooks-Keeps_file given file_hooks by_group (codes "a") refl
      (unfold contains in refl)

partition_with_hooks-Keeps_group_example :
    All (Keeps same_group (codes "a") given) (partition_with_hooks given group_hooks by_test).units
partition_with_hooks-Keeps_group_example =
    partition_with_hooks-Keeps_group given group_hooks by_test (codes "a") refl
      (unfold contains in refl)

partition_with_hooks-CarriesHooks_example :
    All (CarriesHooks file_hooks) (partition_with_hooks given file_hooks by_file).units
partition_with_hooks-CarriesHooks_example =
    partition_with_hooks-CarriesHooks given file_hooks by_file
