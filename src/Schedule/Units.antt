-- ===== src/Schedule/Units.antt =====
-- crates/tryke_runner/src/schedule.rs: the data of the scheduler, and its groupings.
use mathlib.Core.Option as Option
use tryke.Prelude.{List, [], ◌∷◌, map, Option, Text, nat_eq, list_eq, option_eq, pair_eq, head?}
use tryke.Paths.{Component, components, component_eq}
use tryke.Types.{TestItem, HookItem, DiscoveryWarning}
use tryke.Schedule.Grouping.{group_by}

pub data DistMode : Type 0 where
  by_test by_file by_group : DistMode

pub record WorkUnit : Type 0 where
  pub tests : List TestItem
  pub hooks : List HookItem

pub record PartitionResult : Type 0 where
  pub units : List WorkUnit
  pub warnings : List DiscoveryWarning

abbrev pub unit_of : List TestItem → WorkUnit
unit_of tests = record { tests = tests; hooks = [] }

-- The keys of the two `IndexMap`s: paths are compared by their components.
abbrev pub FileKey : Type 0
FileKey = Option (List Component)

abbrev pub file_key : TestItem → FileKey
file_key t = Option.map components t.file_path

abbrev pub group_key : TestItem → FileKey × Option Text
group_key t = (file_key t, head? t.groups)

unfoldable pub group_by_file : List TestItem → List WorkUnit
group_by_file tests = map (λ g. unit_of g.1) (group_by file_key tests)

unfoldable pub group_by_describe : List TestItem → List WorkUnit
group_by_describe tests = map (λ g. unit_of g.1) (group_by group_key tests)

-- `tests.into_iter().map(|t| WorkUnit { tests: vec![t], hooks: vec![] })`
unfoldable pub one_each : List TestItem → List WorkUnit
one_each tests = map (λ t. unit_of (t ∷ [])) tests
