-- ===== src/Schedule.antt =====
-- crates/tryke_runner/src/schedule.rs: the tests of a run are partitioned into the units of work
-- that the workers pull. `IndexMap`s are association lists in insertion order, and the sets of
-- module names are lists of distinct names, which the source reads by membership, by size and
-- sorted.
pub mod Grouping
pub mod Units
pub mod Complete
pub mod Sizes
pub mod Keeping
pub mod Together
pub mod Fixtures
mod Samples
use tryke.Prelude.{
  distinct, contains, ℕ, Bool, true, false, ◌&&◌, not, List, [], ◌∷◌, ◌++◌, map, Text, codes,
  decimal, join, text_le, list_eq, nat_eq, if◌then◌else◌, leb, length, filter, is_empty,
}
use tryke.Prelude.Sort.{sort_by}
use tryke.Types.{
  TestItem, HookItem, constrains_scheduling, DiscoveryWarning, DiscoveryWarningKind,
  dist_mode_upgrade,
}
use Units.{
  DistMode, by_test, by_file, by_group, WorkUnit, PartitionResult, group_by_file, group_by_describe,
  one_each,
}

-- The modules of `hooks` that have tests in the run, each once.
abbrev pub modules_in_run : List TestItem → List HookItem → List Text
modules_in_run tests hooks =
    distinct (filter (contains (map (λ t. t.module_path) tests)) (map (λ h. h.module_path) hooks))

pub constrained_modules : List TestItem → List HookItem → List Text
constrained_modules tests hooks =
    modules_in_run tests (filter (λ h. constrains_scheduling h.per) hooks)

pub file_constrained_modules : List TestItem → List HookItem → List Text
file_constrained_modules tests hooks =
    modules_in_run tests (filter (λ h. constrains_scheduling h.per && is_empty h.groups) hooks)

abbrev pub within : List Text → TestItem → Bool
within modules t = contains modules t.module_path

upgrade_warning : Text → DiscoveryWarning
upgrade_warning message = record { file_path = []; kind = dist_mode_upgrade; message = message }

test_upgrade_message : Text → List Text → Text
test_upgrade_message upgraded_to affected =
    codes "scheduler: upgrading --dist test → "
    ++ (upgraded_to
        ++ (codes " for "
            ++ (decimal (length affected)
                ++ (codes " module(s) because of per=\"scope\" fixtures ("
                    ++ (join (codes ", ") affected
                        ++ codes
                            "). Move the fixture into a describe() to keep finer-grained distribution.")))))

group_upgrade_message : List Text → Text
group_upgrade_message affected =
    codes "scheduler: upgrading --dist group → file for "
    ++ (decimal (length affected)
        ++ (codes " module(s) because of file-scope per=\"scope\" fixtures ("
            ++ (join (codes ", ") affected
                ++ codes
                    "). Move the fixture into a describe() to keep group-level distribution.")))

-- The first branch of `partition_with_hooks`: `--dist test` with fixtures that need more.
upgrade_test : List TestItem → List Text → List Text → PartitionResult
upgrade_test tests constrained file_constrained =
    let free = filter (λ t. not (within constrained t)) tests in
    let held = filter (within constrained) tests in
    let grouped = is_empty file_constrained in
    record {
      units = one_each free ++ (if grouped then group_by_describe held else group_by_file held);
      warnings =
          upgrade_warning (
            test_upgrade_message (if grouped then codes "group" else codes "file")
              (sort_by text_le constrained))
          ∷ [];
    }

-- The second branch: `--dist group` with fixtures that need whole files.
upgrade_group : List TestItem → List Text → PartitionResult
upgrade_group tests file_constrained = record {
  units =
      group_by_describe (filter (λ t. not (within file_constrained t)) tests)
      ++ group_by_file (filter (within file_constrained) tests);
  warnings = upgrade_warning (group_upgrade_message (sort_by text_le file_constrained)) ∷ [];
}

as_asked : DistMode → List TestItem → PartitionResult
as_asked by_test tests = record { units = one_each tests; warnings = [] }
as_asked by_file tests = record { units = group_by_file tests; warnings = [] }
as_asked by_group tests = record { units = group_by_describe tests; warnings = [] }

-- The three branches, before hooks are attached and the units are sorted.
pub plan : DistMode → List TestItem → List Text → List Text → PartitionResult
unfolding upgrade_test upgrade_group as_asked
plan by_test tests constrained file_constrained =
    if is_empty constrained
    then as_asked by_test tests
    else upgrade_test tests constrained file_constrained
plan by_group tests constrained file_constrained =
    if is_empty file_constrained
    then as_asked by_group tests
    else upgrade_group tests file_constrained
plan by_file tests constrained file_constrained = as_asked by_file tests

attach_hooks : List HookItem → WorkUnit → WorkUnit
attach_hooks hooks u = record u {
  hooks = filter (λ h. contains (map (λ t. t.module_path) u.tests) h.module_path) hooks;
}

pub attach_all : List HookItem → List WorkUnit → List WorkUnit
unfolding attach_hooks
attach_all hooks units = if is_empty hooks then units else map (attach_hooks hooks) units

-- `b.tests.len().cmp(&a.tests.len())`: `a` may stand before `b`.
abbrev pub larger_first : WorkUnit → WorkUnit → Bool
larger_first a b = leb (length b.tests) (length a.tests)

pub partition_with_hooks : List TestItem → List HookItem → DistMode → PartitionResult
unfolding plan attach_all
partition_with_hooks tests hooks mode =
    let planned =
      plan mode tests (constrained_modules tests hooks) (file_constrained_modules tests hooks) in
    record planned { units = sort_by larger_first (attach_all hooks planned.units) }

pub partition : List TestItem → DistMode → List WorkUnit
unfolding partition_with_hooks
partition tests mode = (partition_with_hooks tests [] mode).units
