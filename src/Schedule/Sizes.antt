-- ===== src/Schedule/Sizes.antt =====
-- crates/tryke_runner/src/schedule.rs: the final sort, largest units first.
use tryke.Prelude.{ℕ, ◌≡◌, Bool, true, false, List, filter, length, ◌==◌, nat_eq, arith}
use tryke.Prelude.Sort.{IsSorted, sort_by-IsSorted, filter-sort_by}
use tryke.Types.{TestItem, HookItem}
use tryke.Schedule.Units.{DistMode, WorkUnit}
use tryke.Schedule.{
  constrained_modules, file_constrained_modules, plan, attach_all, larger_first,
  partition_with_hooks,
}

larger_first_total : (a b : WorkUnit) → larger_first a b ≡ false → larger_first b a ≡ true
larger_first_total a b h = ground arith

larger_first_trans :
    (a b c : WorkUnit) → larger_first a b ≡ true → larger_first b c ≡ true → larger_first a c ≡ true
larger_first_trans a b c h k = ground arith

-- The units as planned and given their hooks, before the sort.
abbrev pub unsorted : List TestItem → List HookItem → DistMode → List WorkUnit
unsorted tests hooks mode =
    let planned =
      plan mode tests (constrained_modules tests hooks) (file_constrained_modules tests hooks) in
    attach_all hooks planned.units

abbrev pub has_size : ℕ → WorkUnit → Bool
has_size n u = length u.tests == n

-- No unit is smaller than one behind it, and units of one size keep the order in which they were
-- planned.
pub partition_with_hooks-IsSorted :
    (tests : List TestItem) (hooks : List HookItem) (mode : DistMode)
    → IsSorted larger_first (partition_with_hooks tests hooks mode).units
      × ((n : ℕ)
          → filter (has_size n) (partition_with_hooks tests hooks mode).units
            ≡ filter (has_size n) (unsorted tests hooks mode))
unfolding partition_with_hooks
partition_with_hooks-IsSorted tests hooks mode = (
  sort_by-IsSorted larger_first larger_first_total larger_first_trans (unsorted tests hooks mode),
  λ n.
      filter-sort_by larger_first (has_size n) (λ a b h k. ground arith)
        (unsorted tests hooks mode),
)
