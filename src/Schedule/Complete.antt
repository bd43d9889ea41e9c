-- ===== src/Schedule/Complete.antt =====
-- crates/tryke_runner/src/schedule.rs: every test of the run is in exactly one unit.
use mathlib.Core.List.{Perm, perm_middle}
use mathlib.Core.List.Perm
use tryke.Prelude.{
  ◌≡◌, refl, ap, subst, inl, inr, Bool, not, List, [], ◌∷◌, ◌++◌, map, concat, filter, is_empty,
  Text, Bool-cases, concat-map-append, if◌then◌else◌,
}
use tryke.Prelude.Sort.{swap_blocks, sort_by, insert_sorted}
use tryke.Types.{TestItem, HookItem}
use tryke.Schedule.Grouping.{group_by, group_by-perm}
use tryke.Schedule.Units.{
  DistMode, by_test, by_file, by_group, WorkUnit, unit_of, file_key, group_key, group_by_file,
  group_by_describe, one_each,
}
use tryke.Schedule.{
  within, upgrade_test, upgrade_group, as_asked, plan, attach_hooks, attach_all,
  partition_with_hooks, larger_first,
}

-- The tests of a list of units, in the order in which the units are handed out.
abbrev pub tests_of : List WorkUnit → List TestItem
tests_of units = concat (map (λ u. u.tests) units)

tests_of-groups {ℓ} :
    {K : Type ℓ} (m : List (K × List TestItem))
    → tests_of (map (λ g. unit_of g.1) m) ≡ concat (map (λ g. g.1) m)
tests_of-groups [] = refl
tests_of-groups ((k, xs) ∷ m) = ap (λ l. xs ++ l) (tests_of-groups m)

tests_of-group_by_file : (ts : List TestItem) → Perm (tests_of (group_by_file ts)) ts
unfolding group_by_file
tests_of-group_by_file ts =
    rw (tests_of-groups (group_by file_key ts)) (group_by-perm ⦃e = _⦄ file_key ts)

tests_of-group_by_describe : (ts : List TestItem) → Perm (tests_of (group_by_describe ts)) ts
unfolding group_by_describe
tests_of-group_by_describe ts =
    rw (tests_of-groups (group_by group_key ts)) (group_by-perm ⦃e = _⦄ group_key ts)

tests_of-one_each : (ts : List TestItem) → Perm (tests_of (one_each ts)) ts
unfolding one_each
tests_of-one_each [] = Perm.rfl
tests_of-one_each (t ∷ ts) = Perm.cons t (tests_of-one_each ts)

pub filter-perm {ℓ} :
    {A : Type ℓ} (p : A → Bool) (xs : List A) → Perm (filter (λ x. not (p x)) xs ++ filter p xs) xs
filter-perm p [] = Perm.rfl
filter-perm p (x ∷ xs) = elim (Bool-cases (p x)) [
  | inl h ↦ rw h (
      Perm.trans (perm_middle (filter (λ x. not (p x)) xs) (filter p xs))
        (Perm.cons x (filter-perm p xs)))
  | inr h ↦ rw h (Perm.cons x (filter-perm p xs))
]

-- The units of an upgrade: the free tests and the held ones, planned apart.
tests_of-split :
    (p : TestItem → Bool) (ts : List TestItem) (us vs : List WorkUnit)
    → Perm (tests_of us) (filter (λ t. not (p t)) ts)
    → Perm (tests_of vs) (filter p ts)
    → Perm (tests_of (us ++ vs)) ts
tests_of-split p ts us vs hu hv =
    rw (concat-map-append (λ (u : WorkUnit). u.tests) us vs)
      (Perm.trans (Perm.append hu hv) (filter-perm p ts))

as_asked-perm : (mode : DistMode) (ts : List TestItem) → Perm (tests_of (as_asked mode ts).units) ts
unfolding as_asked
as_asked-perm by_test ts = tests_of-one_each ts
as_asked-perm by_file ts = tests_of-group_by_file ts
as_asked-perm by_group ts = tests_of-group_by_describe ts

upgrade_test-perm :
    (ts : List TestItem) (cm fm : List Text) → Perm (tests_of (upgrade_test ts cm fm).units) ts
unfolding upgrade_test
upgrade_test-perm ts cm fm =
    tests_of-split (within cm) ts (one_each (filter (λ t. not (within cm t)) ts))
      (if is_empty fm
        then group_by_describe (filter (within cm) ts)
        else group_by_file (filter (within cm) ts))
      (tests_of-one_each _)
      (elim fm
        as (λ l.
          Perm
            (tests_of (
              if is_empty l
              then group_by_describe (filter (within cm) ts)
              else group_by_file (filter (within cm) ts)))
            (filter (within cm) ts)) [
              | [] ↦ tests_of-group_by_describe _
              | m ∷ ms ↦ tests_of-group_by_file _
            ])

upgrade_group-perm :
    (ts : List TestItem) (fm : List Text) → Perm (tests_of (upgrade_group ts fm).units) ts
unfolding upgrade_group
upgrade_group-perm ts fm =
    tests_of-split (within fm) ts (group_by_describe (filter (λ t. not (within fm t)) ts))
      (group_by_file (filter (within fm) ts)) (tests_of-group_by_describe _)
      (tests_of-group_by_file _)

plan-perm :
    (mode : DistMode) (ts : List TestItem) (cm fm : List Text)
    → Perm (tests_of (plan mode ts cm fm).units) ts
unfolding plan
plan-perm by_test ts [] fm = as_asked-perm by_test ts
plan-perm by_test ts (c ∷ cm) fm = upgrade_test-perm ts (c ∷ cm) fm
plan-perm by_file ts cm fm = as_asked-perm by_file ts
plan-perm by_group ts cm [] = as_asked-perm by_group ts
plan-perm by_group ts cm (f ∷ fm) = upgrade_group-perm ts (f ∷ fm)

map-attach_hooks :
    (hooks : List HookItem) (us : List WorkUnit)
    → map (λ u. u.tests) (map (attach_hooks hooks) us) ≡ map (λ u. u.tests) us
unfolding attach_hooks
map-attach_hooks hooks [] = refl
map-attach_hooks hooks (u ∷ us) = ap (λ l. u.tests ∷ l) (map-attach_hooks hooks us)

-- Hooks are added to the units; the tests stay.
map-attach_all :
    (hooks : List HookItem) (us : List WorkUnit)
    → map (λ u. u.tests) (attach_all hooks us) ≡ map (λ u. u.tests) us
unfolding attach_all
map-attach_all [] us = refl
map-attach_all (h ∷ hooks) us = map-attach_hooks (h ∷ hooks) us

tests_of-insert_sorted :
    (le : WorkUnit → WorkUnit → Bool) (u : WorkUnit) (us : List WorkUnit)
    → Perm (tests_of (insert_sorted le u us)) (u.tests ++ tests_of us)
tests_of-insert_sorted le u [] = Perm.rfl
tests_of-insert_sorted le u (v ∷ us) = elim (Bool-cases (le u v)) [
  | inl h ↦ rw h Perm.rfl
  | inr h ↦ rw h (
      Perm.trans (Perm.append_left v.tests (tests_of-insert_sorted le u us))
        (swap_blocks u.tests v.tests (tests_of us)))
]

tests_of-sort_by :
    (le : WorkUnit → WorkUnit → Bool) (us : List WorkUnit)
    → Perm (tests_of (sort_by le us)) (tests_of us)
tests_of-sort_by le [] = Perm.rfl
tests_of-sort_by le (u ∷ us) =
    Perm.trans (tests_of-insert_sorted le u (sort_by le us))
      (Perm.append_left u.tests (tests_of-sort_by le us))

finish-perm :
    (hooks : List HookItem) (us : List WorkUnit)
    → Perm (tests_of (sort_by larger_first (attach_all hooks us))) (tests_of us)
finish-perm hooks us =
    subst (λ l. Perm (tests_of (sort_by larger_first (attach_all hooks us))) (concat l))
      (map-attach_all hooks us) (tests_of-sort_by larger_first (attach_all hooks us))

-- Every test of the run is in exactly one unit, as often as it was given, for each distribution
-- mode and whatever the fixtures ask.
pub partition_with_hooks-perm :
    (tests : List TestItem) (hooks : List HookItem) (mode : DistMode)
    → Perm (tests_of (partition_with_hooks tests hooks mode).units) tests
unfolding partition_with_hooks
partition_with_hooks-perm tests hooks mode =
    Perm.trans (finish-perm hooks _) (plan-perm mode tests _ _)
