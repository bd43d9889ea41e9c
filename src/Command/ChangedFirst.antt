-- ===== src/Command/ChangedFirst.antt =====
-- crates/tryke/src/discovery.rs: a run that puts the changed tests first runs all tests.
use tryke.Prelude.{◌≡◌, refl, ap, not, List, [], ◌∷◌, ◌++◌, Option, none, some, filter, length}
use mathlib.Core.List.{Perm, perm_append_comm}
use mathlib.Core.List.Perm
use tryke.Paths.Operations.{PathBuf}
use tryke.Schedule.Complete.{filter-perm}
use tryke.Discover.Files.{Disk}
use tryke.Discover.State.{Analysis, Discoverer}
use tryke.Discover.Rediscover.{rediscover}
use tryke.Discover.Change.{tests, hooks}
use tryke.Discover.Tracked.{IsTracked}
use tryke.Discover.Kept.{rediscover-IsTracked}
use tryke.Discover.Impact.{tests_found}
use tryke.Command.{
  DiscoverySelection, everything, is_listed, split_changed, changed_first,
  discover_tests_changed_first,
}

module _ (analysis : Analysis) (disk : Disk) where
  -- What a selection that puts the changed tests first keeps of all tests.
  changed_first_keeps :
      (d : Discoverer) (git : Option (List PathBuf))
      → IsTracked d
      → (s : DiscoverySelection) × (changed_first disk d git ≡ some s)
        × Perm s.tests (tests d)
        × (s.hooks ≡ hooks d)
  changed_first_keeps d none t = (everything d, refl, Perm.rfl, refl)
  changed_first_keeps d (some []) t = (everything d, refl, Perm.rfl, refl)
  changed_first_keeps d (some (f ∷ fs)) t =
      let (changed, e, _) = tests_found disk d t (f ∷ fs) in
      let listed = is_listed changed in
      (
        record {
          tests = filter listed (tests d) ++ filter (λ x. not (listed x)) (tests d);
          hooks = hooks d;
          changed_files = some (length (f ∷ fs));
          changed_prefix_len = some (length (filter listed (tests d)));
        },
        ap (split_changed d (f ∷ fs)) e,
        Perm.trans
            (perm_append_comm (filter listed (tests d)) (filter (λ x. not (listed x)) (tests d)))
            (filter-perm listed (tests d)),
        refl,
      )

  -- From a state that keeps the invariants, whatever git says, a run that puts the changed tests first
  -- selects all tests of the project, each as often as it was discovered, with all hooks.
  pub discover_tests_changed_first-perm :
      (d : Discoverer) (git : Option (List PathBuf))
      → IsTracked d
      → (s : DiscoverySelection) × (discover_tests_changed_first analysis disk d git ≡ some s)
        × Perm s.tests (tests (rediscover analysis disk d).0)
        × (s.hooks ≡ hooks (rediscover analysis disk d).0)
  unfolding discover_tests_changed_first
  discover_tests_changed_first-perm d git t =
      changed_first_keeps (rediscover analysis disk d).0 git
        (rediscover-IsTracked analysis disk d t)
