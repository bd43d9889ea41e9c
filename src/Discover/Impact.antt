-- ===== src/Discover/Impact.antt =====
-- crates/tryke_discovery/src/filesystem/discoverer.rs: what a set of changes does and affects.
use tryke.Prelude.{
  ◌≡◌, ◌↔◌, ◌⊎◌, refl, true, false, List, [], ◌∷◌, map, Option, none, some, Text, filter, contains,
  list_eq, nat_eq, is_empty, arith, Member, Member-filter, filter-Member,
}
use tryke.Prelude.{text_le}
use tryke.Prelude.Sort.{sort_by}
use tryke.Discover.Imports.{path_to_module}
use tryke.Types.{TestItem}
use tryke.Paths.{component_eq}
use tryke.Paths.Operations.{PathBuf, join, path}
use tryke.Graph.Affected.{Reaches, affected_files_iff}
use tryke.Discover.Files.{Disk}
use tryke.Discover.State.{Analysis, Discoverer}
use tryke.Discover.Change.{
  canonicalize_paths, eligible, affected, affected_modules, is_affected, tests, tests_for_changed,
  rediscover_changed, ChangeImpact, apply_to, apply_changes,
}
use tryke.Discover.Tracked.{IsTracked}
use tryke.Discover.Changed.{rediscover_changed-IsTracked}

-- The test's file is one of the changed ones, reaches one by the edges of the graph, or is itself
-- always dirty.
abbrev pub IsAffected : Disk → Discoverer → List PathBuf → Option Text → Type 0
IsAffected disk d changed none = ⊥
IsAffected disk d changed (some rel) =
    Reaches d.import_graph (canonicalize_paths disk changed) (join d.root (path rel))
    ⊎ (contains d.import_graph.always_dirty (join d.root (path rel)) ≡ true)

-- The state that `apply_changes` leaves.
abbrev pub applied : Discoverer → Option (Discoverer × ChangeImpact) → Discoverer
applied d none = d
applied d (some (e, impact)) = e

module _ (disk : Disk) (d : Discoverer) (t : IsTracked d) (paths : List PathBuf) where
  affected_found :
      (r : List PathBuf) × (affected disk d paths ≡ some r)
      × ((x : PathBuf)
          → (contains r x ≡ true) ↔ (
              Reaches d.import_graph (canonicalize_paths disk paths) x
              ⊎ (contains d.import_graph.always_dirty x ≡ true)))
  unfolding affected
  affected_found = affected_files_iff d.import_graph (canonicalize_paths disk paths) t.mirror

  affected_modules_found : (ms : List Text) × (affected_modules disk d paths ≡ some ms)
  unfolding affected_modules
  affected_modules_found =
      let (r, e, _) = affected_found in
      (sort_by text_le (map (path_to_module d.root) r), rw (e, affected_modules) refl)

  is_affected_iff :
      (r : List PathBuf)
      → ((x : PathBuf)
          → (contains r x ≡ true) ↔ (
              Reaches d.import_graph (canonicalize_paths disk paths) x
              ⊎ (contains d.import_graph.always_dirty x ≡ true)))
      → (file : Option Text) → (is_affected d.root r file ≡ true) ↔ IsAffected disk d paths file
  is_affected_iff r iff none = ground arith
  is_affected_iff r iff (some rel) = iff (join d.root (path rel))

  -- The tests of the files that a change affects: found, and exactly those.
  pub tests_found :
      (ts : List TestItem) × (tests_for_changed disk d paths ≡ some ts)
      × ((item : TestItem)
          → Member item ts ↔ (Member item (tests d) × IsAffected disk d paths item.file_path))
  unfolding tests_for_changed
  tests_found =
      let (r, e, iff) = affected_found in
      let here = λ (item : TestItem). is_affected d.root r item.file_path in
      (
        filter here (tests d),
        rw (e, tests_for_changed) refl,
        λ item. (
          λ m.
              let (member, fits) = Member-filter here item (tests d) m in
              (member, (is_affected_iff r iff item.file_path).0 fits),
          λ h. filter-Member here item (tests d) h.0 ((is_affected_iff r iff item.file_path).1 h.1),
        ),
      )

module _ (analysis : Analysis) (disk : Disk) where
  -- What `apply_changes` returns for the eligible paths.
  pub apply_to_found :
      (d : Discoverer) (p : PathBuf) (ps : List PathBuf)
      → IsTracked d
      → let after = (rediscover_changed analysis disk d (p ∷ ps)).0 in
        (impact : ChangeImpact) × (apply_to analysis disk d (p ∷ ps) ≡ some (after, impact))
        × (impact.paths ≡ p ∷ ps)
        × ((item : TestItem)
            → Member item impact.affected_tests
              ↔ (Member item (tests after) × IsAffected disk after (p ∷ ps) item.file_path))
  apply_to_found d p ps t =
      let after = (rediscover_changed analysis disk d (p ∷ ps)).0 in
      let kept = rediscover_changed-IsTracked analysis disk d (p ∷ ps) t in
      let (ms, em) = affected_modules_found disk d t (p ∷ ps) in
      let (ts, et, iff) = tests_found disk after kept (p ∷ ps) in
      (
        record { paths = p ∷ ps; affected_modules = ms; affected_tests = ts },
        rw (em, et) refl,
        refl,
        iff,
      )

  -- From a state that keeps the invariants, and with at least one eligible path, `apply_changes`
  -- returns: the paths of the impact are the eligible ones, and its tests are exactly the tests of
  -- the new state whose file is one of those paths, reaches one of them through any chain of the
  -- import edges that the graph records, or is itself always dirty. A test whose file only imports a
  -- file that is always dirty is left out.
  pub apply_changes-impact :
      (d : Discoverer) (paths : List PathBuf)
      → IsTracked d
      → is_empty (eligible disk d paths) ≡ false
      → (after : Discoverer) × (impact : ChangeImpact) × (apply_changes analysis disk d paths
          ≡ some (after, impact))
        × (impact.paths ≡ eligible disk d paths)
        × ((item : TestItem)
            → Member item impact.affected_tests
              ↔ (Member item (tests after) × IsAffected disk after impact.paths item.file_path))
  unfolding apply_changes
  apply_changes-impact d paths t some_path = go (eligible disk d paths) some_path
    where
      go :
          (ps : List PathBuf)
          → is_empty ps ≡ false
          → (after : Discoverer) × (impact : ChangeImpact) × (apply_to analysis disk d ps
              ≡ some (after, impact))
            × (impact.paths ≡ ps)
            × ((item : TestItem)
                → Member item impact.affected_tests
                  ↔ (Member item (tests after) × IsAffected disk after impact.paths item.file_path))
      go [] h = absurd (ground (arith, h))
      go (p ∷ ps) h =
          let (impact, e, paths_are, iff) = apply_to_found d p ps t in
          ((rediscover_changed analysis disk d (p ∷ ps)).0, impact, e, paths_are, rw paths_are iff)
