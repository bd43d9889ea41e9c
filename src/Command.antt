-- ===== src/Command.antt =====
-- crates/tryke/src/discovery.rs: which tests a command runs. What git says of the changed files, if
-- it can be had, is an argument, and so is the Discoverer that the configuration makes. The warnings
-- are left out.
pub mod Apart
pub mod WalkRoots
pub mod ChangedFirst
mod Samples
use tryke.Prelude.{
  ℕ, Bool, true, false, not, ◌&&◌, List, [], ◌∷◌, ◌++◌, map, Option, none, some, Text, filter,
  contains, any, length, if◌then◌else◌, list_eq, nat_eq, leb, unwrap_or,
}
use tryke.Prelude.Sort.{sort_by}
use tryke.Types.{TestItem, HookItem, id}
use tryke.Paths.{root_dir}
use tryke.Paths.Operations.{PathBuf, path, join, starts_with}
use tryke.Filter.Matching.{PathSpec, file, file_line}
use tryke.Discover.Files.{Disk, DiscoveredFile}
use tryke.Discover.State.{Analysis, Discoverer, SourceFile}
use tryke.Discover.Rediscover.{rediscover, rediscover_restricted}
use tryke.Discover.Change.{tests, hooks, tests_for_changed}

pub record DiscoverySelection : Type 0 where
  pub tests : List TestItem
  pub hooks : List HookItem
  pub changed_files : Option ℕ
  pub changed_prefix_len : Option ℕ

abbrev pub raw_path : PathSpec → PathBuf
raw_path (file p) = path p
raw_path (file_line p line) = path p

-- `if raw.is_absolute() { raw } else { root.join(&raw) }`
abbrev pub absolute : PathBuf → PathBuf → PathBuf
absolute root (root_dir ∷ p) = root_dir ∷ p
absolute root p = join root p

-- One spec: where it leads, when that exists and is inside the root.
abbrev pub inside : PathBuf → Option PathBuf → Option PathBuf
inside canonical_root none = none
inside canonical_root (some resolved) =
    if starts_with canonical_root resolved then some resolved else none

abbrev pub pushed : Option PathBuf → Option (List PathBuf) → Option (List PathBuf)
pushed (some p) (some ps) = some (p ∷ ps)
pushed _ _ = none

unfoldable pub resolve_specs : Disk → PathBuf → PathBuf → List PathSpec → Option (List PathBuf)
unfolding join starts_with
resolve_specs disk root canonical_root [] = some []
resolve_specs disk root canonical_root (spec ∷ specs) =
    pushed (inside canonical_root (disk.canonicalize (absolute root (raw_path spec))))
      (resolve_specs disk root canonical_root specs)

abbrev pub shorter : PathBuf → PathBuf → Bool
shorter p q = leb (length p) (length q)

-- The loop that drops what is below a root that is kept.
unfoldable pub dedupe : List PathBuf → List PathBuf → List PathBuf
unfolding starts_with
dedupe deduped [] = deduped
dedupe deduped (r ∷ walk_roots) =
    dedupe (if any (λ kept. starts_with kept r) deduped then deduped else deduped ++ r ∷ [])
      walk_roots

abbrev pub dedupe_sorted : Option (List PathBuf) → Option (List PathBuf)
dedupe_sorted none = none
dedupe_sorted (some walk_roots) = some (dedupe [] (sort_by shorter walk_roots))

unfoldable pub resolve_walk_roots : Disk → PathBuf → List PathSpec → Option (List PathBuf)
unfolding resolve_specs dedupe
resolve_walk_roots disk root specs =
    dedupe_sorted (resolve_specs disk root (unwrap_or (disk.canonicalize root) root) specs)

abbrev pub everything : Discoverer → DiscoverySelection
everything d = record {
  tests = tests d;
  hooks = hooks d;
  changed_files = none;
  changed_prefix_len = none;
}

abbrev pub only_changed :
    Discoverer → List PathBuf → Option (List TestItem) → Option DiscoverySelection
only_changed d cf none = none
only_changed d cf (some ts) = some (record {
  tests = ts;
  hooks = hooks d;
  changed_files = some (length cf);
  changed_prefix_len = none;
})

-- By the files that git gives.
abbrev pub for_changed : Disk → Discoverer → Option (List PathBuf) → Option DiscoverySelection
for_changed disk d none = some (everything d)
for_changed disk d (some []) =
    some (record { tests = []; hooks = hooks d; changed_files = some 0; changed_prefix_len = none })
for_changed disk d (some (f ∷ fs)) = only_changed d (f ∷ fs) (tests_for_changed disk d (f ∷ fs))

abbrev pub is_listed : List TestItem → TestItem → Bool
is_listed changed t = contains (map id changed) (id t)

-- The changed tests, then the others.
abbrev pub split_changed :
    Discoverer → List PathBuf → Option (List TestItem) → Option DiscoverySelection
split_changed d cf none = none
split_changed d cf (some changed) =
    let first = filter (is_listed changed) (tests d) in
    some (record {
      tests = first ++ filter (λ t. not (is_listed changed t)) (tests d);
      hooks = hooks d;
      changed_files = some (length cf);
      changed_prefix_len = some (length first);
    })

abbrev pub changed_first : Disk → Discoverer → Option (List PathBuf) → Option DiscoverySelection
changed_first disk d (some (f ∷ fs)) = split_changed d (f ∷ fs) (tests_for_changed disk d (f ∷ fs))
changed_first disk d _ = some (everything d)

module _ (analysis : Analysis) where
  unfoldable pub discover_tests :
      Disk → Discoverer → Bool → Option (List PathBuf) → Option DiscoverySelection
  unfolding rediscover tests hooks tests_for_changed
  discover_tests disk d changed git =
      let d = (rediscover analysis disk d).0 in
      if changed then for_changed disk d git else some (everything d)

  abbrev restricted_to : Disk → Discoverer → Option (List PathBuf) → Option DiscoverySelection
  restricted_to disk d none = discover_tests disk d false none
  restricted_to disk d (some walk_roots) =
      let (d, found) = rediscover_restricted analysis disk d walk_roots in
      some
        (record { tests = found; hooks = hooks d; changed_files = none; changed_prefix_len = none })

  unfoldable pub discover_tests_for_paths :
      Disk → PathBuf → Discoverer → List PathSpec → Option DiscoverySelection
  unfolding resolve_walk_roots rediscover_restricted discover_tests
  discover_tests_for_paths disk root d specs =
      restricted_to disk d (resolve_walk_roots disk root specs)

  unfoldable pub discover_tests_changed_first :
      Disk → Discoverer → Option (List PathBuf) → Option DiscoverySelection
  unfolding rediscover tests hooks tests_for_changed contains
  discover_tests_changed_first disk d git =
      let d = (rediscover analysis disk d).0 in changed_first disk d git
