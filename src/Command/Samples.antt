-- ===== src/Command/Samples.antt =====
-- A project whose files all exist, with two requested paths of which one is below the other.
use tryke.Prelude.{◌≡◌, refl, true, false, List, [], ◌∷◌, Option, none, some, codes}
use mathlib.Core.List.{Perm}
use tryke.Paths.{components}
use tryke.Paths.Operations.{PathBuf, path}
use tryke.Filter.Matching.{PathSpec, file, file_line}
use tryke.Discover.Files.{Disk, default_discovered_file}
use tryke.Discover.Cache.{CacheFile}
use tryke.Discover.Save.{Bytes}
use tryke.Discover.State.{Analysis, Discoverer}
use tryke.Discover.Rediscover.{rediscover}
use tryke.Discover.Change.{tests, hooks}
use tryke.Discover.New.{new}
use tryke.Discover.Runs.{take_steps-IsTracked}
use tryke.Command.{DiscoverySelection, resolve_walk_roots, discover_tests_changed_first}
use tryke.Command.WalkRoots.{AreWalkRoots, resolve_walk_roots-covered}
use tryke.Command.ChangedFirst.{discover_tests_changed_first-perm}

abbrev project : Disk
project = record {
  walk = λ p. [];
  excluded = λ p. false;
  ignored = λ p. false;
  metadata = λ p. none;
  read_to_string = λ p. none;
  exists = λ p. true;
  canonicalize = λ p. some p;
}

abbrev undecodable : Bytes → Option CacheFile
undecodable bytes = none

abbrev nothing_found : Analysis
nothing_found = record {
  discover = λ f. default_discovered_file;
  same_body = λ t u. true;
  same_body_refl = λ t. refl;
  imports_same = λ f t u h. refl;
  dynamic_same = λ f t u h. refl;
}

abbrev root : PathBuf
root = path (codes "/p")

abbrev specs : List PathSpec
specs = file_line (codes "a/b.py") 3 ∷ file (codes "a") ∷ []

abbrev start : Discoverer
start = new undecodable project [] root [] none

roots_run : resolve_walk_roots project root specs ≡ some (path (codes "/p/a") ∷ [])
unfolding resolve_walk_roots components
roots_run = refl

resolve_walk_roots-covered_example :
    AreWalkRoots project root specs (resolve_walk_roots project root specs)
resolve_walk_roots-covered_example = resolve_walk_roots-covered project root specs

discover_tests_changed_first-perm_example :
    (s : DiscoverySelection) × (discover_tests_changed_first nothing_found project start
        (some (root ∷ []))
      ≡ some s)
    × Perm s.tests (tests (rediscover nothing_found project start).0)
    × (s.hooks ≡ hooks (rediscover nothing_found project start).0)
discover_tests_changed_first-perm_example =
    discover_tests_changed_first-perm nothing_found project start (some (root ∷ []))
      (take_steps-IsTracked nothing_found undecodable project [] root [] none [])
