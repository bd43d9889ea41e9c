-- ===== src/Discover/Samples.antt =====
-- A project of three files: `a.py` imports `b.py`, and `c.txt` is no Python file.
use tryke.Prelude.{
  ℕ, ◌⊎◌, ◌≡◌, ◌↔◌, refl, Bool, true, false, not, ◌&&◌, List, [], ◌∷◌, ◌++◌, Option, none, some,
  Text, codes, ◌==◌, nat_eq, list_eq, if◌then◌else◌, is_empty, contains, Member, arith, split_on,
}
use tryke.Prelude.Dict.{get}
use tryke.Types.{TestItem, default_item}
use tryke.Paths.{component_eq, components}
use tryke.Paths.Operations.{PathBuf, path_eq, path, is_python}
use tryke.Graph.Mirror.{has_edge}
use tryke.Discover.Files.{
  DiscoveredFile, Disk, after_epoch, collect_python_files, from_path, text_at,
}
use tryke.Discover.Imports.{
  resolve_import_candidate_groups, path_to_module, candidate_absolute_import_paths,
  candidate_relative_import_paths,
}
use tryke.Discover.Cache.{CacheFile, get_cached}
use tryke.Discover.State.{Analysis, SourceFile, Discoverer, source_file}
use tryke.Discover.Rediscover.{rediscover}
use tryke.Discover.Change.{
  rediscover_changed, apply_changes, eligible, canonicalize_path, tests, ChangeImpact,
}
use tryke.Discover.Linked.{imports_of}
use tryke.Discover.Found.{parsed_now, parsed_of}
use tryke.Discover.Tracked.{IsTracked, IsSound}
use tryke.Discover.Full.{rediscover-parses, rediscover-links}
use tryke.Discover.Kept.{rediscover-IsSound}
use tryke.Discover.Changed.{
  rediscover_changed-parses, rediscover_changed-links, rediscover_changed-IsSound,
}
use tryke.Discover.Save.{Bytes, load_in_dir}
use tryke.Discover.New.{new}
use tryke.Discover.Impact.{applied, IsAffected, apply_changes-impact}
use tryke.Discover.Applied.{apply_changes-parses}
use tryke.Discover.Runs.{
  take_steps, take_steps-IsTracked, step_full, step_changed, step_apply, step_restricted,
}

abbrev root : PathBuf
root = path (codes "/p")

abbrev a_py : PathBuf
a_py = path (codes "/p/a.py")

abbrev b_py : PathBuf
b_py = path (codes "/p/b.py")

abbrev importing : Text
importing = codes "import b"

abbrev project : Disk
project = record {
  walk = λ p. (a_py, true) ∷ (path (codes "/p/c.txt"), true) ∷ (b_py, true) ∷ [];
  excluded = λ p. false;
  ignored = λ p. false;
  metadata = λ p. some (record { modified = some (after_epoch 5); len = 8 });
  read_to_string = λ p. if path_eq.beq p a_py then some importing else none;
  exists = λ p. true;
  canonicalize = λ p. some p;
}

-- A line without its comment.
abbrev code_of : Text → Text
code_of [] = []
code_of (c ∷ cs) = if c == b'#' then [] else c ∷ code_of cs

abbrev discover_sample : SourceFile → DiscoveredFile
discover_sample f = record {
  parsed = record {
    tests = record default_item { name = f.text; file_path = some (codes "a.py") } ∷ [];
    hooks = [];
    testing_guard_else_lines = [];
    errors = [];
  };
  import_candidates = if code_of f.text == importing then (b_py ∷ []) ∷ [] else [];
  dynamic_imports = false;
}

abbrev same_code : Text → Text → Bool
same_code t u = code_of t == code_of u

-- The name of the only test is the text, so a stale analysis shows.
abbrev sample : Analysis
sample = record {
  discover = discover_sample;
  same_body = same_code;
  same_body_refl = λ t. (list_eq.beq_iff (code_of t) (code_of t)).1 refl;
  imports_same = λ f t u h. rw ((list_eq.beq_iff (code_of t) (code_of u)).0 h) refl;
  dynamic_same = λ f t u h. refl;
}

abbrev undecodable : Bytes → Option CacheFile
undecodable bytes = none

abbrev start : Discoverer
start = new undecodable project [] root (root ∷ []) none

start-IsTracked : IsTracked start
start-IsTracked = take_steps-IsTracked sample undecodable project [] root (root ∷ []) none []

start-IsSound : IsSound sample project start
unfolding get_cached get new load_in_dir
start-IsSound p key r here h = absurd (ground (arith, h))

abbrev groups : List (List ℕ)
groups = (1 ∷ 2 ∷ []) ∷ (2 ∷ []) ∷ (5 ∷ []) ∷ []

abbrev files : List ℕ
files = 2 ∷ 3 ∷ []

resolve_runs : resolve_import_candidate_groups groups files ≡ 2 ∷ []
unfolding resolve_import_candidate_groups contains
resolve_runs = refl

path_to_module_runs :
    path_to_module root (path (codes "/p/tests/test_math.py")) ≡ codes "tests.test_math"
unfolding path_to_module components tryke.Prelude.join
path_to_module_runs = refl

candidates_run :
    (candidate_absolute_import_paths (root ∷ []) (codes "foo.bar")
      ≡ path (codes "/p/foo/bar.py") ∷ path (codes "/p/foo/bar/__init__.py") ∷ [])
    × (candidate_relative_import_paths root root [] ≡ path (codes "/p/__init__.py") ∷ [])
unfolding candidate_absolute_import_paths candidate_relative_import_paths components
candidates_run = (refl, refl)

walk_runs : collect_python_files project root ≡ a_py ∷ b_py ∷ []
unfolding collect_python_files components
walk_runs = refl

rediscover-parses_example :
    (t : Text) × (same_code t (text_at project a_py) ≡ true)
    × (get a_py (rediscover sample project start).0.results
        ≡ some (parsed_of sample project start a_py t))
unfolding collect_python_files components contains from_path
rediscover-parses_example =
    rediscover-parses sample project start start-IsTracked start-IsSound a_py

rediscover-links_example :
    has_edge (rediscover sample project start).0.import_graph.forward a_py b_py
    ≡ imports_of
        (rediscover sample project start).0.project_files
        (get a_py (rediscover sample project start).0.results)
        b_py
        false
rediscover-links_example = rediscover-links sample project start start-IsTracked a_py b_py

-- Two edits of `a.py` that differ in a comment: the second keeps the analysis of the first.
abbrev commented : Text → Disk
commented comment = record project { read_to_string = λ p. some (codes "import b#" ++ comment) }

abbrev once_changed : Discoverer
once_changed = (rediscover_changed sample (commented (codes "1")) start (a_py ∷ [])).0

abbrev twice_changed : Discoverer
twice_changed = (rediscover_changed sample (commented (codes "2")) once_changed (a_py ∷ [])).0

stale_run :
    get a_py twice_changed.results
    ≡ some (discover_sample (source_file start a_py (codes "import b#1")))
unfolding rediscover_changed canonicalize_path components new
stale_run = refl

rediscover-IsSound_example : IsSound sample project (rediscover sample project start).0
rediscover-IsSound_example = rediscover-IsSound sample project start start-IsTracked start-IsSound

rediscover_changed-parses_example :
    (t : Text) × (same_code t (text_at project a_py) ≡ true)
    × ((t ≡ text_at project a_py) ⊎ (get a_py start.memos ≡ some t))
    × (get a_py (rediscover_changed sample project start (a_py ∷ [])).0.results
        ≡ some (parsed_of sample project start a_py t))
unfolding canonicalize_path is_python contains components
rediscover_changed-parses_example =
    rediscover_changed-parses sample project start (a_py ∷ []) start-IsTracked a_py

rediscover_changed-links_example :
    has_edge (rediscover_changed sample project start (a_py ∷ [])).0.import_graph.forward a_py b_py
    ≡ imports_of
        (rediscover_changed sample project start (a_py ∷ [])).0.project_files
        (some (parsed_now sample project start a_py))
        b_py
        false
unfolding canonicalize_path is_python contains components
rediscover_changed-links_example =
    rediscover_changed-links sample project start (a_py ∷ []) start-IsTracked a_py b_py

rediscover_changed-IsSound_example :
    IsSound sample project (rediscover_changed sample project start (a_py ∷ [])).0
rediscover_changed-IsSound_example =
    rediscover_changed-IsSound sample project start (a_py ∷ []) start-IsTracked start-IsSound

take_steps-IsTracked_example : IsTracked (
    take_steps sample start (
      step_full project
      ∷ step_changed project (a_py ∷ [])
      ∷ step_apply project (b_py ∷ [])
      ∷ step_restricted project (root ∷ [])
      ∷ []))
take_steps-IsTracked_example =
    take_steps-IsTracked sample undecodable project [] root (root ∷ []) none (
      step_full project
      ∷ step_changed project (a_py ∷ [])
      ∷ step_apply project (b_py ∷ [])
      ∷ step_restricted project (root ∷ [])
      ∷ [])

abbrev changes : List PathBuf
changes = b_py ∷ path (codes "/p/c.txt") ∷ path (codes "/q/d.py") ∷ []

changes_run : eligible project start changes ≡ b_py ∷ []
unfolding eligible new components
changes_run = refl

apply_changes-impact_example :
    (after : Discoverer) × (impact : ChangeImpact) × (apply_changes sample project start changes
      ≡ some (after, impact))
    × (impact.paths ≡ eligible project start changes)
    × ((item : TestItem)
        → Member item impact.affected_tests
          ↔ (Member item (tests after) × IsAffected project after impact.paths item.file_path))
unfolding eligible new components
apply_changes-impact_example =
    apply_changes-impact sample project start changes start-IsTracked refl

apply_changes-parses_example :
    (t : Text) × (same_code t (text_at project b_py) ≡ true)
    × ((t ≡ text_at project b_py) ⊎ (get b_py start.memos ≡ some t))
    × (get b_py (applied start (apply_changes sample project start changes)).results
        ≡ some (parsed_of sample project start b_py t))
unfolding eligible new components contains
apply_changes-parses_example =
    apply_changes-parses sample project start changes (λ p. refl) start-IsTracked b_py
