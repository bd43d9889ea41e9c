-- ===== src/Discover/Rediscover.antt =====
-- crates/tryke_discovery/src/filesystem/discoverer.rs: discovery of a whole project and of some of
-- its directories. The write of the cache file that ends both is `Discover.Save.save` on the cache
-- of the result; no later step reads what it returns.
use tryke.Prelude.{
  Bool, true, false, not, List, [], ◌∷◌, map, Option, none, some, filter, contains, distinct,
  concat, list_eq, nat_eq,
}
use tryke.Prelude.Dict.{Dict, get, entries, keys}
use tryke.Prelude.Sort.{sort_by}
use tryke.Types.{TestItem}
use tryke.Paths.{component_eq}
use tryke.Paths.Operations.{PathBuf, path_le}
use tryke.Graph.{ImportGraph, update, mark_always_dirty, clear_always_dirty, empty_graph}
use tryke.Discover.Files.{
  DiscoveredFile, Disk, collect_python_files, collect_python_files_restricted,
}
use tryke.Discover.Cache.{retain}
use tryke.Discover.Imports.{resolve_import_candidate_groups}
use tryke.Discover.State.{
  Analysis, Discoverer, FileWork, prepare_work, ingest, miss_snapshots, parse_in_parallel, remember,
  store, forget,
}

-- The import edges of a file, and whether it is always dirty.
abbrev pub flag : Bool → ImportGraph PathBuf → PathBuf → ImportGraph PathBuf
flag true g p = mark_always_dirty g p
flag false g p = clear_always_dirty g p

abbrev pub link_one :
    List PathBuf → ImportGraph PathBuf → PathBuf → DiscoveredFile → ImportGraph PathBuf
link_one files g p r =
    flag r.dynamic_imports (update g p (resolve_import_candidate_groups r.import_candidates files))
      p

-- The loop over `resolved`, on the graph and on the tests.
unfoldable pub link :
    List PathBuf → ImportGraph PathBuf → Dict PathBuf DiscoveredFile → ImportGraph PathBuf
link files g [] = g
link files g ((p, r) ∷ resolved) = link files (link_one files g p r) resolved

abbrev pub all_tests_of : Dict PathBuf DiscoveredFile → List TestItem
all_tests_of results = concat (map (λ e. e.1.parsed.tests) results)

-- `self.results.keys().filter(|p| !path_set.contains(*p))`
abbrev pub stale : List PathBuf → Dict PathBuf DiscoveredFile → List PathBuf
stale path_set results = filter (λ p. not (contains path_set p)) (keys results)

-- `self.results.get(*p).is_some_and(|r| r.dynamic_imports)`
abbrev pub is_dynamic : Option DiscoveredFile → Bool
is_dynamic none = false
is_dynamic (some r) = r.dynamic_imports

unfoldable pub mark_all : ImportGraph PathBuf → List PathBuf → ImportGraph PathBuf
mark_all g [] = g
mark_all g (p ∷ ps) = mark_all (mark_always_dirty g p) ps

abbrev pub found_tests : Option DiscoveredFile → List TestItem
found_tests none = []
found_tests (some r) = r.parsed.tests

-- Phase 2 and the removals before phase 3.
unfoldable pub prune : Discoverer → List PathBuf → Discoverer
unfolding retain keys contains forget
prune d path_set =
    let d = record d { cache = retain d.cache path_set } in forget d (stale path_set d.results)

-- Phase 5.
unfoldable pub link_all : Discoverer → List PathBuf → Discoverer
unfolding link entries
link_all d path_set = record d {
  import_graph = link path_set d.import_graph (entries d.results);
  project_files = path_set;
}

module _ (analysis : Analysis) where
  -- Phases 3 and 4: what the cache has, and the parses of what it lacks.
  unfoldable pub ingest_and_parse : Discoverer → List FileWork → Discoverer
  unfolding ingest miss_snapshots parse_in_parallel remember store
  ingest_and_parse d keyed =
      let (d, misses) = ingest (d, []) keyed in
      let snapshots = miss_snapshots d.inputs misses in
      let d' = record d { memos = remember analysis d.memos snapshots } in
      store d' (parse_in_parallel analysis d.memos snapshots)

  unfoldable pub rediscover : Disk → Discoverer → Discoverer × List TestItem
  unfolding collect_python_files path_le distinct prepare_work prune ingest_and_parse link_all
      entries
  rediscover disk d =
      let paths = sort_by path_le (collect_python_files disk d.root) in
      let path_set = distinct paths in
      let keyed = map (prepare_work disk d.cache) paths in
      let d = link_all (ingest_and_parse (prune d path_set) keyed) path_set in
      (d, all_tests_of (entries d.results))

  unfoldable pub rediscover_restricted :
      Disk → Discoverer → List PathBuf → Discoverer × List TestItem
  unfolding collect_python_files_restricted distinct prepare_work ingest_and_parse mark_all get
      contains
  rediscover_restricted disk d walk_roots =
      let d = record d {
        results = [];
        inputs = [];
        memos = [];
        import_graph = empty_graph PathBuf;
      } in
      let paths = collect_python_files_restricted disk walk_roots in
      let path_set = distinct paths in
      let d = ingest_and_parse d (map (prepare_work disk d.cache) paths) in
      let dynamic_paths = filter (λ p. is_dynamic (get p d.results)) path_set in
      let d = record d {
        import_graph = mark_all d.import_graph dynamic_paths;
        project_files = path_set;
      } in
      (d, concat (map (λ p. found_tests (get p d.results)) paths))
