-- ===== src/Discover/New.antt =====
-- crates/tryke_discovery/src/filesystem/discoverer.rs and cache.rs: a fresh `Discoverer`, and the
-- removal of a project's cache. The exclusions of a `Discoverer` are in the file system's matcher.
use tryke.Prelude.{List, [], ◌∷◌, map, Option, none, some, codes, unwrap_or, ℕ, ◌+◌}
use tryke.Paths.{normal}
use tryke.Paths.Operations.{PathBuf, join, with_extension}
use tryke.Graph.{empty_graph}
use tryke.Discover.Files.{Disk}
use tryke.Discover.Cache.{CacheFile, DiskCache, cache_file_name}
use tryke.Discover.Save.{Bytes, Files, load_in_state_dir, load_in_dir}
use tryke.Discover.State.{Discoverer}

abbrev pub cache_for : (Bytes → Option CacheFile) → Files → PathBuf → Option PathBuf → DiskCache
cache_for decode files root none =
    load_in_state_dir decode files (join root (normal (codes ".tryke") ∷ []))
cache_for decode files root (some dir) = load_in_dir decode files dir

abbrev canonical_or : Disk → PathBuf → PathBuf
canonical_or disk p = unwrap_or (disk.canonicalize p) p

unfoldable pub new :
    (Bytes → Option CacheFile) → Disk → Files → PathBuf → List PathBuf → Option PathBuf → Discoverer
unfolding join load_in_state_dir load_in_dir
new decode disk files root src_roots cache_dir =
    let root = canonical_or disk root in
    record {
      inputs = [];
      root = root;
      src_roots = map (canonical_or disk) src_roots;
      import_graph = empty_graph PathBuf;
      project_files = [];
      results = [];
      cache = cache_for decode files root cache_dir;
      cache_keys_hit = [];
      memos = [];
    }

-- How a removal ends.
pub data Removal : Type 0 where
  removed not_found failed : Removal

pub record CleanCacheReport : Type 0 where
  pub cache_dir : PathBuf
  pub removed_entries : ℕ

abbrev clean_report : PathBuf → ℕ → Option CleanCacheReport
clean_report dir n = some (record { cache_dir = dir; removed_entries = n })

abbrev clean_default_of : PathBuf → Removal → Option CleanCacheReport
clean_default_of dir removed = clean_report dir 1
clean_default_of dir not_found = clean_report dir 0
clean_default_of dir failed = none

-- With how `fs::remove_dir_all` ends on each path.
unfoldable pub clean_default_cache_dir : (PathBuf → Removal) → PathBuf → Option CleanCacheReport
unfolding join
clean_default_cache_dir remove_dir_all root =
    let dir = join (join root (normal (codes ".tryke") ∷ [])) (normal (codes "cache") ∷ []) in
    clean_default_of dir (remove_dir_all dir)

-- The loop over the two files: the first error ends it.
unfoldable pub clean_files : (PathBuf → Removal) → List PathBuf → ℕ → Option ℕ
clean_files remove_file [] n = some n
clean_files remove_file (p ∷ ps) n = elim (remove_file p) [
  | removed ↦ clean_files remove_file ps (1 + n)
  | not_found ↦ clean_files remove_file ps n
  | failed ↦ none
]

unfoldable pub clean_custom_cache_dir : (PathBuf → Removal) → PathBuf → Option CleanCacheReport
unfolding join with_extension clean_files
clean_custom_cache_dir remove_file cache_dir =
    let cache_file = join cache_dir (normal cache_file_name ∷ []) in
    elim (clean_files remove_file (cache_file ∷ with_extension (codes "tmp") cache_file ∷ []) 0) [
      | some n ↦ clean_report cache_dir n
      | none ↦ none
    ]

-- With the cache directory that the configuration names.
unfoldable pub clean_project_cache :
    (PathBuf → Removal) → (PathBuf → Removal) → PathBuf → Option PathBuf → Option CleanCacheReport
unfolding clean_default_cache_dir clean_custom_cache_dir
clean_project_cache remove_dir_all remove_file root (some cache_dir) =
    clean_custom_cache_dir remove_file cache_dir
clean_project_cache remove_dir_all remove_file root none =
    clean_default_cache_dir remove_dir_all root
