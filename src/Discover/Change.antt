-- ===== src/Discover/Change.antt =====
-- crates/tryke_discovery/src/filesystem/discoverer.rs: discovery of the files that changed, and
-- what a change may affect. A search of the graph is an `Option`, `none` where its fuel ran out.
use tryke.Prelude.{
  Bool, true, false, not, List, [], ◌∷◌, ◌++◌, map, Option, none, some, Text, filter, contains,
  concat, list_eq, nat_eq, if◌then◌else◌, text_le, unwrap_or,
}
use tryke.Prelude.Dict.{get, insert, remove, entries, keys, dict_values}
use tryke.Prelude.Sort.{sort_by}
use tryke.Types.{TestItem, HookItem}
use tryke.Paths.{component_eq, normal}
use tryke.Paths.Operations.{
  PathBuf, path_le, is_python, parent, file_name, join, starts_with, path, strip_prefix,
}
use tryke.Graph.Maps.{insert_set, remove_from}
use tryke.Graph.{
  GraphEntry, remove_file, affected_files, always_dirty_files, imports_for, imported_by_for,
}
use tryke.Discover.Files.{Disk, from_path, text_at}
use tryke.Discover.Cache.{remove_cached}
use tryke.Discover.Imports.{path_to_module}
use tryke.Discover.State.{
  Analysis, SourceFile, Discoverer, upsert_source, cached_as, discover_file, memo_text,
}
use tryke.Discover.Rediscover.{link_one}

-- The parent of a file that may be deleted, and its name.
abbrev pub in_parent : Disk → PathBuf → Option PathBuf → Option Text → PathBuf
in_parent disk p (some dir) (some name) = elim (disk.canonicalize dir) [
  | some cp ↦ join cp (normal name ∷ [])
  | none ↦ p
]
in_parent disk p _ _ = p

unfoldable pub canonicalize_path : Disk → PathBuf → PathBuf
unfolding parent file_name join
canonicalize_path disk p = elim (disk.canonicalize p) [
  | some c ↦ c
  | none ↦ in_parent disk p (parent p) (file_name p)
]

abbrev pub canonicalize_paths : Disk → List PathBuf → List PathBuf
canonicalize_paths disk ps = map (canonicalize_path disk) ps

unfoldable pub filter_in_root : Disk → Discoverer → List PathBuf → List PathBuf
unfolding canonicalize_path starts_with
filter_in_root disk d ps =
    let canonical_root = canonicalize_path disk d.root in
    filter (starts_with canonical_root) (canonicalize_paths disk ps)

-- The first loop of `rediscover_changed`, on a Python path that exists and on one that does not.
abbrev pub note_one : Disk → Discoverer × List PathBuf → PathBuf → Bool → Discoverer × List PathBuf
note_one disk (d, touched) p true =
    let d = upsert_source d p (text_at disk p) in
    (record d { project_files = insert_set p d.project_files }, touched ++ p ∷ [])
note_one disk (d, touched) p false = (
  record d {
    import_graph = remove_file d.import_graph p;
    inputs = remove p d.inputs;
    memos = remove p d.memos;
    project_files = remove_from p d.project_files;
    results = remove p d.results;
    cache = remove_cached d.cache p;
  },
  touched,
)

unfoldable pub note_changes :
    Disk → Discoverer × List PathBuf → List PathBuf → Discoverer × List PathBuf
unfolding is_python text_at upsert_source insert_set remove remove_from remove_cached
note_changes disk s [] = s
note_changes disk s (p ∷ changed) =
    note_changes disk (if is_python p then note_one disk s p (disk.exists p) else s) changed

module _ (analysis : Analysis) where
  -- The second loop, on a touched path with its input.
  abbrev pub refresh_one : Disk → Discoverer → PathBuf → Option SourceFile → Discoverer
  refresh_one disk d p none = d
  refresh_one disk d p (some file) =
      let memo = get p d.memos in
      let result = discover_file analysis memo file in
      record d {
        import_graph = link_one d.project_files d.import_graph p result;
        cache = cached_as d.cache p result (from_path disk p);
        results = insert p result d.results;
        memos = insert p (memo_text analysis memo file.text) d.memos;
      }

  unfoldable pub refresh : Disk → Discoverer → List PathBuf → Discoverer
  unfolding get from_path insert discover_file memo_text
  refresh disk d [] = d
  refresh disk d (p ∷ touched) = refresh disk (refresh_one disk d p (get p d.inputs)) touched

  unfoldable pub rediscover_changed : Disk → Discoverer → List PathBuf → Discoverer × List TestItem
  unfolding note_changes refresh entries dict_values canonicalize_path
  rediscover_changed disk d changed =
      let (d, touched) = note_changes disk (d, []) (canonicalize_paths disk changed) in
      let d = refresh disk d touched in
      (d, concat (map (λ r. r.parsed.tests) (dict_values d.results)))

unfoldable pub tests : Discoverer → List TestItem
unfolding dict_values
tests d = concat (map (λ r. r.parsed.tests) (dict_values d.results))

unfoldable pub hooks : Discoverer → List HookItem
unfolding dict_values
hooks d = concat (map (λ r. r.parsed.hooks) (dict_values d.results))

unfoldable pub is_excluded : Disk → PathBuf → Bool
is_excluded disk p = disk.ignored p

unfoldable pub affected : Disk → Discoverer → List PathBuf → Option (List PathBuf)
unfolding canonicalize_path
affected disk d changed = affected_files d.import_graph (canonicalize_paths disk changed)

unfoldable pub affected_modules : Disk → Discoverer → List PathBuf → Option (List Text)
unfolding affected path_to_module text_le
affected_modules disk d changed = elim (affected disk d changed) [
  | some files ↦ some (sort_by text_le (map (path_to_module d.root) files))
  | none ↦ none
]

-- `t.file_path.as_ref().is_some_and(|rel| affected.contains(&self.root.join(rel)))`
abbrev pub is_affected : PathBuf → List PathBuf → Option Text → Bool
is_affected root files none = false
is_affected root files (some rel) = contains files (join root (path rel))

unfoldable pub tests_for_changed : Disk → Discoverer → List PathBuf → Option (List TestItem)
unfolding affected tests contains join
tests_for_changed disk d changed = elim (affected disk d changed) [
  | some files ↦ some (filter (λ t. is_affected d.root files t.file_path) (tests d))
  | none ↦ none
]

pub record ChangeImpact : Type 0 where
  pub paths : List PathBuf
  pub affected_modules : List Text
  pub affected_tests : List TestItem

abbrev pub default_impact : ChangeImpact
default_impact = record { paths = []; affected_modules = []; affected_tests = [] }

-- The changes that are acted on.
unfoldable pub eligible : Disk → Discoverer → List PathBuf → List PathBuf
unfolding filter_in_root is_python
eligible disk d ps =
    filter (λ p. not (disk.ignored p)) (filter is_python (filter_in_root disk d ps))

module _ (analysis : Analysis) where
  abbrev pub impact :
      Discoverer
      → List PathBuf
      → Option (List Text)
      → Option (List TestItem)
      → Option (Discoverer × ChangeImpact)
  impact d ps (some modules) (some affected_tests) =
      some (d, record { paths = ps; affected_modules = modules; affected_tests = affected_tests })
  impact d ps _ _ = none

  abbrev pub apply_to : Disk → Discoverer → List PathBuf → Option (Discoverer × ChangeImpact)
  apply_to disk d [] = some (d, default_impact)
  apply_to disk d (p ∷ ps) =
      let after = (rediscover_changed analysis disk d (p ∷ ps)).0 in
      impact after (p ∷ ps) (affected_modules disk d (p ∷ ps))
        (tests_for_changed disk after (p ∷ ps))

  unfoldable pub apply_changes :
      Disk → Discoverer → List PathBuf → Option (Discoverer × ChangeImpact)
  unfolding eligible affected_modules rediscover_changed tests_for_changed
  apply_changes disk d ps = apply_to disk d (eligible disk d ps)

unfoldable pub dynamic_import_files : Discoverer → List PathBuf
unfolding path_le
dynamic_import_files d = always_dirty_files path_le d.import_graph

-- `p.strip_prefix(&self.root).unwrap_or(p)`
unfoldable pub below : PathBuf → PathBuf → PathBuf
unfolding strip_prefix
below root p = unwrap_or (strip_prefix root p) p

unfoldable pub import_graph_summary : Discoverer → List (GraphEntry PathBuf)
unfolding below keys path_le
import_graph_summary d =
    sort_by (λ a b. path_le a.file b.file)
      (map
        (λ file. record {
          file = below d.root file;
          imports = map (below d.root) (imports_for path_le d.import_graph file);
          imported_by = map (below d.root) (imported_by_for path_le d.import_graph file);
        })
        (keys d.results))
