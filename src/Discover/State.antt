-- ===== src/Discover/State.antt =====
-- crates/tryke_discovery/src/filesystem/discoverer.rs: the state of a `Discoverer`, and the phases
-- that `rediscover` and `rediscover_restricted` share; crates/tryke_discovery/src/filesystem/db.rs:
-- the query `discover_file`. The Salsa database is the text of each input, and the text from which
-- the memo of `discover_file` on it was computed.
use tryke.Prelude.{
  ◌≡◌, Bool, true, List, [], ◌∷◌, ◌++◌, Option, none, some, Text, ◌==◌, nat_eq, list_eq,
  if◌then◌else◌,
}
use tryke.Prelude.Dict.{Dict, get, insert, remove}
use tryke.Paths.{component_eq}
use tryke.Paths.Operations.{PathBuf}
use tryke.Graph.{ImportGraph, remove_file}
use tryke.Discover.Files.{DiscoveredFile, FileKey, Disk, from_path, text_at}
use tryke.Discover.Cache.{DiskCache, get_cached, insert_cached}

pub record SourceFile : Type 0 where
  pub text : Text
  pub root : PathBuf
  pub src_roots : List PathBuf
  pub path : PathBuf

pub record Discoverer : Type 0 where
  pub inputs : Dict PathBuf SourceFile
  pub root : PathBuf
  pub src_roots : List PathBuf
  pub import_graph : ImportGraph PathBuf
  pub project_files : List PathBuf
  pub results : Dict PathBuf DiscoveredFile
  pub cache : DiskCache
  pub cache_keys_hit : Dict PathBuf FileKey
  pub memos : Dict PathBuf Text

-- What the analysis of a Python file is: `discover_file_from_ast` on the parse of an input's text,
-- and the equality of `ParsedAst`, by which two texts have the same statements. The imports of a file
-- are read from its statements alone.
pub record Analysis : Type 0 where
  pub discover : SourceFile → DiscoveredFile
  pub same_body : Text → Text → Bool
  pub same_body_refl : (t : Text) → same_body t t ≡ true
  pub imports_same :
      (f : SourceFile) (t u : Text)
      → same_body t u ≡ true
      → (discover (record f { text = t })).import_candidates
        ≡ (discover (record f { text = u })).import_candidates
  pub dynamic_same :
      (f : SourceFile) (t u : Text)
      → same_body t u ≡ true
      → (discover (record f { text = t })).dynamic_imports
        ≡ (discover (record f { text = u })).dynamic_imports

pub data FileWork : Type 0 where
  hit : PathBuf → DiscoveredFile → FileKey → FileWork
  miss : PathBuf → Text → FileKey → FileWork
  stat_error : PathBuf → FileWork

-- `SourceFile::new(&self.db, text, self.root.clone(), self.src_roots.clone(), path)`
abbrev pub source_file : Discoverer → PathBuf → Text → SourceFile
source_file d p text = record { text = text; root = d.root; src_roots = d.src_roots; path = p }

abbrev pub upserted : Discoverer → PathBuf → Text → Option SourceFile → Dict PathBuf SourceFile
upserted d p text (some file) =
    if file.text == text then d.inputs else insert p (record file { text = text }) d.inputs
upserted d p text none = insert p (source_file d p text) d.inputs

unfoldable pub upsert_source : Discoverer → PathBuf → Text → Discoverer
unfolding get insert
upsert_source d p text = record d { inputs = upserted d p text (get p d.inputs) }

abbrev pub looked_up : Disk → PathBuf → FileKey → Option DiscoveredFile → FileWork
looked_up disk p key (some r) = hit p r key
looked_up disk p key none = miss p (text_at disk p) key

abbrev pub prepared : Disk → DiskCache → PathBuf → Option FileKey → FileWork
prepared disk cache p none = stat_error p
prepared disk cache p (some key) = looked_up disk p key (get_cached cache p key)

unfoldable pub prepare_work : Disk → DiskCache → PathBuf → FileWork
unfolding from_path get_cached text_at
prepare_work disk cache p = prepared disk cache p (from_path disk p)

-- One turn of the loop over the work, on the state and the misses so far.
abbrev pub ingest_one : Discoverer × List PathBuf → FileWork → Discoverer × List PathBuf
ingest_one (d, misses) (hit p r key) = (
  record d { results = insert p r d.results; cache_keys_hit = insert p key d.cache_keys_hit },
  misses,
)
ingest_one (d, misses) (miss p source key) = (
  record (upsert_source d p source) { cache_keys_hit = insert p key d.cache_keys_hit },
  misses ++ p ∷ [],
)
ingest_one (d, misses) (stat_error p) = (d, misses)

unfoldable pub ingest : Discoverer × List PathBuf → List FileWork → Discoverer × List PathBuf
unfolding upsert_source insert
ingest s [] = s
ingest s (w ∷ ws) = ingest (ingest_one s w) ws

-- `misses.iter().filter_map(|p| self.inputs.get(p).map(|f| (p.clone(), *f)))`
abbrev pub snapshot : PathBuf → Option SourceFile → Dict PathBuf SourceFile
snapshot p none = []
snapshot p (some f) = (p, f) ∷ []

unfoldable pub miss_snapshots : Dict PathBuf SourceFile → List PathBuf → Dict PathBuf SourceFile
unfolding get
miss_snapshots inputs [] = []
miss_snapshots inputs (p ∷ misses) = snapshot p (get p inputs) ++ miss_snapshots inputs misses

module _ (analysis : Analysis) where
  -- The text of which a query of `discover_file` returns the analysis: a text that parses to the
  -- same statements as the memo's backdates `parse_file`, and the memo stands.
  unfoldable pub memo_text : Option Text → Text → Text
  memo_text none text = text
  memo_text (some old) text = if analysis.same_body old text then old else text

  -- `discover_file(db, file)`
  unfoldable pub discover_file : Option Text → SourceFile → DiscoveredFile
  unfolding memo_text
  discover_file memo f = analysis.discover (record f { text = memo_text memo f.text })

  -- A miss reads the memos as they were before the pass: a second query of an input returns what
  -- the first did.
  unfoldable pub parse_in_parallel :
      Dict PathBuf Text → Dict PathBuf SourceFile → Dict PathBuf DiscoveredFile
  unfolding get discover_file
  parse_in_parallel memos [] = []
  parse_in_parallel memos ((p, f) ∷ snapshots) =
      (p, discover_file (get p memos) f) ∷ parse_in_parallel memos snapshots

  -- The memos after the pass.
  unfoldable pub remember : Dict PathBuf Text → Dict PathBuf SourceFile → Dict PathBuf Text
  unfolding get insert memo_text
  remember memos [] = memos
  remember memos ((p, f) ∷ snapshots) =
      remember (insert p (memo_text (get p memos) f.text) memos) snapshots

abbrev pub cached_as : DiskCache → PathBuf → DiscoveredFile → Option FileKey → DiskCache
cached_as cache p r none = cache
cached_as cache p r (some key) = insert_cached cache p key r

-- The loop over `miss_results`.
unfoldable pub store : Discoverer → Dict PathBuf DiscoveredFile → Discoverer
unfolding get insert insert_cached
store d [] = d
store d ((p, r) ∷ miss_results) =
    store
      (record d {
        results = insert p r d.results;
        cache = cached_as d.cache p r (get p d.cache_keys_hit);
      })
      miss_results

-- The loop over the files that are no longer there.
unfoldable pub forget : Discoverer → List PathBuf → Discoverer
unfolding remove
forget d [] = d
forget d (p ∷ removed) =
    forget
      (record d {
        import_graph = remove_file d.import_graph p;
        inputs = remove p d.inputs;
        memos = remove p d.memos;
        results = remove p d.results;
      })
      removed
