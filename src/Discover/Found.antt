-- ===== src/Discover/Found.antt =====
-- crates/tryke_discovery/src/filesystem/discoverer.rs: what the phases before the import graph find,
-- when they run one after another.
use tryke.Prelude.{
  ◌≡◌, refl, ◌∙◌, not, ◌&&◌, ◌||◌, List, [], map, Option, none, some, Text, true, contains,
  contains-filter, list_eq, nat_eq, if◌then◌else◌, is_some, arith,
}
use tryke.Prelude.Dict.{get, keys, contains-keys}
use tryke.Paths.{component_eq}
use tryke.Paths.Operations.{PathBuf}
use tryke.Graph.Mirror.{IsMirror, has_edge}
use tryke.Discover.Files.{DiscoveredFile, FileKey, Disk, text_at}
use tryke.Discover.Cache.{DiskCache, get_cached, key_eq, retain, get_cached-retain}
use tryke.Discover.State.{
  Analysis, Discoverer, FileWork, hit, miss, stat_error, source_file, prepare_work, ingest,
  memo_text, discover_file, remember, miss_snapshots,
}
use tryke.Discover.Rediscover.{ingest_and_parse, prune, stale}
use tryke.Discover.Phases.{
  AreOwn, is_miss, found, key_hit, IsIngested, IsIngested-AreOwn, ingest-IsIngested,
}
use tryke.Discover.Memos.{memo_text_same}
use tryke.Discover.Stored.{cached_or, IsStored, store-IsStored, IsStored-memos, forget-IsForgotten}

module _ (analysis : Analysis) (disk : Disk) where
  -- The analysis of a text at a path, and of what the file system has there now.
  abbrev pub parsed_of : Discoverer → PathBuf → Text → DiscoveredFile
  parsed_of d q t = analysis.discover (source_file d q t)

  abbrev pub parsed_now : Discoverer → PathBuf → DiscoveredFile
  parsed_now d q = parsed_of d q (text_at disk q)

  -- The analysis of a text with the statements that the file has now.
  abbrev pub IsCurrent : Discoverer → PathBuf → DiscoveredFile → Type 0
  IsCurrent d q r =
      (t : Text) × (analysis.same_body t (text_at disk q) ≡ true) × (r ≡ parsed_of d q t)

  pub discover_file-source_file :
      (m : Option Text) (d : Discoverer) (q : PathBuf) (t : Text)
      → discover_file analysis m (source_file d q t) ≡ parsed_of d q (memo_text analysis m t)
  unfolding discover_file
  discover_file-source_file m d q t = refl

  abbrev pub outcome :
      Discoverer → PathBuf → Text → FileWork → Option DiscoveredFile → Option DiscoveredFile
  outcome d q t (hit p r key) old = some r
  outcome d q t (miss p source key) old = some (parsed_of d q t)
  outcome d q t (stat_error p) old = old

  abbrev pub recached :
      Discoverer
      → PathBuf
      → Text
      → FileWork
      → FileKey
      → Option DiscoveredFile
      → Option DiscoveredFile
  recached d q t (miss p source key) j old =
      if key_eq.beq key j then some (parsed_of d q t) else none
  recached d q t _ j old = old

  outcome-found :
      (d : Discoverer) (q : PathBuf) (t : Text) (w : FileWork) (old : Option DiscoveredFile)
      → outcome d q t w old ≡ (if is_miss w then some (parsed_of d q t) else found w old)
  outcome-found d q t (hit p r key) old = refl
  outcome-found d q t (miss p source key) old = refl
  outcome-found d q t (stat_error p) old = refl

  recached-cached_or :
      (m : Option Text) (d : Discoverer) (q : PathBuf) (w : FileWork) (k : Option FileKey)
      (j : FileKey) (old : Option DiscoveredFile)
      → recached d q (memo_text analysis m (text_at disk q)) w j old ≡ (
          if is_miss w
          then cached_or analysis m (some (source_file d q (text_at disk q))) (key_hit w k) j old
          else old)
  recached-cached_or m d q (hit p r key) k j old = refl
  recached-cached_or m d q (miss p source key) k j old =
      rw (discover_file-source_file m d q (text_at disk q)) refl
  recached-cached_or m d q (stat_error p) k j old = refl

  pub record IsParsed (cache : DiskCache) (paths : List PathBuf) (d after : Discoverer)
      : Type 0 where
    pub same_root : after.root ≡ d.root
    pub same_src_roots : after.src_roots ≡ d.src_roots
    pub same_graph : after.import_graph ≡ d.import_graph
    pub own : AreOwn after
    pub seen : PathBuf → Text
    pub same_seen : (q : PathBuf) → analysis.same_body (seen q) (text_at disk q) ≡ true
    pub results_are :
        (q : PathBuf)
        → get q after.results ≡ (
            if contains paths q
            then outcome d q (seen q) (prepare_work disk cache q) (get q d.results)
            else get q d.results)
    pub cache_is :
        (q : PathBuf) (j : FileKey)
        → get_cached after.cache q j ≡ (
            if contains paths q
            then recached d q (seen q) (prepare_work disk cache q) j (get_cached d.cache q j)
            else get_cached d.cache q j)

  IsParsed-of :
      (cache : DiskCache) (paths : List PathBuf) (d : Discoverer) (mid : Discoverer × List PathBuf)
      (after : Discoverer)
      → AreOwn d
      → IsIngested disk cache paths d [] mid
      → IsStored analysis mid.0.memos mid.0.inputs mid.1 mid.0 after
      → IsParsed cache paths d after
  unfolding contains
  IsParsed-of cache paths d mid after own_d i s = record {
    same_root = s.same_root ∙ i.same_root;
    same_src_roots = s.same_src_roots ∙ i.same_src_roots;
    same_graph = s.same_graph ∙ i.same_graph;
    own = λ q f h. ground (
      arith,
      IsIngested-AreOwn disk cache paths d [] mid own_d i q f,
      h,
      s.same_inputs,
      s.same_root,
      s.same_src_roots,
    );
    seen = λ q. memo_text analysis (get q mid.0.memos) (text_at disk q);
    same_seen = λ q. memo_text_same analysis (get q mid.0.memos) (text_at disk q);
    results_are = λ q. ground (
      arith,
      s.results_are q,
      i.misses_are q,
      i.inputs_are q,
      i.results_are q,
      discover_file-source_file (get q mid.0.memos) d q (text_at disk q),
      outcome-found d q (memo_text analysis (get q mid.0.memos) (text_at disk q))
          (prepare_work disk cache q) (get q d.results),
    );
    cache_is = λ q j. ground (
      arith,
      s.cache_is q j,
      i.misses_are q,
      i.inputs_are q,
      i.keys_are q,
      i.same_cache,
      recached-cached_or (get q mid.0.memos) d q (prepare_work disk cache q)
          (get q d.cache_keys_hit) j (get_cached d.cache q j),
    );
  }

  pub ingest_and_parse-IsParsed :
      (cache : DiskCache) (paths : List PathBuf) (d : Discoverer)
      → AreOwn d
      → IsParsed cache paths d (ingest_and_parse analysis d (map (prepare_work disk cache) paths))
  unfolding ingest_and_parse
  ingest_and_parse-IsParsed cache paths d own =
      let mid = ingest (d, []) (map (prepare_work disk cache) paths) in
      let memos = remember analysis mid.0.memos (miss_snapshots mid.0.inputs mid.1) in
      IsParsed-of cache paths d mid
        (ingest_and_parse analysis d (map (prepare_work disk cache) paths)) own
        (ingest-IsIngested disk cache paths d [] own)
        (IsStored-memos analysis mid.0.memos memos mid.0.inputs mid.1 mid.0 _
          (store-IsStored analysis mid.0.memos mid.0.inputs mid.1 (record mid.0 { memos = memos })))

-- What is left of the state once the files that are gone are dropped.
pub record IsPruned (keep : List PathBuf) (d after : Discoverer) : Type 0 where
  pub same_root : after.root ≡ d.root
  pub same_src_roots : after.src_roots ≡ d.src_roots
  pub own : AreOwn d → AreOwn after
  pub results_are :
      (q : PathBuf) → get q after.results ≡ (if contains keep q then get q d.results else none)
  pub cache_is :
      (q : PathBuf) (j : FileKey)
      → get_cached after.cache q j ≡ (if contains keep q then get_cached d.cache q j else none)
  pub mirror : IsMirror d.import_graph → IsMirror after.import_graph
  pub edges_are :
      (a b : PathBuf)
      → has_edge after.import_graph.forward a b ≡ (
          (contains keep a || not (is_some (get a d.results)))
          && has_edge d.import_graph.forward a b)
  pub dirty_is :
      (a : PathBuf)
      → contains after.import_graph.always_dirty a ≡ (
          (contains keep a || not (is_some (get a d.results)))
          && contains d.import_graph.always_dirty a)

pub prune-IsPruned : (keep : List PathBuf) (d : Discoverer) → IsPruned keep d (prune d keep)
unfolding prune
prune-IsPruned keep d =
    let kept = record d { cache = retain d.cache keep } in
    let gone = stale keep d.results in
    let s = forget-IsForgotten gone kept in
    let is_gone =
      λ (q : PathBuf). contains-filter (λ p. not (contains keep p)) (keys d.results) q in
    record {
      same_root = s.same_root;
      same_src_roots = s.same_src_roots;
      own = λ own q f h. ground (arith, own q f, h, s.inputs_are q, s.same_root, s.same_src_roots);
      results_are = λ q. ground (arith, s.results_are q, is_gone q, contains-keys q d.results);
      cache_is = λ q j. ground (arith, s.same_cache, get_cached-retain d.cache keep q j);
      mirror = λ m. s.mirror m;
      edges_are = λ a b. ground (arith, s.edges_are a b, is_gone a, contains-keys a d.results);
      dirty_is = λ a. ground (arith, s.dirty_is a, is_gone a, contains-keys a d.results);
    }
