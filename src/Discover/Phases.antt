-- ===== src/Discover/Phases.antt =====
-- crates/tryke_discovery/src/filesystem/discoverer.rs: what the phases of `rediscover` do to each
-- field of the state.
use tryke.Prelude.{
  ◌≡◌, refl, sym, ap, ◌∙◌, ◌⊎◌, inl, inr, Bool, true, false, not, ◌&&◌, ◌||◌, List, [], ◌∷◌, ◌++◌,
  map, Option, none, some, Text, filter, contains, contains-append, contains-filter, list_eq,
  nat_eq, if◌then◌else◌, is_some, Option-cases, Bool-cases, arith,
}
use tryke.Prelude.Dict.{get, get-insert}
use tryke.Paths.{component_eq}
use tryke.Paths.Operations.{PathBuf, path_eq}
use tryke.Discover.Files.{DiscoveredFile, FileKey, Disk, from_path, text_at}
use tryke.Discover.Cache.{DiskCache, get_cached}
use tryke.Discover.State.{
  SourceFile, Discoverer, FileWork, hit, miss, stat_error, source_file, upserted, upsert_source,
  prepare_work, ingest_one, ingest,
}

-- Each input holds the roots of the state and the path that it is kept under.
abbrev pub AreOwn : Discoverer → Type 0
AreOwn d = (p : PathBuf) (f : SourceFile) → get p d.inputs ≡ some f → f ≡ source_file d p f.text

pub upserted-get :
    (d : Discoverer) (p : PathBuf) (text : Text) (old : Option SourceFile) (q : PathBuf)
    → AreOwn d
    → get p d.inputs ≡ old
    → get q (upserted d p text old)
      ≡ (if path_eq.beq p q then some (source_file d p text) else get q d.inputs)
upserted-get d p text none q own h = get-insert p q (source_file d p text) d.inputs
upserted-get d p text (some f) q own h = ground (
  arith,
  own p f h,
  h,
  path_eq.beq_iff p q,
  (list_eq {A = tryke.Prelude.ℕ}).beq_iff f.text text,
  get-insert p q (record f { text = text }) d.inputs,
)

-- The work for a path, by what the file system and the cache say.
pub data IsPrepared (disk : Disk) (cache : DiskCache) (p : PathBuf) : FileWork → Type 0 where
  was_hit :
      {r : DiscoveredFile} {key : FileKey}
      → from_path disk p ≡ some key
      → get_cached cache p key ≡ some r
      → IsPrepared disk cache p (hit p r key)
  was_miss :
      {key : FileKey}
      → from_path disk p ≡ some key
      → get_cached cache p key ≡ none
      → IsPrepared disk cache p (miss p (text_at disk p) key)
  was_error : from_path disk p ≡ none → IsPrepared disk cache p (stat_error p)

pub prepare_work-IsPrepared :
    (disk : Disk) (cache : DiskCache) (p : PathBuf)
    → IsPrepared disk cache p (prepare_work disk cache p)
unfolding prepare_work
prepare_work-IsPrepared disk cache p = elim (Option-cases (from_path disk p)) [
  | inl e ↦ rw e (was_error e)
  | inr (key, e) ↦ elim (Option-cases (get_cached cache p key)) [
    | inl none_there ↦ rw (e, none_there) (was_miss e none_there)
    | inr (r, there) ↦ rw (e, there) (was_hit e there)
  ]
]

abbrev pub is_miss : FileWork → Bool
is_miss (miss p source key) = true
is_miss _ = false

abbrev pub found : FileWork → Option DiscoveredFile → Option DiscoveredFile
found (hit p r key) old = some r
found _ old = old

abbrev pub key_hit : FileWork → Option FileKey → Option FileKey
key_hit (hit p r key) old = some key
key_hit (miss p source key) old = some key
key_hit (stat_error p) old = old

found-found : (w : FileWork) (old : Option DiscoveredFile) → found w (found w old) ≡ found w old
found-found (hit p r key) old = refl
found-found (miss p source key) old = refl
found-found (stat_error p) old = refl

key_hit-key_hit : (w : FileWork) (old : Option FileKey) → key_hit w (key_hit w old) ≡ key_hit w old
key_hit-key_hit (hit p r key) old = refl
key_hit-key_hit (miss p source key) old = refl
key_hit-key_hit (stat_error p) old = refl

module _ (disk : Disk) (cache : DiskCache) where
  abbrev pub work : PathBuf → FileWork
  work p = prepare_work disk cache p

  -- What taking in the work of some paths does to the state and the misses.
  pub record IsIngested (paths : List PathBuf) (d : Discoverer) (ms : List PathBuf)
      (after : Discoverer × List PathBuf) : Type 0 where
    pub same_root : after.0.root ≡ d.root
    pub same_src_roots : after.0.src_roots ≡ d.src_roots
    pub same_graph : after.0.import_graph ≡ d.import_graph
    pub same_cache : after.0.cache ≡ d.cache
    pub results_are :
        (q : PathBuf)
        → get q after.0.results
          ≡ (if contains paths q then found (work q) (get q d.results) else get q d.results)
    pub misses_are :
        (q : PathBuf)
        → contains after.1 q ≡ (contains ms q || (contains paths q && is_miss (work q)))
    pub inputs_are :
        (q : PathBuf)
        → get q after.0.inputs ≡ (
            if contains paths q && is_miss (work q)
            then some (source_file d q (text_at disk q))
            else get q d.inputs)
    pub keys_are :
        (q : PathBuf)
        → get q after.0.cache_keys_hit ≡ (
            if contains paths q
            then key_hit (work q) (get q d.cache_keys_hit)
            else get q d.cache_keys_hit)

  ingest_one-IsIngested :
      (p : PathBuf) (w : FileWork) (d : Discoverer) (ms : List PathBuf)
      → AreOwn d
      → IsPrepared disk cache p w
      → work p ≡ w
      → IsIngested (p ∷ []) d ms (ingest_one (d, ms) w)
  unfolding contains upsert_source
  ingest_one-IsIngested p (hit _ r key) d ms own (was_hit a b) eq = record {
    same_root = refl;
    same_src_roots = refl;
    same_graph = refl;
    same_cache = refl;
    results_are = λ q. ground (arith, path_eq.beq_iff p q, get-insert p q r d.results, eq);
    misses_are = λ q. ground (arith, path_eq.beq_iff p q, eq);
    inputs_are = λ q. ground (arith, path_eq.beq_iff p q, eq);
    keys_are = λ q. ground (arith, path_eq.beq_iff p q, get-insert p q key d.cache_keys_hit, eq);
  }
  ingest_one-IsIngested p (miss _ _ key) d ms own (was_miss a b) eq = record {
    same_root = refl;
    same_src_roots = refl;
    same_graph = refl;
    same_cache = refl;
    results_are = λ q. ground (arith, path_eq.beq_iff p q, eq);
    misses_are = λ q. ground (arith, path_eq.beq_iff p q, contains-append ms (p ∷ []) q, eq);
    inputs_are = λ q. ground (
      arith,
      path_eq.beq_iff p q,
      upserted-get d p (text_at disk p) (get p d.inputs) q own refl,
      eq,
    );
    keys_are = λ q. ground (arith, path_eq.beq_iff p q, get-insert p q key d.cache_keys_hit, eq);
  }
  ingest_one-IsIngested p (stat_error _) d ms own (was_error a) eq = record {
    same_root = refl;
    same_src_roots = refl;
    same_graph = refl;
    same_cache = refl;
    results_are = λ q. ground (arith, path_eq.beq_iff p q, eq);
    misses_are = λ q. ground (arith, path_eq.beq_iff p q, eq);
    inputs_are = λ q. ground (arith, path_eq.beq_iff p q, eq);
    keys_are = λ q. ground (arith, path_eq.beq_iff p q, eq);
  }

  pub IsIngested-AreOwn :
      (paths : List PathBuf) (d : Discoverer) (ms : List PathBuf)
      (after : Discoverer × List PathBuf)
      → AreOwn d
      → IsIngested paths d ms after
      → AreOwn after.0
  IsIngested-AreOwn paths d ms after own s q f h =
      ground (arith, own q f, h, s.inputs_are q, s.same_root, s.same_src_roots)

  IsIngested-then :
      (p : PathBuf) (paths : List PathBuf) (d : Discoverer) (ms : List PathBuf)
      (mid after : Discoverer × List PathBuf)
      → IsIngested (p ∷ []) d ms mid
      → IsIngested paths mid.0 mid.1 after
      → IsIngested (p ∷ paths) d ms after
  unfolding contains
  IsIngested-then p paths d ms mid after one rest = record {
    same_root = rest.same_root ∙ one.same_root;
    same_src_roots = rest.same_src_roots ∙ one.same_src_roots;
    same_graph = rest.same_graph ∙ one.same_graph;
    same_cache = rest.same_cache ∙ one.same_cache;
    results_are = λ q.
        ground
          (arith, rest.results_are q, one.results_are q, found-found (work q) (get q d.results));
    misses_are = λ q. ground (arith, rest.misses_are q, one.misses_are q);
    inputs_are =
        λ q. ground (arith, rest.inputs_are q, one.inputs_are q, one.same_root, one.same_src_roots);
    keys_are = λ q.
        ground (
          arith,
          rest.keys_are q,
          one.keys_are q,
          key_hit-key_hit (work q) (get q d.cache_keys_hit),
        );
  }

  pub ingest-IsIngested :
      (paths : List PathBuf) (d : Discoverer) (ms : List PathBuf)
      → AreOwn d
      → IsIngested paths d ms (ingest (d, ms) (map work paths))
  unfolding ingest contains
  ingest-IsIngested [] d ms own = record {
    same_root = refl;
    same_src_roots = refl;
    same_graph = refl;
    same_cache = refl;
    results_are = λ q. refl;
    misses_are = λ q. ground arith;
    inputs_are = λ q. refl;
    keys_are = λ q. refl;
  }
  ingest-IsIngested (p ∷ paths) d ms own =
      let mid = ingest_one (d, ms) (work p) in
      let one =
        ingest_one-IsIngested p (work p) d ms own (prepare_work-IsPrepared disk cache p) refl in
      IsIngested-then p paths d ms mid (ingest mid (map work paths)) one
        (ingest-IsIngested paths mid.0 mid.1 (IsIngested-AreOwn (p ∷ []) d ms mid own one))
