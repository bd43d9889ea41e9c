-- ===== src/Discover/Refreshed.antt =====
-- crates/tryke_discovery/src/filesystem/discoverer.rs: the second loop of `rediscover_changed`, on
-- each field of the state.
use tryke.Prelude.{
  ◌≡◌, refl, ap, ◌∙◌, List, [], ◌∷◌, Option, none, some, Text, contains, list_eq, nat_eq,
  if◌then◌else◌, Option-cases, arith,
}
use tryke.Prelude.Dict.{Dict, get, get-insert}
use tryke.Paths.{component_eq}
use tryke.Paths.Operations.{PathBuf, path_eq}
use tryke.Graph.Mirror.{IsMirror, has_edge}
use tryke.Discover.Files.{DiscoveredFile, FileKey, Disk, from_path}
use tryke.Discover.Cache.{get_cached, key_eq}
use tryke.Discover.State.{Analysis, SourceFile, Discoverer, memo_text, discover_file}
use tryke.Discover.Linked.{
  imports_of, dynamic_or, link_one-IsMirror, has_edge-link_one, dirty-link_one,
}
use tryke.Discover.Change.{refresh_one, refresh}
use tryke.Discover.Memos.{memo_text_again, discover_file_again}
use tryke.Discover.Stored.{parsed_or, cached_or, cached_as-get}

module _ (analysis : Analysis) (disk : Disk) where
  -- The result that a touched path gets.
  abbrev pub fresh :
      Dict PathBuf Text → Dict PathBuf SourceFile → List PathBuf → PathBuf → Option DiscoveredFile
  fresh memos inputs ts q =
      if contains ts q then parsed_or analysis (get q memos) (get q inputs) none else none

  -- The memo of an input that was queried.
  abbrev pub memo_after : Option Text → Option SourceFile → Option Text
  memo_after m none = m
  memo_after m (some f) = some (memo_text analysis m f.text)

  -- A query after a query.
  parsed_or-memo_after :
      (m : Option Text) (o : Option SourceFile) (old : Option DiscoveredFile)
      → parsed_or analysis (memo_after m o) o old ≡ parsed_or analysis m o old
  parsed_or-memo_after m none old = refl
  parsed_or-memo_after m (some f) old = ap some (discover_file_again analysis m f)

  cached_or-memo_after :
      (m : Option Text) (o : Option SourceFile) (k : Option FileKey) (j : FileKey)
      (old : Option DiscoveredFile)
      → cached_or analysis (memo_after m o) o k j old ≡ cached_or analysis m o k j old
  cached_or-memo_after m none k j old = refl
  cached_or-memo_after m (some f) none j old = refl
  cached_or-memo_after m (some f) (some k) j old = rw (discover_file_again analysis m f) refl

  memo_after-memo_after :
      (m : Option Text) (o : Option SourceFile) → memo_after (memo_after m o) o ≡ memo_after m o
  memo_after-memo_after m none = refl
  memo_after-memo_after m (some f) = ap some (memo_text_again analysis m f.text)

  abbrev pub or_else : Option DiscoveredFile → Option DiscoveredFile → Option DiscoveredFile
  or_else none old = old
  or_else (some r) old = some r

  pub record IsRefreshed (ts : List PathBuf) (d after : Discoverer) : Type 0 where
    pub same_root : after.root ≡ d.root
    pub same_src_roots : after.src_roots ≡ d.src_roots
    pub same_inputs : after.inputs ≡ d.inputs
    pub same_project : after.project_files ≡ d.project_files
    pub memos_are :
        (q : PathBuf)
        → get q after.memos
          ≡ (if contains ts q then memo_after (get q d.memos) (get q d.inputs) else get q d.memos)
    pub results_are :
        (q : PathBuf)
        → get q after.results ≡ or_else (fresh d.memos d.inputs ts q) (get q d.results)
    pub cache_is :
        (q : PathBuf) (j : FileKey)
        → get_cached after.cache q j ≡ (
            if contains ts q
            then cached_or analysis
                (get q d.memos)
                (get q d.inputs)
                (from_path disk q)
                j
                (get_cached d.cache q j)
            else get_cached d.cache q j)
    pub mirror : IsMirror d.import_graph → IsMirror after.import_graph
    pub edges_are :
        (a b : PathBuf)
        → has_edge after.import_graph.forward a b
          ≡ imports_of d.project_files
              (fresh d.memos d.inputs ts a)
              b
              (has_edge d.import_graph.forward a b)
    pub dirty_is :
        (a : PathBuf)
        → contains after.import_graph.always_dirty a
          ≡ dynamic_or (fresh d.memos d.inputs ts a) (contains d.import_graph.always_dirty a)

  refresh_one-IsRefreshed :
      (p : PathBuf) (o : Option SourceFile) (d : Discoverer)
      → get p d.inputs ≡ o
      → IsRefreshed (p ∷ []) d (refresh_one analysis disk d p o)
  unfolding contains
  refresh_one-IsRefreshed p none d h = record {
    same_root = refl;
    same_src_roots = refl;
    same_inputs = refl;
    same_project = refl;
    memos_are = λ q. ground (arith, path_eq.beq_iff p q, h);
    results_are = λ q. ground (arith, path_eq.beq_iff p q, h);
    cache_is = λ q j. ground (arith, path_eq.beq_iff p q, h);
    mirror = λ m. m;
    edges_are = λ a b. ground (arith, path_eq.beq_iff p a, h);
    dirty_is = λ a. ground (arith, path_eq.beq_iff p a, h);
  }
  refresh_one-IsRefreshed p (some f) d h = record {
    same_root = refl;
    same_src_roots = refl;
    same_inputs = refl;
    same_project = refl;
    memos_are = λ q. ground (
      arith,
      path_eq.beq_iff p q,
      h,
      get-insert p q (memo_text analysis (get p d.memos) f.text) d.memos,
    );
    results_are = λ q. ground (
      arith,
      path_eq.beq_iff p q,
      h,
      get-insert p q (discover_file analysis (get p d.memos) f) d.results,
    );
    cache_is = λ q j. ground (
      arith,
      path_eq.beq_iff p q,
      h,
      cached_as-get analysis d.cache p (discover_file analysis (get p d.memos) f) (from_path disk p)
          q j,
    );
    mirror = λ m.
        link_one-IsMirror d.project_files d.import_graph p
          (discover_file analysis (get p d.memos) f) m;
    edges_are = λ a b. ground (
      arith,
      path_eq.beq_iff p a,
      h,
      has_edge-link_one d.project_files d.import_graph p (discover_file analysis (get p d.memos) f)
          a b,
    );
    dirty_is = λ a. ground (
      arith,
      path_eq.beq_iff p a,
      h,
      dirty-link_one d.project_files d.import_graph p (discover_file analysis (get p d.memos) f) a,
    );
  }

  IsRefreshed-then :
      (p : PathBuf) (ts : List PathBuf) (d mid after : Discoverer)
      → IsRefreshed (p ∷ []) d mid
      → IsRefreshed ts mid after
      → IsRefreshed (p ∷ ts) d after
  unfolding contains
  IsRefreshed-then p ts d mid after one rest = record {
    same_root = rest.same_root ∙ one.same_root;
    same_src_roots = rest.same_src_roots ∙ one.same_src_roots;
    same_inputs = rest.same_inputs ∙ one.same_inputs;
    same_project = rest.same_project ∙ one.same_project;
    memos_are = λ q. ground (
      arith,
      rest.memos_are q,
      one.memos_are q,
      one.same_inputs,
      path_eq.beq_iff p q,
      memo_after-memo_after (get q d.memos) (get q d.inputs),
    );
    results_are = λ q. ground (
      arith,
      rest.results_are q,
      one.results_are q,
      one.memos_are q,
      one.same_inputs,
      Option-cases (get q d.inputs),
      parsed_or-memo_after (get q d.memos) (get q d.inputs) none,
    );
    cache_is = λ q j. ground (
      arith,
      rest.cache_is q j,
      one.cache_is q j,
      one.memos_are q,
      cached_or-memo_after (get q d.memos) (get q d.inputs) (from_path disk q) j
          (get_cached d.cache q j),
      one.same_inputs,
      Option-cases (get q d.inputs),
      Option-cases (from_path disk q),
    );
    mirror = λ m. rest.mirror (one.mirror m);
    edges_are = λ a b. ground (
      arith,
      rest.edges_are a b,
      one.edges_are a b,
      one.memos_are a,
      parsed_or-memo_after (get a d.memos) (get a d.inputs) none,
      one.same_inputs,
      one.same_project,
      Option-cases (get a d.inputs),
    );
    dirty_is = λ a. ground (
      arith,
      rest.dirty_is a,
      one.dirty_is a,
      one.same_inputs,
      one.memos_are a,
      parsed_or-memo_after (get a d.memos) (get a d.inputs) none,
      Option-cases (get a d.inputs),
    );
  }

  pub refresh-IsRefreshed :
      (ts : List PathBuf) (d : Discoverer) → IsRefreshed ts d (refresh analysis disk d ts)
  unfolding refresh contains
  refresh-IsRefreshed [] d = record {
    same_root = refl;
    same_src_roots = refl;
    same_inputs = refl;
    same_project = refl;
    memos_are = λ q. refl;
    results_are = λ q. refl;
    cache_is = λ q j. refl;
    mirror = λ m. m;
    edges_are = λ a b. refl;
    dirty_is = λ a. refl;
  }
  refresh-IsRefreshed (p ∷ ts) d =
      let mid = refresh_one analysis disk d p (get p d.inputs) in
      IsRefreshed-then p ts d mid (refresh analysis disk mid ts)
        (refresh_one-IsRefreshed p (get p d.inputs) d refl) (refresh-IsRefreshed ts mid)
