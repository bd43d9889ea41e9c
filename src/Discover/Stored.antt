-- ===== src/Discover/Stored.antt =====
-- crates/tryke_discovery/src/filesystem/discoverer.rs: the loops over the fresh parses and over the
-- files that are gone.
use tryke.Prelude.{
  ◌≡◌, refl, not, ◌&&◌, List, [], ◌∷◌, Option, none, some, Text, inl, inr, contains, list_eq,
  nat_eq, if◌then◌else◌, Option-cases, arith,
}
use tryke.Prelude.Dict.{Dict, get, insert, remove, get-insert, get-remove}
use tryke.Paths.{component_eq}
use tryke.Paths.Operations.{PathBuf, path_eq}
use tryke.Graph.{remove_file}
use tryke.Graph.Mirror.{
  IsMirror, has_edge, remove_file-IsMirror, has_edge-remove_file, dirty-remove_file,
}
use tryke.Discover.Files.{DiscoveredFile, FileKey}
use tryke.Discover.Cache.{DiskCache, get_cached, key_eq, get_cached-insert_cached}
use tryke.Discover.State.{
  Analysis, SourceFile, Discoverer, discover_file, miss_snapshots, parse_in_parallel, cached_as,
  store, forget,
}

module _ (analysis : Analysis) where
  abbrev pub parsed_or :
      Option Text → Option SourceFile → Option DiscoveredFile → Option DiscoveredFile
  parsed_or m none old = old
  parsed_or m (some f) old = some (discover_file analysis m f)

  abbrev pub cached_or :
      Option Text
      → Option SourceFile
      → Option FileKey
      → FileKey
      → Option DiscoveredFile
      → Option DiscoveredFile
  cached_or m (some f) (some k) j old =
      if key_eq.beq k j then some (discover_file analysis m f) else none
  cached_or m _ _ j old = old

  abbrev stored :
      Discoverer → Dict PathBuf Text → Dict PathBuf SourceFile → List PathBuf → Discoverer
  stored d memos inputs ms = store d (parse_in_parallel analysis memos (miss_snapshots inputs ms))

  -- What storing the parses of some inputs does to the state.
  pub record IsStored (memos : Dict PathBuf Text) (inputs : Dict PathBuf SourceFile)
      (ms : List PathBuf) (d after : Discoverer) : Type 0 where
    pub same_root : after.root ≡ d.root
    pub same_src_roots : after.src_roots ≡ d.src_roots
    pub same_graph : after.import_graph ≡ d.import_graph
    pub same_inputs : after.inputs ≡ d.inputs
    pub results_are :
        (q : PathBuf)
        → get q after.results ≡ (
            if contains ms q
            then parsed_or (get q memos) (get q inputs) (get q d.results)
            else get q d.results)
    pub cache_is :
        (q : PathBuf) (j : FileKey)
        → get_cached after.cache q j ≡ (
            if contains ms q
            then cached_or
                (get q memos)
                (get q inputs)
                (get q d.cache_keys_hit)
                j
                (get_cached d.cache q j)
            else get_cached d.cache q j)

  pub cached_as-get :
      (c : DiskCache) (p : PathBuf) (r : DiscoveredFile) (k : Option FileKey) (q : PathBuf)
      (j : FileKey)
      → get_cached (cached_as c p r k) q j ≡ (
          if path_eq.beq p q
          then (elim k [
            | some key ↦ if key_eq.beq key j then some r else none
            | none ↦ get_cached c q j
          ])
          else get_cached c q j)
  cached_as-get c p r none q j = ground arith
  cached_as-get c p r (some k) q j = get_cached-insert_cached c p k r q j

  abbrev store_one : Discoverer → PathBuf → DiscoveredFile → Discoverer
  store_one d p r = record d {
    results = insert p r d.results;
    cache = cached_as d.cache p r (get p d.cache_keys_hit);
  }

  IsStored-then :
      (memos : Dict PathBuf Text) (inputs : Dict PathBuf SourceFile) (p : PathBuf) (f : SourceFile)
      (ms : List PathBuf) (d after : Discoverer)
      → get p inputs ≡ some f
      → IsStored memos inputs ms (store_one d p (discover_file analysis (get p memos) f)) after
      → IsStored memos inputs (p ∷ ms) d after
  unfolding contains
  IsStored-then memos inputs p f ms d after here rest = record {
    same_root = rest.same_root;
    same_src_roots = rest.same_src_roots;
    same_graph = rest.same_graph;
    same_inputs = rest.same_inputs;
    results_are = λ q. ground (
      arith,
      rest.results_are q,
      path_eq.beq_iff p q,
      here,
      get-insert p q (discover_file analysis (get p memos) f) d.results,
    );
    cache_is = λ q j. ground (
      arith,
      rest.cache_is q j,
      path_eq.beq_iff p q,
      here,
      cached_as-get d.cache p (discover_file analysis (get p memos) f) (get p d.cache_keys_hit) q j,
    );
  }

  IsStored-skip :
      (memos : Dict PathBuf Text) (inputs : Dict PathBuf SourceFile) (p : PathBuf)
      (ms : List PathBuf) (d after : Discoverer)
      → get p inputs ≡ none
      → IsStored memos inputs ms d after
      → IsStored memos inputs (p ∷ ms) d after
  unfolding contains
  IsStored-skip memos inputs p ms d after gone rest = record {
    same_root = rest.same_root;
    same_src_roots = rest.same_src_roots;
    same_graph = rest.same_graph;
    same_inputs = rest.same_inputs;
    results_are = λ q. ground (arith, rest.results_are q, path_eq.beq_iff p q, gone);
    cache_is = λ q j. ground (arith, rest.cache_is q j, path_eq.beq_iff p q, gone);
  }

  pub store-IsStored :
      (memos : Dict PathBuf Text) (inputs : Dict PathBuf SourceFile) (ms : List PathBuf)
      (d : Discoverer)
      → IsStored memos inputs ms d (stored d memos inputs ms)
  unfolding contains miss_snapshots parse_in_parallel store
  store-IsStored memos inputs [] d = record {
    same_root = refl;
    same_src_roots = refl;
    same_graph = refl;
    same_inputs = refl;
    results_are = λ q. refl;
    cache_is = λ q j. refl;
  }
  store-IsStored memos inputs (p ∷ ms) d = elim (Option-cases (get p inputs)) [
    | inl gone ↦
        IsStored-skip memos inputs p ms d _ gone (rw gone (store-IsStored memos inputs ms d))
    | inr (f, here) ↦ IsStored-then memos inputs p f ms d _ here (
        rw here
          (store-IsStored memos inputs ms (store_one d p (discover_file analysis (get p memos) f))))
  ]

  -- The memos are no part of it.
  pub IsStored-memos :
      (memos m : Dict PathBuf Text) (inputs : Dict PathBuf SourceFile) (ms : List PathBuf)
      (d after : Discoverer)
      → IsStored memos inputs ms (record d { memos = m }) after
      → IsStored memos inputs ms d after
  IsStored-memos memos m inputs ms d after s = record {
    same_root = s.same_root;
    same_src_roots = s.same_src_roots;
    same_graph = s.same_graph;
    same_inputs = s.same_inputs;
    results_are = s.results_are;
    cache_is = s.cache_is;
  }

-- What dropping some files does to the state.
pub record IsForgotten (removed : List PathBuf) (d after : Discoverer) : Type 0 where
  pub same_root : after.root ≡ d.root
  pub same_src_roots : after.src_roots ≡ d.src_roots
  pub same_cache : after.cache ≡ d.cache
  pub results_are :
      (q : PathBuf) → get q after.results ≡ (if contains removed q then none else get q d.results)
  pub inputs_are :
      (q : PathBuf) → get q after.inputs ≡ (if contains removed q then none else get q d.inputs)
  pub mirror : IsMirror d.import_graph → IsMirror after.import_graph
  pub edges_are :
      (a b : PathBuf)
      → has_edge after.import_graph.forward a b
        ≡ (not (contains removed a) && has_edge d.import_graph.forward a b)
  pub dirty_is :
      (a : PathBuf)
      → contains after.import_graph.always_dirty a
        ≡ (not (contains removed a) && contains d.import_graph.always_dirty a)

pub forget-IsForgotten :
    (removed : List PathBuf) (d : Discoverer) → IsForgotten removed d (forget d removed)
unfolding forget contains
forget-IsForgotten [] d = record {
  same_root = refl;
  same_src_roots = refl;
  same_cache = refl;
  results_are = λ q. refl;
  inputs_are = λ q. refl;
  mirror = λ m. m;
  edges_are = λ a b. refl;
  dirty_is = λ a. refl;
}
forget-IsForgotten (p ∷ removed) d =
    let rest = forget-IsForgotten removed (record d {
      import_graph = remove_file d.import_graph p;
      inputs = remove p d.inputs;
      memos = remove p d.memos;
      results = remove p d.results;
    }) in
    record {
      same_root = rest.same_root;
      same_src_roots = rest.same_src_roots;
      same_cache = rest.same_cache;
      results_are = λ q. ground (arith, rest.results_are q, get-remove p q d.results);
      inputs_are = λ q. ground (arith, rest.inputs_are q, get-remove p q d.inputs);
      mirror = λ m. rest.mirror (remove_file-IsMirror d.import_graph p m);
      edges_are =
          λ a b. ground (arith, rest.edges_are a b, has_edge-remove_file d.import_graph p a b);
      dirty_is = λ a. ground (arith, rest.dirty_is a, dirty-remove_file d.import_graph p a);
    }
