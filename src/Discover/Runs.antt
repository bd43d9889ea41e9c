-- ===== src/Discover/Runs.antt =====
-- crates/tryke_discovery/src/filesystem/discoverer.rs: sequences of operations from a fresh
-- `Discoverer`.
use tryke.Prelude.{
  ◌≡◌, refl, ap, ◌∙◌, subst, sym, ◌||◌, List, [], ◌∷◌, map, Option, filter, contains, distinct,
  contains-filter, contains-distinct, list_eq, nat_eq, arith,
}
use tryke.Prelude.Dict.{get, get-empty}
use tryke.Paths.{component_eq}
use tryke.Paths.Operations.{PathBuf}
use tryke.Graph.{ImportGraph, empty_graph, mark_always_dirty}
use tryke.Graph.Mirror.{
  IsMirror, has_edge, op_mark, apply_op-IsMirror, dirty-mark, forward-mark, run_ops-IsMirror,
  edges_empty, dirty_empty,
}
use tryke.Discover.Files.{DiscoveredFile, Disk, collect_python_files_restricted}
use tryke.Discover.Cache.{CacheFile}
use tryke.Discover.Save.{Bytes, Files}
use tryke.Discover.State.{Analysis, SourceFile, Discoverer, prepare_work}
use tryke.Discover.Rediscover.{
  rediscover, rediscover_restricted, ingest_and_parse, is_dynamic, mark_all,
}
use tryke.Discover.Change.{eligible, rediscover_changed, apply_changes}
use tryke.Discover.Impact.{applied}
use tryke.Discover.Applied.{applied-IsTracked}
use tryke.Discover.Found.{ingest_and_parse-IsParsed}
use tryke.Discover.Tracked.{IsTracked}
use tryke.Discover.Kept.{rediscover-IsTracked}
use tryke.Discover.Changed.{rediscover_changed-IsTracked}
use tryke.Discover.New.{new}

mark_all-IsMirror :
    (ps : List PathBuf) (g : ImportGraph PathBuf) → IsMirror g → IsMirror (mark_all g ps)
unfolding mark_all
mark_all-IsMirror [] g m = m
mark_all-IsMirror (p ∷ ps) g m =
    mark_all-IsMirror ps (mark_always_dirty g p) (apply_op-IsMirror g (op_mark p) m)

edges-mark_all :
    (ps : List PathBuf) (g : ImportGraph PathBuf) (a b : PathBuf)
    → has_edge (mark_all g ps).forward a b ≡ has_edge g.forward a b
unfolding mark_all
edges-mark_all [] g a b = refl
edges-mark_all (p ∷ ps) g a b =
    edges-mark_all ps (mark_always_dirty g p) a b ∙ ap (λ f. has_edge f a b) (forward-mark g p)

dirty-mark_all :
    (ps : List PathBuf) (g : ImportGraph PathBuf) (a : PathBuf)
    → contains (mark_all g ps).always_dirty a ≡ (contains g.always_dirty a || contains ps a)
unfolding mark_all contains
dirty-mark_all [] g a = ground arith
dirty-mark_all (p ∷ ps) g a =
    ground (arith, dirty-mark_all ps (mark_always_dirty g p) a, dirty-mark g p a)

module _ (analysis : Analysis) where
  -- `rediscover_restricted` gives the invariants, whatever the state was before.
  rediscover_restricted-IsTracked :
      (disk : Disk) (d : Discoverer) (roots : List PathBuf)
      → IsTracked (rediscover_restricted analysis disk d roots).0
  unfolding rediscover_restricted
  rediscover_restricted-IsTracked disk d roots =
      let cleared = record d {
        results = [];
        inputs = [];
        memos = [];
        import_graph = empty_graph PathBuf;
      } in
      let paths = collect_python_files_restricted disk roots in
      let p =
        ingest_and_parse-IsParsed analysis disk d.cache paths cleared
          (λ q f h. absurd (ground (arith, get-empty {V = SourceFile} q, h))) in
      let after = ingest_and_parse analysis cleared (map (prepare_work disk d.cache) paths) in
      let dirty = filter (λ q. is_dynamic (get q after.results)) (distinct paths) in
      record {
        own = λ q f h. p.own q f h;
        mirror =
            mark_all-IsMirror dirty after.import_graph
              (subst (λ g. IsMirror g) (sym p.same_graph) (run_ops-IsMirror []));
        edges = λ a b h.
            edges-mark_all dirty after.import_graph a b
            ∙ (ap (λ g. has_edge g.forward a b) p.same_graph ∙ edges_empty a b);
        dirty = λ a. ground (
          arith,
          dirty-mark_all dirty after.import_graph a,
          ap (λ g. contains g.always_dirty a) p.same_graph,
          dirty_empty a,
          contains-filter (λ q. is_dynamic (get q after.results)) (distinct paths) a,
          contains-distinct paths a,
          p.results_are a,
          get-empty {V = DiscoveredFile} a,
        );
      }

  -- The operations that change a `Discoverer`, each with the file system that it finds.
  pub data Step : Type 0 where
    step_full : Disk → Step
    step_restricted : Disk → List PathBuf → Step
    step_changed : Disk → List PathBuf → Step
    step_apply : Disk → List PathBuf → Step

  abbrev pub take_step : Discoverer → Step → Discoverer
  take_step d (step_full disk) = (rediscover analysis disk d).0
  take_step d (step_restricted disk roots) = (rediscover_restricted analysis disk d roots).0
  take_step d (step_changed disk paths) = (rediscover_changed analysis disk d paths).0
  take_step d (step_apply disk paths) = applied d (apply_changes analysis disk d paths)

  abbrev pub take_steps : Discoverer → List Step → Discoverer
  take_steps d [] = d
  take_steps d (s ∷ ss) = take_steps (take_step d s) ss

  take_step-IsTracked : (d : Discoverer) (s : Step) → IsTracked d → IsTracked (take_step d s)
  unfolding apply_changes
  take_step-IsTracked d (step_full disk) t = rediscover-IsTracked analysis disk d t
  take_step-IsTracked d (step_restricted disk roots) t =
      rediscover_restricted-IsTracked disk d roots
  take_step-IsTracked d (step_changed disk paths) t =
      rediscover_changed-IsTracked analysis disk d paths t
  take_step-IsTracked d (step_apply disk paths) t =
      applied-IsTracked analysis disk d (eligible disk d paths) t

  take_steps_from-IsTracked :
      (ss : List Step) (d : Discoverer) → IsTracked d → IsTracked (take_steps d ss)
  take_steps_from-IsTracked [] d t = t
  take_steps_from-IsTracked (s ∷ ss) d t =
      take_steps_from-IsTracked ss (take_step d s) (take_step-IsTracked d s t)

  new-IsTracked :
      (decode : Bytes → Option CacheFile) (disk : Disk) (files : Files) (root : PathBuf)
      (src_roots : List PathBuf) (cache_dir : Option PathBuf)
      → IsTracked (new decode disk files root src_roots cache_dir)
  unfolding new
  new-IsTracked decode disk files root src_roots cache_dir = record {
    own = λ q f h. absurd (ground (arith, get-empty {V = SourceFile} q, h));
    mirror = run_ops-IsMirror [];
    edges = λ a b h. edges_empty a b;
    dirty = λ a. ground (arith, dirty_empty a, get-empty {V = DiscoveredFile} a);
  }

  -- A new `Discoverer`, taken through any sequence of full, restricted and incremental discoveries
  -- and applied changes, each on a file system of its own, keeps the invariants: its inputs are its
  -- own, the two indexes of its graph agree, a file without a result imports nothing, and the files
  -- that are always dirty are those whose results have dynamic imports.
  pub take_steps-IsTracked :
      (decode : Bytes → Option CacheFile) (disk : Disk) (files : Files) (root : PathBuf)
      (src_roots : List PathBuf) (cache_dir : Option PathBuf) (ss : List Step)
      → IsTracked (take_steps (new decode disk files root src_roots cache_dir) ss)
  take_steps-IsTracked decode disk files root src_roots cache_dir ss =
      take_steps_from-IsTracked ss (new decode disk files root src_roots cache_dir)
        (new-IsTracked decode disk files root src_roots cache_dir)
