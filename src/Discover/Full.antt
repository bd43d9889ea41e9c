-- ===== src/Discover/Full.antt =====
-- crates/tryke_discovery/src/filesystem/discoverer.rs: discovery of a whole project.
use tryke.Prelude.{
  ◌≡◌, ◌⊎◌, refl, ◌∙◌, Bool, true, false, List, map, Option, none, some, Text, contains, distinct,
  contains-distinct, list_eq, nat_eq, if◌then◌else◌, is_some, arith, Option-cases,
}
use tryke.Prelude.Dict.{get, entries, get_last-entries}
use tryke.Prelude.Sort.{sort_by, contains-sort_by}
use tryke.Paths.{component_eq}
use tryke.Paths.Operations.{PathBuf, path_le}
use tryke.Graph.Mirror.{IsMirror, has_edge}
use tryke.Discover.Files.{DiscoveredFile, Disk, from_path, text_at, collect_python_files}
use tryke.Discover.Cache.{key_eq}
use tryke.Discover.State.{Analysis, Discoverer, FileWork, hit, miss, stat_error, prepare_work}
use tryke.Discover.Rediscover.{rediscover, prune, ingest_and_parse, link_all}
use tryke.Discover.Phases.{IsPrepared, was_hit, was_miss, was_error, prepare_work-IsPrepared}
use tryke.Discover.Linked.{imports_of, dynamic_or, has_edge-link, dirty-link, link-IsMirror}
use tryke.Discover.Found.{
  parsed_of, outcome, IsParsed, ingest_and_parse-IsParsed, IsPruned, prune-IsPruned,
}
use tryke.Discover.Tracked.{IsTracked, IsSound}

-- Whether the walk of the project yields the path as a Python file that is not excluded.
abbrev pub walked : Disk → Discoverer → PathBuf → Bool
walked disk d q = contains (collect_python_files disk d.root) q

module _ (analysis : Analysis) (disk : Disk) where
  abbrev pub full : Discoverer → Discoverer
  full d = (rediscover analysis disk d).0

  -- Work on a path, from a cache that is sound, leaves the analysis of a text with the statements
  -- that the file has now.
  outcome-IsSound :
      (d e : Discoverer) (q : PathBuf) (seen : Text) (w : FileWork) (old : Option DiscoveredFile)
      → IsSound analysis disk d
      → e.root ≡ d.root
      → e.src_roots ≡ d.src_roots
      → analysis.same_body seen (text_at disk q) ≡ true
      → IsPrepared disk d.cache q w
      → (t : Text) × (analysis.same_body t (text_at disk q) ≡ true)
        × (outcome analysis disk e q seen w old
            ≡ (if is_some (from_path disk q) then some (parsed_of analysis disk d q t) else old))
  outcome-IsSound d e q seen _ old sound root src same (was_hit {r = r} {key = key} k c) =
      let (t, same_t, eq) = sound q key r k c in (t, same_t, ground (arith, k, eq))
  outcome-IsSound d e q seen _ old sound root src same (was_miss k c) =
      (seen, same, ground (arith, k, root, src))
  outcome-IsSound d e q seen _ old sound root src same (was_error k) =
      (seen, same, ground (arith, k))

  -- The state after each phase of `rediscover`.
  pub record IsRediscovered (d after : Discoverer) : Type 0 where
    pub files : List PathBuf
    pub pruned : Discoverer
    pub found : Discoverer
    pub files_are : (q : PathBuf) → contains files q ≡ walked disk d q
    pub is_pruned : IsPruned files d pruned
    pub is_parsed :
        IsTracked d
        → (paths : List PathBuf) × ((q : PathBuf) → contains paths q ≡ walked disk d q)
          × IsParsed analysis disk d.cache paths pruned found
    pub linked : after ≡ link_all found files

  pub rediscover-IsRediscovered : (d : Discoverer) → IsRediscovered d (full d)
  unfolding rediscover
  rediscover-IsRediscovered d =
      let paths = sort_by path_le (collect_python_files disk d.root) in
      let files = distinct paths in
      record {
        files = files;
        pruned = prune d files;
        found = ingest_and_parse analysis (prune d files) (map (prepare_work disk d.cache) paths);
        files_are = λ q.
            contains-distinct paths q
            ∙ contains-sort_by path_le (collect_python_files disk d.root) q;
        is_pruned = prune-IsPruned files d;
        is_parsed = λ t. (
          paths,
          contains-sort_by path_le (collect_python_files disk d.root),
          ingest_and_parse-IsParsed analysis disk d.cache paths (prune d files)
              ((prune-IsPruned files d).own t.own),
        );
        linked = refl;
      }

  pub results-link_all :
      (d : Discoverer) (files : List PathBuf) → (link_all d files).results ≡ d.results
  unfolding link_all
  results-link_all d files = refl

  -- After `rediscover`, from a state that keeps the invariants and whose cache is sound, a path
  -- that the walk does not yield has no result. One that it yields keeps what it had before where
  -- its time and size cannot be read, and otherwise has the analysis of a text that parses to the
  -- same statements as the text that the file has now, which need not be that text itself.
  pub rediscover-parses :
      (d : Discoverer)
      → IsTracked d
      → IsSound analysis disk d
      → (q : PathBuf)
      → (t : Text) × (analysis.same_body t (text_at disk q) ≡ true)
        × (get q (rediscover analysis disk d).0.results ≡ (
            if walked disk d q
            then (if is_some (from_path disk q)
                then some (parsed_of analysis disk d q t)
                else get q d.results)
            else none))
  rediscover-parses d tracked sound q =
      let s = rediscover-IsRediscovered d in
      let (paths, paths_are, p) = s.is_parsed tracked in
      let (t, same, outcome_is) =
        outcome-IsSound d s.pruned q (p.seen q) (prepare_work disk d.cache q)
          (get q s.pruned.results) sound s.is_pruned.same_root s.is_pruned.same_src_roots
          (p.same_seen q) (prepare_work-IsPrepared disk d.cache q) in
      (
        t,
        same,
        ground (
          arith,
          s.linked,
          results-link_all s.found s.files,
          p.results_are q,
          paths_are q,
          s.files_are q,
          s.is_pruned.results_are q,
          outcome_is,
        ),
      )

  pub edges-link_all :
      (d : Discoverer) (files : List PathBuf) (a b : PathBuf)
      → has_edge (link_all d files).import_graph.forward a b
        ≡ imports_of files (get a d.results) b (has_edge d.import_graph.forward a b)
  unfolding link_all
  edges-link_all d files a b =
      rw (← get_last-entries a d.results)
        (has_edge-link files (entries d.results) d.import_graph a b)

  pub dirty-link_all :
      (d : Discoverer) (files : List PathBuf) (a : PathBuf)
      → contains (link_all d files).import_graph.always_dirty a
        ≡ dynamic_or (get a d.results) (contains d.import_graph.always_dirty a)
  unfolding link_all
  dirty-link_all d files a =
      rw (← get_last-entries a d.results) (dirty-link files (entries d.results) d.import_graph a)

  pub link_all-IsMirror :
      (d : Discoverer) (files : List PathBuf)
      → IsMirror d.import_graph
      → IsMirror (link_all d files).import_graph
  unfolding link_all
  link_all-IsMirror d files m = link-IsMirror files (entries d.results) d.import_graph m

  pub rest-link_all :
      (d : Discoverer) (files : List PathBuf)
      → ((link_all d files).inputs ≡ d.inputs)
        × ((link_all d files).root ≡ d.root)
        × ((link_all d files).src_roots ≡ d.src_roots)
        × ((link_all d files).cache ≡ d.cache)
        × ((link_all d files).project_files ≡ files)
  unfolding link_all
  rest-link_all d files = (refl, refl, refl, refl, refl)

  -- Work never takes a result away.
  outcome_keeps :
      (d : Discoverer) (q : PathBuf) (t : Text) (w : FileWork) (old : Option DiscoveredFile)
      → is_some old ≡ true
      → is_some (outcome analysis disk d q t w old) ≡ true
  outcome_keeps d q t (hit p r key) old h = refl
  outcome_keeps d q t (miss p source key) old h = refl
  outcome_keeps d q t (stat_error p) old h = h

  -- A file without a result had none before, or is one that the walk no longer yields.
  gone_before :
      (d : Discoverer) (s : IsRediscovered d (full d))
      → IsTracked d
      → (a : PathBuf) → get a s.found.results ≡ none
      → (get a d.results ≡ none) ⊎ (contains s.files a ≡ false)
  gone_before d s t a gone =
      let (paths, paths_are, p) = s.is_parsed t in
      ground (
        arith,
        gone,
        p.results_are a,
        paths_are a,
        s.files_are a,
        s.is_pruned.results_are a,
        outcome_keeps s.pruned a (p.seen a) (prepare_work disk d.cache a) (get a s.pruned.results),
      )

  -- Such a file has no edges and is not always dirty before the graph is linked.
  pub unlinked :
      (d : Discoverer) (s : IsRediscovered d (full d))
      → IsTracked d
      → (a : PathBuf) → get a s.found.results ≡ none
      → ((b : PathBuf) → has_edge s.found.import_graph.forward a b ≡ false)
        × (contains s.found.import_graph.always_dirty a ≡ false)
  unlinked d s t a gone =
      let (paths, paths_are, p) = s.is_parsed t in
      let before = gone_before d s t a gone in
      (
        λ b. ground (arith, p.same_graph, s.is_pruned.edges_are a b, t.edges a b, before),
        ground (arith, p.same_graph, s.is_pruned.dirty_is a, t.dirty a, before),
      )

  -- After `rediscover`, from a state that keeps the invariants, one file imports another exactly
  -- when it has a result of which a group of import candidates resolves to the other among the
  -- project files of the new state.
  pub rediscover-links :
      (d : Discoverer)
      → IsTracked d
      → (a b : PathBuf)
      → has_edge (full d).import_graph.forward a b
        ≡ imports_of (full d).project_files (get a (full d).results) b false
  rediscover-links d t a b =
      let s = rediscover-IsRediscovered d in
      let (_, _, _, _, files) = rest-link_all s.found s.files in
      ground (
        arith,
        s.linked,
        files,
        results-link_all s.found s.files,
        edges-link_all s.found s.files a b,
        Option-cases (get a s.found.results),
        λ (h : get a s.found.results ≡ none). (unlinked d s t a h).0 b,
      )
