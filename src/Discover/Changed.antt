-- ===== src/Discover/Changed.antt =====
-- crates/tryke_discovery/src/filesystem/discoverer.rs: discovery of the files that changed.
use tryke.Prelude.{
  ◌≡◌, ◌⊎◌, inl, inr, true, Text, false, ◌&&◌, List, [], none, some, contains, list_eq, nat_eq,
  if◌then◌else◌, arith,
}
use tryke.Prelude.Dict.{get}
use tryke.Paths.{component_eq}
use tryke.Paths.Operations.{PathBuf, is_python}
use tryke.Graph.Mirror.{has_edge}
use tryke.Discover.Files.{DiscoveredFile, FileKey, Disk, from_path, text_at}
use tryke.Discover.Cache.{key_eq, get_cached}
use tryke.Discover.State.{Analysis, SourceFile, Discoverer, source_file, memo_text}
use tryke.Discover.Linked.{imports_of}
use tryke.Discover.Change.{canonicalize_paths, note_changes, rediscover_changed}
use tryke.Discover.Noted.{IsNoted, IsNoted-AreOwn, note_changes-IsNoted, changed_to}
use tryke.Discover.Refreshed.{IsRefreshed, refresh-IsRefreshed, fresh}
use tryke.Discover.Memos.{memo_text_same, memo_text_from}
use tryke.Discover.Found.{parsed_now, parsed_of, IsCurrent, discover_file-source_file}
use tryke.Discover.Tracked.{IsTracked, IsSound}

module _ (analysis : Analysis) (disk : Disk) where
  abbrev pub changed : Discoverer → List PathBuf → Discoverer
  changed d paths = (rediscover_changed analysis disk d paths).0

  -- The state after each loop.
  record IsChanged (d : Discoverer) (paths : List PathBuf) (after : Discoverer) : Type 0 where
    mid : Discoverer × List PathBuf
    noted : IsNoted disk (canonicalize_paths disk paths) d [] mid
    refreshed : IsRefreshed analysis disk mid.1 mid.0 after
    own :
        IsTracked d
        → (q : PathBuf) (f : SourceFile) → get q mid.0.inputs ≡ some f
        → f ≡ source_file mid.0 q f.text

  changed-IsChanged :
      (d : Discoverer) (paths : List PathBuf) → IsTracked d → IsChanged d paths (changed d paths)
  unfolding rediscover_changed
  changed-IsChanged d paths t =
      let cs = canonicalize_paths disk paths in
      let noted = note_changes-IsNoted disk cs d [] t.own in
      record {
        mid = note_changes disk (d, []) cs;
        noted = noted;
        refreshed =
            refresh-IsRefreshed analysis disk (note_changes disk (d, []) cs).1
              (note_changes disk (d, []) cs).0;
        own = λ t. IsNoted-AreOwn disk cs d [] (note_changes disk (d, []) cs) t.own noted;
      }

  -- The text of which the second loop gives a path the analysis.
  abbrev seen :
      (d : Discoverer) (paths : List PathBuf) → IsChanged d paths (changed d paths) → PathBuf → Text
  seen d paths s q = memo_text analysis (get q s.mid.0.memos) (text_at disk q)

  fresh-parsed_of :
      (d : Discoverer) (paths : List PathBuf) (s : IsChanged d paths (changed d paths))
      (q : PathBuf)
      → fresh analysis disk s.mid.0.memos s.mid.0.inputs s.mid.1 q ≡ (
          if changed_to disk (canonicalize_paths disk paths) q
          then some (parsed_of analysis disk d q (seen d paths s q))
          else none)
  unfolding contains
  fresh-parsed_of d paths s q = ground (
    arith,
    s.noted.touched_are q,
    s.noted.inputs_are q,
    discover_file-source_file analysis disk (get q s.mid.0.memos) d q (text_at disk q),
  )

  results-changed :
      (d : Discoverer) (paths : List PathBuf) (s : IsChanged d paths (changed d paths))
      (q : PathBuf)
      → get q (changed d paths).results ≡ (
          if contains (canonicalize_paths disk paths) q && is_python q
          then (if disk.exists q
              then some (parsed_of analysis disk d q (seen d paths s q))
              else none)
          else get q d.results)
  results-changed d paths s q =
      ground (arith, s.refreshed.results_are q, fresh-parsed_of d paths s q, s.noted.results_are q)

  seen_from :
      (d : Discoverer) (paths : List PathBuf) (s : IsChanged d paths (changed d paths))
      (q : PathBuf)
      → (seen d paths s q ≡ text_at disk q) ⊎ (get q d.memos ≡ some (seen d paths s q))
  seen_from d paths s q =
      ground
        (arith, s.noted.memos_are q, memo_text_from analysis (get q s.mid.0.memos) (text_at disk q))

  -- After `rediscover_changed`, from a state that keeps the invariants, a Python file among the
  -- canonical paths of the change that exists has as its result the analysis of a text that parses
  -- to the same statements as its present text: that text itself, or the one of which the file was
  -- last analysed; one that does not exist has no result; every other file keeps the result that it
  -- had.
  pub rediscover_changed-parses :
      (d : Discoverer) (paths : List PathBuf)
      → IsTracked d
      → (q : PathBuf)
      → (t : Text) × (analysis.same_body t (text_at disk q) ≡ true)
        × ((t ≡ text_at disk q) ⊎ (get q d.memos ≡ some t))
        × (get q (rediscover_changed analysis disk d paths).0.results ≡ (
            if contains (canonicalize_paths disk paths) q && is_python q
            then (if disk.exists q then some (parsed_of analysis disk d q t) else none)
            else get q d.results))
  rediscover_changed-parses d paths tracked q =
      let s = changed-IsChanged d paths tracked in
      (
        seen d paths s q,
        memo_text_same analysis (get q s.mid.0.memos) (text_at disk q),
        seen_from d paths s q,
        results-changed d paths s q,
      )

  -- After `rediscover_changed`, from a state that keeps the invariants, the imports of a changed
  -- Python file that exists are the ones that its new parse resolves to among the project's files
  -- by now, a deleted one imports nothing, and every other file keeps the imports that it had.
  pub rediscover_changed-links :
      (d : Discoverer) (paths : List PathBuf)
      → IsTracked d
      → (a b : PathBuf)
      → has_edge (changed d paths).import_graph.forward a b ≡ (
          if contains (canonicalize_paths disk paths) a && is_python a
          then (disk.exists a
              && imports_of
                  (changed d paths).project_files
                  (some (parsed_now analysis disk d a))
                  b
                  false)
          else has_edge d.import_graph.forward a b)
  rediscover_changed-links d paths t a b =
      let s = changed-IsChanged d paths t in
      ground (
        arith,
        s.refreshed.edges_are a b,
        s.refreshed.same_project,
        fresh-parsed_of d paths s a,
        analysis.imports_same (source_file d a []) (seen d paths s a) (text_at disk a)
            (memo_text_same analysis (get a s.mid.0.memos) (text_at disk a)),
        s.noted.edges_are a b,
      )

  -- `rediscover_changed` keeps the invariants.
  pub rediscover_changed-IsTracked :
      (d : Discoverer) (paths : List PathBuf)
      → IsTracked d
      → IsTracked (rediscover_changed analysis disk d paths).0
  rediscover_changed-IsTracked d paths t =
      let s = changed-IsChanged d paths t in
      record {
        own = λ q f h. ground (
          arith,
          s.own t q f,
          h,
          s.refreshed.same_inputs,
          s.refreshed.same_root,
          s.refreshed.same_src_roots,
        );
        mirror = s.refreshed.mirror (s.noted.mirror t.mirror);
        edges = λ a b h. ground (
          arith,
          h,
          t.edges a b,
          rediscover_changed-links d paths t a b,
          results-changed d paths s a,
        );
        dirty = λ a. ground (
          arith,
          s.refreshed.dirty_is a,
          fresh-parsed_of d paths s a,
          s.noted.dirty_is a,
          results-changed d paths s a,
          t.dirty a,
        );
      }

  -- What the second loop caches under the present key, or what the cache held.
  cache-changed :
      (d : Discoverer) (paths : List PathBuf) (s : IsChanged d paths (changed d paths))
      (q : PathBuf) (j : FileKey) (r : DiscoveredFile)
      → from_path disk q ≡ some j
      → get_cached (changed d paths).cache q j ≡ some r
      → (r ≡ parsed_of analysis disk d q (seen d paths s q)) ⊎ (get_cached d.cache q j ≡ some r)
  unfolding contains
  cache-changed d paths s q j r here h = ground (
    arith,
    h,
    here,
    key_eq.beq_iff j j,
    s.refreshed.cache_is q j,
    s.noted.touched_are q,
    s.noted.inputs_are q,
    s.noted.cache_is q j,
    discover_file-source_file analysis disk (get q s.mid.0.memos) d q (text_at disk q),
  )

  -- `rediscover_changed`, from a state that keeps the invariants and whose cache is sound, leaves a
  -- cache that is sound: what it holds under the present time and size of a file is the analysis of
  -- a text that parses to the same statements as the file's present text.
  pub rediscover_changed-IsSound :
      (d : Discoverer) (paths : List PathBuf)
      → IsTracked d
      → IsSound analysis disk d
      → IsSound analysis disk (changed d paths)
  rediscover_changed-IsSound d paths tracked sound q j r here h =
      let s = changed-IsChanged d paths tracked in
      let (t, same, eq) = current s (cache-changed d paths s q j r here h) in
      (
        t,
        same,
        ground (
          arith, eq, s.refreshed.same_root, s.refreshed.same_src_roots, s.noted.same_root,
          s.noted.same_src_roots,
        ),
      )
    where
      current :
          (s : IsChanged d paths (changed d paths))
          → (r ≡ parsed_of analysis disk d q (seen d paths s q)) ⊎ (get_cached d.cache q j ≡ some r)
          → IsCurrent analysis disk d q r
      current s (inl fresh_one) = (
        seen d paths s q,
        memo_text_same analysis (get q s.mid.0.memos) (text_at disk q),
        fresh_one,
      )
      current s (inr old) = sound q j r here old
