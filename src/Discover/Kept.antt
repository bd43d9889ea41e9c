-- ===== src/Discover/Kept.antt =====
-- crates/tryke_discovery/src/filesystem/discoverer.rs: discovery of a whole project keeps the
-- invariants, and leaves a cache that the next discovery may rely on.
use tryke.Prelude.{
  ◌≡◌, sym, subst, Option, none, some, Text, true, list_eq, nat_eq, arith, Option-cases,
}
use tryke.Prelude.Dict.{get}
use tryke.Paths.{component_eq}
use tryke.Paths.Operations.{PathBuf}
use tryke.Graph.Mirror.{IsMirror}
use tryke.Discover.Files.{DiscoveredFile, FileKey, Disk, from_path, text_at}
use tryke.Discover.Cache.{get_cached, key_eq}
use tryke.Discover.State.{Analysis, Discoverer, FileWork, hit, miss, stat_error, prepare_work}
use tryke.Discover.Rediscover.{rediscover}
use tryke.Discover.Found.{IsCurrent, recached}
use tryke.Discover.Tracked.{IsTracked, IsSound}
use tryke.Discover.Full.{
  rediscover-IsRediscovered, dirty-link_all, link_all-IsMirror, rest-link_all, results-link_all,
  unlinked, rediscover-links,
}

module _ (analysis : Analysis) (disk : Disk) where
  -- `rediscover` keeps the invariants.
  pub rediscover-IsTracked :
      (d : Discoverer) → IsTracked d → IsTracked (rediscover analysis disk d).0
  rediscover-IsTracked d t =
      let s = rediscover-IsRediscovered analysis disk d in
      let (paths, paths_are, p) = s.is_parsed t in
      let (inputs, root, src_roots, _, _) = rest-link_all analysis disk s.found s.files in
      record {
        own = λ q f h. ground (arith, p.own q f, h, s.linked, inputs, root, src_roots);
        mirror =
            subst (λ e. IsMirror e.import_graph) (sym s.linked)
              (link_all-IsMirror analysis disk s.found s.files
                (subst (λ g. IsMirror g) (sym p.same_graph) (s.is_pruned.mirror t.mirror)));
        edges = λ a b h. ground (arith, rediscover-links analysis disk d t a b, h);
        dirty = λ a. ground (
          arith,
          s.linked,
          results-link_all analysis disk s.found s.files,
          dirty-link_all analysis disk s.found s.files a,
          Option-cases (get a s.found.results),
          λ (h : get a s.found.results ≡ none). (unlinked analysis disk d s t a h).1,
        );
      }

  recached-IsSound :
      (d e : Discoverer) (q : PathBuf) (seen : Text) (w : FileWork) (j : FileKey)
      (r : DiscoveredFile) (old : Option DiscoveredFile)
      → IsSound analysis disk d
      → e.root ≡ d.root
      → e.src_roots ≡ d.src_roots
      → analysis.same_body seen (text_at disk q) ≡ true
      → from_path disk q ≡ some j
      → (old ≡ some r → get_cached d.cache q j ≡ some r)
      → recached analysis disk e q seen w j old ≡ some r
      → IsCurrent analysis disk d q r
  recached-IsSound d e q seen (hit _ _ _) j r old sound root src same here kept h =
      sound q j r here (kept h)
  recached-IsSound d e q seen (miss _ _ key) j r old sound root src same here kept h =
      (seen, same, ground (arith, h, root, src))
  recached-IsSound d e q seen (stat_error _) j r old sound root src same here kept h =
      sound q j r here (kept h)

  -- `rediscover`, from a state that keeps the invariants and whose cache is sound, leaves a cache
  -- that is sound: what it holds under the present time and size of a file is the analysis of a text
  -- that parses to the same statements as the file's present text.
  pub rediscover-IsSound :
      (d : Discoverer)
      → IsTracked d
      → IsSound analysis disk d
      → IsSound analysis disk (rediscover analysis disk d).0
  rediscover-IsSound d tracked sound q j r here h =
      let s = rediscover-IsRediscovered analysis disk d in
      let (paths, paths_are, p) = s.is_parsed tracked in
      let (_, root, src_roots, cache, _) = rest-link_all analysis disk s.found s.files in
      let (t, same, eq) =
        recached-IsSound d s.pruned q (p.seen q) (prepare_work disk d.cache q) j r
          (get_cached s.pruned.cache q j) sound s.is_pruned.same_root s.is_pruned.same_src_roots
          (p.same_seen q) here (λ old. ground (arith, old, s.is_pruned.cache_is q j))
          (ground (
            arith,
            h,
            s.linked,
            cache,
            p.cache_is q j,
            paths_are q,
            s.files_are q,
            s.is_pruned.cache_is q j,
          )) in
      (
        t,
        same,
        ground (
          arith, eq, s.linked, root, src_roots, p.same_root, p.same_src_roots,
          s.is_pruned.same_root, s.is_pruned.same_src_roots,
        ),
      )
