-- ===== src/Discover/Applied.antt =====
-- crates/tryke_discovery/src/filesystem/discoverer.rs: which files a set of changes may touch.
use tryke.Prelude.{
  ◌≡◌, ◌⊎◌, inl, refl, true, Text, subst, sym, Bool, not, ◌&&◌, List, [], ◌∷◌, map, none, some,
  filter, contains, contains-filter, list_eq, nat_eq, if◌then◌else◌, arith,
}
use tryke.Prelude.Dict.{get}
use tryke.Paths.{component_eq}
use tryke.Paths.Operations.{PathBuf, is_python, starts_with}
use tryke.Discover.Files.{Disk, text_at}
use tryke.Discover.State.{Analysis, Discoverer}
use tryke.Discover.Change.{
  canonicalize_path, canonicalize_paths, filter_in_root, eligible, apply_to, apply_changes,
}
use tryke.Discover.Impact.{applied, apply_to_found}
use tryke.Discover.Found.{parsed_of}
use tryke.Discover.Tracked.{IsTracked}
use tryke.Discover.Changed.{rediscover_changed-parses, rediscover_changed-IsTracked}

module _ (analysis : Analysis) where
  pub applied-IsTracked :
      (disk : Disk) (d : Discoverer) (ps : List PathBuf)
      → IsTracked d
      → IsTracked (applied d (apply_to analysis disk d ps))
  applied-IsTracked disk d [] t = t
  applied-IsTracked disk d (p ∷ ps) t =
      let (impact, e, _, _) = apply_to_found analysis disk d p ps t in
      subst (λ o. IsTracked (applied d o)) (sym e)
        (rediscover_changed-IsTracked analysis disk d (p ∷ ps) t)

  -- A second canonicalization of what a filter keeps changes nothing.
  canonical_twice :
      (f : PathBuf → PathBuf) (keep : PathBuf → Bool) (ps : List PathBuf)
      → ((p : PathBuf) → f (f p) ≡ f p)
      → map f (filter keep (map f ps)) ≡ filter keep (map f ps)
  canonical_twice f keep [] twice = refl
  canonical_twice f keep (p ∷ ps) twice = ground (arith, twice p, canonical_twice f keep ps twice)

  filter_both :
      (p q r : PathBuf → Bool) (xs : List PathBuf)
      → filter p (filter q (filter r xs)) ≡ filter (λ x. p x && q x && r x) xs
  filter_both p q r [] = refl
  filter_both p q r (x ∷ xs) = ground (arith, filter_both p q r xs)

  -- The canonical paths that an `apply_changes` acts on.
  abbrev pub is_eligible : Disk → Discoverer → PathBuf → Bool
  is_eligible disk d q =
      not (disk.ignored q) && is_python q && starts_with (canonicalize_path disk d.root) q

  eligible-eq :
      (disk : Disk) (d : Discoverer) (paths : List PathBuf)
      → eligible disk d paths ≡ filter (is_eligible disk d) (canonicalize_paths disk paths)
  unfolding eligible filter_in_root
  eligible-eq disk d paths = filter_both _ _ _ (canonicalize_paths disk paths)

  applied_to :
      (disk : Disk) (d : Discoverer) (ps : List PathBuf)
      → IsTracked d
      → (q : PathBuf)
      → (t : Text) × (analysis.same_body t (text_at disk q) ≡ true)
        × ((t ≡ text_at disk q) ⊎ (get q d.memos ≡ some t))
        × (get q (applied d (apply_to analysis disk d ps)).results ≡ (
            if contains (canonicalize_paths disk ps) q && is_python q
            then (if disk.exists q then some (parsed_of analysis disk d q t) else none)
            else get q d.results))
  unfolding contains
  applied_to disk d [] tracked q =
      (text_at disk q, analysis.same_body_refl (text_at disk q), inl refl, refl)
  applied_to disk d (p ∷ ps) tracked q =
      let (impact, e, _, _) = apply_to_found analysis disk d p ps tracked in
      let (t, same, known, result) = rediscover_changed-parses analysis disk d (p ∷ ps) tracked q in
      (t, same, known, rw e result)

  -- `apply_changes`, from a state that keeps the invariants, touches the result of a file only when
  -- its path is a canonical path of the change, is inside the canonical root, is a Python file and is
  -- not ignored: where the file exists, the result is then the analysis of a text that parses to the
  -- same statements as the file's present text, that text itself or the one of which the file was last
  -- analysed, and where it does not, there is none. The canonical form of a path is taken to be its own
  -- canonical form.
  pub apply_changes-parses :
      (disk : Disk) (d : Discoverer) (paths : List PathBuf)
      → ((p : PathBuf)
          → canonicalize_path disk (canonicalize_path disk p) ≡ canonicalize_path disk p)
      → IsTracked d
      → (q : PathBuf)
      → (t : Text) × (analysis.same_body t (text_at disk q) ≡ true)
        × ((t ≡ text_at disk q) ⊎ (get q d.memos ≡ some t))
        × (get q (applied d (apply_changes analysis disk d paths)).results ≡ (
            if contains (canonicalize_paths disk paths) q && is_eligible disk d q
            then (if disk.exists q then some (parsed_of analysis disk d q t) else none)
            else get q d.results))
  unfolding apply_changes
  apply_changes-parses disk d paths twice tracked q =
      let (t, same, known, result) = applied_to disk d (eligible disk d paths) tracked q in
      (
        t,
        same,
        known,
        ground (
          arith,
          result,
          eligible-eq disk d paths,
          canonical_twice (canonicalize_path disk) (is_eligible disk d) paths twice,
          contains-filter (is_eligible disk d) (canonicalize_paths disk paths) q,
        ),
      )
