-- ===== src/Command/WalkRoots.antt =====
-- crates/tryke/src/discovery.rs: the directories that a run of some paths walks.
use tryke.Prelude.{
  ap, ◌&&◌, Option, none, ◌≡◌, refl, sym, ◌∙◌, Bool, true, false, ◌||◌, List, [], ◌∷◌, some, inl,
  inr, list_eq, nat_eq, Bool-cases, arith, unwrap_or,
}
use tryke.Prelude.Sort.{sort_by, sort_by-IsSorted}
use tryke.Paths.{component_eq, root_dir}
use tryke.Paths.Operations.{PathBuf, starts_with, join, path}
use tryke.Filter.Matching.{PathSpec, file, file_line}
use tryke.Discover.Files.{Disk}
use tryke.Command.Apart.{
  covered, AreDisjoint, AreApart-AreDisjoint, dedupe-covered, any-sort_by, dedupe-AreApart,
  dedupe-IsSorted, shorter_total, shorter_trans,
}
use tryke.Command.{
  absolute, raw_path, inside, pushed, dedupe_sorted, resolve_specs, shorter, dedupe,
  resolve_walk_roots,
}

-- Where a path of a request leads, if it exists: below the root, unless it is absolute.
abbrev pub leads_to : Disk → PathBuf → PathSpec → Option PathBuf
leads_to disk root (file p) = disk.canonicalize (join root (path p))
leads_to disk root (file_line p line) = disk.canonicalize (join root (path p))

abbrev pub is_inside : PathBuf → Option PathBuf → Bool
is_inside root none = false
is_inside root (some q) = starts_with root q

abbrev pub is_above : Option PathBuf → PathBuf → Bool
is_above none p = false
is_above (some q) p = starts_with q p

absolute-join : (root p : PathBuf) → absolute root p ≡ join root p
unfolding join
absolute-join root (root_dir ∷ p) = refl
absolute-join root [] = refl
absolute-join root (_ ∷ p) = refl

resolved-leads_to :
    (disk : Disk) (root : PathBuf) (spec : PathSpec)
    → disk.canonicalize (absolute root (raw_path spec)) ≡ leads_to disk root spec
resolved-leads_to disk root (file p) = ap disk.canonicalize (absolute-join root (path p))
resolved-leads_to disk root (file_line p line) = ap disk.canonicalize (absolute-join root (path p))

module _ (disk : Disk) (root : PathBuf) where
  abbrev pub canonical_root : PathBuf
  canonical_root = unwrap_or (disk.canonicalize root) root

  abbrev pub all_inside : List PathSpec → Bool
  all_inside [] = true
  all_inside (spec ∷ specs) = is_inside canonical_root (leads_to disk root spec) && all_inside specs

  abbrev pub requested : List PathSpec → PathBuf → Bool
  requested [] p = false
  requested (spec ∷ specs) p = is_above (leads_to disk root spec) p || requested specs p

  -- What `resolve_specs` makes of a request.
  abbrev IsResolved : List PathSpec → Option (List PathBuf) → Type 0
  IsResolved specs none = all_inside specs ≡ false
  IsResolved specs (some qs) =
      (all_inside specs ≡ true) × ((p : PathBuf) → covered qs p ≡ requested specs p)

  pushed-IsResolved :
      (spec : PathSpec) (specs : List PathSpec) (o : Option PathBuf) (rest : Option (List PathBuf))
      → leads_to disk root spec ≡ o
      → IsResolved specs rest
      → IsResolved (spec ∷ specs) (pushed (inside canonical_root o) rest)
  pushed-IsResolved spec specs none rest e h = ground (arith, e)
  pushed-IsResolved spec specs (some q) none e h =
      elim (Bool-cases (starts_with canonical_root q)) [
        | inl within ↦ rw within (ground (arith, e, h, within))
        | inr outside ↦ rw outside (ground (arith, e, h, outside))
      ]
  pushed-IsResolved spec specs (some q) (some qs) e h =
      elim (Bool-cases (starts_with canonical_root q)) [
        | inl within ↦ rw within (ground (arith, e, h.0, within), λ p. ground (arith, e, h.1 p))
        | inr outside ↦ rw outside (ground (arith, e, outside))
      ]

  resolve_specs-IsResolved :
      (specs : List PathSpec) → IsResolved specs (resolve_specs disk root canonical_root specs)
  unfolding resolve_specs
  resolve_specs-IsResolved [] = (refl, λ p. refl)
  resolve_specs-IsResolved (spec ∷ specs) =
      pushed-IsResolved spec specs (disk.canonicalize (absolute root (raw_path spec)))
        (resolve_specs disk root canonical_root specs) (sym (resolved-leads_to disk root spec))
        (resolve_specs-IsResolved specs)

  -- What a run of some paths walks.
  abbrev pub AreWalkRoots : List PathSpec → Option (List PathBuf) → Type 0
  AreWalkRoots specs none = all_inside specs ≡ false
  AreWalkRoots specs (some roots) =
      (all_inside specs ≡ true)
      × ((p : PathBuf) → covered roots p ≡ requested specs p)
      × AreDisjoint roots

  dedupe_sorted-AreWalkRoots :
      (specs : List PathSpec) (o : Option (List PathBuf))
      → IsResolved specs o
      → AreWalkRoots specs (dedupe_sorted o)
  dedupe_sorted-AreWalkRoots specs none h = h
  dedupe_sorted-AreWalkRoots specs (some qs) h =
      let ws = sort_by shorter qs in
      (
        h.0,
        λ p. dedupe-covered ws [] p ∙ (any-sort_by (λ k. starts_with k p) qs ∙ h.1 p),
        AreApart-AreDisjoint (dedupe [] ws) (dedupe-AreApart ws [] tt)
            (dedupe-IsSorted ws [] (sort_by-IsSorted shorter shorter_total shorter_trans qs)),
      )

  -- There are roots to walk exactly when every path of the request leads to one that exists inside
  -- the canonical root. A path is then one of the roots or below one exactly when it is where a path
  -- of the request leads or below it, and no root is below another.
  pub resolve_walk_roots-covered :
      (specs : List PathSpec) → AreWalkRoots specs (resolve_walk_roots disk root specs)
  unfolding resolve_walk_roots
  resolve_walk_roots-covered specs =
      dedupe_sorted-AreWalkRoots specs (resolve_specs disk root canonical_root specs)
        (resolve_specs-IsResolved specs)
