-- ===== src/Discover/Linked.antt =====
-- crates/tryke_discovery/src/filesystem/discoverer.rs: the import graph after the files of a list
-- were linked.
use tryke.Prelude.{
  ◌≡◌, refl, Bool, true, false, List, [], ◌∷◌, Option, none, some, contains, list_eq, nat_eq,
  if◌then◌else◌, arith,
}
use tryke.Prelude.Dict.{Dict, get_last}
use tryke.Paths.{component_eq}
use tryke.Paths.Operations.{PathBuf, path_eq}
use tryke.Graph.{ImportGraph, update}
use tryke.Graph.Mirror.{
  IsMirror, has_edge, op_mark, op_clear, update-IsMirror, apply_op-IsMirror, has_edge-update,
  dirty-mark, dirty-clear, dirty-update, forward-mark, forward-clear,
}
use tryke.Discover.Files.{DiscoveredFile}
use tryke.Discover.Imports.{resolve_import_candidate_groups}
use tryke.Discover.Rediscover.{flag, link_one, link}

-- Whether a file with this result imports `b`, where there is a result.
abbrev pub imports_of : List PathBuf → Option DiscoveredFile → PathBuf → Bool → Bool
imports_of files none b old = old
imports_of files (some r) b old =
    contains (resolve_import_candidate_groups r.import_candidates files) b

abbrev pub dynamic_or : Option DiscoveredFile → Bool → Bool
dynamic_or none old = old
dynamic_or (some r) old = r.dynamic_imports

flag-IsMirror :
    (b : Bool) (g : ImportGraph PathBuf) (p : PathBuf) → IsMirror g → IsMirror (flag b g p)
flag-IsMirror true g p m = apply_op-IsMirror g (op_mark p) m
flag-IsMirror false g p m = apply_op-IsMirror g (op_clear p) m

has_edge-flag :
    (x : Bool) (g : ImportGraph PathBuf) (p a b : PathBuf)
    → has_edge (flag x g p).forward a b ≡ has_edge g.forward a b
has_edge-flag true g p a b = rw (forward-mark g p) refl
has_edge-flag false g p a b = rw (forward-clear g p) refl

dirty-flag :
    (x : Bool) (g : ImportGraph PathBuf) (p a : PathBuf)
    → contains (flag x g p).always_dirty a
      ≡ (if path_eq.beq p a then x else contains g.always_dirty a)
dirty-flag true g p a = ground (arith, dirty-mark g p a)
dirty-flag false g p a = ground (arith, dirty-clear g p a)

module _ (files : List PathBuf) where
  pub link_one-IsMirror :
      (g : ImportGraph PathBuf) (p : PathBuf) (r : DiscoveredFile)
      → IsMirror g
      → IsMirror (link_one files g p r)
  link_one-IsMirror g p r m =
      flag-IsMirror r.dynamic_imports _ p
        (update-IsMirror g p (resolve_import_candidate_groups r.import_candidates files) m)

  pub has_edge-link_one :
      (g : ImportGraph PathBuf) (p : PathBuf) (r : DiscoveredFile) (a b : PathBuf)
      → has_edge (link_one files g p r).forward a b ≡ (
          if path_eq.beq p a
          then contains (resolve_import_candidate_groups r.import_candidates files) b
          else has_edge g.forward a b)
  has_edge-link_one g p r a b =
      let is = resolve_import_candidate_groups r.import_candidates files in
      ground
        (arith, has_edge-flag r.dynamic_imports (update g p is) p a b, has_edge-update g p is a b)

  pub dirty-link_one :
      (g : ImportGraph PathBuf) (p : PathBuf) (r : DiscoveredFile) (a : PathBuf)
      → contains (link_one files g p r).always_dirty a
        ≡ (if path_eq.beq p a then r.dynamic_imports else contains g.always_dirty a)
  dirty-link_one g p r a =
      let is = resolve_import_candidate_groups r.import_candidates files in
      ground (arith, dirty-flag r.dynamic_imports (update g p is) p a, dirty-update g p is)

  pub link-IsMirror :
      (es : Dict PathBuf DiscoveredFile) (g : ImportGraph PathBuf)
      → IsMirror g
      → IsMirror (link files g es)
  unfolding link
  link-IsMirror [] g m = m
  link-IsMirror ((p, r) ∷ es) g m = link-IsMirror es _ (link_one-IsMirror g p r m)

  pub has_edge-link :
      (es : Dict PathBuf DiscoveredFile) (g : ImportGraph PathBuf) (a b : PathBuf)
      → has_edge (link files g es).forward a b
        ≡ imports_of files (get_last a es) b (has_edge g.forward a b)
  unfolding link get_last
  has_edge-link [] g a b = refl
  has_edge-link ((p, r) ∷ es) g a b =
      ground (arith, has_edge-link es (link_one files g p r) a b, has_edge-link_one g p r a b)

  pub dirty-link :
      (es : Dict PathBuf DiscoveredFile) (g : ImportGraph PathBuf) (a : PathBuf)
      → contains (link files g es).always_dirty a
        ≡ dynamic_or (get_last a es) (contains g.always_dirty a)
  unfolding link get_last
  dirty-link [] g a = refl
  dirty-link ((p, r) ∷ es) g a =
      ground (arith, dirty-link es (link_one files g p r) a, dirty-link_one g p r a)
