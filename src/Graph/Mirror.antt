-- ===== src/Graph/Mirror.antt =====
-- crates/tryke_discovery/src/filesystem/import_graph.rs: the reverse index mirrors the forward one.
use tryke.Prelude.{
  contains, distinct, contains-distinct, ◌≡◌, refl, Bool, false, not, ◌&&◌, ◌||◌, List, [], ◌∷◌,
  Option-cases, inl, inr, Eq, ◌==◌, if◌then◌else◌, arith,
}
use tryke.Graph.Maps.{
  Map, get, insert, remove, succs, insert_set, remove_from, get-insert, get-remove,
  contains-insert_set, contains-remove_from,
}
use tryke.Graph.{
  ImportGraph, drop_importer, drop_importers, add_importer, add_importers, detached, update,
  remove_file, mark_always_dirty, clear_always_dirty, empty_graph,
}

-- The public operations that change a graph.
pub data Op (P : Type 0) : Type 0 where
  op_update : P → List P → Op P
  op_remove op_mark op_clear : P → Op P

module _ {P : Type 0} ⦃e : Eq P⦄ where
  -- Whether `b` stands in the set of `a`.
  abbrev pub has_edge : Map P → P → P → Bool
  has_edge m a b = contains (succs m a) b

  -- `a` imports `b` in one index exactly when `b` is imported by `a` in the other.
  abbrev pub IsMirror : ImportGraph P → Type 0
  IsMirror g = (a b : P) → has_edge g.reverse b a ≡ has_edge g.forward a b

  has_edge-insert :
      (k : P) (v : List P) (m : Map P) (a b : P)
      → has_edge (insert k v m) a b ≡ (if k == a then contains v b else has_edge m a b)
  has_edge-insert k v m a b = ground (arith, get-insert k a v m)

  has_edge-remove :
      (k : P) (m : Map P) (a b : P) → has_edge (remove k m) a b ≡ (not (k == a) && has_edge m a b)
  unfolding contains
  has_edge-remove k m a b = ground (arith, get-remove k a m)

  has_edge-drop_importer :
      (file : P) (r : Map P) (old b a : P)
      → has_edge (drop_importer file r old) b a ≡ (has_edge r b a && not (old == b && file == a))
  unfolding drop_importer contains
  has_edge-drop_importer file r old b a = elim (Option-cases (get old r)) [
    | inl h ↦ rw (h, drop_importer) (ground (arith, e.beq_iff old b, h))
    | inr (s, h) ↦
        rw (h, drop_importer)
          (ground (
            arith,
            e.beq_iff old b,
            h,
            has_edge-insert old (remove_from file s) r b a,
            contains-remove_from file s a,
          ))
  ]

  has_edge-drop_importers :
      (file : P) (r : Map P) (olds : List P) (b a : P)
      → has_edge (drop_importers file r olds) b a
        ≡ (has_edge r b a && not (contains olds b && file == a))
  unfolding drop_importers contains
  has_edge-drop_importers file r [] b a = ground arith
  has_edge-drop_importers file r (old ∷ olds) b a = ground (
    arith,
    has_edge-drop_importers file (drop_importer file r old) olds b a,
    has_edge-drop_importer file r old b a,
  )

  has_edge-add_importer :
      (file : P) (r : Map P) (i b a : P)
      → has_edge (add_importer file r i) b a ≡ (has_edge r b a || (i == b && file == a))
  unfolding add_importer
  has_edge-add_importer file r i b a = ground (
    arith,
    e.beq_iff i b,
    has_edge-insert i (insert_set file (succs r i)) r b a,
    contains-insert_set file (succs r i) a,
  )

  has_edge-add_importers :
      (file : P) (r : Map P) (is : List P) (b a : P)
      → has_edge (add_importers file r is) b a ≡ (has_edge r b a || (contains is b && file == a))
  unfolding add_importers contains
  has_edge-add_importers file r [] b a = ground arith
  has_edge-add_importers file r (i ∷ is) b a = ground (
    arith,
    has_edge-add_importers file (add_importer file r i) is b a,
    has_edge-add_importer file r i b a,
  )

  has_edge-detached :
      (g : ImportGraph P) (file b a : P)
      → IsMirror g
      → has_edge (detached g file) b a ≡ (not (file == a) && has_edge g.forward a b)
  unfolding detached
  has_edge-detached g file b a mirror = ground (
    arith,
    mirror a b,
    e.beq_iff file a,
    has_edge-drop_importers file g.reverse (succs g.forward file) b a,
  )

  -- `update` gives the file the imports that are listed, and leaves the imports of all other files.
  pub has_edge-update :
      (g : ImportGraph P) (file : P) (imports : List P) (a b : P)
      → has_edge (update g file imports).forward a b
        ≡ (if file == a then contains imports b else has_edge g.forward a b)
  unfolding update
  has_edge-update g file imports a b = ground (
    arith,
    has_edge-insert file (distinct imports) (remove file g.forward) a b,
    has_edge-remove file g.forward a b,
    contains-distinct imports b,
  )

  pub update-IsMirror :
      (g : ImportGraph P) (file : P) (imports : List P)
      → IsMirror g
      → IsMirror (update g file imports)
  unfolding update
  update-IsMirror g file imports mirror a b = ground (
    arith,
    has_edge-insert file (distinct imports) (remove file g.forward) a b,
    has_edge-remove file g.forward a b,
    e.beq_iff file a,
    has_edge-add_importers file (detached g file) (distinct imports) b a,
    has_edge-detached g file b a mirror,
  )

  pub remove_file-IsMirror :
      (g : ImportGraph P) (file : P) → IsMirror g → IsMirror (remove_file g file)
  unfolding remove_file
  remove_file-IsMirror g file mirror a b =
      ground (arith, has_edge-remove file g.forward a b, has_edge-detached g file b a mirror)

  pub has_edge-remove_file :
      (g : ImportGraph P) (file : P) (a b : P)
      → has_edge (remove_file g file).forward a b ≡ (not (file == a) && has_edge g.forward a b)
  unfolding remove_file
  has_edge-remove_file g file a b = has_edge-remove file g.forward a b

  -- The set of files that are always dirty, after each operation that touches it or leaves it.
  pub dirty-remove_file :
      (g : ImportGraph P) (file x : P)
      → contains (remove_file g file).always_dirty x
        ≡ (contains g.always_dirty x && not (file == x))
  unfolding remove_file
  dirty-remove_file g file x = contains-remove_from file g.always_dirty x

  pub dirty-mark :
      (g : ImportGraph P) (file x : P)
      → contains (mark_always_dirty g file).always_dirty x
        ≡ (contains g.always_dirty x || file == x)
  unfolding mark_always_dirty
  dirty-mark g file x = contains-insert_set file g.always_dirty x

  pub dirty-clear :
      (g : ImportGraph P) (file x : P)
      → contains (clear_always_dirty g file).always_dirty x
        ≡ (contains g.always_dirty x && not (file == x))
  unfolding clear_always_dirty
  dirty-clear g file x = contains-remove_from file g.always_dirty x

  pub dirty-update :
      (g : ImportGraph P) (file : P) (imports : List P)
      → (update g file imports).always_dirty ≡ g.always_dirty
  unfolding update
  dirty-update g file imports = refl

  -- Both marks leave the edges.
  pub forward-mark : (g : ImportGraph P) (file : P) → (mark_always_dirty g file).forward ≡ g.forward
  unfolding mark_always_dirty
  forward-mark g file = refl

  pub forward-clear :
      (g : ImportGraph P) (file : P) → (clear_always_dirty g file).forward ≡ g.forward
  unfolding clear_always_dirty
  forward-clear g file = refl

  abbrev pub apply_op : ImportGraph P → Op P → ImportGraph P
  apply_op g (op_update file imports) = update g file imports
  apply_op g (op_remove file) = remove_file g file
  apply_op g (op_mark file) = mark_always_dirty g file
  apply_op g (op_clear file) = clear_always_dirty g file

  abbrev pub run_ops : ImportGraph P → List (Op P) → ImportGraph P
  run_ops g [] = g
  run_ops g (op ∷ ops) = run_ops (apply_op g op) ops

  pub apply_op-IsMirror : (g : ImportGraph P) (op : Op P) → IsMirror g → IsMirror (apply_op g op)
  unfolding mark_always_dirty clear_always_dirty
  apply_op-IsMirror g (op_update file imports) h = update-IsMirror g file imports h
  apply_op-IsMirror g (op_remove file) h = remove_file-IsMirror g file h
  apply_op-IsMirror g (op_mark file) h = h
  apply_op-IsMirror g (op_clear file) h = h

  run_ops_from-IsMirror :
      (ops : List (Op P)) (g : ImportGraph P) → IsMirror g → IsMirror (run_ops g ops)
  run_ops_from-IsMirror [] g h = h
  run_ops_from-IsMirror (op ∷ ops) g h =
      run_ops_from-IsMirror ops (apply_op g op) (apply_op-IsMirror g op h)

  -- From the empty graph on, every sequence of the public operations keeps the two indexes mirror
  -- images of each other.
  pub run_ops-IsMirror : (ops : List (Op P)) → IsMirror (run_ops (empty_graph P) ops)
  unfolding get contains
  run_ops-IsMirror ops = run_ops_from-IsMirror ops (empty_graph P) (λ a b. refl)

  -- The empty graph.
  pub edges_empty : (a b : P) → has_edge (empty_graph P).forward a b ≡ false
  unfolding get contains
  edges_empty a b = refl

  pub dirty_empty : (a : P) → contains (empty_graph P).always_dirty a ≡ false
  unfolding contains
  dirty_empty a = refl
