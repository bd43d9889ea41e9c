-- ===== src/Graph.antt =====
-- crates/tryke_discovery/src/filesystem/import_graph.rs: which files import which, both ways, and
-- the files that a change may affect. Paths are of any type with equality and an order; a `HashMap`
-- is an association list and a `HashSet` a list without repetitions, and neither's order is used
-- where the source does not sort.
pub mod Maps
pub mod Mirror
pub mod Search
pub mod Affected
mod Samples
use tryke.Prelude.{
  contains, distinct, ℕ, zero, suc, ◌≡◌, Bool, true, false, ◌||◌, List, [], ◌∷◌, ◌++◌, Option, none,
  some, Eq, length,
}
use tryke.Prelude.Sort.{sort_by}
use Maps.{Map, get, insert, remove, succs, values, insert_set, remove_from}

pub record ImportGraph (P : Type 0) : Type 0 where
  pub forward : Map P
  pub reverse : Map P
  pub always_dirty : List P

pub record GraphEntry (P : Type 0) : Type 0 where
  pub file : P
  pub imports : List P
  pub imported_by : List P

-- `ImportGraph::default()`.
abbrev pub empty_graph : (P : Type 0) → ImportGraph P
empty_graph P = record { forward = []; reverse = []; always_dirty = [] }

module _ {P : Type 0} ⦃e : Eq P⦄ where
  -- `if let Some(importers) = self.reverse.get_mut(old_import) { importers.remove(&file); }`
  drop_importer : P → Map P → P → Map P
  drop_importer file reverse old = elim (get old reverse) [
    | some importers ↦ insert old (remove_from file importers) reverse
    | none ↦ reverse
  ]

  drop_importers : P → Map P → List P → Map P
  unfolding drop_importer
  drop_importers file reverse [] = reverse
  drop_importers file reverse (old ∷ olds) =
      drop_importers file (drop_importer file reverse old) olds

  -- `self.reverse.entry(import).or_default().insert(file)`
  add_importer : P → Map P → P → Map P
  add_importer file reverse target = insert target (insert_set file (succs reverse target)) reverse

  add_importers : P → Map P → List P → Map P
  unfolding add_importer
  add_importers file reverse [] = reverse
  add_importers file reverse (i ∷ is) = add_importers file (add_importer file reverse i) is

  -- What `update` and `remove` begin with.
  detached : ImportGraph P → P → Map P
  unfolding drop_importers
  detached g file = drop_importers file g.reverse (succs g.forward file)

  pub update : ImportGraph P → P → List P → ImportGraph P
  unfolding detached add_importers
  update g file imports =
      let new_set = distinct imports in
      record g {
        forward = insert file new_set (remove file g.forward);
        reverse = add_importers file (detached g file) new_set;
      }

  -- The entry `reverse[file]` stays, so that the importers of a deleted file are still found.
  pub remove_file : ImportGraph P → P → ImportGraph P
  unfolding detached
  remove_file g file = record {
    forward = remove file g.forward;
    reverse = detached g file;
    always_dirty = remove_from file g.always_dirty;
  }

  pub mark_always_dirty : ImportGraph P → P → ImportGraph P
  mark_always_dirty g file = record g { always_dirty = insert_set file g.always_dirty }

  pub clear_always_dirty : ImportGraph P → P → ImportGraph P
  clear_always_dirty g file = record g { always_dirty = remove_from file g.always_dirty }

  -- A file enters the set and the queue when it is new.
  pub enqueue : List P → List P × List P → List P × List P
  enqueue [] (visited, queue) = (visited, queue)
  enqueue (f ∷ fs) (visited, queue) = enqueue fs (elim (contains visited f) [
    | true ↦ (visited, queue)
    | false ↦ (f ∷ visited, queue ++ f ∷ [])
  ])

  -- `while let Some(file) = queue.pop_front()`, with fuel; `none` means that it ran out.
  pub search_from : Map P → ℕ → List P × List P → Option (List P)
  unfolding enqueue
  search_from reverse n (visited, []) = some visited
  search_from reverse zero (visited, f ∷ queue) = none
  search_from reverse (suc n) (visited, f ∷ queue) =
      search_from reverse n (enqueue (succs reverse f) (visited, queue))

  extend_set : List P → List P → List P
  extend_set visited [] = visited
  extend_set visited (f ∷ fs) = extend_set (insert_set f visited) fs

  -- Each file is queued once, so the files that are there to be queued bound the rounds.
  search_fuel : ImportGraph P → List P → ℕ
  search_fuel g changed = length (changed ++ values g.reverse)

  pub affected_files : ImportGraph P → List P → Option (List P)
  unfolding search_from search_fuel extend_set
  affected_files g changed =
      elim (search_from g.reverse (search_fuel g changed) (enqueue changed ([], []))) [
        | some visited ↦ some (extend_set visited g.always_dirty)
        | none ↦ none
      ]

  module _ (le : P → P → Bool) where
    pub always_dirty_files : ImportGraph P → List P
    always_dirty_files g = sort_by le g.always_dirty

    pub imports_for : ImportGraph P → P → List P
    imports_for g file = sort_by le (succs g.forward file)

    pub imported_by_for : ImportGraph P → P → List P
    imported_by_for g file = sort_by le (succs g.reverse file)
