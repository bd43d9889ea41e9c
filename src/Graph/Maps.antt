-- ===== src/Graph/Maps.antt =====
-- `HashMap<PathBuf, HashSet<PathBuf>>` and `HashSet<PathBuf>` of
-- crates/tryke_discovery/src/filesystem/import_graph.rs, with their laws.
use tryke.Prelude.{
  contains-append, contains, contains-filter, ◌≡◌, true, not, ◌&&◌, ◌||◌, List, [], ◌∷◌, ◌++◌, Eq,
  ◌==◌, if◌then◌else◌, unwrap_or, filter, arith,
}
unfoldable pub use tryke.Prelude.Dict.{get, insert, remove}
pub use tryke.Prelude.Dict.{Dict, get-insert, get-remove}

abbrev pub Map : Type 0 → Type 0
Map P = Dict P (List P)

module _ {P : Type 0} ⦃e : Eq P⦄ where
  -- `get`, or the empty set.
  abbrev pub succs : Map P → P → List P
  succs m k = unwrap_or (get k m) []

  -- All members of all sets.
  unfoldable pub values : Map P → List P
  values [] = []
  values ((j, w) ∷ m) = w ++ values m

  -- `HashSet::insert` and `HashSet::remove`.
  unfoldable pub insert_set : P → List P → List P
  insert_set x s = if contains s x then s else x ∷ s

  unfoldable pub remove_from : P → List P → List P
  remove_from x s = filter (λ y. not (x == y)) s

  pub contains-insert_set :
      (x : P) (s : List P) (y : P) → contains (insert_set x s) y ≡ (contains s y || x == y)
  unfolding insert_set contains
  contains-insert_set x s y = ground (arith, e.beq_iff x y)

  pub contains-remove_from :
      (x : P) (s : List P) (y : P) → contains (remove_from x s) y ≡ (contains s y && not (x == y))
  unfolding remove_from
  contains-remove_from x s y = contains-filter (λ z. not (x == z)) s y

  pub contains-values :
      (m : Map P) (k x : P) → contains (succs m k) x ≡ true → contains (values m) x ≡ true
  unfolding get values contains
  contains-values [] k x h = h
  contains-values ((j, w) ∷ m) k x h =
      ground (arith, contains-append w (values m) x, contains-values m k x)
