-- ===== src/Graph/Samples.antt =====
-- A small import graph: files 1 and 2 import file 0, file 3 imports file 1, and 4 is always dirty.
use tryke.Prelude.{
  ℕ, ◌≡◌, ◌↔◌, ◌⊎◌, refl, true, List, [], ◌∷◌, some, contains, distinct, nat_eq, leb, if◌then◌else◌,
  ◌==◌,
}
use tryke.Graph.Maps.{get, insert, remove, insert_set, remove_from, values}
use tryke.Graph.{
  ImportGraph, update, remove_file, mark_always_dirty, affected_files, empty_graph, imported_by_for,
}
use tryke.Graph.Mirror.{
  Op, op_update, op_mark, run_ops, IsMirror, has_edge, run_ops-IsMirror, has_edge-update,
}
use tryke.Graph.Affected.{Reaches, affected_files_iff}

abbrev ops : List (Op ℕ)
ops =
    op_update 1 (0 ∷ [])
    ∷ op_update 2 (0 ∷ 0 ∷ [])
    ∷ op_update 3 (2 ∷ 1 ∷ [])
    ∷ op_update 3 (1 ∷ [])
    ∷ op_mark 4
    ∷ []

abbrev graph : ImportGraph ℕ
graph = run_ops (empty_graph ℕ) ops

graph_code : Unit {0}
unfolding update remove_file mark_always_dirty affected_files imported_by_for get insert remove
    insert_set remove_from values contains distinct
graph_code = tt

affected_by_zero : affected_files graph (0 ∷ []) ≡ some (4 ∷ 3 ∷ 1 ∷ 2 ∷ 0 ∷ [])
unfolding graph_code
affected_by_zero = refl

importers_of_zero : imported_by_for leb graph 0 ≡ 1 ∷ 2 ∷ []
unfolding graph_code
importers_of_zero = refl

run_ops-IsMirror_example : IsMirror graph
run_ops-IsMirror_example = run_ops-IsMirror ops

has_edge-update_example :
    has_edge (update graph 3 (2 ∷ [])).forward 1 0
    ≡ (if ◌==◌ {T = ℕ} 3 1 then contains {A = ℕ} (2 ∷ []) 0 else has_edge graph.forward 1 0)
has_edge-update_example = has_edge-update graph 3 (2 ∷ []) 1 0

affected_files_iff_example :
    (r : List ℕ) × (affected_files graph (0 ∷ []) ≡ some r)
    × ((x : ℕ)
        → (contains r x ≡ true)
          ↔ (Reaches graph (0 ∷ []) x ⊎ (contains graph.always_dirty x ≡ true)))
affected_files_iff_example = affected_files_iff graph (0 ∷ []) (run_ops-IsMirror ops)
