-- ===== src/Discover/Noted.antt =====
-- crates/tryke_discovery/src/filesystem/discoverer.rs: what the two loops of `rediscover_changed`
-- do: the first loop, on each field of the state.
use tryke.Prelude.{
  ◌≡◌, refl, ◌∙◌, Bool, true, false, not, ◌&&◌, ◌||◌, List, [], ◌∷◌, none, some, inl, inr, contains,
  contains-append, list_eq, nat_eq, if◌then◌else◌, Bool-cases, arith,
}
use tryke.Prelude.Dict.{get, get-remove}
use tryke.Paths.{component_eq}
use tryke.Paths.Operations.{PathBuf, path_eq, is_python}
use tryke.Graph.Maps.{contains-insert_set, contains-remove_from}
use tryke.Graph.Mirror.{
  IsMirror, has_edge, remove_file-IsMirror, has_edge-remove_file, dirty-remove_file,
}
use tryke.Discover.Files.{FileKey, Disk, text_at}
use tryke.Discover.Cache.{get_cached, key_eq, get_cached-remove_cached}
use tryke.Discover.State.{Discoverer, source_file, upsert_source}
use tryke.Discover.Change.{note_one, note_changes}
use tryke.Discover.Phases.{AreOwn, upserted-get}

module _ (disk : Disk) where
  -- A Python path of the list that exists, and one that does not.
  abbrev pub changed_to : List PathBuf → PathBuf → Bool
  changed_to cs q = contains cs q && is_python q && disk.exists q

  abbrev pub deleted_in : List PathBuf → PathBuf → Bool
  deleted_in cs q = contains cs q && is_python q && not (disk.exists q)

  pub record IsNoted (cs : List PathBuf) (d : Discoverer) (touched : List PathBuf)
      (after : Discoverer × List PathBuf) : Type 0 where
    pub same_root : after.0.root ≡ d.root
    pub same_src_roots : after.0.src_roots ≡ d.src_roots
    pub results_are :
        (q : PathBuf) → get q after.0.results ≡ (if deleted_in cs q then none else get q d.results)
    pub memos_are :
        (q : PathBuf) → get q after.0.memos ≡ (if deleted_in cs q then none else get q d.memos)
    pub inputs_are :
        (q : PathBuf)
        → get q after.0.inputs ≡ (
            if changed_to cs q
            then some (source_file d q (text_at disk q))
            else (if deleted_in cs q then none else get q d.inputs))
    pub touched_are : (q : PathBuf) → contains after.1 q ≡ (contains touched q || changed_to cs q)
    pub project_is :
        (q : PathBuf)
        → contains after.0.project_files q
          ≡ (changed_to cs q || (not (deleted_in cs q) && contains d.project_files q))
    pub cache_is :
        (q : PathBuf) (j : FileKey)
        → get_cached after.0.cache q j ≡ (if deleted_in cs q then none else get_cached d.cache q j)
    pub mirror : IsMirror d.import_graph → IsMirror after.0.import_graph
    pub edges_are :
        (a b : PathBuf)
        → has_edge after.0.import_graph.forward a b
          ≡ (not (deleted_in cs a) && has_edge d.import_graph.forward a b)
    pub dirty_is :
        (a : PathBuf)
        → contains after.0.import_graph.always_dirty a
          ≡ (not (deleted_in cs a) && contains d.import_graph.always_dirty a)

  pub IsNoted-AreOwn :
      (cs : List PathBuf) (d : Discoverer) (touched : List PathBuf)
      (after : Discoverer × List PathBuf)
      → AreOwn d
      → IsNoted cs d touched after
      → AreOwn after.0
  IsNoted-AreOwn cs d touched after own s q f h =
      ground (arith, own q f, h, s.inputs_are q, s.same_root, s.same_src_roots)

  note_one-IsNoted :
      (p : PathBuf) (there : Bool) (d : Discoverer) (touched : List PathBuf)
      → AreOwn d
      → is_python p ≡ true
      → disk.exists p ≡ there
      → IsNoted (p ∷ []) d touched (note_one disk (d, touched) p there)
  unfolding contains upsert_source
  note_one-IsNoted p true d touched own py there = record {
    same_root = refl;
    same_src_roots = refl;
    results_are = λ q. ground (arith, path_eq.beq_iff p q, py, there);
    memos_are = λ q. ground (arith, path_eq.beq_iff p q, py, there);
    inputs_are = λ q. ground (
      arith,
      path_eq.beq_iff p q,
      py,
      there,
      upserted-get d p (text_at disk p) (get p d.inputs) q own refl,
    );
    touched_are =
        λ q. ground (arith, path_eq.beq_iff p q, py, there, contains-append touched (p ∷ []) q);
    project_is = λ q.
        ground (arith, path_eq.beq_iff p q, py, there, contains-insert_set p d.project_files q);
    cache_is = λ q j. ground (arith, path_eq.beq_iff p q, py, there);
    mirror = λ m. m;
    edges_are = λ a b. ground (arith, path_eq.beq_iff p a, py, there);
    dirty_is = λ a. ground (arith, path_eq.beq_iff p a, py, there);
  }
  note_one-IsNoted p false d touched own py gone = record {
    same_root = refl;
    same_src_roots = refl;
    results_are = λ q. ground (arith, path_eq.beq_iff p q, py, gone, get-remove p q d.results);
    memos_are = λ q. ground (arith, path_eq.beq_iff p q, py, gone, get-remove p q d.memos);
    inputs_are = λ q. ground (arith, path_eq.beq_iff p q, py, gone, get-remove p q d.inputs);
    touched_are = λ q. ground (arith, path_eq.beq_iff p q, py, gone);
    project_is = λ q.
        ground (arith, path_eq.beq_iff p q, py, gone, contains-remove_from p d.project_files q);
    cache_is = λ q j.
        ground (arith, path_eq.beq_iff p q, py, gone, get_cached-remove_cached d.cache p q j);
    mirror = λ m. remove_file-IsMirror d.import_graph p m;
    edges_are = λ a b.
        ground (arith, path_eq.beq_iff p a, py, gone, has_edge-remove_file d.import_graph p a b);
    dirty_is =
        λ a. ground (arith, path_eq.beq_iff p a, py, gone, dirty-remove_file d.import_graph p a);
  }

  IsNoted-same :
      (cs : List PathBuf) (d : Discoverer) (touched : List PathBuf)
      → ((q : PathBuf) → (contains cs q && is_python q) ≡ false)
      → IsNoted cs d touched (d, touched)
  IsNoted-same cs d touched not_py = record {
    same_root = refl;
    same_src_roots = refl;
    results_are = λ q. ground (arith, not_py q);
    memos_are = λ q. ground (arith, not_py q);
    inputs_are = λ q. ground (arith, not_py q);
    touched_are = λ q. ground (arith, not_py q);
    project_is = λ q. ground (arith, not_py q);
    cache_is = λ q j. ground (arith, not_py q);
    mirror = λ m. m;
    edges_are = λ a b. ground (arith, not_py a);
    dirty_is = λ a. ground (arith, not_py a);
  }

  IsNoted-then :
      (p : PathBuf) (cs : List PathBuf) (d : Discoverer) (touched : List PathBuf)
      (mid after : Discoverer × List PathBuf)
      → IsNoted (p ∷ []) d touched mid
      → IsNoted cs mid.0 mid.1 after
      → IsNoted (p ∷ cs) d touched after
  unfolding contains
  IsNoted-then p cs d touched mid after one rest = record {
    same_root = rest.same_root ∙ one.same_root;
    same_src_roots = rest.same_src_roots ∙ one.same_src_roots;
    results_are = λ q. ground (arith, rest.results_are q, one.results_are q);
    memos_are = λ q. ground (arith, rest.memos_are q, one.memos_are q);
    inputs_are =
        λ q. ground (arith, rest.inputs_are q, one.inputs_are q, one.same_root, one.same_src_roots);
    touched_are = λ q. ground (arith, rest.touched_are q, one.touched_are q);
    project_is = λ q. ground (arith, rest.project_is q, one.project_is q);
    cache_is = λ q j. ground (arith, rest.cache_is q j, one.cache_is q j);
    mirror = λ m. rest.mirror (one.mirror m);
    edges_are = λ a b. ground (arith, rest.edges_are a b, one.edges_are a b);
    dirty_is = λ a. ground (arith, rest.dirty_is a, one.dirty_is a);
  }

  note_turn :
      (p : PathBuf) (d : Discoverer) (touched : List PathBuf)
      → AreOwn d
      → IsNoted
          (p ∷ [])
          d
          touched
          (if is_python p then note_one disk (d, touched) p (disk.exists p) else (d, touched))
  unfolding contains
  note_turn p d touched own = elim (Bool-cases (is_python p)) [
    | inl py ↦ rw py (note_one-IsNoted p (disk.exists p) d touched own py refl)
    | inr not_py ↦
        rw not_py
          (IsNoted-same (p ∷ []) d touched (λ q. ground (arith, path_eq.beq_iff p q, not_py)))
  ]

  pub note_changes-IsNoted :
      (cs : List PathBuf) (d : Discoverer) (touched : List PathBuf)
      → AreOwn d
      → IsNoted cs d touched (note_changes disk (d, touched) cs)
  unfolding note_changes contains
  note_changes-IsNoted [] d touched own = IsNoted-same [] d touched (λ q. refl)
  note_changes-IsNoted (p ∷ cs) d touched own =
      let mid =
        if is_python p then note_one disk (d, touched) p (disk.exists p) else (d, touched) in
      let one = note_turn p d touched own in
      IsNoted-then p cs d touched mid (note_changes disk mid cs) one
        (note_changes-IsNoted cs mid.0 mid.1 (IsNoted-AreOwn (p ∷ []) d touched mid own one))
