-- ===== src/Watch/Batches.antt =====
-- crates/tryke_watcher/src/lib.rs: a batch holds what changed since it was last passed on.
use tryke.Prelude.{
  ◌≡◌, refl, ◌∙◌, ◌⊎◌, inl, inr, Bool, true, false, ◌&&◌, ◌||◌, List, [], ◌∷◌, some, Text, contains,
  is_empty, list_eq, nat_eq, option_eq, if◌then◌else◌, Bool-cases, arith, Member,
}
use tryke.Prelude.Dict.{get, insert, get-insert}
use tryke.Prelude.Sort.{sort_by, contains-sort_by}
use tryke.Paths.{component_eq}
use tryke.Paths.Operations.{PathBuf, path_eq, path_le}
use tryke.Discover.Files.{FileKey, Disk, from_path, dedup, dedup_from}
use tryke.Discover.Cache.{key_eq}
use tryke.Watch.{
  Burst, LastSeen, differs, filter_changes, collect, NextBatch, batch, next_batch, turn,
  sorted_paths,
}

-- Whether the signature of a path is another than when it was last passed on.
abbrev pub is_changed : Disk → LastSeen → PathBuf → Bool
is_changed disk last q = differs (get q last) (from_path disk q)

-- What a pass over some paths returns and remembers.
pub record IsFiltered (disk : Disk) (last : LastSeen) (paths : List PathBuf)
    (after : LastSeen × List PathBuf) : Type 0 where
  pub returned : (q : PathBuf) → contains after.1 q ≡ (contains paths q && is_changed disk last q)
  pub remembered :
      (q : PathBuf)
      → get q after.0 ≡ (
          if contains paths q && is_changed disk last q
          then some (from_path disk q)
          else get q last)

IsFiltered-cons :
    (disk : Disk) (last : LastSeen) (p : PathBuf) (ps : List PathBuf)
    (after : LastSeen × List PathBuf)
    → is_changed disk last p ≡ true
    → IsFiltered disk (insert p (from_path disk p) last) ps after
    → IsFiltered disk last (p ∷ ps) (after.0, p ∷ after.1)
unfolding contains
IsFiltered-cons disk last p ps after new rest = record {
  returned = λ q. ground (
    arith,
    new,
    path_eq.beq_iff p q,
    rest.returned q,
    get-insert p q (from_path disk p) last,
    (option_eq {A = FileKey}).beq_iff (from_path disk q) (from_path disk q),
  );
  remembered = λ q. ground (
    arith,
    new,
    path_eq.beq_iff p q,
    rest.remembered q,
    get-insert p q (from_path disk p) last,
    (option_eq {A = FileKey}).beq_iff (from_path disk q) (from_path disk q),
  );
}

IsFiltered-skip :
    (disk : Disk) (last : LastSeen) (p : PathBuf) (ps : List PathBuf)
    (after : LastSeen × List PathBuf)
    → is_changed disk last p ≡ false
    → IsFiltered disk last ps after
    → IsFiltered disk last (p ∷ ps) after
unfolding contains
IsFiltered-skip disk last p ps after same rest = record {
  returned = λ q. ground (arith, same, path_eq.beq_iff p q, rest.returned q);
  remembered = λ q. ground (arith, same, path_eq.beq_iff p q, rest.remembered q);
}

-- The filter returns exactly the paths whose signature is not the one that it last returned them
-- with, and remembers the present signature of each path that it returns.
pub filter_changes-IsFiltered :
    (disk : Disk) (paths : List PathBuf) (last : LastSeen)
    → IsFiltered disk last paths (filter_changes disk last paths)
unfolding filter_changes contains
filter_changes-IsFiltered disk [] last = record { returned = λ q. refl; remembered = λ q. refl }
filter_changes-IsFiltered disk (p ∷ ps) last = elim (Bool-cases (is_changed disk last p)) [
  | inl new ↦ rw new (
      IsFiltered-cons disk last p ps _ new
        (filter_changes-IsFiltered disk ps (insert p (from_path disk p) last)))
  | inr same ↦
      rw same (IsFiltered-skip disk last p ps _ same (filter_changes-IsFiltered disk ps last))
]

contains-dedup_from :
    (p : PathBuf) (qs : List PathBuf) (a : PathBuf)
    → contains (dedup_from p qs) a ≡ (path_eq.beq p a || contains qs a)
unfolding dedup_from contains
contains-dedup_from p [] a = refl
contains-dedup_from p (q ∷ qs) a =
    ground (arith, path_eq.beq_iff p q, contains-dedup_from p qs a, contains-dedup_from q qs a)

contains-dedup : (ps : List PathBuf) (a : PathBuf) → contains (dedup ps) a ≡ contains ps a
unfolding dedup contains
contains-dedup [] a = refl
contains-dedup (p ∷ ps) a = contains-dedup_from p ps a

contains-sorted_paths :
    (ps : List PathBuf) (a : PathBuf) → contains (sorted_paths ps) a ≡ contains ps a
contains-sorted_paths ps a = contains-dedup (sort_by path_le ps) a ∙ contains-sort_by path_le ps a

contains_none : (ps : List PathBuf) → is_empty ps ≡ true → (q : PathBuf) → contains ps q ≡ false
unfolding contains
contains_none [] h q = refl
contains_none (p ∷ ps) h q = absurd (ground (arith, h))

-- The burst that a batch comes from, with its paths.
pub record IsBatch (last : LastSeen) (bursts : List Burst) (changed : List PathBuf) : Type 0 where
  pub burst : Burst
  pub paths : List PathBuf
  pub is_burst : Member burst bursts
  pub collected : collect burst ≡ inr paths
  pub returned :
      (q : PathBuf) → contains changed q ≡ (contains paths q && is_changed burst.disk last q)

unchanged_after :
    (disk : Disk) (last : LastSeen) (paths : List PathBuf) (after : LastSeen × List PathBuf)
    → IsFiltered disk last paths after
    → is_empty after.1 ≡ true
    → (q : PathBuf) → get q after.0 ≡ get q last
unchanged_after disk last paths after f none_new q =
    ground (arith, f.remembered q, f.returned q, contains_none after.1 none_new q)

turn-IsBatch :
    (last : LastSeen) (b : Burst) (bursts : List Burst) (continue : LastSeen → NextBatch)
    (c : Text ⊎ List PathBuf) (changed : List PathBuf) (after : LastSeen) (rest : List Burst)
    → ((mid : LastSeen)
        → continue mid ≡ batch changed after rest
        → (is_empty changed ≡ false) × IsBatch mid bursts changed)
    → collect b ≡ c
    → turn last b bursts continue c ≡ batch changed after rest
    → (is_empty changed ≡ false) × IsBatch last (b ∷ bursts) changed
turn-IsBatch last b bursts continue (inl error) changed after rest k e h =
    absurd (ground (arith, h))
turn-IsBatch last b bursts continue (inr paths) changed after rest k e h =
    let s = filter_changes b.disk last (sorted_paths paths) in
    let f = filter_changes-IsFiltered b.disk (sorted_paths paths) last in
    elim (Bool-cases (is_empty s.1)) [
      | inl none_new ↦
          let (full, found) = k s.0 (rw none_new at h) in
          (
            full,
            record {
              burst = found.burst;
              paths = found.paths;
              is_burst = inr found.is_burst;
              collected = found.collected;
              returned = λ q. ground (
                arith,
                found.returned q,
                unchanged_after b.disk last (sorted_paths paths) s f none_new q,
              );
            },
          )
      | inr some_new ↦ (
        ground (arith, some_new, rw some_new at h),
        record {
          burst = b;
          paths = paths;
          is_burst = inl refl;
          collected = e;
          returned =
              λ q. ground (arith, rw some_new at h, f.returned q, contains-sorted_paths paths q);
        },
      )
    ]

-- A batch is never empty, and it holds exactly the paths of one burst whose signature differs from
-- the one that they were last passed on with before the call.
pub next_batch-IsBatch :
    (bursts : List Burst) (last : LastSeen) (changed : List PathBuf) (after : LastSeen)
    (rest : List Burst)
    → next_batch last bursts ≡ batch changed after rest
    → (is_empty changed ≡ false) × IsBatch last bursts changed
unfolding next_batch
next_batch-IsBatch [] last changed after rest h = absurd (ground (arith, h))
next_batch-IsBatch (b ∷ bursts) last changed after rest h =
    turn-IsBatch last b bursts (λ mid. next_batch mid bursts) (collect b) changed after rest
      (λ mid. next_batch-IsBatch bursts mid changed after rest) refl h
