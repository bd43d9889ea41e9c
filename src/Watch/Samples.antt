-- ===== src/Watch/Samples.antt =====
-- Two bursts for one file: the first finds it as it was seen, the second with another size.
use tryke.Prelude.{◌≡◌, refl, ℕ, true, false, List, [], ◌∷◌, none, some, codes, is_empty}
use tryke.Paths.{components}
use tryke.Paths.Operations.{PathBuf, path}
use tryke.Discover.Files.{Disk, after_epoch, FileKey, pos}
use tryke.Watch.{
  changed_paths, Burst, LastSeen, filter_changes, next_batch, relevant_paths, discard_pending,
}
use tryke.Watch.Batches.{IsBatch, next_batch-IsBatch, IsFiltered, filter_changes-IsFiltered}

abbrev sized : ℕ → Disk
sized n = record {
  walk = λ p. [];
  excluded = λ p. false;
  ignored = λ p. false;
  metadata = λ p. some (record { modified = some (after_epoch 5); len = n });
  read_to_string = λ p. none;
  exists = λ p. true;
  canonicalize = λ p. some p;
}

abbrev a_py : PathBuf
a_py = path (codes "a.py")

abbrev key_of_size : ℕ → FileKey
key_of_size n = record { mtime_nanos = pos 5; size = n }

abbrev seen : LastSeen
seen = (a_py, some (key_of_size 8)) ∷ []

abbrev bursts : List Burst
bursts =
    record { first = changed_paths (a_py ∷ []); queued = []; disk = sized 8 }
    ∷ record {
      first = changed_paths (a_py ∷ []);
      queued = changed_paths (a_py ∷ []) ∷ [];
      disk = sized 9;
    }
    ∷ []

next_batch-IsBatch_example : (is_empty (a_py ∷ []) ≡ false) × IsBatch seen bursts (a_py ∷ [])
unfolding next_batch components
next_batch-IsBatch_example =
    next_batch-IsBatch bursts seen (a_py ∷ []) ((a_py, some (key_of_size 9)) ∷ []) [] refl

filter_changes-IsFiltered_example :
    IsFiltered (sized 9) seen (a_py ∷ a_py ∷ []) (filter_changes (sized 9) seen (a_py ∷ a_py ∷ []))
filter_changes-IsFiltered_example = filter_changes-IsFiltered (sized 9) (a_py ∷ a_py ∷ []) seen

relevant_paths_run : relevant_paths (λ p. false) (a_py ∷ path (codes "b.txt") ∷ []) ≡ a_py ∷ []
unfolding relevant_paths components
relevant_paths_run = refl

discard_pending_run : discard_pending (changed_paths [] ∷ []) ≡ []
unfolding discard_pending
discard_pending_run = refl
