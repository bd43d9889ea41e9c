-- ===== src/Watch.antt =====
-- crates/tryke_watcher/src/lib.rs: the queue of file changes. A burst is what one turn of the loop
-- finds in the channel: the event that it waited for, the events that are queued behind it by then,
-- and the file system at that time.
pub mod Batches
mod Samples
use tryke.Prelude.{
  ◌⊎◌, inl, inr, Bool, true, false, not, ◌&&◌, List, [], ◌∷◌, ◌++◌, map, Option, none, some, Text,
  codes, filter, is_empty, ◌==◌, option_eq, list_eq, nat_eq, if◌then◌else◌,
}
use tryke.Prelude.Dict.{Dict, get, insert}
use tryke.Prelude.Sort.{sort_by}
use tryke.Paths.{component_eq}
use tryke.Paths.Operations.{PathBuf, path_eq, path_le, is_python}
use tryke.Discover.Files.{FileKey, Disk, from_path, dedup}
use tryke.Discover.Cache.{key_eq}

pub data WatchEvent : Type 0 where
  changed_paths : List PathBuf → WatchEvent
  watch_error : Text → WatchEvent

pub record Burst : Type 0 where
  pub first : WatchEvent
  pub queued : List WatchEvent
  pub disk : Disk

-- The paths of a debounced set of events.
unfoldable pub relevant_paths : (PathBuf → Bool) → List PathBuf → List PathBuf
unfolding is_python
relevant_paths is_ignored events = filter (λ p. not (is_ignored p)) (filter is_python events)

-- `ChangeFilter`: the signature of each path when it was last passed on, where it had one. A
-- `FileSignature` is read as a `FileKey` is.
abbrev pub LastSeen : Type 0
LastSeen = Dict PathBuf (Option FileKey)

-- `self.last_seen.get(path).is_none_or(|prior| *prior != current)`
abbrev pub differs : Option (Option FileKey) → Option FileKey → Bool
differs none current = true
differs (some prior) current = not (option_eq.beq prior current)

unfoldable pub filter_changes : Disk → LastSeen → List PathBuf → LastSeen × List PathBuf
unfolding get insert from_path
filter_changes disk last [] = (last, [])
filter_changes disk last (p ∷ ps) =
    if differs (get p last) (from_path disk p)
    then (let (after, changed) = filter_changes disk (insert p (from_path disk p) last) ps in
        (after, p ∷ changed))
    else filter_changes disk last ps

-- `while let Ok(event) = self.rx.try_recv()`
unfoldable pub coalesce : List PathBuf → List WatchEvent → Text ⊎ List PathBuf
coalesce paths [] = inr paths
coalesce paths (changed_paths more ∷ events) = coalesce (paths ++ more) events
coalesce paths (watch_error error ∷ events) = inl error

unfoldable pub collect : Burst → Text ⊎ List PathBuf
unfolding coalesce
collect b = coalesce [] (b.first ∷ b.queued)

-- How a call of `next_batch` ends: a batch with the bursts that are left, the end of the channel, or
-- an error.
pub data NextBatch : Type 0 where
  batch : List PathBuf → LastSeen → List Burst → NextBatch
  closed : LastSeen → NextBatch
  watch_failed : Text → NextBatch

abbrev pub sorted_paths : List PathBuf → List PathBuf
sorted_paths paths = dedup (sort_by path_le paths)

-- One turn of the loop; `continue` starts the next.
abbrev pub turn :
    LastSeen → Burst → List Burst → (LastSeen → NextBatch) → Text ⊎ List PathBuf → NextBatch
turn last b bursts continue (inl error) =
    watch_failed (codes "filesystem watcher failed: " ++ error)
turn last b bursts continue (inr paths) =
    let (after, changed) = filter_changes b.disk last (sorted_paths paths) in
    if is_empty changed then continue after else batch changed after bursts

unfoldable pub next_batch : LastSeen → List Burst → NextBatch
unfolding collect filter_changes dedup path_le
next_batch last [] = closed last
next_batch last (b ∷ bursts) = turn last b bursts (λ after. next_batch after bursts) (collect b)

-- `while self.rx.try_recv().is_ok() {}` on the events that are queued.
unfoldable pub discard_pending : List WatchEvent → List WatchEvent
discard_pending [] = []
discard_pending (e ∷ events) = discard_pending events
