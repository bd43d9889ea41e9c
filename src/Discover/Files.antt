-- ===== src/Discover/Files.antt =====
-- crates/tryke_types/src/lib.rs and crates/tryke_discovery/src/filesystem/mod.rs: what a parse of a
-- file gives, what the program reads of the file system, and which files it parses.
use tryke.Prelude.{
  ℕ, zero, suc, Bool, true, false, not, List, [], ◌∷◌, map, Option, none, some, Text, filter,
  concat, ◌==◌, nat_eq, list_eq, min, ◌-◌, ◌^◌, if◌then◌else◌, unwrap_or,
}
use tryke.Prelude.Sort.{sort_by}
use tryke.Types.{TestItem, HookItem}
use tryke.Paths.{component_eq}
use tryke.Paths.Operations.{PathBuf, is_python, path_le}

pub record ParsedFile : Type 0 where
  pub tests : List TestItem
  pub hooks : List HookItem
  pub testing_guard_else_lines : List ℕ
  pub errors : List Text

pub record DiscoveredFile : Type 0 where
  pub parsed : ParsedFile
  pub import_candidates : List (List PathBuf)
  pub dynamic_imports : Bool

-- The derived `Default`s.
abbrev pub default_parsed_file : ParsedFile
default_parsed_file = record { tests = []; hooks = []; testing_guard_else_lines = []; errors = [] }

abbrev pub default_discovered_file : DiscoveredFile
default_discovered_file = record {
  parsed = default_parsed_file;
  import_candidates = [];
  dynamic_imports = false;
}

-- A `SystemTime`, by its distance from the epoch in nanoseconds: `duration_since` fails on a time
-- before the epoch and its error holds the distance.
pub data SystemTime : Type 0 where
  after_epoch before_epoch : ℕ → SystemTime

-- An `fs::Metadata`; `modified` fails where the platform has no such time.
pub record Metadata : Type 0 where
  pub modified : Option SystemTime
  pub len : ℕ

-- An `i128` as a sign and a distance from 0.
pub data ℤ : Type 0 where
  pos : ℕ → ℤ
  -- `negsuc n` is `-(n + 1)`.
  negsuc : ℕ → ℤ

abbrev i128_max : ℕ
i128_max = 2 ^ 127 - 1

abbrev negate : ℕ → ℤ
negate zero = pos zero
negate (suc n) = negsuc n

abbrev mtime_nanos_of : SystemTime → ℤ
mtime_nanos_of (after_epoch n) = pos (min n i128_max)
mtime_nanos_of (before_epoch n) = negate (min n i128_max)

pub record FileKey : Type 0 where
  pub mtime_nanos : ℤ
  pub size : ℕ

abbrev key_at : ℕ → Option SystemTime → Option FileKey
key_at size none = none
key_at size (some t) = some (record { mtime_nanos = mtime_nanos_of t; size = size })

-- `FileKey::from_metadata`.
unfoldable pub from_metadata : Metadata → Option FileKey
from_metadata m = key_at m.len m.modified

-- The file system as one run of an operation reads it: the outcome of each call, `none` for an
-- error. `walk` is what an `ignore::WalkBuilder` on a directory yields without its errors, each
-- entry with whether it is a file, and `excluded` the matcher that the project's exclusions make.
pub record Disk : Type 0 where
  pub walk : PathBuf → List (PathBuf × Bool)
  pub excluded : PathBuf → Bool
  pub ignored : PathBuf → Bool
  pub metadata : PathBuf → Option Metadata
  pub read_to_string : PathBuf → Option Text
  pub exists : PathBuf → Bool
  pub canonicalize : PathBuf → Option PathBuf

-- `fs::metadata(path)` and `FileKey::from_metadata`, each of which may fail.
unfoldable pub from_path : Disk → PathBuf → Option FileKey
unfolding from_metadata
from_path disk p = elim (disk.metadata p) [ some m ↦ from_metadata m | none ↦ none ]

-- `fs::read_to_string(path).unwrap_or_default()`
unfoldable pub text_at : Disk → PathBuf → Text
text_at disk p = unwrap_or (disk.read_to_string p) []

abbrev file_entries : List (PathBuf × Bool) → List PathBuf
file_entries [] = []
file_entries ((p, true) ∷ es) = p ∷ file_entries es
file_entries ((p, false) ∷ es) = file_entries es

unfoldable pub collect_python_files : Disk → PathBuf → List PathBuf
unfolding is_python
collect_python_files disk root =
    filter (λ p. not (disk.excluded p)) (filter is_python (file_entries (disk.walk root)))

-- `Vec::dedup`: of equal neighbours the first stays.
unfoldable pub dedup_from : PathBuf → List PathBuf → List PathBuf
dedup_from p [] = p ∷ []
dedup_from p (q ∷ qs) = if p == q then dedup_from p qs else p ∷ dedup_from q qs

unfoldable pub dedup : List PathBuf → List PathBuf
unfolding dedup_from
dedup [] = []
dedup (p ∷ ps) = dedup_from p ps

unfoldable pub collect_python_files_restricted : Disk → List PathBuf → List PathBuf
unfolding collect_python_files path_le dedup
collect_python_files_restricted disk walk_roots =
    dedup (sort_by path_le (concat (map (collect_python_files disk) walk_roots)))
