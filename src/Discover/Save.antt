-- ===== src/Discover/Save.antt =====
-- crates/tryke_discovery/src/filesystem/cache.rs: the cache file, read when a cache is made and
-- written to a temporary file that is then renamed. The encoding, of the crate `rmp_serde`, is a
-- parameter.
use tryke.Prelude.{
  ℕ, Bool, true, false, List, [], ◌∷◌, Option, none, some, codes, ◌==◌, nat_eq, list_eq,
  if◌then◌else◌, is_some,
}
use tryke.Prelude.Dict.{Dict, get, insert, remove}
use tryke.Paths.{component_eq, normal}
use tryke.Paths.Operations.{PathBuf, join, parent, with_extension}
use tryke.Discover.Cache.{
  CacheEntry, CacheFile, DiskCache, GitignoreConfig, cache_version, cache_file_name,
}

abbrev pub Bytes : Type 0
Bytes = List ℕ

-- The contents of the files.
abbrev pub Files : Type 0
Files = Dict PathBuf Bytes

-- Which calls succeed, and what a write that fails leaves in its file.
pub record Calls : Type 0 where
  pub create_dir_all : PathBuf → Bool
  pub write : PathBuf → Bool
  pub rename : PathBuf → PathBuf → Bool
  pub torn : PathBuf → Option Bytes

abbrev pub left : PathBuf → Option Bytes → Files → Files
left p none files = files
left p (some part) files = insert p part files

-- `fs::write`.
abbrev pub written : Calls → PathBuf → Bytes → Files → Files
written calls p bytes files =
    if calls.write p then insert p bytes files else left p (calls.torn p) files

-- The best-effort `.gitignore`.
unfoldable pub ensure_gitignore : Calls → Option GitignoreConfig → Files → Files
unfolding get insert join
ensure_gitignore calls none files = files
ensure_gitignore calls (some config) files =
    let gitignore = join config.dir (normal (codes ".gitignore") ∷ []) in
    if is_some (get gitignore files) then files else written calls gitignore config.contents files

abbrev pub is_created : Calls → Option PathBuf → Bool
is_created calls none = true
is_created calls (some dir) = calls.create_dir_all dir

-- The temporary file and the rename.
abbrev pub replaced : Calls → PathBuf → PathBuf → Option Bytes → Files → Files × Bool
replaced calls tmp_path p none files = (files, false)
replaced calls tmp_path p (some bytes) files =
    if calls.write tmp_path
    then (if calls.rename tmp_path p
        then (insert p bytes (remove tmp_path (insert tmp_path bytes files)), true)
        else (insert tmp_path bytes files, false))
    else (left tmp_path (calls.torn tmp_path) files, false)

abbrev pub cache_file : DiskCache → CacheFile
cache_file c = record { version = cache_version; entries = c.entries }

module _ (encode : CacheFile → Option Bytes) where
  abbrev pub save_to : Calls → DiskCache → Option PathBuf → Files → Files × Bool
  save_to calls c none files = (files, true)
  save_to calls c (some p) files =
      if is_created calls (parent p)
      then replaced calls (with_extension (codes "tmp") p) p (encode (cache_file c))
          (ensure_gitignore calls c.gitignore files)
      else (files, false)

  -- The files afterwards, and whether it returned `Ok`.
  unfoldable pub save : Calls → DiskCache → Files → Files × Bool
  unfolding parent with_extension ensure_gitignore get insert remove
  save calls c files = save_to calls c c.path files

abbrev pub cache_path : PathBuf → PathBuf
cache_path dir = join dir (normal cache_file_name ∷ [])

module _ (decode : Bytes → Option CacheFile) where
  abbrev entries_of : Option CacheFile → Option (Dict PathBuf CacheEntry)
  entries_of none = none
  entries_of (some file) = some (if file.version == cache_version then file.entries else [])

  -- From what `fs::read` returns.
  unfoldable pub try_load : Option Bytes → Option (Dict PathBuf CacheEntry)
  try_load none = none
  try_load (some bytes) = entries_of (decode bytes)

  unfoldable pub load_with_gitignore : Files → PathBuf → Option GitignoreConfig → DiskCache
  unfolding get try_load
  load_with_gitignore files p gitignore = record {
    entries = elim (try_load (get p files)) [ some entries ↦ entries | none ↦ [] ];
    path = some p;
    gitignore = gitignore;
  }

  unfoldable pub load_in_state_dir : Files → PathBuf → DiskCache
  unfolding join load_with_gitignore
  load_in_state_dir files state_dir =
      load_with_gitignore files (cache_path (join state_dir (normal (codes "cache") ∷ [])))
        (some (record { dir = state_dir; contents = codes "# created by tryke\n*\n" }))

  unfoldable pub load_in_dir : Files → PathBuf → DiskCache
  unfolding join load_with_gitignore
  load_in_dir files cache_dir = load_with_gitignore files (cache_path cache_dir) (
      some (record {
        dir = cache_dir;
        contents = codes "# created by tryke\n/.gitignore\n/discovery-v1.bin\n/discovery-v1.tmp\n";
      }))
