-- ===== src/Discover/Saved.antt =====
-- crates/tryke_discovery/src/filesystem/cache.rs: a save replaces the cache file as a whole or
-- leaves it, and what was saved is loaded.
use tryke.Prelude.{
  ◌≡◌, ◌≢◌, refl, sym, ap, ◌∙◌, subst, ◌⊎◌, inl, inr, Bool, true, false, List, [], ◌∷◌, ◌++◌,
  Option, none, some, Text, codes, ==-cases, nat_eq, list_eq, if◌then◌else◌, is_some, Option-cases,
  Bool-cases, arith, split_on,
}
use tryke.Prelude.Dict.{get, insert, remove, get-insert}
use tryke.Paths.{component_eq, normal, root_dir, cur_dir, parent_dir}
use tryke.Paths.Operations.{
  PathBuf, path_eq, join, file_name, rsplit_dot, with_last, with_extension,
}
use tryke.Discover.Cache.{CacheFile, DiskCache, GitignoreConfig, cache_file_name}
use tryke.Discover.Save.{
  Bytes, Files, Calls, left, written, replaced, ensure_gitignore, save, try_load,
  load_with_gitignore, load_in_state_dir, load_in_dir, cache_path, cache_file,
}

-- A path that ends in a name.
abbrev pub in_dir : PathBuf → Text → PathBuf
in_dir dir name = dir ++ normal name ∷ []

join-in_dir : (dir : PathBuf) (name : Text) → join dir (normal name ∷ []) ≡ in_dir dir name
unfolding join
join-in_dir [] name = refl
join-in_dir (c ∷ dir) name = refl

file_name-in_dir : (dir : PathBuf) (name : Text) → file_name (in_dir dir name) ≡ some name
unfolding file_name
file_name-in_dir [] name = refl
file_name-in_dir (normal s ∷ []) name = refl
file_name-in_dir (root_dir ∷ []) name = refl
file_name-in_dir (cur_dir ∷ []) name = refl
file_name-in_dir (parent_dir ∷ []) name = refl
file_name-in_dir (a ∷ c ∷ dir) name = file_name-in_dir (c ∷ dir) name

with_last-in_dir :
    (dir : PathBuf) (name new : Text) → with_last new (in_dir dir name) ≡ in_dir dir new
unfolding with_last
with_last-in_dir [] name new = refl
with_last-in_dir (a ∷ []) name new = refl
with_last-in_dir (a ∷ c ∷ dir) name new = ap (λ p. a ∷ p) (with_last-in_dir (c ∷ dir) name new)

-- Files of one directory with different names are different.
in_dir_distinct :
    (dir dir2 : PathBuf) (a b : Text)
    → (list_eq {A = tryke.Prelude.ℕ}).beq a b ≡ false
    → path_eq.beq (in_dir dir a) (in_dir dir2 b) ≡ false
in_dir_distinct dir dir2 a b ne = elim (==-cases ⦃e = path_eq⦄ (in_dir dir a) (in_dir dir2 b)) [
  | inl eq ↦ ground (
    arith,
    ne,
    file_name-in_dir dir a,
    file_name-in_dir dir2 b,
    ap file_name eq,
    (list_eq {A = tryke.Prelude.ℕ}).beq_iff a b,
  )
  | inr h ↦ h
]

-- The cache file, its `.gitignore` and the temporary file are three files.
pub record IsLocated (c : DiskCache) (p : PathBuf) : Type 0 where
  pub path_is : c.path ≡ some p
  pub tmp_apart : path_eq.beq (with_extension (codes "tmp") p) p ≡ false
  pub gitignore_apart :
      (config : GitignoreConfig)
      → c.gitignore ≡ some config
      → path_eq.beq (join config.dir (normal (codes ".gitignore") ∷ [])) p ≡ false

tmp_path :
    (dir : PathBuf)
    → with_extension (codes "tmp") (in_dir dir cache_file_name)
      ≡ in_dir dir (codes "discovery-v1.tmp")
unfolding with_extension rsplit_dot
tmp_path dir =
    rw (with_extension, file_name-in_dir dir cache_file_name)
      (with_last-in_dir dir cache_file_name (codes "discovery-v1.tmp"))

IsLocated-in_dir :
    (c : DiskCache) (dir dir2 : PathBuf) (contents : Text)
    → c.path ≡ some (cache_path dir)
    → c.gitignore ≡ some (record { dir = dir2; contents = contents })
    → IsLocated c (cache_path dir)
IsLocated-in_dir c dir dir2 contents path_is gitignore_is = record {
  path_is = path_is;
  tmp_apart =
      rw (join-in_dir dir cache_file_name, tmp_path dir)
        (in_dir_distinct dir dir (codes "discovery-v1.tmp") cache_file_name refl);
  gitignore_apart = λ config is. ground (
    arith,
    is,
    gitignore_is,
    join-in_dir dir cache_file_name,
    join-in_dir dir2 (codes ".gitignore"),
    in_dir_distinct dir2 dir (codes ".gitignore") cache_file_name refl,
  );
}

left_apart :
    (q p : PathBuf) (part : Option Bytes) (files : Files)
    → path_eq.beq q p ≡ false
    → get p (left q part files) ≡ get p files
left_apart q p none files ne = refl
left_apart q p (some part) files ne = ground (arith, ne, get-insert q p part files)

written_apart :
    (calls : Calls) (q p : PathBuf) (bytes : Bytes) (files : Files)
    → path_eq.beq q p ≡ false
    → get p (written calls q bytes files) ≡ get p files
written_apart calls q p bytes files ne =
    ground (arith, ne, get-insert q p bytes files, left_apart q p (calls.torn q) files ne)

ensure_gitignore_apart :
    (calls : Calls) (g : Option GitignoreConfig) (p : PathBuf) (files : Files)
    → ((config : GitignoreConfig)
        → g ≡ some config
        → path_eq.beq (join config.dir (normal (codes ".gitignore") ∷ [])) p ≡ false)
    → get p (ensure_gitignore calls g files) ≡ get p files
unfolding ensure_gitignore
ensure_gitignore_apart calls none p files apart = refl
ensure_gitignore_apart calls (some config) p files apart = ground (
  arith,
  written_apart calls (join config.dir (normal (codes ".gitignore") ∷ [])) p config.contents files
      (apart config refl),
)

-- What the cache file holds after the write and the rename.
replaced_file :
    (calls : Calls) (tmp p : PathBuf) (encoded : Option Bytes) (files : Files)
    → path_eq.beq tmp p ≡ false
    → get p (replaced calls tmp p encoded files).0
      ≡ (if (replaced calls tmp p encoded files).1 then encoded else get p files)
replaced_file calls tmp p none files ne = refl
replaced_file calls tmp p (some bytes) files ne = ground (
  arith,
  ne,
  path_eq.beq_iff p p,
  get-insert p p bytes (remove tmp (insert tmp bytes files)),
  get-insert tmp p bytes files,
  left_apart tmp p (calls.torn tmp) files ne,
)

module _ (encode : CacheFile → Option Bytes) (decode : Bytes → Option CacheFile) where
  pub load_in_dir-IsLocated :
      (files : Files) (dir : PathBuf) → IsLocated (load_in_dir decode files dir) (cache_path dir)
  unfolding load_in_dir load_with_gitignore
  load_in_dir-IsLocated files dir =
      IsLocated-in_dir (load_in_dir decode files dir) dir dir _ refl refl

  pub load_in_state_dir-IsLocated :
      (files : Files) (dir : PathBuf)
      → IsLocated
          (load_in_state_dir decode files dir)
          (cache_path (join dir (normal (codes "cache") ∷ [])))
  unfolding load_in_state_dir load_with_gitignore
  load_in_state_dir-IsLocated files dir =
      IsLocated-in_dir (load_in_state_dir decode files dir) _ dir _ refl refl

  save_file :
      (calls : Calls) (c : DiskCache) (p : PathBuf) (files : Files)
      → IsLocated c p
      → get p (save encode calls c files).0
        ≡ (if (save encode calls c files).1 then encode (cache_file c) else get p files)
  unfolding save
  save_file calls c p files l = rw l.path_is (
      ground (
        arith,
        replaced_file calls (with_extension (codes "tmp") p) p (encode (cache_file c))
            (ensure_gitignore calls c.gitignore files) l.tmp_apart,
        ensure_gitignore_apart calls c.gitignore p files l.gitignore_apart,
      ))

  replaced_encoded :
      (calls : Calls) (tmp p : PathBuf) (encoded : Option Bytes) (files : Files)
      → (replaced calls tmp p encoded files).1 ≡ true
      → is_some encoded ≡ true
  replaced_encoded calls tmp p none files h = h
  replaced_encoded calls tmp p (some bytes) files h = refl

  saved_encoded :
      (calls : Calls) (c : DiskCache) (p : PathBuf) (files : Files)
      → IsLocated c p
      → (save encode calls c files).1 ≡ true
      → is_some (encode (cache_file c)) ≡ true
  unfolding save
  saved_encoded calls c p files l h = ground (
    arith,
    h,
    l.path_is,
    replaced_encoded calls (with_extension (codes "tmp") p) p (encode (cache_file c))
        (ensure_gitignore calls c.gitignore files),
  )

  load_encoded :
      ((file : CacheFile) (bytes : Bytes) → encode file ≡ some bytes → decode bytes ≡ some file)
      → (c : DiskCache) → is_some (encode (cache_file c)) ≡ true
      → try_load decode (encode (cache_file c)) ≡ some c.entries
  unfolding try_load
  load_encoded back c h = elim (Option-cases (encode (cache_file c))) [
    | inl e ↦ absurd (ground (arith, h, e))
    | inr (bytes, e) ↦ rw (e, back (cache_file c) bytes e) refl
  ]

  -- A save of a cache whose temporary file and `.gitignore` are files apart from its own either
  -- returns `Ok`, and then a load of the cache file gives the entries that were saved, or it fails,
  -- wherever that happens, and then a load gives what it gave before; the decoder is taken to read
  -- back what the encoder writes.
  pub save-try_load :
      ((file : CacheFile) (bytes : Bytes) → encode file ≡ some bytes → decode bytes ≡ some file)
      → (calls : Calls) (c : DiskCache) (p : PathBuf) (files : Files) → IsLocated c p
      → try_load decode (get p (save encode calls c files).0)
        ≡ (if (save encode calls c files).1 then some c.entries else try_load decode (get p files))
  save-try_load back calls c p files l =
      ground
        (arith, save_file calls c p files l, saved_encoded calls c p files l, load_encoded back c)
