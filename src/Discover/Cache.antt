-- ===== src/Discover/Cache.antt =====
-- crates/tryke_discovery/src/filesystem/cache.rs: the results of earlier parses by path, each with
-- the modification time and size that the file had, and the file that keeps them between runs.
use tryke.Prelude.{
  ℕ, ◌≡◌, ◌↔◌, Bool, true, false, ◌&&◌, List, [], ◌∷◌, Option, none, some, Text, codes, contains,
  Eq, ◌==◌, nat_eq, list_eq, if◌then◌else◌, arith,
}
use tryke.Prelude.Dict.{Dict, get, insert, remove, get-insert, get-remove}
use tryke.Paths.{component_eq}
use tryke.Paths.Operations.{PathBuf, path_eq}
use tryke.Discover.Files.{FileKey, ℤ, pos, negsuc, DiscoveredFile}

abbrev int_beq : ℤ → ℤ → Bool
int_beq (pos a) (pos b) = a == b
int_beq (negsuc a) (negsuc b) = a == b
int_beq _ _ = false

pub int_beq_iff : (a b : ℤ) → (int_beq a b ≡ true) ↔ (a ≡ b)
int_beq_iff (pos a) (pos b) = ground (arith, nat_eq.beq_iff a b)
int_beq_iff (pos a) (negsuc b) = ground arith
int_beq_iff (negsuc a) (pos b) = ground arith
int_beq_iff (negsuc a) (negsuc b) = ground (arith, nat_eq.beq_iff a b)

abbrev key_beq : FileKey → FileKey → Bool
key_beq j k = int_beq j.mtime_nanos k.mtime_nanos && j.size == k.size

pub key_beq_iff : (j k : FileKey) → (key_beq j k ≡ true) ↔ (j ≡ k)
key_beq_iff j k =
    ground (arith, int_beq_iff j.mtime_nanos k.mtime_nanos, nat_eq.beq_iff j.size k.size)

instance abbrev pub key_eq : Eq FileKey
key_eq = record { beq = key_beq; beq_iff = key_beq_iff }

abbrev pub cache_version : ℕ
cache_version = 3

abbrev pub cache_file_name : Text
cache_file_name = codes "discovery-v1.bin"

pub record CacheEntry : Type 0 where
  pub key : FileKey
  pub result : DiscoveredFile

pub record CacheFile : Type 0 where
  pub version : ℕ
  pub entries : Dict PathBuf CacheEntry

pub record GitignoreConfig : Type 0 where
  pub dir : PathBuf
  pub contents : Text

pub record DiskCache : Type 0 where
  pub entries : Dict PathBuf CacheEntry
  pub path : Option PathBuf
  pub gitignore : Option GitignoreConfig

abbrev entry_data : FileKey → Option CacheEntry → Option DiscoveredFile
entry_data current_key none = none
entry_data current_key (some e) = if e.key == current_key then some e.result else none

unfoldable pub get_cached : DiskCache → PathBuf → FileKey → Option DiscoveredFile
unfolding get
get_cached c p current_key = entry_data current_key (get p c.entries)

unfoldable pub insert_cached : DiskCache → PathBuf → FileKey → DiscoveredFile → DiskCache
unfolding insert
insert_cached c p key result = record c {
  entries = insert p (record { key = key; result = result }) c.entries;
}

unfoldable pub remove_cached : DiskCache → PathBuf → DiskCache
unfolding remove
remove_cached c p = record c { entries = remove p c.entries }

-- `HashMap::retain` by the keys.
unfoldable pub retain_keys : List PathBuf → Dict PathBuf CacheEntry → Dict PathBuf CacheEntry
unfolding contains
retain_keys keep [] = []
retain_keys keep ((p, e) ∷ m) =
    if contains keep p then (p, e) ∷ retain_keys keep m else retain_keys keep m

unfoldable pub retain : DiskCache → List PathBuf → DiskCache
unfolding retain_keys
retain c keep = record c { entries = retain_keys keep c.entries }

get-retain_keys :
    (keep : List PathBuf) (m : Dict PathBuf CacheEntry) (p : PathBuf)
    → get p (retain_keys keep m) ≡ (if contains keep p then get p m else none)
unfolding retain_keys get
get-retain_keys keep [] p = ground arith
get-retain_keys keep ((q, e) ∷ m) p = ground (arith, path_eq.beq_iff q p, get-retain_keys keep m p)

-- What a lookup finds after each of the operations.
pub get_cached-insert_cached :
    (c : DiskCache) (p : PathBuf) (k : FileKey) (r : DiscoveredFile) (q : PathBuf) (j : FileKey)
    → get_cached (insert_cached c p k r) q j
      ≡ (if p == q then (if k == j then some r else none) else get_cached c q j)
unfolding get_cached insert_cached
get_cached-insert_cached c p k r q j =
    ground (arith, get-insert p q (record { key = k; result = r }) c.entries)

pub get_cached-remove_cached :
    (c : DiskCache) (p q : PathBuf) (j : FileKey)
    → get_cached (remove_cached c p) q j ≡ (if p == q then none else get_cached c q j)
unfolding get_cached remove_cached
get_cached-remove_cached c p q j = ground (arith, get-remove p q c.entries)

pub get_cached-retain :
    (c : DiskCache) (keep : List PathBuf) (q : PathBuf) (j : FileKey)
    → get_cached (retain c keep) q j ≡ (if contains keep q then get_cached c q j else none)
unfolding get_cached retain
get_cached-retain c keep q j = ground (arith, get-retain_keys keep c.entries q)
