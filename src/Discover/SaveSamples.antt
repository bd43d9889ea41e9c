-- ===== src/Discover/SaveSamples.antt =====
-- A cache without entries, saved where every call succeeds but the rename.
use tryke.Prelude.{
  ℕ, ◌≡◌, true, false, [], ◌∷◌, Option, none, some, codes, nat_eq, list_eq, if◌then◌else◌, arith,
}
use tryke.Prelude.Dict.{get, Dict}
use tryke.Paths.{component_eq}
use tryke.Paths.Operations.{PathBuf, path}
use tryke.Discover.Cache.{CacheEntry, CacheFile, DiskCache}
use tryke.Discover.Save.{Bytes, Calls, save, try_load, load_in_dir, cache_path}
use tryke.Discover.Saved.{save-try_load, load_in_dir-IsLocated}

abbrev cache_dir : PathBuf
cache_dir = path (codes "/p")

-- An encoding of the caches without entries.
abbrev encode_parts : ℕ → Dict PathBuf CacheEntry → Option Bytes
encode_parts v [] = some (v ∷ [])
encode_parts v (e ∷ es) = none

abbrev encode_sample : CacheFile → Option Bytes
encode_sample file = encode_parts file.version file.entries

abbrev decode_sample : Bytes → Option CacheFile
decode_sample (v ∷ []) = some (record { version = v; entries = [] })
decode_sample _ = none

decode_encode_parts :
    (v : ℕ) (es : Dict PathBuf CacheEntry) (bytes : Bytes)
    → encode_parts v es ≡ some bytes
    → decode_sample bytes ≡ some (record { version = v; entries = es })
decode_encode_parts v [] bytes h = ground (arith, h)
decode_encode_parts v (e ∷ es) bytes h = absurd (ground (arith, h))

-- All calls succeed but the rename.
abbrev calls : Calls
calls = record {
  create_dir_all = λ p. true;
  write = λ p. true;
  rename = λ p q. false;
  torn = λ p. none;
}

abbrev empty_cache : DiskCache
empty_cache = load_in_dir decode_sample [] cache_dir

save-try_load_example :
    try_load decode_sample (get (cache_path cache_dir) (save encode_sample calls empty_cache []).0)
    ≡ (if (save encode_sample calls empty_cache []).1
        then some empty_cache.entries
        else try_load decode_sample (get (cache_path cache_dir) []))
save-try_load_example =
    save-try_load encode_sample decode_sample
      (λ file bytes h. decode_encode_parts file.version file.entries bytes h) calls empty_cache
      (cache_path cache_dir) [] (load_in_dir-IsLocated encode_sample decode_sample [] cache_dir)
