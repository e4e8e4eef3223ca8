-- ===== src/Backup/ChunkCache.antt =====
-- pkg/backup/chunk_cache.go: the chunks of a restore, kept decrypted in memory and encrypted on disk.
-- The map is walked in the order of the list that it was made of. Of the disk, what a call reads
-- and whether it can write is given; the counter of memory in use and the log are left out.
pub mod Fetch
pub mod Room
pub mod Transparent
pub mod Load
use tless.Prelude.{
  ℕ, zero, suc, ◌+◌, ◌-◌, ◌*◌, Str, codes, Bool, true, false, not, ◌&&◌, ◌||◌, Option, none, some,
  List, [], ◌∷◌, ◌++◌, ltb, leb, if◌then◌else◌, ◌==◌, nat_eq, str_eq, length, take, drop,
}
use tless.Prelude.Dict.{Dict, lookup, insert, erase}
use tless.Util.Strings.{trim_prefix}
use tless.Util.{append_if_not_present}
use tless.Cryptography.{
  Outcome, done, failed, crash, or_failed, Primitives, decrypt_buffer_returning_nonce,
}
use tless.Objstore.{Minio, Cloud, download_obj_to_buffer}

pub record CachedChunk : Type 0 where
  pub size : ℕ
  pub last_used_unix_time : ℕ
  pub plaintext : Str
  pub nonce : Str

pub record CacheStatistics : Type 0 where
  pub hits : ℕ
  pub total : ℕ
  pub total_chunk_downloads : ℕ
  pub total_chunk_downloads_bytes : ℕ
  pub evicted_chunks : List Str
  pub redownloaded_chunks : List Str
  pub redownloaded_chunks_bytes : ℕ

pub record ChunkCache : Type 0 where
  pub chunks : Dict Str CachedChunk
  pub stats : CacheStatistics

-- 1 GB
abbrev pub default_max_cache_size : ℕ
default_max_cache_size = 1024 * 1024 * 1024

-- `MaxCacheSizeOnDisk`, from the preference in megabytes.
abbrev pub max_cache_size_on_disk : ℕ → ℕ
max_cache_size_on_disk max_chunk_cache_size_mb =
    if ltb 0 max_chunk_cache_size_mb
    then max_chunk_cache_size_mb * 1024 * 1024
    else default_max_cache_size

abbrev pub no_statistics : CacheStatistics
no_statistics = record {
  hits = 0;
  total = 0;
  total_chunk_downloads = 0;
  total_chunk_downloads_bytes = 0;
  evicted_chunks = [];
  redownloaded_chunks = [];
  redownloaded_chunks_bytes = 0;
}

unfoldable pub is_obj_cached : Str → ChunkCache → Bool
unfolding lookup str_eq
is_obj_cached obj_name cc = elim (lookup obj_name cc.chunks) [ none ↦ false | some _ ↦ true ]

unfoldable pub sizes : Dict Str CachedChunk → ℕ
sizes [] = 0
sizes ((name, cached) ∷ chunks) = cached.size + sizes chunks

abbrev pub total_size_on_disk : ChunkCache → ℕ
total_size_on_disk cc = sizes cc.chunks

-- The loop over the map: the name of the chunk used longest ago, before `lru_unix_time`; the empty
-- name is `none` here.
unfoldable pub least_recently_used : Dict Str CachedChunk → ℕ → Option Str → Option Str
least_recently_used [] lru_unix_time lru_obj_name = lru_obj_name
least_recently_used ((name, cached) ∷ chunks) lru_unix_time lru_obj_name =
    if ltb cached.last_used_unix_time lru_unix_time
    then least_recently_used chunks cached.last_used_unix_time (some name)
    else least_recently_used chunks lru_unix_time lru_obj_name

-- At the time `now`. The file is removed too, and an error of that is only logged.
unfoldable pub evict_least_recently_used : ℕ → ChunkCache → ChunkCache
unfolding least_recently_used erase append_if_not_present str_eq
evict_least_recently_used now cc = elim (least_recently_used cc.chunks now none) [
  | none ↦ cc
  | some lru_obj_name ↦ record {
    chunks = erase lru_obj_name cc.chunks;
    stats = record cc.stats {
      evicted_chunks = append_if_not_present cc.stats.evicted_chunks lru_obj_name;
    };
  }
]

-- What a call meets outside: the time, and whether the file of a chunk can be created and written.
pub record Disk : Type 0 where
  pub now : ℕ
  pub is_writable : Bool

-- The loop of evictions for a chunk of `size` bytes; `none` is a loop that has used up its rounds.
unfoldable pub make_room : ℕ → ℕ → ℕ → ℕ → ChunkCache → Option ChunkCache
unfolding evict_least_recently_used sizes
make_room zero max_size now size cc = none
make_room (suc rounds) max_size now size cc =
    let again = make_room rounds max_size now size (evict_least_recently_used now cc) in
    if ltb max_size (total_size_on_disk cc + size) then again else some cc

abbrev pub count_written : ℕ → ChunkCache → ChunkCache
count_written n cc = record {
  chunks = cc.chunks;
  stats = record cc.stats {
    total_chunk_downloads_bytes = cc.stats.total_chunk_downloads_bytes + n;
  };
}

abbrev pub cached_at : ℕ → ℕ → Str → Str → CachedChunk
cached_at size now plaintext nonce = record {
  size = size;
  last_used_unix_time = now;
  plaintext = plaintext;
  nonce = nonce;
}

-- A chunk that cannot be decrypted is not kept.
abbrev pub keep : Str → ℕ → ℕ → ChunkCache → Outcome (Str × Str) → Outcome ChunkCache
keep obj_name now size cc (done (plaintext, nonce)) = done (record {
  chunks = insert obj_name (cached_at size now plaintext nonce) cc.chunks;
  stats = cc.stats;
})
keep obj_name now size cc failed = done cc
keep obj_name now size cc crash = crash

module _ (P : Primitives) (key : Str) (max_size : ℕ) where
  -- What follows the evictions.
  abbrev pub write_out : Str → Str → Disk → Option ChunkCache → Outcome ChunkCache
  write_out obj_name ciphertext disk none = failed
  write_out obj_name ciphertext disk (some cc) =
      if disk.is_writable
      then keep obj_name disk.now (length ciphertext) (count_written (length ciphertext) cc)
          (decrypt_buffer_returning_nonce P key ciphertext)
      else done cc

  -- Each round of the loop that does not end it takes a chunk away, or changes nothing and does so
  -- for ever, so a round more than there are chunks is enough; `failed` is a loop without end.
  unfoldable pub save_obj_to_cache : Str → Str → Disk → ChunkCache → Outcome ChunkCache
  unfolding make_room decrypt_buffer_returning_nonce insert trim_prefix str_eq
  save_obj_to_cache obj_name ciphertext disk cc =
      write_out (trim_prefix obj_name (codes "chunks/")) ciphertext disk
        (make_room (suc (length cc.chunks)) max_size disk.now (length ciphertext) cc)
