-- ===== src/Backup/ChunkCache/Fetch.antt =====
-- pkg/backup/chunk_cache.go: `FetchExtentIntoBuffer`.
use tless.Prelude.{
  ℕ, suc, ◌+◌, Str, codes, Bool, false, ◌||◌, Option, none, some, List, [], ◌∷◌, leb, if◌then◌else◌,
  ◌==◌, nat_eq, str_eq, length, take, drop,
}
use tless.Prelude.Dict.{lookup}
use tless.Util.Strings.{trim_prefix}
use tless.Util.{append_if_not_present}
use tless.Cryptography.{Outcome, done, failed, crash, Primitives}
use tless.Objstore.{Minio, Cloud, download_obj_to_buffer}
use tless.Backup.ChunkCache.{CachedChunk, ChunkCache, Disk, save_obj_to_cache, is_obj_cached}

-- The slice panics beyond the end: the buffer of a chunk is taken to have no spare capacity. A chunk that is not in the map has no bytes.
abbrev pub slice_of : ℕ → ℕ → CachedChunk → Outcome (Str × Str)
slice_of offset len cached =
    if leb (offset + len) (length cached.plaintext)
    then done (take len (drop offset cached.plaintext), cached.nonce)
    else crash

abbrev pub cached_or_zero : Option CachedChunk → CachedChunk
cached_or_zero none = record { size = 0; last_used_unix_time = 0; plaintext = []; nonce = [] }
cached_or_zero (some cached) = cached

abbrev pub count_fetch : ChunkCache → ChunkCache
count_fetch cc = record {
  chunks = cc.chunks;
  stats = record cc.stats { total = suc cc.stats.total };
}

abbrev pub count_hit : ChunkCache → ChunkCache
count_hit cc = record { chunks = cc.chunks; stats = record cc.stats { hits = suc cc.stats.hits } }

unfoldable pub is_previously_evicted : List Str → Str → Bool
unfolding str_eq
is_previously_evicted [] chunk_name = false
is_previously_evicted (el ∷ evicted_chunks) chunk_name =
    el == chunk_name || is_previously_evicted evicted_chunks chunk_name

unfoldable pub count_download : Str → ℕ → ChunkCache → ChunkCache
unfolding append_if_not_present is_previously_evicted
count_download object_name n cc = record {
  chunks = cc.chunks;
  stats =
      if is_previously_evicted cc.stats.evicted_chunks object_name
      then record cc.stats {
        total_chunk_downloads = suc cc.stats.total_chunk_downloads;
        redownloaded_chunks = append_if_not_present cc.stats.redownloaded_chunks object_name;
        redownloaded_chunks_bytes = cc.stats.redownloaded_chunks_bytes + n;
      }
      else record cc.stats { total_chunk_downloads = suc cc.stats.total_chunk_downloads };
}

-- `failed` is an error of the download, or a loop of evictions without end.
abbrev pub Fetch : Minio → Type 0
Fetch M = ChunkCache × Cloud M → Outcome (Str × Str) × (ChunkCache × Cloud M)

module _ {M : Minio} where
  -- The slice of the chunk that the cache now has.
  abbrev pub extract :
      Str
      → ℕ
      → ℕ
      → Cloud M
      → ChunkCache
      → Outcome ChunkCache
      → Outcome (Str × Str) × (ChunkCache × Cloud M)
  extract chunk_name offset len c cc failed = (failed, (cc, c))
  extract chunk_name offset len c cc crash = (crash, (cc, c))
  extract chunk_name offset len c cc (done cc') =
      (slice_of offset len (cached_or_zero (lookup chunk_name cc'.chunks)), (cc', c))

module _ {M : Minio} (P : Primitives) (key : Str) (max_size : ℕ) (disk : Disk) where
  abbrev pub after_download :
      Str → ℕ → ℕ → ChunkCache → Option Str × Cloud M → Outcome (Str × Str) × (ChunkCache × Cloud M)
  after_download object_name offset len cc (none, c) = (failed, (cc, c))
  after_download object_name offset len cc (some ciphertext, c) =
      let cc' = count_download object_name (length ciphertext) cc in
      let chunk_name = trim_prefix object_name (codes "chunks/") in
      extract chunk_name offset len c cc'
        (save_obj_to_cache P key max_size chunk_name ciphertext disk cc')

  -- The extent and the nonce of its chunk.
  unfoldable pub fetch_extent_into_buffer : Str → ℕ → ℕ → Fetch M
  unfolding save_obj_to_cache is_obj_cached count_download download_obj_to_buffer lookup trim_prefix
      str_eq
  fetch_extent_into_buffer object_name offset len (cc, c) =
      let chunk_name = trim_prefix object_name (codes "chunks/") in
      let cc' = count_fetch cc in
      if is_obj_cached chunk_name cc'
      then extract chunk_name offset len c cc' (done (count_hit cc'))
      else after_download object_name offset len cc' (download_obj_to_buffer M object_name c)
