-- ===== src/Backup/ChunkCache/Load.antt =====
-- pkg/backup/chunk_cache.go: `NewChunkCache` and its walk over the directory of the cache.
use tless.Prelude.{
  ℕ, Str, not, ◌&&◌, Option, none, some, List, [], ◌∷◌, ltb, if◌then◌else◌, ◌==◌, nat_eq, str_eq,
}
use tless.Prelude.Dict.{Dict, insert}
use tless.Cryptography.{
  Outcome, done, failed, crash, Primitives, decrypt_buffer_returning_nonce, ◌>>=◌,
}
use tless.Backup.ChunkCache.{CachedChunk, ChunkCache, cached_at, no_statistics}

-- An entry of the cache's directory: one that the walk cannot read, or whose information it cannot
-- get, or a file with its base name, its size and what `readEntireFile` gives.
pub data DirEntry : Type 0 where
  skipped : DirEntry
  no_info : DirEntry
  file : Str → ℕ → Option Str → DirEntry

module _ (P : Primitives) (key dir_name : Str) (now : ℕ) where
  -- What is decrypted is cached, what is not is removed from the disk.
  abbrev load_file : Str → ℕ → Dict Str CachedChunk → Option Str → Outcome (Dict Str CachedChunk)
  load_file name size chunks none = failed
  load_file name size chunks (some ciphertext) =
      elim (decrypt_buffer_returning_nonce P key ciphertext) [
        | done (plaintext, nonce) ↦ done (insert name (cached_at size now plaintext nonce) chunks)
        | failed ↦ done chunks
        | crash ↦ crash
      ]

  -- The walk: an error ends it, with what was loaded before.
  unfoldable pub load_chunks : List DirEntry → Dict Str CachedChunk → Outcome (Dict Str CachedChunk)
  unfolding decrypt_buffer_returning_nonce insert str_eq
  load_chunks [] chunks = done chunks
  load_chunks (skipped ∷ entries) chunks = load_chunks entries chunks
  load_chunks (no_info ∷ entries) chunks = done chunks
  load_chunks (file name size content ∷ entries) chunks =
      if ltb 0 size && (not (name == []) && not (name == dir_name))
      then elim (load_file name size chunks content) [
        | done chunks' ↦ load_chunks entries chunks'
        | failed ↦ done chunks
        | crash ↦ crash
      ]
      else load_chunks entries chunks

  -- Where no directory for the cache can be made, nothing is loaded.
  unfoldable pub new_chunk_cache : Option (List DirEntry) → Outcome ChunkCache
  unfolding load_chunks
  new_chunk_cache none = done (record { chunks = []; stats = no_statistics })
  new_chunk_cache (some entries) = do
    chunks ← load_chunks entries []
    done (record { chunks = chunks; stats = no_statistics })
