-- ===== src/Tests/Cache.antt =====
-- The cache of chunks, and a file of two chunks that is backed up and restored.
use tless.Backup.RestoreEntry.{file_with, restore_dir_entry}
use tless.Snapshots.{ChunkExtent}
use mathlib.Core.Path.{subst}
use tless.Prelude.{
  ℕ, Str, codes, ◌≡◌, refl, true, none, some, [], ◌∷◌, ◌++◌, arith, replicate, str_eq, nat_eq, All,
  Bool-cases, ◌==◌, List, length, ◌≤◌, sym, ◌∙◌, ap, inl, inr,
}
use tless.Prelude.Dict.{lookup, insert}
use tless.Cryptography.{done, decrypt_buffer_returning_nonce}
use tless.Objstore.{Cloud}
use tless.Backup.Entry.{little_endian, serialize_metadata_struct, back_up_large}
use tless.Backup.Serde.{deserialize_metadata_struct, deserialize-serialize}
use tless.Backup.ChunkCache.{CachedChunk, ChunkCache, Disk, make_room, no_statistics}
use tless.Backup.ChunkCache.Fetch.{fetch_extent_into_buffer}
use tless.Backup.ChunkCache.Room.{IsRoom, make_room_lem, oversized_never_fits}
use tless.Backup.ChunkCache.Transparent.{chunk_object, IsTrue, IsFetched, fetch_lem}
use tless.Backup.Large.RoundTrip.{empty_cache, all_well, join, restore-back_up_large}
use tless.Tests.Data.{hashes, plain, key, nonce, plain-IsLawful, key-aes}
use tless.Tests.Reliable.{
  steady, steady-IsLawful, metadata, os, gob, gob-Decodes, encode-short, draws-trimmed,
  steady-objects, steady-IsReliable, chunks_read, draws, draws-apart,
}

abbrev old : CachedChunk
old = record { size = 6; last_used_unix_time = 100; plaintext = codes "old"; nonce = nonce }

abbrev cached : ChunkCache
cached = record { chunks = (codes "x", old) ∷ []; stats = no_statistics }

-- The one chunk goes.
make_room_run :
    make_room 2 10 200 5 cached
    ≡ some
        (record { chunks = []; stats = record no_statistics { evicted_chunks = codes "x" ∷ [] } })
unfolding make_room str_eq nat_eq
make_room_run = refl

make_room_example : IsRoom 10 200 5 cached (make_room 2 10 200 5 cached)
make_room_example = make_room_lem 2 10 200 5 cached (omega arith, tt) (omega arith) (omega arith)

oversized_example : make_room 7 10 200 11 cached ≡ none
oversized_example = oversized_never_fits 7 10 200 11 cached (omega arith)

abbrev ciphertext : Str
ciphertext = nonce ++ (replicate 16 0 ++ codes "hello")

abbrev cloud : Cloud (steady hashes)
cloud = record {
  server = (codes "chunks/aa", ciphertext) ∷ [];
  upload_bytes = 0;
  download_bytes = 0;
}

stored : (steady-IsLawful hashes).objects cloud.server (chunk_object (codes "aa")) ≡ some ciphertext
unfolding lookup str_eq nat_eq
stored = steady-objects hashes cloud.server (chunk_object (codes "aa"))

opened : decrypt_buffer_returning_nonce plain key ciphertext ≡ done (codes "hello", nonce)
unfolding nat_eq decrypt_buffer_returning_nonce
opened = refl

empty-IsTrue : IsTrue (steady-IsLawful hashes) plain key empty_cache cloud.server
unfolding lookup
empty-IsTrue k v e = absurd (cc e)

abbrev disk : ℕ → Disk
disk i = record { now = i; is_writable = true }

fetch_example :
    IsFetched
      (steady-IsLawful hashes)
      plain
      key
      (disk 1).now
      (codes "aa")
      1
      3
      (codes "hello")
      nonce
      cloud
      (fetch_extent_into_buffer plain key 100
        (disk 1)
        (chunk_object (codes "aa"))
        1
        3
        (empty_cache, cloud))
fetch_example =
    fetch_lem (steady-IsLawful hashes) plain key 100 (disk 1) refl (codes "aa") 1 3 (codes "hello")
      nonce (omega arith) empty_cache cloud (draws-trimmed 2) (ciphertext, stored, opened)
      (omega arith) empty-IsTrue tt

deserialize-serialize_example :
    deserialize_metadata_struct gob
      ((little_endian 8 4 ++ (0 ∷ 0 ∷ 100 ∷ 420 ∷ [])) ++ codes "hello")
    ≡ done (metadata, codes "hello")
unfolding serialize_metadata_struct
deserialize-serialize_example =
    deserialize-serialize gob os metadata (little_endian 8 4 ++ (0 ∷ 0 ∷ 100 ∷ 420 ∷ []))
      (codes "hello") gob-Decodes (encode-short metadata) refl

abbrev empty_cloud : Cloud (steady hashes)
empty_cloud = record { server = []; upload_bytes = 0; download_bytes = 0 }

abbrev header : Str
header = little_endian 8 4 ++ (0 ∷ 0 ∷ 100 ∷ 420 ∷ [])

header_run : serialize_metadata_struct os metadata ≡ some header
unfolding serialize_metadata_struct
header_run = refl

abbrev second_nonce : Str
second_nonce = replicate 11 5 ++ (6 ∷ [])

abbrev two_objects : List (Str × Str)
two_objects =
    (codes "chunks/", nonce ++ (replicate 16 0 ++ (header ++ codes "ab")))
    ∷ (codes "chunks/a", second_nonce ++ (replicate 16 0 ++ codes "cd"))
    ∷ []

two_stored :
    (back_up_large plain hashes key draws os (codes "/f") header empty_cloud).1.server ≡ two_objects
unfolding back_up_large str_eq nat_eq insert
two_stored = refl

lookup-All :
    (P : Str → Type 0) (m : List (Str × Str)) (k v : Str)
    → All (λ e. P e.1) m
    → lookup k m ≡ some v
    → P v
unfolding lookup
lookup-All P [] k v a e = absurd (cc e)
lookup-All P ((j, w) ∷ m) k v a e = elim (Bool-cases (j == k)) [
  | inl p ↦
      let one : some w ≡ some v = sym (rw p refl) ∙ e in
      let same : w ≡ v = cc one in subst P same a.0
  | inr p ↦ lookup-All P m k v a.1 (sym (rw p refl) ∙ e)
]

all_small :
    (name b : Str)
    → (steady-IsLawful hashes).objects
        (back_up_large plain hashes key draws os (codes "/f") header empty_cloud).1.server
        name
      ≡ some b
    → length b ≤ 1000
all_small name b e =
    lookup-All (λ s. length s ≤ 1000) two_objects name b (omega arith, (omega arith, tt))
      (ap (lookup name) (sym two_stored) ∙ sym (steady-objects hashes _ name) ∙ e)

restore-back_up_large_example :
    let r = back_up_large plain hashes key draws os (codes "/f") header empty_cloud in
    (extents : List ChunkExtent) × (r.0 ≡ done extents)
    × ((restore_dir_entry plain gob key 1000 all_well disk extents (empty_cache, r.1)).0
        ≡ done (file_with metadata (join chunks_read) 0))
restore-back_up_large_example =
    restore-back_up_large (steady-IsLawful hashes) plain hashes key os draws (codes "/f") header
      nonce (codes "ab") (codes "cd" ∷ []) gob metadata 1000 disk empty_cloud plain-IsLawful
      (steady-IsReliable hashes) key-aes refl refl (omega arith) (omega arith) draws-apart
      draws-trimmed refl (λ i. refl) (λ i. omega arith) all_small refl refl gob-Decodes
      (encode-short metadata) header_run
