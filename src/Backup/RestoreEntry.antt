-- ===== src/Backup/RestoreEntry.antt =====
-- pkg/backup/restore.go: `RestoreDirEntry`, through the cache of chunks. The paths that it makes are
-- left out; whether each call of the file system succeeds is given.
use tless.Prelude.{ℕ, suc, Str, codes, Bool, List, [], ◌∷◌, ◌++◌, if◌then◌else◌}
use tless.Cryptography.{Outcome, done, failed, crash, Primitives}
use tless.Objstore.{Minio, Cloud}
use tless.Snapshots.{ChunkExtent}
use tless.Backup.Nonce.{is_nonce_one_more_than_prev}
use tless.Backup.Entry.{DirEntMetadata}
use tless.Backup.Serde.{Gob, deserialize_metadata_struct}
use tless.Backup.ChunkCache.{ChunkCache, Disk}
use tless.Backup.ChunkCache.Fetch.{fetch_extent_into_buffer}

-- Whether the calls that make, fill and adorn what is restored succeed.
pub record Target : Type 0 where
  pub makes_path : Bool
  pub creates : Bool
  pub changes_mode : Bool
  pub writes : Bool
  pub sets_xattrs : Bool
  pub changes_owner : Bool

-- What a restore made: a link to its origin, a directory whose mode is set at the end, or a file
-- with its contents and the number of times that the order of the nonces was found violated.
pub data Restored : Type 0 where
  symlink_to : Str → Restored
  directory_with : ℕ → Restored
  file_with : DirEntMetadata → Str → ℕ → Restored

-- The state of a restore, and what a part of it returns.
abbrev pub Restore : Minio → Type 0 → Type 0
Restore M A = ChunkCache × Cloud M → Outcome A × (ChunkCache × Cloud M)

module _ {M : Minio} (P : Primitives) (key : Str) (max_size : ℕ) where
  -- A chunk after the first: its bytes are written, and its nonce is the next one to compare with.
  abbrev pub after_fetch :
      (Str → Str → ℕ → Restore M (Str × ℕ))
      → Bool
      → Str
      → Str
      → ℕ
      → Outcome (Str × Str) × (ChunkCache × Cloud M)
      → Outcome (Str × ℕ) × (ChunkCache × Cloud M)
  after_fetch next writes prev_nonce written violations (done (plaintext, nonce), s) =
      if writes
      then next nonce (written ++ plaintext)
          (if is_nonce_one_more_than_prev nonce prev_nonce then violations else suc violations) s
      else (crash, s)
  after_fetch next writes prev_nonce written violations (failed, s) = (crash, s)
  after_fetch next writes prev_nonce written violations (crash, s) = (crash, s)

  -- The loop over the chunks after the first, the `i`-th of which finds the disk as given.
  unfoldable pub restore_rest :
      (ℕ → Disk) → Bool → ℕ → List ChunkExtent → Str → Str → ℕ → Restore M (Str × ℕ)
  unfolding fetch_extent_into_buffer is_nonce_one_more_than_prev
  restore_rest disks writes i [] prev_nonce written violations s = (done (written, violations), s)
  restore_rest disks writes i (extent ∷ extents) prev_nonce written violations s =
      after_fetch (restore_rest disks writes (suc i) extents) writes prev_nonce written violations (
        fetch_extent_into_buffer P key max_size (disks i) (codes "chunks/" ++ extent.chunk_name)
          extent.offset extent.len s)

module _ {M : Minio} where
  -- The last calls on a file.
  abbrev pub finish_file :
      Target
      → DirEntMetadata
      → Outcome (Str × ℕ) × (ChunkCache × Cloud M)
      → Outcome Restored × (ChunkCache × Cloud M)
  finish_file target metadata (done (written, violations), s) =
      if target.sets_xattrs
      then (if target.changes_owner
          then (done (file_with metadata written violations), s)
          else (failed, s))
      else (failed, s)
  finish_file target metadata (failed, s) = (failed, s)
  finish_file target metadata (crash, s) = (crash, s)

module _ {M : Minio} (P : Primitives) (G : Gob) (key : Str) (max_size : ℕ) (target : Target)
    (disks : ℕ → Disk) where
  -- A file, of which the first chunk has the contents given.
  unfoldable pub restore_file : DirEntMetadata → Str → List ChunkExtent → Str → Restore M Restored
  unfolding restore_rest
  restore_file metadata contents extents nonce s =
      if target.creates
      then (if target.changes_mode
          then (if target.writes
              then finish_file target metadata
                  (restore_rest P key max_size disks target.writes 1 extents nonce contents 0 s)
              else (crash, s))
          else (crash, s))
      else (crash, s)

  unfoldable pub restore_as : DirEntMetadata → Str → List ChunkExtent → Str → Restore M Restored
  unfolding restore_file
  restore_as metadata contents extents nonce s =
      if target.makes_path
      then (if metadata.is_symlink
          then (done (symlink_to metadata.symlink_origin), s)
          else if metadata.is_dir
          then (if target.sets_xattrs
              then (done (directory_with metadata.mode), s)
              else (failed, s))
          else restore_file metadata contents extents nonce s)
      else (failed, s)

  abbrev pub after_metadata :
      List ChunkExtent
      → Str
      → ChunkCache × Cloud M
      → Outcome (DirEntMetadata × Str)
      → Outcome Restored × (ChunkCache × Cloud M)
  after_metadata extents nonce s (done (metadata, contents)) =
      restore_as metadata contents extents nonce s
  after_metadata extents nonce s failed = (failed, s)
  after_metadata extents nonce s crash = (crash, s)

  -- A failed fetch ends the program.
  abbrev pub after_first :
      List ChunkExtent
      → Outcome (Str × Str) × (ChunkCache × Cloud M)
      → Outcome Restored × (ChunkCache × Cloud M)
  after_first extents (done (plaintext, nonce), s) =
      after_metadata extents nonce s (deserialize_metadata_struct G plaintext)
  after_first extents (failed, s) = (crash, s)
  after_first extents (crash, s) = (crash, s)

  -- An entry without extents is an error.
  unfoldable pub restore_dir_entry : List ChunkExtent → Restore M Restored
  unfolding restore_as deserialize_metadata_struct fetch_extent_into_buffer
  restore_dir_entry [] s = (failed, s)
  restore_dir_entry (extent ∷ extents) s = after_first extents (
      fetch_extent_into_buffer P key max_size (disks 0) (codes "chunks/" ++ extent.chunk_name)
        extent.offset extent.len s)
