-- ===== src/Backup/ChunkPacker.antt =====
-- pkg/backup/chunk_packer.go: small files share a chunk.
pub mod Extents
pub mod Commit
use tless.Prelude.{
  ℕ, ◌+◌, ◌≤◌, ◌≡◌, Str, codes, Bool, true, false, Option, none, some, List, [], ◌∷◌, ◌++◌, leb,
  ltb, if◌then◌else◌, length,
}
use mathlib.Core.Option
use tless.Database.Journal.{BackupJournalTask}
use tless.Cryptography.{Outcome, done, failed, crash, Primitives, encrypt_buffer}
use tless.Objstore.{
  Hashes, Minio, Cloud, Uploaded, UploadError, compute_etag, upload_obj_from_buffer,
  upload_corrupted, put_failed, out_of_rounds,
}
use tless.Snapshots.{CloudRelPath, ChunkExtent, Json}
use tless.Backup.{chunk_size, World, update_last_backup_time, complete_task}

pub record ChunkPackerItem : Type 0 where
  pub rel_path : Str
  pub offset : ℕ
  pub len : ℕ
  pub bjt : BackupJournalTask

-- `cnt_bytes` is the count in `stats`, if the packer has one.
pub record ChunkPacker : Type 0 where
  pub items : List ChunkPackerItem
  pub plaintext_chunk_buf : Str
  pub pos_in_plaintext_chunk : ℕ
  pub cnt_bytes : Option ℕ

abbrev pub new_chunk_packer : Option ℕ → ChunkPacker
new_chunk_packer stats = record {
  items = [];
  plaintext_chunk_buf = [];
  pos_in_plaintext_chunk = 0;
  cnt_bytes = stats;
}

abbrev pub with_entry : Str → Str → BackupJournalTask → ChunkPacker → ChunkPacker
with_entry rel_path buf bjt cp = record {
  items =
      cp.items
      ++ (record {
        rel_path = rel_path;
        offset = cp.pos_in_plaintext_chunk;
        len = length buf;
        bjt = bjt;
      }
          ∷ []);
  plaintext_chunk_buf = cp.plaintext_chunk_buf ++ buf;
  pos_in_plaintext_chunk = cp.pos_in_plaintext_chunk + length buf;
  cnt_bytes = Option.map (λ n. n + length buf) cp.cnt_bytes;
}

unfoldable pub add_dir_entry : Str → Str → BackupJournalTask → ChunkPacker → Bool × ChunkPacker
add_dir_entry rel_path buf bjt cp =
    if ltb chunk_size (length buf + cp.pos_in_plaintext_chunk)
    then (false, cp)
    else (true, with_entry rel_path buf bjt cp)

-- The entry of the index for an item: one extent of the chunk.
abbrev pub entry_of : Str → ChunkPackerItem → CloudRelPath
entry_of chunk_name item = record {
  rel_path = item.rel_path;
  chunk_extents = record { chunk_name = chunk_name; offset = item.offset; len = item.len } ∷ [];
}

-- What is returned, the packer and the world after `Complete`.
pub record Completed (M : Minio) : Type 0 where
  pub is_journal_complete : Bool
  pub packer : ChunkPacker
  pub world : World M

module _ {M : Minio} where
  -- The loop over the items. The times are those of the clock, one for each item.
  unfoldable pub finalize : Json → ℕ → Str → List ChunkPackerItem → Bool → World M → Bool × World M
  unfolding update_last_backup_time complete_task
  finalize J now chunk_name [] is_journal_complete w = (is_journal_complete, w)
  finalize J now chunk_name (item ∷ items) is_journal_complete w =
      let (complete, w') =
        complete_task J item.bjt (some (entry_of chunk_name item))
          (update_last_backup_time now item.bjt.dir_ent_id w) in
      finalize J now chunk_name items complete w'

  -- `Complete`, given the chunk name and the nonce that the random reader yields, the rounds of the
  -- upload, and the time. `runWhileUploadingFunc` only copies the database to disk.
  module _ (P : Primitives) (H : Hashes) (J : Json) (key chunk_name : Str) (random : Option Str)
      (rounds now : ℕ) where
    unfoldable pub finish_items : ChunkPacker → World M → Completed M
    unfolding finalize
    finish_items cp w =
        let (complete, w') = finalize J now chunk_name cp.items false w in
        record {
          is_journal_complete = complete;
          packer = record cp { items = []; plaintext_chunk_buf = []; pos_in_plaintext_chunk = 0 };
          world = w';
        }

    -- By the error of the upload. One that has used up its rounds has not returned.
    abbrev pub after_error : ChunkPacker → World M → Option UploadError → Outcome (Completed M)
    after_error cp w none = done (finish_items cp w)
    after_error cp w (some upload_corrupted) =
        done (record { is_journal_complete = false; packer = cp; world = w })
    after_error cp w (some put_failed) =
        done (record { is_journal_complete = false; packer = cp; world = w })
    after_error cp w (some out_of_rounds) = crash

    unfoldable pub after_upload : ChunkPacker → World M → Uploaded M → Outcome (Completed M)
    unfolding finish_items
    after_upload cp w u = after_error cp (record w { cloud = u.cloud }) u.error

    -- An error of the encryption ends the program.
    unfoldable pub commit_chunk : ChunkPacker → World M → Outcome Str → Outcome (Completed M)
    unfolding after_upload upload_obj_from_buffer compute_etag
    commit_chunk cp w failed = crash
    commit_chunk cp w crash = crash
    commit_chunk cp w (done ciphertext) = after_upload cp w (
        upload_obj_from_buffer M (codes "chunks/" ++ chunk_name) ciphertext
          (compute_etag H ciphertext) rounds w.cloud)

    unfoldable pub complete : ChunkPacker → World M → Outcome (Completed M)
    unfolding commit_chunk finish_items encrypt_buffer
    complete cp w =
        if ltb 0 (length cp.plaintext_chunk_buf)
        then commit_chunk cp w (encrypt_buffer P key cp.plaintext_chunk_buf random)
        else done (finish_items cp w)
