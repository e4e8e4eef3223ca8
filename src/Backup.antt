-- ===== src/Backup.antt =====
-- pkg/backup: the state that a backup works on, and what it does when a task is done.
pub mod Tasks
pub mod ChunkPacker
pub mod Nonce
pub mod Restore
pub mod Small
pub mod Journaled
pub mod Entry
pub mod Play
pub mod Replay
pub mod Whole
pub mod ChunkCache
pub mod Serde
pub mod RestoreEntry
pub mod Large
use mathlib.Core.Option
use tless.Prelude.{
  ℕ, ◌+◌, ◌*◌, Str, Bool, true, false, Option, none, some, List, [], ◌∷◌, leb, if◌then◌else◌,
}
use tless.Database.{Db, Result, ok, err}
use tless.Database.DirEnts
use tless.Database.Journal.{BackupJournalTask}
use tless.Database.Journal.Finish.{complete_backup_journal_task, get_backup_journal_counts}
use tless.Objstore.{Minio, Cloud}
use tless.Snapshots.{CloudRelPath, Json}

-- 128 MB
abbrev pub chunk_size : ℕ
chunk_size = 134217728

-- The database, the store, and the two counts of `PlayBackupJournal`, which the functions that it
-- calls change through pointers.
pub record World (M : Minio) : Type 0 where
  pub db : Db
  pub cloud : Cloud M
  pub total_cnt_journal : ℕ
  pub finished_count_journal : ℕ

-- The counts that the database gives; those of a query that fails are both 0.
abbrev pub counts_or_zero : Result (ℕ × ℕ) → ℕ × ℕ
counts_or_zero (ok counts) = counts
counts_or_zero (err e) = (0, 0)

module _ {M : Minio} where
  -- `updateLastBackupTime`: an error is only logged.
  unfoldable pub update_last_backup_time : ℕ → ℕ → World M → World M
  unfolding DirEnts.update_last_backup_time
  update_last_backup_time now dir_ent_id w = record w {
    db = (DirEnts.update_last_backup_time now dir_ent_id w.db).1;
  }

  -- The counts are read again where the journal seems complete.
  unfoldable pub check_complete : World M → Bool × World M
  unfolding get_backup_journal_counts
  check_complete w =
      let (counts, db) = get_backup_journal_counts w.db in
      let (finished, total) = counts_or_zero counts in
      (
        leb total finished,
        record {
          db = db;
          cloud = w.cloud;
          total_cnt_journal = total;
          finished_count_journal = finished;
        },
      )

  -- Whether the journal is complete. Without an index entry the task has NULL for one.
  unfoldable pub complete_task :
      Json → BackupJournalTask → Option CloudRelPath → World M → Bool × World M
  unfolding complete_backup_journal_task check_complete
  complete_task J bjt crp w =
      let db = (complete_backup_journal_task bjt (Option.map J.to_json crp) w.db).1 in
      let w' : World M = record w {
        db = db;
        finished_count_journal = w.finished_count_journal + 1;
      } in
      if leb w.total_cnt_journal (w.finished_count_journal + 1)
      then check_complete w'
      else (false, w')
