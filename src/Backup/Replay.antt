-- ===== src/Backup/Replay.antt =====
-- pkg/backup/journaled_backup.go: how `PlayBackupJournal` begins, and `ReplayBackupJournal`.
pub mod Completes
use tless.Prelude.{ℕ, Str, Bool, true, false, Option, none, some, List, [], str_eq}
use tless.Prelude.Dict.{Dict, lookup}
use tless.Database.{Db, RowOrder, DirEntRow, BackupInfoRow, JournalRow, Result, ok, err}
use tless.Database.Journal.Finish.{
  get_backup_journal_counts, reset_all_in_progress_backup_journal_tasks, get_journaled_backup_info,
}
use tless.Cryptography.{Outcome, done, failed, crash, Primitives}
use tless.Objstore.{Hashes, Minio, Cloud}
use tless.Snapshots.{BackupDir, Json}
use tless.Snapshots.Grouped.{get_grouped_snapshots}
use tless.Backup.ChunkPacker.{new_chunk_packer}
use tless.Backup.Entry.{State}
use tless.Backup.Play.{
  Round, Playing, going, stopped, Job, greatest, get_most_recent_snapshot, snapshots_of, with_world,
  play_loop,
}

-- `filepath.Base`, and the time package's reading and writing of a snapshot's name.
pub record Names : Type 0 where
  pub base : Str → Str
  pub parse_time : Str → Option ℕ
  pub format_time : ℕ → Str

-- The event that `ReplayBackupJournal` reports.
pub data Replayed : Type 0 where
  backup_canceled : Replayed
  backup_completed : Replayed

abbrev pub replayed : Bool → Replayed
replayed true = backup_canceled
replayed false = backup_completed

-- The directory and the time of the journaled backup, which are the zero values after an error.
abbrev pub info_or_zero : Result (Str × ℕ) → Str × ℕ
info_or_zero (ok info) = info
info_or_zero (err e) = ([], 0)

abbrev pub job_of : Names → Str → Str → Str → Dict Str BackupDir → Job
job_of N key backup_dir_path snapshot_name groups = record {
  key = key;
  backup_dir_path = backup_dir_path;
  backup_dir_name = N.base backup_dir_path;
  snapshot_name = snapshot_name;
  parsed_time = N.parse_time snapshot_name;
  prev_snapshot = get_most_recent_snapshot (snapshots_of (lookup (N.base backup_dir_path) groups));
}

-- `none` is a loop that was still going.
abbrev pub event_of : Outcome Playing → Outcome (Option Replayed)
event_of (done (stopped b)) = done (some (replayed b))
event_of (done going) = done none
event_of failed = failed
event_of crash = crash

module _ {M : Minio} (P : Primitives) (H : Hashes) (J : Json) (N : Names)
    (order : RowOrder JournalRow) (dirents : RowOrder DirEntRow)
    (cancel : Db × Cloud M → Db × Cloud M) (key : Str) where
  abbrev pub start : ℕ × ℕ → Db → Cloud M → State M
  start (finished, total) db c = record {
    packer = new_chunk_packer none;
    world = record {
      db = db;
      cloud = c;
      total_cnt_journal = total;
      finished_count_journal = finished;
    };
    cnt_files = none;
  }

  abbrev pub with_stats : Option (ℕ × ℕ) → State M → State M
  with_stats none s = s
  with_stats (some (files, bytes)) s = record {
    packer = new_chunk_packer (some bytes);
    world = s.world;
    cnt_files = some files;
  }

  abbrev pub after_groups :
      List Round
      → Str
      → Str
      → State M
      → Outcome (Dict Str BackupDir) × Cloud M
      → Outcome Playing × State M
  after_groups rounds path name s (crash, c) = (crash, with_world (record s.world { cloud = c }) s)
  after_groups rounds path name s (failed, c) =
      (done (stopped true), with_world (record s.world { cloud = c }) s)
  after_groups rounds path name s (done groups, c) =
      play_loop P H J order dirents cancel (job_of N key path name groups) rounds
        (with_world (record s.world { cloud = c }) s)

  abbrev pub after_counts :
      List Round
      → Str
      → Str
      → Option (ℕ × ℕ)
      → Cloud M
      → Result (ℕ × ℕ) × Db
      → Outcome Playing × State M
  after_counts rounds path name stats c (err e, db) =
      (done (stopped false), with_stats stats (start (0, 0) db c))
  after_counts rounds path name stats c (ok counts, db) =
      after_groups rounds path name (with_stats stats (start counts db c))
        (get_grouped_snapshots P J key false c)

  -- `PlayBackupJournal`, with the counts in `stats`.
  unfoldable pub play_backup_journal :
      List Round → Str → Str → Option (ℕ × ℕ) → Db → Cloud M → Outcome Playing × State M
  unfolding play_loop get_grouped_snapshots get_backup_journal_counts greatest lookup str_eq
  play_backup_journal rounds backup_dir_path snapshot_name stats db c =
      after_counts rounds backup_dir_path snapshot_name stats c (get_backup_journal_counts db)

  -- `ReplayBackupJournal` on the copy of the database in memory: errors of its two statements are
  -- only logged.
  unfoldable pub replay_backup_journal :
      RowOrder BackupInfoRow → List Round → Db → Cloud M → Outcome (Option Replayed) × State M
  unfolding play_backup_journal reset_all_in_progress_backup_journal_tasks get_journaled_backup_info
  replay_backup_journal infos rounds db c =
      let db' = (reset_all_in_progress_backup_journal_tasks db).1 in
      let (info, db'') = get_journaled_backup_info infos db' in
      let (path, snapshot_unixtime) = info_or_zero info in
      let (r, s) = play_backup_journal rounds path (N.format_time snapshot_unixtime) none db'' c in
      (event_of r, s)
