-- ===== src/Backup/Whole.antt =====
-- pkg/backup/journaled_backup.go: `DoJournaledBackup` from the walk to the play of the journal, on
-- the copy of the database in memory.
pub mod Planned
use tless.Prelude.{ℕ, Str, Bool, true, false, Option, none, some, List, []}
use tless.Database.{Db, RowOrder, DirEntRow, BackupInfoRow, JournalRow, Result}
use tless.Database.DirEnts.{PastedQueries, get_all_known_paths}
use tless.Database.Journal.Finish.{get_backup_journal_counts}
use tless.Cryptography.{Outcome, done, failed, crash, Primitives}
use tless.Objstore.{Hashes, Minio, Cloud}
use tless.Snapshots.{Json}
use tless.Fstraverse.{ReportedEvent, Traversal, Visit, traverse}
use tless.Fstraverse.Excludes.{Globs}
use tless.Backup.Entry.{State}
use tless.Backup.Play.{Round, Playing, going, stopped}
use tless.Backup.Replay.{Names, play_backup_journal}
use tless.Backup.Journaled.{Prepared, play, nothing_to_back_up, fatal_error, prepare_journal}

-- The outcome of the walk and of the fill of the journal.
pub data Beginning : Type 0 where
  canceled_in_walk : Beginning
  walked : List ReportedEvent → Prepared → Beginning

module _ (order : RowOrder DirEntRow) (infos : RowOrder BackupInfoRow) (now later : ℕ)
    (backup_dir_path backup_dir_name : Str) where
  abbrev pub after_traverse : Outcome (Option Traversal) × Db → Outcome Beginning × Db
  after_traverse (done none, db) = (done canceled_in_walk, db)
  after_traverse (done (some r), db) =
      let (prepared, db') =
        prepare_journal order infos now later backup_dir_path backup_dir_name r.queue r.not_found
          db in
      (done (walked r.reported_events prepared), db')
  after_traverse (failed, db) = (failed, db)
  after_traverse (crash, db) = (crash, db)

abbrev pub after_known :
    (List Str → Db → Outcome Beginning × Db) → Outcome (List Str) × Db → Outcome Beginning × Db
after_known next (done paths, db) = next paths db
after_known next (failed, db) = (failed, db)
after_known next (crash, db) = (crash, db)

-- The known paths, the walk, and the fill at the times `now` and `later`.
unfoldable pub prepare_backup :
    PastedQueries
    → Globs
    → RowOrder DirEntRow
    → RowOrder BackupInfoRow
    → (Str → Str)
    → ℕ
    → ℕ
    → Str
    → List Str
    → List Visit
    → Db
    → Outcome Beginning × Db
unfolding get_all_known_paths traverse prepare_journal
prepare_backup E W order infos base now later backup_dir_path excludes visits db =
    after_known
      (λ paths d.
        after_traverse order infos now later backup_dir_path (base backup_dir_path)
          (traverse W order base backup_dir_path paths excludes visits d))
      (get_all_known_paths E (base backup_dir_path) db)

-- What `DoJournaledBackup` returns.
pub record Returned : Type 0 where
  pub reported_events : List ReportedEvent
  pub break_from_loop : Bool
  pub continue_loop : Bool
  pub fatal : Bool

-- `none` is a play that was still going.
abbrev pub returned : List ReportedEvent → Outcome Playing → Outcome (Option Returned)
returned events (done (stopped b)) = done (
    some (record {
      reported_events = events;
      break_from_loop = b;
      continue_loop = false;
      fatal = false;
    }))
returned events (done going) = done none
returned events failed = failed
returned events crash = crash

-- The initial progress, if it is reported, asks for the counts; an error is only logged.
abbrev pub after_progress : Bool → Db → Db
after_progress true db = (get_backup_journal_counts db).1
after_progress false db = db

abbrev pub with_events :
    {M : Minio}
    → List ReportedEvent
    → Outcome Playing × State M
    → Outcome (Option Returned) × (Db × Cloud M)
with_events events (r, s) = (returned events r, (s.world.db, s.world.cloud))

module _ {M : Minio} (P : Primitives) (H : Hashes) (J : Json) (N : Names)
    (order : RowOrder JournalRow) (dirents : RowOrder DirEntRow)
    (cancel : Db × Cloud M → Db × Cloud M) (key : Str) where
  abbrev pub after_beginning :
      Bool
      → List Round
      → Str
      → Option (ℕ × ℕ)
      → Cloud M
      → Outcome Beginning × Db
      → Outcome (Option Returned) × (Db × Cloud M)
  after_beginning progress rounds path stats c (failed, db) = (failed, (db, c))
  after_beginning progress rounds path stats c (crash, db) = (crash, (db, c))
  after_beginning progress rounds path stats c (done canceled_in_walk, db) = (
    done (
        some (record {
          reported_events = [];
          break_from_loop = true;
          continue_loop = false;
          fatal = false;
        })),
    (db, c),
  )
  after_beginning progress rounds path stats c (done (walked events fatal_error), db) = (
    done (
        some (record {
          reported_events = events;
          break_from_loop = false;
          continue_loop = false;
          fatal = true;
        })),
    (db, c),
  )
  after_beginning progress rounds path stats c (done (walked events nothing_to_back_up), db) = (
    done (
        some (record {
          reported_events = events;
          break_from_loop = false;
          continue_loop = true;
          fatal = false;
        })),
    (db, c),
  )
  after_beginning progress rounds path stats c (done (walked events (play snapshot_unixtime)), db) =
      with_events events (
        play_backup_journal P H J N order dirents cancel key rounds path
          (N.format_time snapshot_unixtime) stats (after_progress progress db) c)

  unfoldable pub do_journaled_backup :
      PastedQueries
      → Globs
      → RowOrder BackupInfoRow
      → ℕ
      → ℕ
      → Str
      → List Str
      → List Visit
      → Bool
      → List Round
      → Option (ℕ × ℕ)
      → Db
      → Cloud M
      → Outcome (Option Returned) × (Db × Cloud M)
  unfolding prepare_backup get_backup_journal_counts play_backup_journal
  do_journaled_backup E W infos now later path excludes visits progress rounds stats db c =
      after_beginning progress rounds path stats c
        (prepare_backup E W dirents infos N.base now later path excludes visits db)
