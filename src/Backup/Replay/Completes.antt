-- ===== src/Backup/Replay/Completes.antt =====
-- A replay of the journal runs to its end.
use tless.Prelude.{◌≡◌, ◌⊎◌, Str, Option, some, List, [], map, true, false, In}
use tless.Prelude.Dict.{Dict}
use tless.Database.{Tables, RowOrder, DirEntRow, JournalRow, Db}
use tless.Database.Journal.Finish.{roll_back}
use tless.Cryptography.{Outcome, done, failed, crash, Primitives}
use tless.Objstore.{Hashes, Minio, Cloud}
use tless.Snapshots.{BackupDir, Json}
use tless.Backup.Entry.{State}
use tless.Backup.Play.{Round, stopped}
use tless.Backup.Play.Progress.{Progress}
use tless.Backup.Play.Rounds.{IsCrash, IsFinished}
use tless.Backup.Play.Ends.{Any}
use tless.Backup.Replay.{Names, Replayed, backup_canceled, backup_completed, job_of}

abbrev reset : Tables → Tables
reset t = record t { backup_journal = map roll_back t.backup_journal }

abbrev groups_or_none : Outcome (Dict Str BackupDir) → Dict Str BackupDir
groups_or_none (done groups) = groups
groups_or_none failed = []
groups_or_none crash = []

module _ {M : Minio} (P : Primitives) (H : Hashes) (J : Json) (N : Names)
    (order : RowOrder JournalRow) (dirents : RowOrder DirEntRow)
    (cancel : Db × Cloud M → Db × Cloud M) (key : Str) (rounds : List Round) where
  -- What a replay reports, and why. The job has the groups of snapshots that were read.
  abbrev pub IsReported :
      Str → Str → Outcome (Dict Str BackupDir) → Outcome (Option Replayed) × State M → Type 0
  IsReported path name groups (r, s) =
      let job = job_of N key path name (groups_or_none groups) in
      ((r ≡ done (some backup_completed))
        × ((round : Round) × In round rounds
            × IsFinished P H J order dirents cancel job round Any (done (stopped false), s)))
      ⊎ (((r ≡ done (some backup_canceled))
            × ((groups ≡ failed)
                ⊎ ((round : Round) × In round rounds × (round.is_canceled ≡ true))))
          ⊎ ((r ≡ crash)
              × ((groups ≡ crash)
                  ⊎ ((round : Round) × In round rounds
                      × IsCrash P H J order dirents cancel job round))))
