-- ===== src/Backup/Play.antt =====
-- pkg/backup/journaled_backup.go: `PlayBackupJournal` and `ReplayBackupJournal`. What a round of the
-- loop meets outside (whether a cancelation was asked for, whose callback is the argument `cancel`, the file system, the draws, the time) is
-- given for each round; a loop that has used up its rounds is still going. The copies of the
-- database to disk, the pauses and the reports of the progress are left out.
pub mod Running
pub mod Steady
pub mod Held
pub mod Progress
pub mod Rounds
pub mod Refines
pub mod Ends
use mathlib.Core.Option
use tless.Prelude.{
  ℕ, suc, ◌+◌, Str, Bool, true, false, Option, none, some, List, [], ◌∷◌, if◌then◌else◌, str_eq,
  leb, nat_eq, ◌==◌,
}
use tless.Prelude.Dict.{Dict, lookup}
use tless.Database.{
  Db, RowOrder, DirEntRow, JournalRow, ChangeType, updated, unchanged, deleted, Result, ok, err,
  no_work,
}
use tless.Database.DirEnts.{get_dir_ent_paths, delete_dir_ent_by_path}
use tless.Database.Journal.{BackupJournalTask, claim_next_backup_journal_task}
use tless.Database.Journal.Finish.{wipe_backup_journal}
use tless.Cryptography.{Outcome, done, failed, crash, Primitives}
use tless.Objstore.{Hashes, Minio, Cloud}
use tless.Snapshots.{ChunkExtent, CloudRelPath, Snapshot, BackupDir, Json}
use tless.Snapshots.Index.{write_index_file}
use tless.Backup.{World, update_last_backup_time, complete_task}
use tless.Backup.ChunkPacker.{Completed, complete}
use tless.Backup.Entry.{Os, Draws, State, Step, back_up}

-- `index_nonce` is drawn for the index file.
pub record Round : Type 0 where
  pub is_canceled : Bool
  pub os : Os
  pub draws : Draws
  pub index_nonce : Option Str

-- Whether the loop goes on, or ends with `breakFromLoop`.
pub data Playing : Type 0 where
  going : Playing
  stopped : Bool → Playing

-- `AddBytesFromChunkExtents`
unfoldable pub add_bytes : List ChunkExtent → ℕ → ℕ
add_bytes [] n = n
add_bytes (extent ∷ extents) n = add_bytes extents (n + extent.len)

-- `sort.Strings` and its last element: the greatest name by its bytes, and its snapshot.
unfoldable pub str_le : Str → Str → Bool
unfolding nat_eq
str_le [] t = true
str_le (c ∷ s) [] = false
str_le (c ∷ s) (d ∷ t) = let rest = str_le s t in if c == d then rest else leb c d

unfoldable pub greatest : Str × Snapshot → Dict Str Snapshot → Snapshot
unfolding str_le
greatest best [] = best.1
greatest best ((name, ss) ∷ snapshots) =
    greatest (if str_le best.0 name then (name, ss) else best) snapshots

abbrev pub get_most_recent_snapshot : Dict Str Snapshot → Option Snapshot
get_most_recent_snapshot [] = none
get_most_recent_snapshot (first ∷ snapshots) = some (greatest first snapshots)

-- A backup without snapshots is not in the map, where the zero value has none.
abbrev pub snapshots_of : Option BackupDir → Dict Str Snapshot
snapshots_of none = []
snapshots_of (some dir) = dir.snapshots

-- The extents that the previous snapshot has for a path; none where it lacks the path.
abbrev pub extents_of : Option CloudRelPath → List ChunkExtent
extents_of none = []
extents_of (some crp) = crp.chunk_extents

-- The paths of a task's entry, which are empty where the query fails.
abbrev pub rel_path_or_blank : Result (Str × Str) → Str
rel_path_or_blank (ok (_, rel_path)) = rel_path
rel_path_or_blank (err e) = []

module _ {M : Minio} where
  abbrev pub with_db : Db → State M → State M
  with_db db s = record s { world = record s.world { db = db } }

  abbrev pub with_world : World M → State M → State M
  with_world w s = record s { world = w }

  -- What the callback of a cancelation, which is given, makes of the database and the store.
  abbrev pub unwound : (Db × Cloud M → Db × Cloud M) → State M → State M
  unwound cancel s =
      let (db, c) = cancel (s.world.db, s.world.cloud) in
      with_world (record s.world { db = db; cloud = c }) s

  abbrev pub count_file : State M → State M
  count_file s = record s { cnt_files = Option.map suc s.cnt_files }

  abbrev pub count_bytes : List ChunkExtent → State M → State M
  count_bytes extents s = record s {
    packer = record s.packer { cnt_bytes = Option.map (add_bytes extents) s.packer.cnt_bytes };
  }

  -- `purgeFromDb`: the caller only logs an error.
  unfoldable pub purge_from_db : Str → Str → State M → State M
  unfolding delete_dir_ent_by_path
  purge_from_db backup_dir_name deleted_path s =
      with_db (delete_dir_ent_by_path backup_dir_name deleted_path s.world.db).1 s

  -- What follows a round: the rounds that are left, or the end.
  abbrev pub go_on :
      (State M → Outcome Playing × State M) → Outcome Playing × State M → Outcome Playing × State M
  go_on again (done going, s) = again s
  go_on again (done (stopped b), s) = (done (stopped b), s)
  go_on again (failed, s) = (failed, s)
  go_on again (crash, s) = (crash, s)

-- The arguments that stay: the backup's directory and its base name, the snapshot's name and the
-- time that it is parsed to, and the snapshot before, if there is one.
pub record Job : Type 0 where
  pub key : Str
  pub backup_dir_path : Str
  pub backup_dir_name : Str
  pub snapshot_name : Str
  pub parsed_time : Option ℕ
  pub prev_snapshot : Option Snapshot

module _ {M : Minio} (P : Primitives) (H : Hashes) (J : Json) (order : RowOrder JournalRow)
    (dirents : RowOrder DirEntRow) (cancel : Db × Cloud M → Db × Cloud M) (job : Job) where
  module _ (round : Round) where
    -- What `WriteIndexFile` left, and then the wipe. Errors of both are only logged.
    abbrev pub wipe : State M → Outcome (Unit {0}) × (Db × Cloud M) → Outcome Playing × State M
    wipe s (crash, (db, c)) = (crash, with_world (record s.world { db = db; cloud = c }) s)
    wipe s (failed, (db, c)) = (
      done (stopped false),
      with_world (record s.world { db = (wipe_backup_journal db).1; cloud = c }) s,
    )
    wipe s (done _, (db, c)) = (
      done (stopped false),
      with_world (record s.world { db = (wipe_backup_journal db).1; cloud = c }) s,
    )

    unfoldable pub write_index_file_and_wipe_journal : Step M Playing
    unfolding write_index_file wipe_backup_journal
    write_index_file_and_wipe_journal s = wipe s (
        write_index_file P H J job.key round.index_nonce round.draws.rounds job.backup_dir_name
          job.snapshot_name job.parsed_time s.world.db s.world.cloud)

    -- No work: the packer's last chunk is committed, and whatever came of it the journal is wiped.
    abbrev pub finish_play : State M → Outcome (Completed M) → Outcome Playing × State M
    finish_play s (done c) =
        write_index_file_and_wipe_journal
          (record { packer = c.packer; world = c.world; cnt_files = s.cnt_files })
    finish_play s failed = (failed, s)
    finish_play s crash = (crash, s)

    -- A task that is done at once, with its entry of the index.
    unfoldable pub finish_task : BackupJournalTask → Option CloudRelPath → Step M Playing
    unfolding update_last_backup_time complete_task write_index_file_and_wipe_journal
    finish_task bjt crp s =
        let (is_journal_complete, w) =
          complete_task J bjt crp
            (update_last_backup_time round.draws.now bjt.dir_ent_id s.world) in
        if is_journal_complete
        then write_index_file_and_wipe_journal (with_world w s)
        else (done going, with_world w s)

    -- What follows `Backup`. An entry with an error is completed without an entry of the index, and
    -- the answer of `completeTask` is dropped. A pending one has no extents to count.
    abbrev pub after_back_up :
        BackupJournalTask
        → Str
        → Outcome (List ChunkExtent × Bool) × State M
        → Outcome Playing × State M
    after_back_up bjt rel_path (crash, s) = (crash, s)
    after_back_up bjt rel_path (failed, s) =
        (done going, with_world (complete_task J bjt none s.world).1 s)
    after_back_up bjt rel_path (done (extents, true), s) = (done going, s)
    after_back_up bjt rel_path (done (extents, false), s) =
        finish_task bjt (some (record { rel_path = rel_path; chunk_extents = extents }))
          (count_bytes extents s)

    unfoldable pub back_up_task : BackupJournalTask → Str → Step M Playing
    unfolding back_up finish_task complete_task
    back_up_task bjt rel_path s =
        after_back_up bjt rel_path
          (back_up P H J job.key round.os round.draws rel_path bjt job.backup_dir_path s)

    -- An unchanged entry has the extents of the previous snapshot.
    abbrev pub reuse_extents :
        BackupJournalTask → Str → Snapshot → State M → Outcome Playing × State M
    reuse_extents bjt rel_path prev s =
        let extents = extents_of (lookup rel_path prev.rel_paths) in
        finish_task bjt (some (record { rel_path = rel_path; chunk_extents = extents }))
          (count_bytes extents s)

    -- A task of a kind, with the snapshot before: without one an unchanged entry is backed up.
    unfoldable pub run_change :
        ChangeType → Option Snapshot → BackupJournalTask → Str → Step M Playing
    unfolding back_up_task finish_task purge_from_db lookup str_eq
    run_change updated prev bjt rel_path s = back_up_task bjt rel_path s
    run_change unchanged none bjt rel_path s = back_up_task bjt rel_path s
    run_change unchanged (some prev) bjt rel_path s = reuse_extents bjt rel_path prev s
    run_change deleted prev bjt rel_path s =
        finish_task bjt none (purge_from_db job.backup_dir_name rel_path s)

    abbrev pub run_task : BackupJournalTask → Str → Step M Playing
    run_task bjt = run_change bjt.change_type job.prev_snapshot bjt

    abbrev pub after_claim : State M → Result BackupJournalTask × Db → Outcome Playing × State M
    after_claim s (err no_work, db) =
        let s' = with_db db s in
        finish_play s' (
          complete P H J job.key (round.draws.chunk_names 0) round.draws.nonce round.draws.rounds
            round.draws.now s'.packer s'.world)
    after_claim s (err _, db) = (done (stopped false), with_db db s)
    after_claim s (ok bjt, db) =
        let (paths, db') = get_dir_ent_paths dirents bjt.dir_ent_id db in
        run_task bjt (rel_path_or_blank paths) (count_file (with_db db' s))

    unfoldable pub play_round : Step M Playing
    unfolding run_change claim_next_backup_journal_task get_dir_ent_paths complete
    play_round s =
        if round.is_canceled
        then (done (stopped true), unwound cancel s)
        else after_claim s
            (claim_next_backup_journal_task order (suc round.draws.rounds) s.world.db)

  -- The loop.
  unfoldable pub play_loop : List Round → Step M Playing
  unfolding play_round
  play_loop [] s = (done going, s)
  play_loop (round ∷ rounds) s = go_on (play_loop rounds) (play_round round s)
