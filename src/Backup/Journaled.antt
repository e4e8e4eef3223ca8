-- ===== src/Backup/Journaled.antt =====
-- pkg/backup/journaled_backup.go: how `DoJournaledBackup` fills the journal, from what the walk
-- over the directory found, and gets the snapshot's time.
pub mod Filled
pub mod Deleted
pub mod Remembered
use tless.Prelude.{
  ℕ, Str, codes, Bool, true, false, Option, none, some, List, [], ◌∷◌, ◌++◌, if◌then◌else◌, str_eq,
}
use tless.Util.Strings.{trim_prefix}
use tless.Database.{
  Db, Tables, Result, ok, err, DbError, no_rows, Sql, pure, unstarted, ChangeType, deleted,
  RowOrder, DirEntRow, BackupInfoRow, ◌>>=◌, ◌>>◌,
}
use tless.Database.DirEnts.{has_dir_ent, delete_dir_ent_by_path}
use tless.Database.Journal.{
  InsertBackupJournalStmt, new_insert_backup_journal_stmt, insert_backup_journal_row, close,
}
use tless.Database.Journal.Finish.{get_journaled_backup_info}

-- The rows of one bulk insert, each not started.
unfoldable pub insert_rows :
    InsertBackupJournalStmt → List (ℕ × ChangeType) → Sql InsertBackupJournalStmt
unfolding insert_backup_journal_row
insert_rows ibst [] = pure ibst
insert_rows ibst ((dir_ent_id, change_type) ∷ items) = do
  ibst' ← insert_backup_journal_row ibst dir_ent_id unstarted change_type
  insert_rows ibst' items

-- The commit, whose error is only logged.
abbrev pub commit : InsertBackupJournalStmt → Sql (Unit {0})
commit ibst db = (ok tt, close ibst db)

unfoldable pub bulk_insert : ℕ → Str → List (ℕ × ChangeType) → Sql (Unit {0})
unfolding new_insert_backup_journal_stmt insert_rows close
bulk_insert now backup_dir_path items = do
  ibst ← new_insert_backup_journal_stmt now backup_dir_path
  ibst' ← insert_rows ibst items
  commit ibst'

-- What is found of one path: nothing where the query fails or finds no row.
abbrev pub id_if_found : Result (Option (ℕ × ℕ)) → List (ℕ × ChangeType)
id_if_found (ok (some (_, id))) = (id, deleted) ∷ []
id_if_found (ok none) = []
id_if_found (err e) = []

-- The path below the backup's directory.
abbrev pub deleted_rel_path : Str → Str → Str
deleted_rel_path backup_dir_name path = trim_prefix (trim_prefix path backup_dir_name) (codes "/")

unfoldable pub deleted_dirent_ids :
    RowOrder DirEntRow → Str → List Str → Db → List (ℕ × ChangeType) × Db
unfolding has_dir_ent trim_prefix
deleted_dirent_ids order backup_dir_name [] db = ([], db)
deleted_dirent_ids order backup_dir_name (path ∷ paths) db =
    let (found, db') =
      has_dir_ent order backup_dir_name (deleted_rel_path backup_dir_name path) db in
    let (ids, db'') = deleted_dirent_ids order backup_dir_name paths db' in
    (id_if_found found ++ ids, db'')

-- The items of the walk at `now`, then the known paths that it did not find at `later`.
unfoldable pub fill_journal :
    RowOrder DirEntRow → ℕ → ℕ → Str → Str → List (ℕ × ChangeType) → List Str → Sql (Unit {0})
unfolding bulk_insert deleted_dirent_ids
fill_journal order now later backup_dir_path backup_dir_name queue prev_paths = do
  bulk_insert now backup_dir_path queue
  deleted_ids ← λ db. (
    ok (deleted_dirent_ids order backup_dir_name prev_paths db).0,
    (deleted_dirent_ids order backup_dir_name prev_paths db).1,
  )
  bulk_insert later backup_dir_path deleted_ids

-- How `DoJournaledBackup` goes on: with the play of the journal for the snapshot of a time, or with
-- the next backup where nothing was inserted, or with an error.
pub data Prepared : Type 0 where
  play : ℕ → Prepared
  nothing_to_back_up : Prepared
  fatal_error : Prepared

abbrev pub after_info : Result (Str × ℕ) → Prepared
after_info (ok (_, snapshot_unixtime)) = play snapshot_unixtime
after_info (err no_rows) = nothing_to_back_up
after_info (err _) = fatal_error

abbrev pub after_fill : RowOrder BackupInfoRow → Result (Unit {0}) → Db → Prepared × Db
after_fill infos (err e) db = (fatal_error, db)
after_fill infos (ok _) db =
    let (info, db') = get_journaled_backup_info infos db in (after_info info, db')

unfoldable pub prepare_journal :
    RowOrder DirEntRow
    → RowOrder BackupInfoRow
    → ℕ
    → ℕ
    → Str
    → Str
    → List (ℕ × ChangeType)
    → List Str
    → Db
    → Prepared × Db
unfolding fill_journal get_journaled_backup_info
prepare_journal order infos now later backup_dir_path backup_dir_name queue prev_paths db =
    let (filled, db') =
      fill_journal order now later backup_dir_path backup_dir_name queue prev_paths db in
    after_fill infos filled db'
