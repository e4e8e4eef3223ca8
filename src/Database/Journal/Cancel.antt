-- ===== src/Database/Journal/Cancel.antt =====
-- pkg/database/journals.go: the time of the last backup, and what a cancelation undoes.
use tless.Prelude.{
  ℕ, ◌||◌, Bool, not, List, [], ◌∷◌, map, ltb, if◌then◌else◌, nat_eq, select, contains,
}
use tless.Database.{
  in_progress, finished, DirEntRow, BackupInfoRow, JournalRow, Tables, ok, err, Sql, query, update,
  prepare, ◌>>=◌, ◌>>◌,
}
use tless.Database.Journal.{is_status}
use tless.Database.Journal.Finish.{
  in_journal, get_count_total_backup_journal, delete_all_rows_backup_journal,
}

-- `MAX(snapshot_time)`, and 0 for the NULL of no rows, which `Scan` turns into an error.
unfoldable pub max_snapshot_time : List BackupInfoRow → ℕ
max_snapshot_time [] = 0
max_snapshot_time (r ∷ rows) =
    let rest = max_snapshot_time rows in if ltb rest r.snapshot_time then r.snapshot_time else rest

-- A query whose error is taken for an answer of 0.
abbrev zero_on_error : Sql ℕ → Sql ℕ
zero_on_error m db = (elim (m db).0 [ ok unixtime ↦ ok unixtime | err _ ↦ ok 0 ], (m db).1)

unfoldable pub get_last_completed_backup_unix_time : Sql ℕ
unfolding get_count_total_backup_journal prepare query max_snapshot_time select contains
get_last_completed_backup_unix_time = do
  count ← get_count_total_backup_journal
  prepare
  zero_on_error (
      query (λ t.
        if ltb 0 count
        then max_snapshot_time (select (λ info. not (in_journal t info)) t.backup_info)
        else max_snapshot_time t.backup_info))

-- `UPDATE dirents SET last_backup=0 WHERE id in (SELECT dirent_id FROM backup_journal WHERE
-- status = 2 OR status = 3)`
abbrev pub was_processed : JournalRow → Bool
was_processed r = is_status in_progress r || is_status finished r

abbrev pub reset_last_backup : List ℕ → DirEntRow → DirEntRow
reset_last_backup ids d = if contains ids d.id then record d { last_backup = 0 } else d

unfoldable pub cancelation_reset_last_backup_time : Sql (Unit {0})
unfolding prepare update select contains
cancelation_reset_last_backup_time = do
  prepare
  update (λ t.
      let ids = map (λ (r : JournalRow). r.dir_ent_id) (select was_processed t.backup_journal) in
      record t { dirents = map (reset_last_backup ids) t.dirents })

-- `DELETE FROM backup_info WHERE id in (SELECT DISTINCT(backup_info_id) FROM backup_journal)`
unfoldable pub delete_journaled_backup_info : Tables → Tables
unfolding select contains
delete_journaled_backup_info t = record t {
  backup_info = select (λ info. not (in_journal t info)) t.backup_info;
}

unfoldable pub cancelation_cleanup_journal : Sql (Unit {0})
unfolding prepare update delete_journaled_backup_info delete_all_rows_backup_journal
cancelation_cleanup_journal = do
  prepare
  update delete_journaled_backup_info
  delete_all_rows_backup_journal
