-- ===== src/Database/Journal/Finish.antt =====
-- pkg/database/journals.go: completing tasks, the counts, and the reset after a crash.
use tless.Prelude.{
  ℕ, ◌+◌, Str, Bool, Option, none, some, List, [], ◌∷◌, map, ltb, if◌then◌else◌, nat_eq, length,
  select, contains, ◌≡◌, refl, ap,
}
use tless.Database.{
  JournalStatus, unstarted, in_progress, finished, BackupInfoRow, JournalRow, Tables, Sql, pure,
  RowOrder, or_no_rows, query, update, prepare, ◌>>=◌, ◌>>◌, Db, Result, ok, err, quiet,
}
use tless.Database.Journal.{BackupJournalTask, is_status, update_row}

-- `SET status = ?, index_entry = ?`, with `Finished` for the status.
abbrev pub finish : Option Str → JournalRow → JournalRow
finish index_entry r = record r { status = finished; index_entry = index_entry }

unfoldable pub complete_backup_journal_task : BackupJournalTask → Option Str → Sql (Unit {0})
unfolding update_row prepare update
complete_backup_journal_task task index_entry = do
  prepare
  update
      (λ t. record t { backup_journal = update_row task.id (finish index_entry) t.backup_journal })

unfoldable pub delete_all_rows_backup_journal : Sql (Unit {0})
unfolding prepare update
delete_all_rows_backup_journal = do prepare; update (λ t. record t { backup_journal = [] })

unfoldable pub wipe_backup_journal : Sql (Unit {0})
unfolding delete_all_rows_backup_journal
wipe_backup_journal = delete_all_rows_backup_journal

-- `UPDATE backup_journal SET status = 1 WHERE status = 2`, on one row.
abbrev pub roll_back : JournalRow → JournalRow
roll_back r = if is_status in_progress r then record r { status = unstarted } else r

unfoldable pub reset_all_in_progress_backup_journal_tasks : Sql (Unit {0})
unfolding prepare update
reset_all_in_progress_backup_journal_tasks = do
  prepare
  update (λ t. record t { backup_journal = map roll_back t.backup_journal })

abbrev pub count_status : JournalStatus → List JournalRow → ℕ
count_status s [] = 0
count_status s (r ∷ rows) = (if is_status s r then 1 else 0) + count_status s rows

unfoldable pub get_count_finished_backup_journal : Sql ℕ
unfolding prepare query
get_count_finished_backup_journal = do prepare; query (λ t. count_status finished t.backup_journal)

unfoldable pub get_count_total_backup_journal : Sql ℕ
unfolding prepare query
get_count_total_backup_journal = do prepare; query (λ t. length t.backup_journal)

-- The finished tasks, and all.
unfoldable pub get_backup_journal_counts : Sql (ℕ × ℕ)
unfolding get_count_finished_backup_journal get_count_total_backup_journal
get_backup_journal_counts = do
  total_count ← get_count_total_backup_journal
  finished_count ← get_count_finished_backup_journal
  pure (finished_count, total_count)

unfoldable pub has_dirty_backup_journal : Sql Bool
unfolding prepare query
has_dirty_backup_journal = do
  prepare
  count ← query (λ t. length t.backup_journal)
  pure (ltb 0 count)

-- A NULL entry is read as an empty slice. The rows come in the table's order.
abbrev pub entry_bytes : JournalRow → Str
entry_bytes r = elim r.index_entry [ none ↦ [] | some buf ↦ buf ]

abbrev pub keep_row :
    {A : Type 0} → A → (Db → Result (List A) × Db) → Result (Unit {0}) × Db → Result (List A) × Db
keep_row r next (err e, db) = (ok [], db)
keep_row r next (ok _, db) = (next >>= λ rest. pure (r ∷ rest)) db

-- The loop of `rows.Next`, which an error of the driver ends, and after which no one asks for it.
unfoldable pub next_rows : {A : Type 0} → List A → Sql (List A)
unfolding prepare
next_rows [] db = (ok [], db)
next_rows (r ∷ rows) db = keep_row r (next_rows rows) (prepare db)

pub next_rows-quiet :
    {A : Type 0} (rows : List A) (t : Tables) → next_rows rows (quiet t) ≡ (ok rows, quiet t)
unfolding next_rows
next_rows-quiet [] t = refl
next_rows-quiet (r ∷ rows) t =
    ap (λ x. ((λ db. x) >>= λ l. pure (r ∷ l)) (quiet t)) (next_rows-quiet rows t)

unfoldable pub get_all_backup_journal_row_index_entries : Sql (List Str)
unfolding prepare query next_rows
get_all_backup_journal_row_index_entries = do
  prepare
  rows ← query (λ t. map entry_bytes t.backup_journal)
  next_rows rows

pub get_all-quiet :
    (t : Tables)
    → get_all_backup_journal_row_index_entries (quiet t)
      ≡ (ok (map entry_bytes t.backup_journal), quiet t)
unfolding get_all_backup_journal_row_index_entries
get_all-quiet t = next_rows-quiet (map entry_bytes t.backup_journal) t

-- `id IN (SELECT backup_journal.backup_info_id FROM backup_journal)`
abbrev pub in_journal : Tables → BackupInfoRow → Bool
in_journal t info = contains (map (λ (r : JournalRow). r.backup_info_id) t.backup_journal) info.id

unfoldable pub get_journaled_backup_info : RowOrder BackupInfoRow → Sql (Str × ℕ)
unfolding prepare query select contains
get_journaled_backup_info order = do
  prepare
  row ← query (λ t. order.first (select (in_journal t) t.backup_info))
  info ← or_no_rows row
  pure (info.dir_path, info.snapshot_time)
