-- ===== src/Database/Journal.antt =====
-- pkg/database/journals.go: the journal of a backup, one task for each directory entry.
pub mod Rows
pub mod Claim
pub mod Finish
pub mod Cancel
pub mod Progress
pub mod Undo
pub mod Faults
use tless.Prelude.{
  ℕ, ◌+◌, Str, ◌≡◌, ◌≢◌, Bool, true, false, Option, none, some, List, [], ◌∷◌, ◌++◌, if◌then◌else◌,
  ◌==◌, nat_eq, In, select, zero, suc,
}
use tless.Database.{
  RowOrder, or_no_rows, query, update, JournalStatus, unstarted, in_progress, finished, ChangeType,
  BackupInfoRow, JournalRow, Tables, Db, DbError, no_rows, no_work, out_of_rounds, ok, err, Sql,
  pure, raise, exec, prepare, ◌>>=◌, ◌>>◌, of_result,
}

abbrev pub same_status : JournalStatus → JournalStatus → Bool
same_status unstarted unstarted = true
same_status in_progress in_progress = true
same_status finished finished = true
same_status _ _ = false

abbrev pub is_status : JournalStatus → JournalRow → Bool
is_status s r = same_status s r.status

-- `INSERT INTO backup_info ... strftime('%s','now')`, at the time `now`: the id of the new row.
unfoldable pub insert_backup_info : ℕ → Str → Tables → ℕ × Tables
insert_backup_info now dir_path t =
    let id = t.backup_info_seq + 1 in
    let row : BackupInfoRow = record { id = id; snapshot_time = now; dir_path = dir_path } in
    (id, record t { backup_info = t.backup_info ++ (row ∷ []); backup_info_seq = id })

-- The open transaction, with the rows that its statement has inserted so far.
pub record InsertBackupJournalStmt : Type 0 where
  pub backups_info_id : ℕ
  pub pending : List (ℕ × JournalStatus × ChangeType)

unfoldable pub new_insert_backup_journal_stmt : ℕ → Str → Sql InsertBackupJournalStmt
unfolding insert_backup_info exec prepare of_result
new_insert_backup_journal_stmt now backup_dir_path = do
  prepare
  result ← exec (insert_backup_info now backup_dir_path)
  backups_info_id ← of_result result
  prepare
  prepare
  pure (record { backups_info_id = backups_info_id; pending = [] })

unfoldable pub insert_backup_journal_row :
    InsertBackupJournalStmt → ℕ → JournalStatus → ChangeType → Sql InsertBackupJournalStmt
unfolding prepare
insert_backup_journal_row ibst dir_ent_id status change_type = do
  prepare
  pure (record ibst { pending = ibst.pending ++ ((dir_ent_id, status, change_type) ∷ []) })

unfoldable pub commit_rows : ℕ → List (ℕ × JournalStatus × ChangeType) → Tables → Tables
commit_rows info_id [] t = t
commit_rows info_id ((dir_ent_id, status, change_type) ∷ pending) t =
    let id = t.backup_journal_seq + 1 in
    let row : JournalRow = record {
      id = id;
      backup_info_id = info_id;
      dir_ent_id = dir_ent_id;
      change_type = change_type;
      index_entry = none;
      status = status;
    } in
    commit_rows info_id pending
      (record t { backup_journal = t.backup_journal ++ (row ∷ []); backup_journal_seq = id })

-- `Close` commits, and ignores an error of the commit.
unfoldable pub close : InsertBackupJournalStmt → Db → Db
unfolding commit_rows update
close ibst db = (update (commit_rows ibst.backups_info_id ibst.pending) db).1

pub record BackupJournalTask : Type 0 where
  pub id : ℕ
  pub dir_ent_id : ℕ
  pub change_type : ChangeType

-- `UPDATE backup_journal SET ... WHERE id = ?`, over the rows.
unfoldable pub update_row : ℕ → (JournalRow → JournalRow) → List JournalRow → List JournalRow
update_row id f [] = []
update_row id f (r ∷ rows) = (if r.id == id then f r else r) ∷ update_row id f rows

abbrev pub set_status : JournalStatus → JournalRow → JournalRow
set_status s r = record r { status = s }

unfoldable pub count_id : ℕ → List JournalRow → ℕ
count_id id [] = 0
count_id id (r ∷ rows) = (if r.id == id then 1 else 0) + count_id id rows

-- The statement, with the number of rows that it changes.
unfoldable pub update_status : JournalStatus → ℕ → Tables → ℕ × Tables
unfolding update_row count_id
update_status s id t = (
  count_id id t.backup_journal,
  record t { backup_journal = update_row id (set_status s) t.backup_journal },
)

abbrev pub claimed : JournalRow → BackupJournalTask
claimed r = record { id = r.id; dir_ent_id = r.dir_ent_id; change_type = r.change_type }

module _ (order : RowOrder JournalRow) where
  unfoldable pub select_next_backup_journal_candidate_task : Sql JournalRow
  unfolding query prepare select
  select_next_backup_journal_candidate_task = do
    prepare
    row ← query (λ t. order.first (select (is_status unstarted) t.backup_journal))
    or_no_rows row

  -- `errors.Is(err, sql.ErrNoRows)` becomes `ErrNoWork`; other errors pass.
  no_rows_is_no_work : DbError → DbError
  no_rows_is_no_work no_rows = no_work
  no_rows_is_no_work e = e

  -- The loop, with the number of rounds that it may take.
  unfoldable pub claim_next_backup_journal_task : ℕ → Sql BackupJournalTask
  unfolding select_next_backup_journal_candidate_task update_status no_rows_is_no_work of_result
  claim_next_backup_journal_task zero db = (err out_of_rounds, db)
  claim_next_backup_journal_task (suc rounds) db =
      elim (select_next_backup_journal_candidate_task db).0 [
        | err e ↦ (err (no_rows_is_no_work e), (select_next_backup_journal_candidate_task db).1)
        | ok r ↦
            (do
              prepare
              result ← exec (update_status in_progress r.id)
              rows_affected ← of_result result
              λ db'.
                  let again = claim_next_backup_journal_task rounds db' in
                  if rows_affected == 1 then (ok (claimed r), db') else again)
              (select_next_backup_journal_candidate_task db).1
      ]
