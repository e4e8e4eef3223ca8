-- ===== src/Tests/Journal.antt =====
-- The journal: one row finished, one in progress, one unstarted.
use tless.Prelude.{
  nat_eq, ◌+◌, ◌≡◌, ◌≤◌, ◌↔◌, ◌⊎◌, refl, some, codes, [], length, select, In, true, false, ◌∷◌,
  Bool, List,
}
use tless.Database.{
  Db, JournalRow, Tables, quiet, ok, err, no_work, unstarted, in_progress, finished, sql_error,
}
use tless.Database.Journal.{
  is_status, claimed, set_status, update_row, claim_next_backup_journal_task,
}
use tless.Database.Journal.Finish.{
  count_status, reset_all_in_progress_backup_journal_tasks, get_backup_journal_counts,
}
use tless.Database.Journal.Claim.{claim_next_backup_journal_task_lem}
use tless.Database.Journal.Progress.{OneTaskDone, claim_then_complete, reset_lem, counts_complete}
use tless.Database.Journal.Faults.{IsLeft, claim_error_lem}
use tless.Tests.Data.{in_table_order, row_waiting, tables, tables-IsKeyed}

abbrev claimed_db : Db
claimed_db =
    quiet (record tables {
      backup_journal = update_row 3 (set_status in_progress) tables.backup_journal;
    })

claim_run :
    claim_next_backup_journal_task in_table_order 1 (quiet tables)
    ≡ (ok (claimed row_waiting), claimed_db)
unfolding claim_next_backup_journal_task nat_eq
claim_run = refl

claim_next_backup_journal_task_example :
    ((select (is_status unstarted) tables.backup_journal ≡ [])
      × (claim_next_backup_journal_task in_table_order 1 (quiet tables)
          ≡ (err no_work, quiet tables)))
    ⊎ ((r : JournalRow) × In r tables.backup_journal
        × (r.status ≡ unstarted)
        × (claim_next_backup_journal_task in_table_order 1 (quiet tables) ≡ (
          ok (claimed r),
          quiet (record tables {
            backup_journal = update_row r.id (set_status in_progress) tables.backup_journal;
          }),
        )))
claim_next_backup_journal_task_example =
    claim_next_backup_journal_task_lem in_table_order 0 tables tables-IsKeyed

claim_then_complete_example :
    OneTaskDone tables (some (codes "{}")) (claimed row_waiting) claimed_db
claim_then_complete_example =
    claim_then_complete in_table_order 0 tables (some (codes "{}")) tables-IsKeyed
      (claimed row_waiting) claimed_db claim_run

reset_example :
    (t' : Tables) × (reset_all_in_progress_backup_journal_tasks (quiet tables) ≡ (ok tt, quiet t'))
    × (count_status in_progress t'.backup_journal ≡ 0)
    × (count_status unstarted t'.backup_journal
        ≡ count_status unstarted tables.backup_journal
          + count_status in_progress tables.backup_journal)
    × ((r : JournalRow) → In r tables.backup_journal → r.status ≡ finished → In r t'.backup_journal)
reset_example = reset_lem tables

counts_complete_example :
    (get_backup_journal_counts (quiet tables) ≡ (
      ok (count_status finished tables.backup_journal, length tables.backup_journal),
      quiet tables,
    ))
    × ((length tables.backup_journal ≤ count_status finished tables.backup_journal) ↔ (
        (count_status unstarted tables.backup_journal ≡ 0)
        × (count_status in_progress tables.backup_journal ≡ 0)))
counts_complete_example = counts_complete tables

-- The statement that writes the status succeeds, and `RowsAffected` fails.
abbrev faults : List Bool
faults = false ∷ false ∷ false ∷ false ∷ true ∷ []

abbrev after_claim : Tables
after_claim = record tables {
  backup_journal = update_row 3 (set_status in_progress) tables.backup_journal;
}

claim_fault_run :
    claim_next_backup_journal_task in_table_order 1 (record { tables = tables; faults = faults })
    ≡ (err sql_error, quiet after_claim)
unfolding claim_next_backup_journal_task nat_eq
claim_fault_run = refl

claim_error_example : IsLeft tables faults after_claim
claim_error_example =
    claim_error_lem in_table_order 0 tables faults sql_error (quiet after_claim) tables-IsKeyed
      claim_fault_run
