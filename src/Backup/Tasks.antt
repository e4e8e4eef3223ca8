-- ===== src/Backup/Tasks.antt =====
-- `completeTask`: when a journal is taken for complete.
use tless.Prelude.{
  ℕ, ◌+◌, ◌≤◌, ◌<◌, ◌≡◌, refl, ◌⊎◌, inl, inr, ◌↔◌, true, false, Bool-cases, Option, arith, leb,
  length, leb→le, le→leb,
}
use mathlib.Core.Option
use tless.Database.{Tables, quiet, unstarted, in_progress, finished}
use tless.Database.Journal.{BackupJournalTask, update_row}
use tless.Database.Journal.Finish.{
  finish, count_status, complete_backup_journal_task, get_backup_journal_counts,
}
use tless.Database.Journal.Progress.{counts_complete}
use tless.Objstore.{Minio, Cloud}
use tless.Snapshots.{CloudRelPath, Json}
use tless.Backup.{World, check_complete, complete_task}

-- The tables after the task was completed.
abbrev pub completed : Json → BackupJournalTask → Option CloudRelPath → Tables → Tables
completed J bjt crp t = record t {
  backup_journal = update_row bjt.id (finish (Option.map J.to_json crp)) t.backup_journal;
}

abbrev pub IsAllDone : Tables → Type 0
IsAllDone t =
    (count_status unstarted t.backup_journal ≡ 0) × (count_status in_progress t.backup_journal ≡ 0)

complete-IsAllDone :
    (t : Tables)
    → (leb (length t.backup_journal) (count_status finished t.backup_journal) ≡ true) ↔ IsAllDone t
complete-IsAllDone t =
    let h = (counts_complete t).1 in (λ e. h.0 (leb→le _ _ e), λ d. le→leb _ _ (h.1 d))

module _ {M : Minio} (J : Json) (bjt : BackupJournalTask) (crp : Option CloudRelPath) where
  pub complete_task-cloud : (w : World M) → (complete_task J bjt crp w).1.cloud ≡ w.cloud
  unfolding complete_task check_complete
  complete_task-cloud w =
      elim (Bool-cases (leb w.total_cnt_journal (w.finished_count_journal + 1))) [
        | inl e ↦ rw e
        | inr e ↦ rw e
      ]

  -- Without database errors: the task's row is finished, with its entry of the index. Where the
  -- counts in memory leave tasks to do, the journal is not complete and they count one more.
  -- Elsewhere the answer is whether no row is unstarted or in progress, and the counts in memory
  -- become those of the journal.
  pub complete_task_lem :
      (t : Tables) (cloud : Cloud M) (total count : ℕ)
      → let w : World M = record {
        db = quiet t;
        cloud = cloud;
        total_cnt_journal = total;
        finished_count_journal = count;
      } in
        let (complete, w') = complete_task J bjt crp w in
        (w'.db ≡ quiet (completed J bjt crp t))
        × (((count + 1 < total)
              × (complete ≡ false)
              × (w'.finished_count_journal ≡ count + 1)
              × (w'.total_cnt_journal ≡ total))
            ⊎ ((total ≤ count + 1)
                × ((complete ≡ true) ↔ IsAllDone (completed J bjt crp t))
                × (w'.finished_count_journal
                    ≡ count_status finished (completed J bjt crp t).backup_journal)
                × (w'.total_cnt_journal ≡ length (completed J bjt crp t).backup_journal)))
  unfolding complete_task check_complete complete_backup_journal_task get_backup_journal_counts
  complete_task_lem t cloud total count = elim (Bool-cases (leb total (count + 1))) [
    | inl e ↦
        rw e (refl, inr (leb→le _ _ e, complete-IsAllDone (completed J bjt crp t), refl, refl))
    | inr e ↦ rw e (refl, inl (ground arith, refl, refl, refl))
  ]
