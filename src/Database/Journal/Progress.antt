-- ===== src/Database/Journal/Progress.antt =====
-- How claims, completions and the reset after a crash move the counts of the journal.
use mathlib.Core.Path.{subst, subst₂}
use tless.Prelude.{
  ℕ, suc, ◌+◌, ◌≤◌, ◌≡◌, refl, sym, ◌∙◌, ap, ◌↔◌, inl, inr, Str, Option, List, [], ◌∷◌, map, arith,
  if◌then◌else◌, length, In,
}
use tless.Database.{
  JournalStatus, unstarted, in_progress, finished, JournalRow, Tables, Db, quiet, ok, RowOrder,
}
use tless.Database.Journal.{
  BackupJournalTask, is_status, same_status, update_row, set_status, claimed,
  claim_next_backup_journal_task,
}
use tless.Database.Journal.Finish.{
  count_status, roll_back, finish, complete_backup_journal_task, get_backup_journal_counts,
  reset_all_in_progress_backup_journal_tasks,
}
use tless.Database.Journal.Rows.{
  IsKeyed, one, count_status-update_row, update_row-IsKeyed, count_status_sum, In-update_row,
}
use tless.Database.Journal.Claim.{claim_next_backup_journal_task_lem}

-- The journal after the row `r` was claimed and then completed.
abbrev pub after_task : Tables → JournalRow → Option Str → Tables
after_task t r entry = record t {
  backup_journal =
      update_row r.id (finish entry) (update_row r.id (set_status in_progress) t.backup_journal);
}

module _ (t : Tables) (r : JournalRow) (entry : Option Str) (k : IsKeyed t)
    (m : In r t.backup_journal) where
  abbrev claimed_row : JournalRow
  claimed_row = record r { status = in_progress }

  task_counts :
      (s : JournalStatus)
      → count_status s (after_task t r entry).backup_journal + one (is_status s r)
        ≡ count_status s t.backup_journal + one (same_status s finished)
  task_counts s =
      let rows = t.backup_journal in
      let rows' = update_row r.id (set_status in_progress) rows in
      let first = count_status-update_row s (set_status in_progress) r rows k.distinct m in
      let keyed = update_row-IsKeyed r.id (set_status in_progress) t (λ q. refl) k in
      let there : In claimed_row rows' = In-update_row (set_status in_progress) r rows m in
      let second =
        count_status-update_row s (finish entry) claimed_row rows' keyed.distinct there in
      omega arith

  after_task-IsKeyed : IsKeyed (after_task t r entry)
  after_task-IsKeyed =
      update_row-IsKeyed r.id (finish entry)
        (record t { backup_journal = update_row r.id (set_status in_progress) t.backup_journal })
        (λ q. refl) (update_row-IsKeyed r.id (set_status in_progress) t (λ q. refl) k)

-- One task was completed: the journal has one unstarted task less and one finished more, and as
-- many in progress as before.
abbrev pub OneTaskDone : Tables → Option Str → BackupJournalTask → Db → Type 0
OneTaskDone t entry task db =
    (t' : Tables) × (complete_backup_journal_task task entry db ≡ (ok tt, quiet t'))
    × IsKeyed t'
    × (count_status unstarted t'.backup_journal + 1 ≡ count_status unstarted t.backup_journal)
    × (count_status in_progress t'.backup_journal ≡ count_status in_progress t.backup_journal)
    × (count_status finished t'.backup_journal ≡ count_status finished t.backup_journal + 1)

-- A claim that returns a task, and the completion of that task, move one row of a keyed journal
-- from unstarted to finished, and leave the journal keyed.
pub claim_then_complete :
    (order : RowOrder JournalRow) (rounds : ℕ) (t : Tables) (entry : Option Str)
    → IsKeyed t
    → (task : BackupJournalTask) (claimed_db : Db)
    → claim_next_backup_journal_task order (suc rounds) (quiet t) ≡ (ok task, claimed_db)
    → OneTaskDone t entry task claimed_db
unfolding complete_backup_journal_task
claim_then_complete order rounds t entry k task db e =
    elim (claim_next_backup_journal_task_lem order rounds t k) [
      | inl (_, none_left) ↦ absurd (cc (sym none_left ∙ e))
      | inr (r, m, st, taken) ↦
          let both = sym taken ∙ e in
          let p : claimed r ≡ task = cc both in
          let q : _ ≡ db = ap (λ x. x.1) both in subst₂ (OneTaskDone t entry) p q (done r m st)
    ]
  where
    moved :
        (r : JournalRow)
        → In r t.backup_journal
        → r.status ≡ unstarted
        → (s : JournalStatus)
        → count_status s (after_task t r entry).backup_journal + one (same_status s unstarted)
          ≡ count_status s t.backup_journal + one (same_status s finished)
    moved r m st s =
        subst
          (λ x.
            count_status s (after_task t r entry).backup_journal + one (same_status s x)
            ≡ count_status s t.backup_journal + one (same_status s finished))
          st (task_counts t r entry k m s)

    done :
        (r : JournalRow)
        → In r t.backup_journal
        → r.status ≡ unstarted
        → OneTaskDone t entry (claimed r) (
            quiet (record t {
              backup_journal = update_row r.id (set_status in_progress) t.backup_journal;
            }))
    done r m st = (
      after_task t r entry,
      refl,
      after_task-IsKeyed t r entry k m,
      omega (arith, moved r m st unstarted),
      omega (arith, moved r m st in_progress),
      omega (arith, moved r m st finished),
    )

pub none_in_progress : (rows : List JournalRow) → count_status in_progress (map roll_back rows) ≡ 0
none_in_progress [] = refl
none_in_progress (r ∷ rows) = ground (arith, none_in_progress rows)

pub unstarted_again :
    (rows : List JournalRow)
    → count_status unstarted (map roll_back rows)
      ≡ count_status unstarted rows + count_status in_progress rows
unstarted_again [] = omega arith
unstarted_again (r ∷ rows) = ground (arith, unstarted_again rows)

finished_stays :
    (rows : List JournalRow) (r : JournalRow)
    → In r rows
    → r.status ≡ finished
    → In r (map roll_back rows)
finished_stays [] r m e = elim m [ ]
finished_stays (q ∷ rows) r (inl p) e = inl (
    p
    ∙ subst (λ s. q ≡ (if same_status in_progress s then record q { status = unstarted } else q))
        (sym (ap (λ (x : JournalRow). x.status) (sym p) ∙ e)) refl)
finished_stays (q ∷ rows) r (inr m) e = inr (finished_stays rows r m e)

-- After a crash: what was in progress is unstarted again, and what was finished stays so.
pub reset_lem :
    (t : Tables)
    → (t' : Tables) × (reset_all_in_progress_backup_journal_tasks (quiet t) ≡ (ok tt, quiet t'))
      × (count_status in_progress t'.backup_journal ≡ 0)
      × (count_status unstarted t'.backup_journal
          ≡ count_status unstarted t.backup_journal + count_status in_progress t.backup_journal)
      × ((r : JournalRow) → In r t.backup_journal → r.status ≡ finished → In r t'.backup_journal)
unfolding reset_all_in_progress_backup_journal_tasks
reset_lem t = (
  record t { backup_journal = map roll_back t.backup_journal },
  refl,
  none_in_progress t.backup_journal,
  unstarted_again t.backup_journal,
  finished_stays t.backup_journal,
)

-- The counts are equal exactly when no task is unstarted or in progress.
pub counts_complete :
    (t : Tables)
    → (get_backup_journal_counts (quiet t)
        ≡ (ok (count_status finished t.backup_journal, length t.backup_journal), quiet t))
      × ((length t.backup_journal ≤ count_status finished t.backup_journal) ↔ (
          (count_status unstarted t.backup_journal ≡ 0)
          × (count_status in_progress t.backup_journal ≡ 0)))
unfolding get_backup_journal_counts
counts_complete t = (refl, omega (arith, count_status_sum t.backup_journal))
