-- ===== src/Database/Journal/Claim.antt =====
-- `ClaimNextBackupJournalTask`: one unstarted task goes to in progress, or there is no work.
use mathlib.Core.Path.{subst}
use tless.Prelude.{
  ℕ, suc, ◌≡◌, refl, sym, ◌≢◌, ◌⊎◌, inl, inr, none, List, [], ◌∷◌, arith, Option-cases, nat_eq,
  ==_refl, select, All, In, In-select, All-In,
}
use tless.Database.{unstarted, in_progress, JournalRow, Tables, quiet, no_work, ok, err, RowOrder}
use tless.Database.Journal.{
  is_status, update_row, set_status, count_id, claimed, claim_next_backup_journal_task,
}
use tless.Database.Journal.Rows.{DistinctIds, IsKeyed, status-eq}

count_id_absent :
    (id : ℕ) (rows : List JournalRow)
    → All (λ (q : JournalRow). q.id ≢ id) rows
    → count_id id rows ≡ 0
unfolding count_id
count_id_absent id [] h = refl
count_id_absent id (r ∷ rows) h = ground (arith, count_id_absent id rows h.1)

pub count_id_present :
    (r : JournalRow) (rows : List JournalRow)
    → DistinctIds rows
    → In r rows
    → count_id r.id rows ≡ 1
unfolding count_id
count_id_present r [] d m = elim m [ ]
count_id_present r (q ∷ rows) d (inl e) =
    subst (λ (x : JournalRow). count_id x.id (q ∷ rows) ≡ 1) (sym e)
      (rw (==_refl, count_id_absent q.id rows d.0) (omega arith))
count_id_present r (q ∷ rows) d (inr m) =
    let other = All-In (λ (x : JournalRow). x.id ≢ q.id) rows d.0 m in
    ground (arith, count_id_present r rows d.1 m)

nil_of_none : (order : RowOrder JournalRow) (l : List JournalRow) → order.first l ≡ none → l ≡ []
nil_of_none order [] e = refl
nil_of_none order (r ∷ l) e = absurd (order.first-cons r l e)

module _ (order : RowOrder JournalRow) (rounds : ℕ) (t : Tables) where
  -- On a keyed journal a claim takes one unstarted task, of which it changes the status and
  -- nothing else, or reports that no task is unstarted. It takes one round.
  pub claim_next_backup_journal_task_lem :
      IsKeyed t
      → ((select (is_status unstarted) t.backup_journal ≡ [])
          × (claim_next_backup_journal_task order (suc rounds) (quiet t) ≡ (err no_work, quiet t)))
        ⊎ ((r : JournalRow) × In r t.backup_journal
            × (r.status ≡ unstarted)
            × (claim_next_backup_journal_task order (suc rounds) (quiet t) ≡ (
              ok (claimed r),
              quiet (record t {
                backup_journal = update_row r.id (set_status in_progress) t.backup_journal;
              }),
            )))
  unfolding claim_next_backup_journal_task nat_eq
  claim_next_backup_journal_task_lem k =
      elim (Option-cases (order.first (select (is_status unstarted) t.backup_journal))) [
        | inl e ↦ inl (nil_of_none order _ e, rw (e, claim_next_backup_journal_task) (rw e))
        | inr (r, e) ↦
            let m = (In-select (is_status unstarted) r t.backup_journal).0 (order.first-In _ r e) in
            inr (
              r,
              m.0,
              status-eq unstarted r m.1,
              rw (e, claim_next_backup_journal_task)
                  (rw (e, count_id_present r t.backup_journal k.distinct m.0)),
            )
      ]
