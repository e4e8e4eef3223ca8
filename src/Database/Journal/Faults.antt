-- ===== src/Database/Journal/Faults.antt =====
-- A claim under errors of the driver.
use mathlib.Core.Path.{subst}
use tless.Prelude.{
  In, ℕ, suc, ◌≡◌, ap, In-select, refl, ◌⊎◌, inl, inr, Bool, true, false, none, some, List, [], ◌∷◌,
  Option-cases, select, nat_eq,
}
use tless.Database.{unstarted, in_progress, JournalRow, Tables, Db, RowOrder, err, DbError}
use tless.Database.Journal.Claim.{count_id_present}
use tless.Database.Journal.{
  count_id, update_row, set_status, is_status, claim_next_backup_journal_task,
}
use tless.Database.Journal.Rows.{IsKeyed, status-eq}

-- What a claim that fails with these faults leaves: the tables as they were, or, where the fifth
-- call of the driver fails, which is `RowsAffected`, the task that it had found in progress.
abbrev pub IsLeft : Tables → List Bool → Tables → Type 0
IsLeft t faults u =
    (u ≡ t)
    ⊎ ((r : JournalRow) × (rest : List Bool) × In r t.backup_journal
        × (r.status ≡ unstarted)
        × (faults ≡ false ∷ false ∷ false ∷ false ∷ true ∷ rest)
        × (u ≡ record t {
          backup_journal = update_row r.id (set_status in_progress) t.backup_journal;
        }))

module _ (order : RowOrder JournalRow) (rounds : ℕ) (t : Tables) where
  abbrev IsSafe : List Bool → Type 0
  IsSafe faults =
      let (r, db') =
        claim_next_backup_journal_task order (suc rounds)
          (record { tables = t; faults = faults }) in
      (e : DbError) → r ≡ err e → IsLeft t faults db'.tables

  abbrev IsFound : JournalRow → Type 0
  IsFound r =
      (order.first (select (is_status unstarted) t.backup_journal) ≡ some r)
      × (count_id r.id t.backup_journal ≡ 1)
      × In r t.backup_journal
      × (r.status ≡ unstarted)

  -- The task that the query finds, if any, whose id one row has.
  IsFound-cases :
      IsKeyed t
      → (order.first (select (is_status unstarted) t.backup_journal) ≡ none)
        ⊎ ((r : JournalRow) × IsFound r)
  IsFound-cases k =
      elim (Option-cases (order.first (select (is_status unstarted) t.backup_journal))) [
        | inl e ↦ inl e
        | inr (r, e) ↦
            let m = (In-select (is_status unstarted) r t.backup_journal).0 (order.first-In _ r e) in
            inr (
              r,
              (
                e,
                count_id_present r t.backup_journal k.distinct m.0,
                m.0,
                status-eq unstarted r m.1,
              ),
            )
      ]

  none_found :
      (faults : List Bool)
      → order.first (select (is_status unstarted) t.backup_journal) ≡ none
      → IsSafe faults
  unfolding claim_next_backup_journal_task
  none_found [] n = rw (n, claim_next_backup_journal_task) (rw n (λ e h. inl refl))
  none_found (true ∷ fs) n = λ e h. inl refl
  none_found (false ∷ []) n = rw (n, claim_next_backup_journal_task) (rw n (λ e h. inl refl))
  none_found (false ∷ true ∷ fs) n = λ e h. inl refl
  none_found (false ∷ false ∷ fs) n =
      rw (n, claim_next_backup_journal_task) (rw n (λ e h. inl refl))

  one_found : (faults : List Bool) (r : JournalRow) → IsFound r → IsSafe faults
  unfolding claim_next_backup_journal_task nat_eq
  one_found [] r (q, c, m, u) =
      rw (q, claim_next_backup_journal_task) (rw (q, c) (λ e h. absurd (cc h)))
  one_found (true ∷ fs) r f = λ e h. inl refl
  one_found (false ∷ []) r (q, c, m, u) =
      rw (q, claim_next_backup_journal_task) (rw (q, c) (λ e h. absurd (cc h)))
  one_found (false ∷ true ∷ fs) r f = λ e h. inl refl
  one_found (false ∷ false ∷ []) r (q, c, m, u) =
      rw (q, claim_next_backup_journal_task) (rw (q, c) (λ e h. absurd (cc h)))
  one_found (false ∷ false ∷ true ∷ fs) r (q, c, m, u) =
      rw (q, claim_next_backup_journal_task) (rw q (λ e h. inl refl))
  one_found (false ∷ false ∷ false ∷ []) r (q, c, m, u) =
      rw (q, claim_next_backup_journal_task) (rw (q, c) (λ e h. absurd (cc h)))
  one_found (false ∷ false ∷ false ∷ true ∷ fs) r (q, c, m, u) =
      rw (q, claim_next_backup_journal_task) (rw q (λ e h. inl refl))
  one_found (false ∷ false ∷ false ∷ false ∷ []) r (q, c, m, u) =
      rw (q, claim_next_backup_journal_task) (rw (q, c) (λ e h. absurd (cc h)))
  one_found (false ∷ false ∷ false ∷ false ∷ false ∷ fs) r (q, c, m, u) =
      rw (q, claim_next_backup_journal_task) (rw (q, c) (λ e h. absurd (cc h)))
  one_found (false ∷ false ∷ false ∷ false ∷ true ∷ fs) r (q, c, m, u) =
      rw (q, claim_next_backup_journal_task) (rw q (λ e h. inr (r, fs, m, u, refl, refl)))

-- A claim from a keyed journal that returns an error, whichever calls of the driver fail, has
-- changed no table; but where the call that fails is `RowsAffected`, the task that was found is in
-- progress, though no one has claimed it.
pub claim_error_lem :
    (order : RowOrder JournalRow) (rounds : ℕ) (t : Tables) (faults : List Bool) (e : DbError)
    (db' : Db)
    → IsKeyed t
    → claim_next_backup_journal_task order (suc rounds) (record { tables = t; faults = faults })
      ≡ (err e, db')
    → IsLeft t faults db'.tables
claim_error_lem order rounds t faults e db' k h =
    let safe : IsSafe order rounds t faults = elim (IsFound-cases order rounds t k) [
      | inl n ↦ none_found order rounds t faults n
      | inr (r, f) ↦ one_found order rounds t faults r f
    ] in
    subst (IsLeft t faults) (ap (λ x. x.1.tables) h) (safe e (ap (λ x. x.0) h))
