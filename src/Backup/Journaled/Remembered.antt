-- ===== src/Backup/Journaled/Remembered.antt =====
-- A canceled backup without deletions counts as the last completed one: its second row of
-- backup_info has no row of the journal, and the undoing does not delete it.
use mathlib.Core.Path.{subst}
use tless.Prelude.{
  ℕ, ◌+◌, ◌≡◌, ◌≢◌, ◌≤◌, refl, sym, ap, ◌∙◌, inl, inr, Str, false, not, List, [], ◌∷◌, map, In,
  contains, select, In-select, Bool-cases, ltb, length, nat_eq, arith,
}
use tless.Database.{
  Tables, JournalRow, BackupInfoRow, ChangeType, ok, quiet, RowOrder, DirEntRow, ◌>>◌,
}
use tless.Database.Journal.{commit_rows, insert_backup_info}
use tless.Database.Journal.Finish.{in_journal, get_count_total_backup_journal}
use tless.Database.Journal.Cancel.{max_snapshot_time, get_last_completed_backup_unix_time}
use tless.Database.Journal.Undo.{undo, undo_lem}
use tless.Backup.Journaled.{fill_journal, deleted_dirent_ids}
use tless.Backup.Journaled.Filled.{
  In-append-cases, In-append_last, filled, fill_journal-filled, rows_of, after_insert,
}

max_snapshot_time-le :
    (info : BackupInfoRow) (infos : List BackupInfoRow)
    → In info infos
    → info.snapshot_time ≤ max_snapshot_time infos
unfolding max_snapshot_time
max_snapshot_time-le info [] m = elim m [ ]
max_snapshot_time-le info (i ∷ infos) (inl e) =
    subst (λ (x : BackupInfoRow). x.snapshot_time ≤ max_snapshot_time (i ∷ infos)) (sym e)
      (ground arith)
max_snapshot_time-le info (i ∷ infos) (inr m) = ground (arith, max_snapshot_time-le info infos m)

-- The row of backup_info is there, and no row of the journal is of it.
abbrev IsLoose : BackupInfoRow → Tables → Type 0
IsLoose info t = In info t.backup_info × (in_journal t info ≡ false)

loose_counts :
    (info : BackupInfoRow) (t : Tables)
    → IsLoose info t
    → (m : ℕ) × ((get_last_completed_backup_unix_time (quiet t)).0 ≡ ok m)
      × (info.snapshot_time ≤ m)
unfolding get_last_completed_backup_unix_time get_count_total_backup_journal
loose_counts info t l = (
  _,
  refl,
  elim (Bool-cases (ltb 0 (length t.backup_journal))) [
    | inl e ↦ rw e (
        max_snapshot_time-le info
          (select (λ (x : BackupInfoRow). not (in_journal t x)) t.backup_info)
          ((In-select (λ (x : BackupInfoRow). not (in_journal t x)) info t.backup_info).1
            (l.0, ap not l.1)))
    | inr e ↦ rw e (max_snapshot_time-le info t.backup_info l.0)
  ],
)

absent :
    (k : ℕ) (rows : List JournalRow)
    → ((r : JournalRow) → In r rows → r.backup_info_id ≢ k)
    → contains (map (λ (r : JournalRow). r.backup_info_id) rows) k ≡ false
unfolding contains
absent k [] h = refl
absent k (r ∷ rows) h =
    let n = h r (inl refl) in let rest = absent k rows (λ q m. h q (inr m)) in ground arith

rows_are_of :
    (i : ℕ) (items : List (ℕ × ChangeType)) (t : Tables)
    → ((r : JournalRow) → In r t.backup_journal → r.backup_info_id ≡ i)
    → (r : JournalRow) → In r (commit_rows i (rows_of items) t).backup_journal
    → r.backup_info_id ≡ i
unfolding commit_rows
rows_are_of i [] t h = h
rows_are_of i ((id, c) ∷ items) t h = rows_are_of i items _ (λ r m.
    elim (In-append-cases r t.backup_journal _ m) [
      | inl old ↦ h r old
      | inr (inl e) ↦ ap (λ (x : JournalRow). x.backup_info_id) e
      | inr (inr n) ↦ elim n [ ]
    ])

commit_rows-seq :
    (i : ℕ) (items : List (ℕ × ChangeType)) (t : Tables)
    → (commit_rows i (rows_of items) t).backup_info_seq ≡ t.backup_info_seq
unfolding commit_rows
commit_rows-seq i [] t = refl
commit_rows-seq i ((id, c) ∷ items) t = commit_rows-seq i items _

module _ (order : RowOrder DirEntRow) (now later : ℕ) (path dir : Str)
    (queue : List (ℕ × ChangeType)) (t : Tables) where
  abbrev second_info : BackupInfoRow
  second_info = record {
    id = (after_insert now path queue t).backup_info_seq + 1;
    snapshot_time = later;
    dir_path = path;
  }

  second-IsLoose :
      t.backup_journal ≡ [] → IsLoose second_info (filled order now later path dir queue [] t)
  unfolding deleted_dirent_ids insert_backup_info commit_rows
  second-IsLoose e =
      let t0 = (insert_backup_info now path t).1 in
      let i = t.backup_info_seq + 1 in
      let t1 = after_insert now path queue t in
      let old : (r : JournalRow) → In r t0.backup_journal → r.backup_info_id ≡ i =
        λ r m. elim (subst (In r) e m) [ ] in
      (
        In-append_last t1.backup_info _,
        absent (t1.backup_info_seq + 1) t1.backup_journal (λ r m p.
            let of_first = rows_are_of i queue t0 old r m in
            let seq : t1.backup_info_seq ≡ i = commit_rows-seq i queue t0 in omega arith),
      )

  -- From an empty journal, without database errors: after a walk that found every known path, the
  -- undoing of the backup leaves a last completed backup that is no older than the one undone.
  pub canceled_is_remembered :
      t.backup_journal ≡ []
      → (m : ℕ) × (((fill_journal order now later path dir queue []
              >> undo
              >> get_last_completed_backup_unix_time)
            (quiet t)).0
          ≡ ok m)
        × (later ≤ m)
  canceled_is_remembered e =
      let t' = filled order now later path dir queue [] t in
      let (m, known, le) = loose_counts second_info t' (second-IsLoose e) in
      let (t'', undone, _, same, _) = undo_lem t' in
      let left : (undo (quiet t')).1 ≡ quiet t'' = ap (λ x. x.1) undone in
      (
        m,
        rw (fill_journal-filled order now later path dir queue [] t)
            (ap (λ d. (get_last_completed_backup_unix_time d).0) left ∙ (same ∙ known)),
        le,
      )
