-- ===== src/Database/Journal/Undo.antt =====
-- What a cancelation leaves: an empty journal, entries to be backed up again, and the time of the
-- last backup that was completed.
use mathlib.Core.Path.{subst}
use mathlib.Core.Bool.{false≢true}
use tless.Prelude.{
  ℕ, ◌≡◌, refl, sym, ap, ◌∙◌, inl, inr, true, not, List, [], ◌∷◌, map, In, select, select_self,
  contains, nat_eq, length, ltb, if◌then◌else◌, arith, In-select, Bool-cases,
}
use tless.Database.{DirEntRow, BackupInfoRow, JournalRow, Tables, Sql, quiet, ok, ◌>>◌}
use tless.Database.Journal.Finish.{get_count_total_backup_journal, delete_all_rows_backup_journal}
use tless.Database.Journal.Cancel.{
  was_processed, reset_last_backup, max_snapshot_time, get_last_completed_backup_unix_time,
  cancelation_reset_last_backup_time, delete_journaled_backup_info, cancelation_cleanup_journal,
}

-- A statement whose error is only logged.
abbrev pub logged : Sql (Unit {0}) → Sql (Unit {0})
logged m db = (ok tt, (m db).1)

-- The two statements of `cancelBackup` in daemon/backup.go.
abbrev pub undo : Sql (Unit {0})
undo = logged cancelation_reset_last_backup_time >> logged cancelation_cleanup_journal

contains-In : (ids : List ℕ) (id : ℕ) → In id ids → contains ids id ≡ true
unfolding contains
contains-In [] id m = elim m [ ]
contains-In (i ∷ ids) id (inl e) = ground (arith, e)
contains-In (i ∷ ids) id (inr m) = ground (arith, contains-In ids id m)

In-map_inv :
    {A B : Type 0} (f : A → B) (b : B) (xs : List A)
    → In b (map f xs)
    → (a : A) × In a xs × (b ≡ f a)
In-map_inv f b [] m = elim m [ ]
In-map_inv f b (x ∷ xs) (inl e) = (x, inl refl, e)
In-map_inv f b (x ∷ xs) (inr m) = let (a, n, e) = In-map_inv f b xs m in (a, inr n, e)

pub In-map : {A B : Type 0} (f : A → B) (a : A) (xs : List A) → In a xs → In (f a) (map f xs)
In-map f a [] m = elim m [ ]
In-map f a (x ∷ xs) (inl e) = inl (ap f e)
In-map f a (x ∷ xs) (inr m) = inr (In-map f a xs m)

-- The directory entries of the tasks that were begun.
abbrev pub processed_ids : Tables → List ℕ
processed_ids t = map (λ (r : JournalRow). r.dir_ent_id) (select was_processed t.backup_journal)

reset_id : (ids : List ℕ) (d : DirEntRow) → (reset_last_backup ids d).id ≡ d.id
reset_id ids d = elim (Bool-cases (contains ids d.id)) [
  | inl e ↦ rw (e, reset_last_backup) refl
  | inr e ↦ rw (e, reset_last_backup) refl
]

reset_row :
    (ids : List ℕ) (d : DirEntRow)
    → In (reset_last_backup ids d).id ids
    → (reset_last_backup ids d).last_backup ≡ 0
reset_row ids d m = elim (Bool-cases (contains ids d.id)) [
  | inl e ↦ rw (e, reset_last_backup) refl
  | inr e ↦
      let there = contains-In ids d.id (subst (λ x. In x ids) (reset_id ids d) m) in
      absurd (false≢true (sym e ∙ there))
]

last_of :
    (rows : List JournalRow) (infos : List BackupInfoRow)
    → let others =
        select
          (λ (info : BackupInfoRow).
            not (contains (map (λ (r : JournalRow). r.backup_info_id) rows) info.id))
          infos in
      max_snapshot_time others
      ≡ (if ltb 0 (length rows) then max_snapshot_time others else max_snapshot_time infos)
unfolding contains
last_of [] infos = ap max_snapshot_time (select_self _ infos (λ a m. refl))
last_of (r ∷ rows) infos = let e : ltb 0 (length (r ∷ rows)) ≡ true = ground arith in rw e refl

last_same :
    (t : Tables)
    → (get_last_completed_backup_unix_time
        (quiet (record (delete_journaled_backup_info t) { backup_journal = [] }))).0
      ≡ (get_last_completed_backup_unix_time (quiet t)).0
unfolding get_last_completed_backup_unix_time get_count_total_backup_journal
    delete_journaled_backup_info
last_same t = ap ok (last_of t.backup_journal t.backup_info)

-- From a database without errors the undoing leaves no row in the journal, and the time of the
-- last completed backup as it was, and each directory entry of a task that was in progress or
-- finished gets 0 for the time of its last backup.
pub undo_lem :
    (t : Tables)
    → (t' : Tables) × (undo (quiet t) ≡ (ok tt, quiet t'))
      × (t'.backup_journal ≡ [])
      × ((get_last_completed_backup_unix_time (quiet t')).0
          ≡ (get_last_completed_backup_unix_time (quiet t)).0)
      × ((d : DirEntRow) (r : JournalRow)
          → In d t'.dirents
          → In r t.backup_journal
          → was_processed r ≡ true
          → d.id ≡ r.dir_ent_id
          → d.last_backup ≡ 0)
unfolding cancelation_reset_last_backup_time cancelation_cleanup_journal
    delete_all_rows_backup_journal delete_journaled_backup_info get_last_completed_backup_unix_time
    get_count_total_backup_journal
undo_lem t = (
  record t {
    dirents = map (reset_last_backup (processed_ids t)) t.dirents;
    backup_info = (delete_journaled_backup_info t).backup_info;
    backup_journal = [];
  },
  refl,
  refl,
  last_same t,
  λ d r m n p e.
      let (old, _, is) = In-map_inv (reset_last_backup (processed_ids t)) d t.dirents m in
      let listed : In r.dir_ent_id (processed_ids t) =
        In-map (λ (q : JournalRow). q.dir_ent_id) r (select was_processed t.backup_journal)
          ((In-select was_processed r t.backup_journal).1 (n, p)) in
      let here : In (reset_last_backup (processed_ids t) old).id (processed_ids t) =
        subst (λ x. In x (processed_ids t)) (sym e ∙ ap (λ (x : DirEntRow). x.id) is) listed in
      ap (λ (x : DirEntRow). x.last_backup) is ∙ reset_row (processed_ids t) old here,
)
