-- ===== src/Backup/Journaled/Filled.antt =====
-- The journal after it was filled, and what a cancelation makes of it.
use mathlib.Core.List.{append-nil}
use tless.Prelude.{
  ℕ, ◌+◌, ◌≡◌, ◌⊎◌, refl, sym, ap, ◌∙◌, inl, inr, Str, List, [], ◌∷◌, ◌++◌, In, length, append-cons,
  arith,
}
use tless.Database.{
  Tables, JournalRow, JournalStatus, unstarted, ChangeType, ok, quiet, RowOrder, DirEntRow,
}
use tless.Database.Journal.{
  commit_rows, new_insert_backup_journal_stmt, insert_backup_journal_row, close, insert_backup_info,
}
use tless.Database.Journal.Finish.{count_status}
use tless.Database.DirEnts.{has_dir_ent}
use tless.Backup.Journaled.{insert_rows, bulk_insert, deleted_dirent_ids, fill_journal}

abbrev pub rows_of : List (ℕ × ChangeType) → List (ℕ × JournalStatus × ChangeType)
rows_of [] = []
rows_of ((id, c) ∷ items) = (id, unstarted, c) ∷ rows_of items

insert_rows-quiet :
    (t : Tables) (info_id : ℕ) (pending : List (ℕ × JournalStatus × ChangeType))
    (items : List (ℕ × ChangeType))
    → insert_rows (record { backups_info_id = info_id; pending = pending }) items (quiet t)
      ≡ (ok (record { backups_info_id = info_id; pending = pending ++ rows_of items }), quiet t)
unfolding insert_rows insert_backup_journal_row
insert_rows-quiet t info_id pending [] =
    ap (λ p. (ok (record { backups_info_id = info_id; pending = p }), quiet t))
      (sym (append-nil pending))
insert_rows-quiet t info_id pending ((id, c) ∷ items) =
    insert_rows-quiet t info_id (pending ++ ((id, unstarted, c) ∷ [])) items
    ∙ ap (λ p. (ok (record { backups_info_id = info_id; pending = p }), quiet t))
        (append-cons pending (id, unstarted, c) (rows_of items))

bulk_insert-quiet :
    (now : ℕ) (dir : Str) (items : List (ℕ × ChangeType)) (t : Tables)
    → bulk_insert now dir items (quiet t) ≡ (
      ok tt,
      quiet (commit_rows (t.backup_info_seq + 1) (rows_of items) (insert_backup_info now dir t).1),
    )
unfolding bulk_insert new_insert_backup_journal_stmt close
bulk_insert-quiet now dir items t =
    rw (insert_rows-quiet (insert_backup_info now dir t).1 (t.backup_info_seq + 1) [] items) refl

abbrev pub after_insert : ℕ → Str → List (ℕ × ChangeType) → Tables → Tables
after_insert now dir items t =
    commit_rows (t.backup_info_seq + 1) (rows_of items) (insert_backup_info now dir t).1

-- The paths are looked up without a change.
deleted-quiet :
    (order : RowOrder DirEntRow) (dir : Str) (paths : List Str) (t : Tables)
    → (deleted_dirent_ids order dir paths (quiet t)).1 ≡ quiet t
unfolding deleted_dirent_ids has_dir_ent
deleted-quiet order dir [] t = refl
deleted-quiet order dir (path ∷ paths) t = deleted-quiet order dir paths t

count_status-append :
    (s : JournalStatus) (xs ys : List JournalRow)
    → count_status s (xs ++ ys) ≡ count_status s xs + count_status s ys
count_status-append s [] ys = omega arith
count_status-append s (x ∷ xs) ys = omega (arith, count_status-append s xs ys)

pub In-append_left : {A : Type 0} (a : A) (xs ys : List A) → In a xs → In a (xs ++ ys)
In-append_left a [] ys m = elim m [ ]
In-append_left a (x ∷ xs) ys (inl e) = inl e
In-append_left a (x ∷ xs) ys (inr m) = inr (In-append_left a xs ys m)

pub In-append_last : {A : Type 0} (xs : List A) (y : A) → In y (xs ++ (y ∷ []))
In-append_last [] y = inl refl
In-append_last (x ∷ xs) y = inr (In-append_last xs y)

-- A row of a new task.
abbrev pub IsTask : ℕ → ChangeType → JournalRow → Type 0
IsTask id c r = (r.dir_ent_id ≡ id) × (r.change_type ≡ c) × (r.status ≡ unstarted)

commit_rows-old :
    (i : ℕ) (items : List (ℕ × ChangeType)) (t : Tables) (r : JournalRow)
    → In r t.backup_journal
    → In r (commit_rows i (rows_of items) t).backup_journal
unfolding commit_rows
commit_rows-old i [] t r m = m
commit_rows-old i ((id, c) ∷ items) t r m =
    commit_rows-old i items _ r (In-append_left r t.backup_journal _ m)

commit_rows-new :
    (i : ℕ) (items : List (ℕ × ChangeType)) (t : Tables) (id : ℕ) (c : ChangeType)
    → In (id, c) items
    → (r : JournalRow) × In r (commit_rows i (rows_of items) t).backup_journal × IsTask id c r
unfolding commit_rows
commit_rows-new i [] t id c m = elim m [ ]
commit_rows-new i ((j, k) ∷ items) t id c (inl e) = (
  _,
  commit_rows-old i items _ _ (In-append_last t.backup_journal _),
  (sym (ap (λ x. x.0) e), sym (ap (λ x. x.1) e), refl),
)
commit_rows-new i ((j, k) ∷ items) t id c (inr m) = commit_rows-new i items _ id c m

pub In-append-cases : {A : Type 0} (a : A) (xs ys : List A) → In a (xs ++ ys) → In a xs ⊎ In a ys
In-append-cases a [] ys m = inr m
In-append-cases a (x ∷ xs) ys (inl e) = inl (inl e)
In-append-cases a (x ∷ xs) ys (inr m) = elim (In-append-cases a xs ys m) [
  | inl l ↦ inl (inr l)
  | inr r ↦ inr r
]

pub In-append_right : {A : Type 0} (a : A) (xs ys : List A) → In a ys → In a (xs ++ ys)
In-append_right a [] ys m = m
In-append_right a (x ∷ xs) ys m = inr (In-append_right a xs ys m)

commit_rows-cases :
    (i : ℕ) (items : List (ℕ × ChangeType)) (t : Tables) (r : JournalRow)
    → In r (commit_rows i (rows_of items) t).backup_journal
    → In r t.backup_journal ⊎ ((id : ℕ) × (c : ChangeType) × In (id, c) items × IsTask id c r)
unfolding commit_rows
commit_rows-cases i [] t r m = inl m
commit_rows-cases i ((id, c) ∷ items) t r m = elim (commit_rows-cases i items _ r m) [
  | inr (k, d, n, is) ↦ inr (k, d, inr n, is)
  | inl n ↦ elim (In-append-cases r t.backup_journal _ n) [
    | inl old ↦ inl old
    | inr (inl e) ↦ inr (
      id,
      c,
      inl refl,
      (ap (λ x. x.dir_ent_id) e, ap (λ x. x.change_type) e, ap (λ x. x.status) e),
    )
    | inr (inr z) ↦ elim z [ ]
  ]
]

commit_rows-unstarted :
    (i : ℕ) (items : List (ℕ × ChangeType)) (t : Tables)
    → count_status unstarted (commit_rows i (rows_of items) t).backup_journal
      ≡ count_status unstarted t.backup_journal + length items
unfolding commit_rows
commit_rows-unstarted i [] t = omega arith
commit_rows-unstarted i ((id, c) ∷ items) t =
    rw (commit_rows-unstarted i items, count_status-append) (omega arith)

pub commit_rows-dirents :
    (i : ℕ) (items : List (ℕ × ChangeType)) (t : Tables)
    → (commit_rows i (rows_of items) t).dirents ≡ t.dirents
unfolding commit_rows
commit_rows-dirents i [] t = refl
commit_rows-dirents i ((id, c) ∷ items) t = commit_rows-dirents i items _

pub deleted-dirents :
    (order : RowOrder DirEntRow) (dir : Str) (paths : List Str) (t u : Tables)
    → t.dirents ≡ u.dirents
    → (deleted_dirent_ids order dir paths (quiet t)).0
      ≡ (deleted_dirent_ids order dir paths (quiet u)).0
unfolding deleted_dirent_ids has_dir_ent
deleted-dirents order dir [] t u e = refl
deleted-dirents order dir (path ∷ paths) t u e = rw (deleted-dirents order dir paths t u e, e) refl

-- The tables after the journal was filled.
abbrev pub filled :
    RowOrder DirEntRow → ℕ → ℕ → Str → Str → List (ℕ × ChangeType) → List Str → Tables → Tables
filled order now later path dir queue prev_paths t =
    let t1 = after_insert now path queue t in
    after_insert later path (deleted_dirent_ids order dir prev_paths (quiet t1)).0 t1

pub fill_journal-filled :
    (order : RowOrder DirEntRow) (now later : ℕ) (path dir : Str) (queue : List (ℕ × ChangeType))
    (prev_paths : List Str) (t : Tables)
    → fill_journal order now later path dir queue prev_paths (quiet t)
      ≡ (ok tt, quiet (filled order now later path dir queue prev_paths t))
unfolding fill_journal
fill_journal-filled order now later path dir queue prev_paths t =
    let t1 = after_insert now path queue t in
    rw (bulk_insert-quiet now path queue t, deleted-quiet order dir prev_paths t1)
      (bulk_insert-quiet later path (deleted_dirent_ids order dir prev_paths (quiet t1)).0 t1)

-- The rows that the fill makes, by what it looked up.
pub fill_journal-rows :
    (order : RowOrder DirEntRow) (now later : ℕ) (path dir : Str) (queue : List (ℕ × ChangeType))
    (prev_paths : List Str) (t : Tables)
    → let ids = (deleted_dirent_ids order dir prev_paths (quiet t)).0 in
      (t' : Tables) × (fill_journal order now later path dir queue prev_paths (quiet t)
        ≡ (ok tt, quiet t'))
      × ((r : JournalRow) → In r t.backup_journal → In r t'.backup_journal)
      × ((id : ℕ) (c : ChangeType)
          → In (id, c) (queue ++ ids)
          → (r : JournalRow) × In r t'.backup_journal × IsTask id c r)
      × ((r : JournalRow)
          → In r t'.backup_journal
          → In r t.backup_journal
            ⊎ ((id : ℕ) × (c : ChangeType) × In (id, c) (queue ++ ids) × IsTask id c r))
      × (count_status unstarted t'.backup_journal
          ≡ count_status unstarted t.backup_journal + length queue + length ids)
      × (t'.dirents ≡ t.dirents)
unfolding insert_backup_info
fill_journal-rows order now later path dir queue prev_paths t =
    let t0 = (insert_backup_info now path t).1 in
    let i = t.backup_info_seq + 1 in
    let t1 = after_insert now path queue t in
    let ids = (deleted_dirent_ids order dir prev_paths (quiet t1)).0 in
    let u0 = (insert_backup_info later path t1).1 in
    let j = t1.backup_info_seq + 1 in
    let same : (deleted_dirent_ids order dir prev_paths (quiet t)).0 ≡ ids =
      deleted-dirents order dir prev_paths t t1 (sym (commit_rows-dirents i queue t0)) in
    rw same (
      filled order now later path dir queue prev_paths t,
      fill_journal-filled order now later path dir queue prev_paths t,
      λ r m. commit_rows-old j ids u0 r (commit_rows-old i queue t0 r m),
      λ id c m. elim (In-append-cases (id, c) queue ids m) [
        | inl q ↦
            let (r, n, is) = commit_rows-new i queue t0 id c q in
            (r, commit_rows-old j ids u0 r n, is)
        | inr d ↦ commit_rows-new j ids u0 id c d
      ],
      λ r m. elim (commit_rows-cases j ids u0 r m) [
        | inr (id, c, d, is) ↦ inr (id, c, In-append_right (id, c) queue ids d, is)
        | inl n ↦ elim (commit_rows-cases i queue t0 r n) [
          | inr (id, c, q, is) ↦ inr (id, c, In-append_left (id, c) queue ids q, is)
          | inl old ↦ inl old
        ]
      ],
      commit_rows-unstarted j ids u0 ∙ ap (λ k. k + length ids) (commit_rows-unstarted i queue t0),
      commit_rows-dirents j ids u0 ∙ commit_rows-dirents i queue t0,
    )
