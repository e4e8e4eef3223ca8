-- ===== src/Backup/Journaled/Deleted.antt =====
-- Which tasks the fill of the journal makes of the paths that the walk did not find.
use mathlib.Core.Path.{subst}
use tless.Prelude.{
  ℕ, ◌≡◌, refl, sym, ap, ◌∙◌, inl, inr, Str, true, Option, none, some, List, [], ◌∷◌, ◌++◌, ==_refl,
  select, In, map, drop, length, str_eq, ◌+◌, ◌≤◌, arith, Option-cases, ◌⊎◌,
}
use tless.Util.{slash}
use tless.Util.Strings.{has_prefix, trim_prefix}
use tless.Database.{
  Tables, quiet, ok, RowOrder, DirEntRow, ChangeType, deleted, JournalRow, unstarted,
}
use tless.Database.DirEnts.{has_dir_ent, at_path}
use tless.Database.DirEnts
use tless.Database.Journal.Finish.{count_status}
use tless.Fstraverse.{known_path}
use tless.Backup.Journaled.{deleted_dirent_ids, deleted_rel_path, id_if_found, fill_journal}
use tless.Backup.Journaled.Filled.{
  In-append_right, In-append-cases, IsTask, In-append_left, fill_journal-rows,
}

has_prefix-append : (p s : Str) → has_prefix (p ++ s) p ≡ true
unfolding has_prefix
has_prefix-append [] s = refl
has_prefix-append (c ∷ p) s = rw (==_refl c) (has_prefix-append p s)

drop-append : (p s : Str) → drop (length p) (p ++ s) ≡ s
drop-append [] s = refl
drop-append (c ∷ p) s = drop-append p s

trim_prefix-append : (p s : Str) → trim_prefix (p ++ s) p ≡ s
unfolding trim_prefix
trim_prefix-append p s = rw (has_prefix-append p s) (drop-append p s)

-- The path of a row is taken apart again.
pub deleted_rel_path-path_of :
    (dir rel_path : Str) → deleted_rel_path dir (known_path dir rel_path) ≡ rel_path
deleted_rel_path-path_of dir rel_path =
    rw (trim_prefix-append dir (slash ++ rel_path)) (trim_prefix-append slash rel_path)

module _ (order : RowOrder DirEntRow) (dir : Str) (t : Tables) where
  -- The last backup and the id that the database has for an entry.
  abbrev pub known : Str → Option (ℕ × ℕ)
  known rel_path = DirEnts.found (order.first (select (at_path dir rel_path) t.dirents))

  abbrev ids : List Str → List (ℕ × ChangeType)
  ids gone = (deleted_dirent_ids order dir (map (known_path dir) gone) (quiet t)).0

  ids-cons :
      (rel_path : Str) (gone : List Str)
      → ids (rel_path ∷ gone) ≡ id_if_found (ok (known rel_path)) ++ ids gone
  unfolding deleted_dirent_ids has_dir_ent
  ids-cons rel_path gone =
      ap (λ r. id_if_found (ok (known r)) ++ ids gone) (deleted_rel_path-path_of dir rel_path)

  -- The entry of one of the paths has this id in the database.
  abbrev pub IsGone : List Str → ℕ → Type 0
  IsGone gone id =
      (rel_path : Str) × (last_backup : ℕ) × In rel_path gone
      × (known rel_path ≡ some (last_backup, id))

  IsGone-In : (gone : List Str) (id : ℕ) → IsGone gone id → In (id, deleted) (ids gone)
  IsGone-In [] id (r, l, m, e) = elim m [ ]
  IsGone-In (p ∷ gone) id (r, l, inr m, e) =
      rw (ids-cons p gone) (In-append_right (id, deleted) _ _ (IsGone-In gone id (r, l, m, e)))
  IsGone-In (p ∷ gone) id (r, l, inl same, e) =
      let k : known p ≡ some (l, id) = ap known (sym same) ∙ e in rw (ids-cons p gone, k) (inl refl)

  In-IsGone :
      (gone : List Str) (id : ℕ) (c : ChangeType)
      → In (id, c) (ids gone)
      → (c ≡ deleted) × IsGone gone id
  unfolding deleted_dirent_ids
  In-IsGone [] id c m = elim m [ ]
  In-IsGone (p ∷ gone) id c m =
      let split =
        In-append-cases (id, c) (id_if_found (ok (known p))) (ids gone)
          (subst (In (id, c)) (ids-cons p gone) m) in
      elim split [
        | inr n ↦ let (e, (r, l, there, k)) = In-IsGone gone id c n in (e, (r, l, inr there, k))
        | inl n ↦ looked_up (known p) refl n
      ]
    where
      looked_up :
          (o : Option (ℕ × ℕ))
          → known p ≡ o
          → In (id, c) (id_if_found (ok o))
          → (c ≡ deleted) × IsGone (p ∷ gone) id
      looked_up none k n = elim n [ ]
      looked_up (some (l, i)) k (inl e) =
          (ap (λ x. x.1) e, (p, l, inl refl, k ∙ ap (λ x. some (l, x)) (sym (ap (λ x. x.0) e))))
      looked_up (some (l, i)) k (inr z) = elim z [ ]

  ids-length : (gone : List Str) → length (ids gone) ≤ length gone
  unfolding deleted_dirent_ids
  ids-length [] = omega arith
  ids-length (p ∷ gone) =
      let ih = ids-length gone in
      elim (Option-cases (known p)) [
        | inl e ↦ rw (ids-cons p gone, e) (omega arith)
        | inr (x, e) ↦ rw (ids-cons p gone, e) (omega arith)
      ]

  -- From a database without errors, with the known paths that the walk did not find given by their
  -- paths `gone` below the directory: each item of the walk becomes a row of the journal that is
  -- not started, with its entry and its kind of change; so does each path of `gone` that the
  -- database has an entry for, with that entry, as deleted. The rows that were there stay, each
  -- other row is one of these, and there are not more new ones than items and paths. The directory
  -- entries stay as they are.
  pub fill_journal_lem :
      (now later : ℕ) (path : Str) (queue : List (ℕ × ChangeType)) (gone : List Str)
      → (t' : Tables) × (fill_journal order now later path dir queue
            (map (known_path dir) gone)
            (quiet t)
          ≡ (ok tt, quiet t'))
        × ((r : JournalRow) → In r t.backup_journal → In r t'.backup_journal)
        × ((id : ℕ) (c : ChangeType)
            → In (id, c) queue
            → (r : JournalRow) × In r t'.backup_journal × IsTask id c r)
        × ((id : ℕ)
            → IsGone gone id
            → (r : JournalRow) × In r t'.backup_journal × IsTask id deleted r)
        × ((r : JournalRow)
            → In r t'.backup_journal
            → In r t.backup_journal
              ⊎ (((id : ℕ) × (c : ChangeType) × In (id, c) queue × IsTask id c r)
                  ⊎ ((id : ℕ) × IsGone gone id × IsTask id deleted r)))
        × (count_status unstarted t'.backup_journal
            ≤ count_status unstarted t.backup_journal + length queue + length gone)
        × (t'.dirents ≡ t.dirents)
  fill_journal_lem now later path queue gone =
      let (t', run, old, new, only, counted, kept) =
        fill_journal-rows order now later path dir queue (map (known_path dir) gone) t in
      let few = ids-length gone in
      (
        t',
        run,
        old,
        λ id c m. new id c (In-append_left (id, c) queue (ids gone) m),
        λ id g.
            new id deleted (In-append_right (id, deleted) queue (ids gone) (IsGone-In gone id g)),
        λ r m. elim (only r m) [ inl o ↦ inl o | inr (id, c, n, is) ↦ inr (made id c r n is) ],
        omega (arith, counted, few),
        kept,
      )
    where
      made :
          (id : ℕ) (c : ChangeType) (r : JournalRow)
          → In (id, c) (queue ++ ids gone)
          → IsTask id c r
          → ((i : ℕ) × (d : ChangeType) × In (i, d) queue × IsTask i d r)
            ⊎ ((i : ℕ) × IsGone gone i × IsTask i deleted r)
      made id c r n is = elim (In-append-cases (id, c) queue (ids gone) n) [
        | inl q ↦ inl (id, c, q, is)
        | inr g ↦
            let (e, known_id) = In-IsGone gone id c g in
            inr (id, known_id, subst (λ x. IsTask id x r) e is)
      ]
