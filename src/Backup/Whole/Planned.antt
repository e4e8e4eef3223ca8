-- ===== src/Backup/Whole/Planned.antt =====
-- What the journal has when its play begins.
use mathlib.Core.Path.{subst}
use tless.Prelude.{
  ℕ, ◌≡◌, ◌≢◌, refl, sym, ap, ◌∙◌, inl, inr, Str, true, false, some, List, [], ◌∷◌, ◌==◌, nat_eq,
  str_eq, ==_refl, Option-cases, select, In, In-select, All, contains, map, ◌&&◌,
}
use tless.Util.{strip_trailing_slashes}
use tless.Database.{
  Db, Tables, quiet, ok, RowOrder, DirEntRow, BackupInfoRow, JournalRow, ChangeType, deleted,
}
use tless.Database.DirEnts.{PastedQueries, IsQuoted, get_all_known_paths, path_of, has_dir_ent}
use tless.Database.Journal.Finish.{get_journaled_backup_info, in_journal}
use tless.Database.Journal.Undo.{In-map}
use tless.Cryptography.{done}
use tless.Fstraverse.{Visit, ReportedEvent, known_path, traverse}
use tless.Fstraverse.Excludes.{Globs}
use tless.Fstraverse.Queued.{IsUndisturbed, IsFound}
use tless.Fstraverse.Inserted.{IsRowOf, IsChange, row-found, traverse_lem}
use tless.Backup.Journaled.{
  Prepared, fatal_error, prepare_journal, fill_journal, deleted_dirent_ids, deleted_rel_path,
  id_if_found, after_info, after_fill,
}
use tless.Backup.Journaled.Filled.{IsTask, In-append_right, fill_journal-rows, In-append_left}
use tless.Backup.Journaled.Deleted.{deleted_rel_path-path_of}
use tless.Backup.Whole.{walked, after_traverse, after_known, prepare_backup}

-- A path whose entry has a row is looked up.
deleted-looked_up :
    (order : RowOrder DirEntRow) (dir rel_path : Str) (u : Tables) (d : DirEntRow)
    (paths : List Str)
    → In (known_path dir rel_path) paths
    → IsRowOf dir rel_path u d
    → (e : DirEntRow) × IsRowOf dir rel_path u e
      × In (e.id, deleted) (deleted_dirent_ids order dir paths (quiet u)).0
unfolding deleted_dirent_ids has_dir_ent
deleted-looked_up order dir r u d [] m row = elim m [ ]
deleted-looked_up order dir r u d (p ∷ paths) (inr m) row =
    let (e, is, there) = deleted-looked_up order dir r u d paths m row in
    (e, is, In-append_right _ _ _ there)
deleted-looked_up order dir r u d (p ∷ paths) (inl same) row =
    let (e, is, looked) = row-found order u dir r d row in
    let path : deleted_rel_path dir p ≡ r =
      ap (deleted_rel_path dir) (sym same) ∙ deleted_rel_path-path_of dir r in
    let looked_up : (has_dir_ent order dir (deleted_rel_path dir p) (quiet u)).0
        ≡ ok (some (e.last_backup, e.id)) =
      rw path looked in
    (
      e,
      is,
      In-append_left (e.id, deleted) _ _
          (subst (λ x. In (e.id, deleted) (id_if_found x)) (sym looked_up) (inl refl)),
    )

info-found :
    (infos : RowOrder BackupInfoRow) (t : Tables)
    → ((get_journaled_backup_info infos (quiet t)).1 ≡ quiet t)
      × (after_info (get_journaled_backup_info infos (quiet t)).0 ≢ fatal_error)
unfolding get_journaled_backup_info
info-found infos t = elim (Option-cases (infos.first (select (in_journal t) t.backup_info))) [
  | inl e ↦ rw e (refl, λ f. cc f)
  | inr (d, e) ↦ rw e (refl, λ f. cc f)
]

known_path-injective : (dir a b : Str) → known_path dir a ≡ known_path dir b → a ≡ b
known_path-injective dir a b e =
    sym (deleted_rel_path-path_of dir a)
    ∙ ap (deleted_rel_path dir) e
    ∙ deleted_rel_path-path_of dir b

known-quiet :
    (E : PastedQueries) (dir : Str) (t : Tables)
    → IsQuoted E
    → contains dir 39 ≡ false
    → get_all_known_paths E dir (quiet t)
      ≡ (done (map path_of (select (λ d. d.root_dir == dir) t.dirents)), quiet t)
unfolding get_all_known_paths
known-quiet E dir t q c = rw (q.selected dir t.dirents c) refl

known-path_of :
    (dir : Str) (t : Tables) (d : DirEntRow)
    → In d t.dirents
    → d.root_dir ≡ dir
    → In (known_path dir d.rel_path) (map path_of (select (λ e. e.root_dir == dir) t.dirents))
known-path_of dir t d m e =
    let in_dir : d.root_dir == dir ≡ true = rw (e, ==_refl dir) refl in
    subst
      (λ x. In (known_path x d.rel_path) (map path_of (select (λ q. q.root_dir == dir) t.dirents)))
      e (In-map path_of d _ ((In-select (λ q. q.root_dir == dir) d t.dirents).1 (m, in_dir)))

prepare_journal-quiet :
    (order : RowOrder DirEntRow) (infos : RowOrder BackupInfoRow) (now later : ℕ) (path dir : Str)
    (queue : List (ℕ × ChangeType)) (prev_paths : List Str) (t t' : Tables)
    → fill_journal order now later path dir queue prev_paths (quiet t) ≡ (ok tt, quiet t')
    → prepare_journal order infos now later path dir queue prev_paths (quiet t)
      ≡ (after_info (get_journaled_backup_info infos (quiet t')).0, quiet t')
unfolding prepare_journal
prepare_journal-quiet order infos now later path dir queue prev_paths t t' e =
    ap (λ r. after_fill infos r.0 r.1) e
    ∙ ap (λ db. (after_info (get_journaled_backup_info infos (quiet t')).0, db))
        (info-found infos t').0

-- The journal has a task of this change for a row of the entry, which has a row.
abbrev pub IsPlanned : Str → Str → ChangeType → Tables → Type 0
IsPlanned dir rel_path change t =
    (d : DirEntRow) × (j : JournalRow) × IsRowOf dir rel_path t d
    × In j t.backup_journal
    × IsTask d.id change j

module _ (E : PastedQueries) (W : Globs) (order : RowOrder DirEntRow)
    (infos : RowOrder BackupInfoRow) (base : Str → Str) where
  -- Without database errors, without a cancelation, over a directory that is there and whose name
  -- has no apostrophe: the preparation of a backup ends and is not a fatal error. Then the journal
  -- has, for each entry that the walk finds below the root and that is not excluded, a task that is
  -- not started for a row of the entry, as updated if the database did not know the entry or its
  -- time is later than the row's last backup and else as unchanged; and for each entry of the
  -- directory that the database had and that the walk did not find, a task that is not started, as
  -- deleted.
  pub prepare_backup_lem :
      (now later : ℕ) (path : Str) (excludes : List Str) (visits : List Visit) (t : Tables)
      → IsQuoted E
      → base path ≡ base (strip_trailing_slashes path)
      → contains (base (strip_trailing_slashes path)) 39 ≡ false
      → All IsUndisturbed visits
      → let root_path = strip_trailing_slashes path in
        let dir = base root_path in
        (events : List ReportedEvent) × (p : Prepared) × (t' : Tables) × (prepare_backup E W order
            infos base now later path excludes visits
            (quiet t)
          ≡ (done (walked events p), quiet t'))
        × (p ≢ fatal_error)
        × ((rel_path : Str) (mtime : ℕ)
            → IsFound W root_path dir excludes rel_path mtime visits
            → (d : DirEntRow) × (change : ChangeType) × (j : JournalRow) × IsRowOf dir rel_path t' d
              × In j t'.backup_journal
              × IsTask d.id change j
              × IsChange order dir rel_path mtime t d change)
        × ((d : DirEntRow)
            → In d t.dirents
            → d.root_dir ≡ dir
            → ((mtime : ℕ) → ¬ IsFound W root_path dir excludes d.rel_path mtime visits)
            → IsPlanned dir d.rel_path deleted t')
  unfolding prepare_backup
  prepare_backup_lem now later path excludes visits t q same c n =
      let root_path = strip_trailing_slashes path in
      let dir = base root_path in
      let paths = map path_of (select (λ d. d.root_dir == dir) t.dirents) in
      let (r, u, walk, stay, queued, missing) =
        traverse_lem W order base path paths excludes visits t n in
      let (t', fill, old, tasks, only, counted, kept) =
        fill_journal-rows order now later path dir r.queue r.not_found u in
      let p = after_info (get_journaled_backup_info infos (quiet t')).0 in
      let rest = λ (name : Str) (ps : List Str) (db : Db).
        after_traverse order infos now later path name
          (traverse W order base path ps excludes visits db) in
      let run : prepare_backup E W order infos base now later path excludes visits (quiet t)
          ≡ (done (walked r.reported_events p), quiet t') =
        ap (λ name. after_known (rest name) (get_all_known_paths E name (quiet t))) same
        ∙ ap (after_known (rest dir)) (known-quiet E dir t q c)
        ∙ ap (after_traverse order infos now later path dir) walk
        ∙ ap (λ x. (done (walked r.reported_events x.0), x.1))
            (prepare_journal-quiet order infos now later path dir r.queue r.not_found u t' fill) in
      (
        r.reported_events,
        p,
        t',
        run,
        (info-found infos t').1,
        λ rel_path mtime f.
            let (d, change, (there, at), m, is) = queued rel_path mtime f in
            let (j, m', task) = tasks d.id change (In-append_left (d.id, change) r.queue _ m) in
            (d, change, j, (subst (In d) (sym kept) there, at), m', task, is),
        λ d m e absent.
            let known = known-path_of dir t d m e in
            let gone : In (known_path dir d.rel_path) r.not_found =
              (missing (known_path dir d.rel_path)).1 (
                known,
                λ rel_path mtime f same_path. absent mtime (
                    subst (λ x. IsFound W root_path dir excludes x mtime visits)
                      (sym (known_path-injective dir d.rel_path rel_path same_path)) f),
              ) in
            let at : (d.root_dir == dir) && (d.rel_path == d.rel_path) ≡ true =
              rw (e, ==_refl dir, ==_refl d.rel_path) refl in
            let (x, (there, is), queued_deleted) =
              deleted-looked_up order dir d.rel_path u d r.not_found gone (stay d m, at) in
            let (j, m', task) =
              tasks x.id deleted (In-append_right (x.id, deleted) r.queue _ queued_deleted) in
            (x, j, (subst (In x) (sym kept) there, is), m', task),
      )
