-- ===== src/Fstraverse/Inserted.antt =====
-- `Traverse` without database errors: every entry that was found has a row and is queued.
use mathlib.Core.Path.{subst}
use mathlib.Core.List.{append-nil}
use tless.Prelude.{
  ℕ, ◌≡◌, ◌≢◌, refl, sym, ap, ◌∙◌, ◌⊎◌, inl, inr, Str, true, ◌&&◌, Option, none, some, List, [],
  ◌∷◌, ◌++◌, ◌↔◌, ◌==◌, ==_refl, str_eq, Option-cases, select, In, In-select, All, append-cons, ltb,
  Bool-cases, arith, ◌<◌, ◌≤◌,
}
use tless.Database.{Db, Tables, quiet, ok, RowOrder, DirEntRow, ChangeType, updated, unchanged}
use tless.Database.DirEnts
use tless.Database.DirEnts.{
  DirEntInserts, has_dir_ent, at_path, new_insert_dir_ent_stmt, insert_dir_ent, insert_dir_ent_row,
  commit_dir_ents, close_dir_ents,
}
use tless.Cryptography.{Outcome, done}
use tless.Util.{strip_trailing_slashes}
use tless.Backup.Journaled.Filled.{In-append_last, In-append_left}
use tless.Fstraverse.Excludes.{Globs}
use tless.Fstraverse.{
  Visit, Walk, Traversal, goes_on, change_of, known_path, insert_pending,
  do_pending_dir_entry_inserts, queue_inserted, id_or_zero, after_walk, traverse,
}
use tless.Fstraverse.Walked.{known, IsWalked}
use tless.Fstraverse.Queued.{IsUndisturbed, IsFound, walk_dir_lem}

abbrev triples : List (Str × Str) → DirEntInserts
triples [] = []
triples ((dir, path) ∷ inserts) = (dir, path, 0) ∷ triples inserts

insert_pending-quiet :
    (t : Tables) (inserts : List (Str × Str)) (idst : DirEntInserts)
    → insert_pending inserts idst (quiet t) ≡ (ok (idst ++ triples inserts), quiet t)
unfolding insert_pending insert_dir_ent
insert_pending-quiet t [] idst = ap (λ l. (ok l, quiet t)) (sym (append-nil idst))
insert_pending-quiet t ((dir, path) ∷ inserts) idst =
    insert_pending-quiet t inserts (idst ++ ((dir, path, 0) ∷ []))
    ∙ ap (λ l. (ok l, quiet t)) (append-cons idst (dir, path, 0) (triples inserts))

do_pending-quiet :
    (t : Tables) (inserts : List (Str × Str))
    → do_pending_dir_entry_inserts inserts (quiet t) ≡ quiet (commit_dir_ents (triples inserts) t)
unfolding do_pending_dir_entry_inserts new_insert_dir_ent_stmt close_dir_ents
do_pending-quiet t inserts = rw (insert_pending-quiet t inserts []) refl

-- A row of the entry.
abbrev pub IsRowOf : Str → Str → Tables → DirEntRow → Type 0
IsRowOf dir path t d = In d t.dirents × (at_path dir path d ≡ true)

rows_stay :
    (inserts : DirEntInserts) (t : Tables) (d : DirEntRow)
    → In d t.dirents
    → In d (commit_dir_ents inserts t).dirents
unfolding commit_dir_ents insert_dir_ent_row
rows_stay [] t d m = m
rows_stay ((dir, path, l) ∷ inserts) t d m =
    rows_stay inserts (insert_dir_ent_row dir path l t) d (In-append_left d t.dirents _ m)

row_inserted :
    (inserts : List (Str × Str)) (t : Tables) (dir path : Str)
    → In (dir, path) inserts
    → (d : DirEntRow) × IsRowOf dir path (commit_dir_ents (triples inserts) t) d
unfolding commit_dir_ents insert_dir_ent_row
row_inserted [] t dir path m = elim m [ ]
row_inserted ((dir0, path0) ∷ inserts) t dir path (inr m) =
    row_inserted inserts (insert_dir_ent_row dir0 path0 0 t) dir path m
row_inserted ((dir0, path0) ∷ inserts) t dir path (inl e) =
    let same_dir : dir ≡ dir0 = ap (λ x. x.0) e in
    let same_path : path ≡ path0 = ap (λ x. x.1) e in
    let both : (dir0 == dir) && (path0 == path) ≡ true =
      rw (same_dir, same_path, ==_refl dir0, ==_refl path0) refl in
    (
      _,
      (
        rows_stay (triples inserts) (insert_dir_ent_row dir0 path0 0 t) _
            (In-append_last t.dirents _),
        both,
      ),
    )

no_row :
    (order : RowOrder DirEntRow) (rows : List DirEntRow) (d : DirEntRow)
    → In d rows
    → order.first rows ≢ none
no_row order [] d m e = elim m [ ]
no_row order (r ∷ rows) d m e = order.first-cons r rows e

module _ (order : RowOrder DirEntRow) (u : Tables) where
  -- An entry with a row is found by its paths.
  pub row-found :
      (dir path : Str) (d : DirEntRow)
      → IsRowOf dir path u d
      → (e : DirEntRow) × IsRowOf dir path u e
        × ((has_dir_ent order dir path (quiet u)).0 ≡ ok (some (e.last_backup, e.id)))
  unfolding has_dir_ent
  row-found dir path d (m, p) =
      let rows = select (at_path dir path) u.dirents in
      let there = (In-select (at_path dir path) d u.dirents).1 (m, p) in
      elim (Option-cases (order.first rows)) [
        | inr (e, f) ↦
            (e, (In-select (at_path dir path) e u.dirents).0 (order.first-In rows e f), rw f refl)
        | inl n ↦ absurd (no_row order rows d there n)
      ]

  queued_stay :
      (inserts : List (Str × Str)) (queue : List (ℕ × ChangeType)) (x : ℕ × ChangeType)
      → In x queue
      → In x (queue_inserted order inserts queue (quiet u)).0
  unfolding queue_inserted has_dir_ent
  queued_stay [] queue x m = m
  queued_stay ((dir, path) ∷ inserts) queue x m =
      queued_stay inserts _ x (In-append_left x queue _ m)

  all_queued :
      (inserts : List (Str × Str)) (queue : List (ℕ × ChangeType)) (dir path : Str) (d : DirEntRow)
      → In (dir, path) inserts
      → IsRowOf dir path u d
      → (e : DirEntRow) × IsRowOf dir path u e
        × In (e.id, updated) (queue_inserted order inserts queue (quiet u)).0
  unfolding queue_inserted
  all_queued [] queue dir path d m row = elim m [ ]
  all_queued ((dir0, path0) ∷ inserts) queue dir path d (inr m) row =
      all_queued inserts _ dir path d m row
  all_queued ((dir0, path0) ∷ inserts) queue dir path d (inl p) row =
      let same_dir : dir ≡ dir0 = ap (λ x. x.0) p in
      let same_path : path ≡ path0 = ap (λ x. x.1) p in
      let (e, row', looked) = row-found dir path d row in
      let looked_up : (has_dir_ent order dir0 path0 (quiet u)).0 ≡ ok (some (e.last_backup, e.id)) =
        rw (← same_dir, ← same_path) looked in
      (
        e,
        row',
        queued_stay inserts _ _ (
            subst (λ r. In (e.id, updated) (queue ++ ((id_or_zero r, updated) ∷ [])))
              (sym looked_up) (In-append_last queue (e.id, updated))),
      )

  queue-quiet :
      (inserts : List (Str × Str)) (queue : List (ℕ × ChangeType))
      → (queue_inserted order inserts queue (quiet u)).1 ≡ quiet u
  unfolding queue_inserted has_dir_ent
  queue-quiet [] queue = refl
  queue-quiet ((dir, path) ∷ inserts) queue = queue-quiet inserts _

abbrev left_with : Walk → List (ℕ × ChangeType) × Db → Outcome (Option Traversal) × Db
left_with w (queue, db) = (
  done (
      some
        (record { not_found = w.known_paths; queue = queue; reported_events = w.reported_events })),
  db,
)

after_walk-quiet :
    (order : RowOrder DirEntRow) (t : Tables) (w : Walk)
    → let u = commit_dir_ents (triples w.pending_dir_entry_inserts) t in
      after_walk order (done goes_on, (w, quiet t))
      ≡ left_with w
          ((queue_inserted order w.pending_dir_entry_inserts w.queue (quiet u)).0, quiet u)
after_walk-quiet order t w =
    let u = commit_dir_ents (triples w.pending_dir_entry_inserts) t in
    ap (λ db. left_with w (queue_inserted order w.pending_dir_entry_inserts w.queue db))
      (do_pending-quiet t w.pending_dir_entry_inserts)
    ∙ ap
        (λ db.
          left_with w ((queue_inserted order w.pending_dir_entry_inserts w.queue (quiet u)).0, db))
        (queue-quiet order u w.pending_dir_entry_inserts w.queue)

module _ (order : RowOrder DirEntRow) where
  -- Updated, if the entry was not known or is newer than the row's last backup, and else unchanged.
  abbrev pub IsChange : Str → Str → ℕ → Tables → DirEntRow → ChangeType → Type 0
  IsChange dir path mtime t d change =
      ((change ≡ updated) × ((known dir order t path ≡ none) ⊎ (d.last_backup < mtime)))
      ⊎ ((change ≡ unchanged) × (mtime ≤ d.last_backup))

  -- A row of the entry is in the queue, with its change.
  abbrev pub IsQueued : Str → Str → ℕ → Tables → Tables → List (ℕ × ChangeType) → Type 0
  IsQueued dir path mtime t u queue =
      (d : DirEntRow) × (change : ChangeType) × IsRowOf dir path u d
      × In (d.id, change) queue
      × IsChange dir path mtime t d change

  change_of-cases :
      (mtime last_backup : ℕ)
      → ((change_of mtime last_backup ≡ updated) × (last_backup < mtime))
        ⊎ ((change_of mtime last_backup ≡ unchanged) × (mtime ≤ last_backup))
  change_of-cases m l = elim (Bool-cases (ltb l m)) [
    | inl e ↦ inl (rw e refl, ground arith)
    | inr e ↦ inr (rw e refl, ground arith)
  ]

  known-row :
      (dir path : Str) (t : Tables) (last_backup id : ℕ)
      → known dir order t path ≡ some (last_backup, id)
      → (d : DirEntRow) × IsRowOf dir path t d × (d.last_backup ≡ last_backup) × (d.id ≡ id)
  known-row dir path t l i k =
      elim (Option-cases (order.first (select (at_path dir path) t.dirents))) [
        | inl n ↦ absurd (cc (k, ap DirEnts.found n))
        | inr (d, e) ↦
            let both : some (d.last_backup, d.id) ≡ some (l, i) = ap DirEnts.found (sym e) ∙ k in
            (
              d,
              (In-select (at_path dir path) d t.dirents).0 (order.first-In _ d e),
              cc both,
              cc both,
            )
      ]

  -- What the walk has queued or has left to insert is queued at the end.
  IsWalked-queued :
      (dir : Str) (t : Tables) (F : Str → ℕ → Type 0) (w w' : Walk) (path : Str) (mtime : ℕ)
      → IsWalked dir order t F w w'
      → F path mtime
      → let u = commit_dir_ents (triples w'.pending_dir_entry_inserts) t in
        IsQueued dir path mtime t u
          (queue_inserted order w'.pending_dir_entry_inserts w'.queue (quiet u)).0
  IsWalked-queued dir t F w w' path mtime walked f = elim (Option-cases (known dir order t path)) [
    | inl n ↦
        let new = walked.inserted path mtime f n in
        let (d, row) = row_inserted w'.pending_dir_entry_inserts t dir path new in
        let (e, row', there) =
          all_queued order _ w'.pending_dir_entry_inserts w'.queue dir path d new row in
        (e, updated, row', there, inl (refl, inl n))
    | inr ((l, i), k) ↦
        let (d, (there, at), last, id) = known-row dir path t l i k in
        let queued =
          queued_stay order (commit_dir_ents (triples w'.pending_dir_entry_inserts) t)
            w'.pending_dir_entry_inserts w'.queue _ (walked.queued path mtime l i f k) in
        (
          d,
          change_of mtime d.last_backup,
          (rows_stay (triples w'.pending_dir_entry_inserts) t d there, at),
          rw (id, last) queued,
          elim (change_of-cases mtime d.last_backup) [
            | inl (e, newer) ↦ inl (e, inr newer)
            | inr same ↦ inr same
          ],
        )
  ]

module _ (W : Globs) (order : RowOrder DirEntRow) (base : Str → Str) where
  -- `Traverse` without database errors, without a cancelation and over a directory that is there:
  -- it ends, every entry that it finds below the root and that is not excluded has a row in the
  -- database, and that row's id is in the queue, as updated if the entry was not in the database or
  -- its time is later than the row's last backup, and else as unchanged. What it returns as not
  -- found are the known paths of no entry that it found. The rows of the database stay.
  pub traverse_lem :
      (path : Str) (known_paths excludes : List Str) (visits : List Visit) (t : Tables)
      → All IsUndisturbed visits
      → let root_path = strip_trailing_slashes path in
        (r : Traversal) × (u : Tables) × (traverse W order base path known_paths excludes visits
            (quiet t)
          ≡ (done (some r), quiet u))
        × ((d : DirEntRow) → In d t.dirents → In d u.dirents)
        × ((rel_path : Str) (mtime : ℕ)
            → IsFound W root_path (base root_path) excludes rel_path mtime visits
            → IsQueued order (base root_path) rel_path mtime t u r.queue)
        × ((p : Str)
            → In p r.not_found ↔ (
                In p known_paths
                × ((rel_path : Str) (mtime : ℕ)
                    → IsFound W root_path (base root_path) excludes rel_path mtime visits
                    → p ≢ known_path (base root_path) rel_path)))
  unfolding traverse
  traverse_lem path known_paths excludes visits t n =
      let root_path = strip_trailing_slashes path in
      let start : Walk = record {
        known_paths = known_paths;
        queue = [];
        pending_dir_entry_inserts = [];
        reported_events = [];
      } in
      let (w, e, walked) =
        walk_dir_lem W root_path (base root_path) excludes order t visits start n in
      let u = commit_dir_ents (triples w.pending_dir_entry_inserts) t in
      let queue = (queue_inserted order w.pending_dir_entry_inserts w.queue (quiet u)).0 in
      (
        record { not_found = w.known_paths; queue = queue; reported_events = w.reported_events },
        u,
        ap (after_walk order) e ∙ after_walk-quiet order t w,
        λ d m. rows_stay (triples w.pending_dir_entry_inserts) t d m,
        λ r m f. IsWalked-queued order (base root_path) t _ start w r m walked f,
        λ p. (walked.not_found p, λ (there, apart). walked.left p there apart),
      )
