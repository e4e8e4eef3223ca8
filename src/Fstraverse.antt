-- ===== src/Fstraverse.antt =====
-- pkg/fstraverse/fstraverse.go: the walk over a backup's directory. The visits of
-- `filepath.WalkDir` are given, in order; the callback returns `SkipDir` only where the walk could not
-- read, after which nothing is left to skip. The statistics of the walk are left out.
pub mod Excludes
pub mod Walked
pub mod Queued
pub mod Inserted
use tless.Prelude.{
  ℕ, ◌+◌, Str, codes, Bool, true, false, not, ◌&&◌, ◌||◌, Option, none, some, List, [], ◌∷◌, ◌++◌,
  ltb, if◌then◌else◌, ◌==◌, str_eq, select,
}
use tless.Util.{strip_trailing_slashes, strip_leading_slashes, slash}
use tless.Util.Strings.{trim_prefix}
use tless.Database.{
  Db, Tables, Result, ok, err, Sql, pure, RowOrder, DirEntRow, ChangeType, updated, unchanged,
  prepare, update, ◌>>=◌, ◌>>◌,
}
use tless.Database.DirEnts.{
  DirEntInserts, has_dir_ent, new_insert_dir_ent_stmt, insert_dir_ent, close_dir_ents,
}
use tless.Cryptography.{Outcome, done, failed, crash}
use tless.Fstraverse.Excludes.{Globs, is_excluded}
use tless.Backup.Entry.{FileInfo, is_filtered}

unfoldable pub relativize_path : Str → Str → Str
unfolding trim_prefix strip_trailing_slashes strip_leading_slashes
relativize_path path prefix =
    strip_leading_slashes (trim_prefix path (strip_trailing_slashes prefix ++ slash))

-- One call of the callback. `unreadable` comes with the walk's own error: whether there is an entry,
-- and whether it is a directory that may not be read. Of a `found` entry `Info` is asked twice, for
-- the time and for the rest, and `none` is its error; `is_canceled` is the answer of
-- `checkAndHandleTraversalCancelation`, if it is asked.
pub data Visit : Type 0 where
  unreadable : Str → Option Bool → Visit
  found : Str → Option FileInfo → Option FileInfo → Bool → Visit

-- `ERR_OP_NOT_PERMITTED` for a directory, the one event of a walk.
pub record ReportedEvent : Type 0 where
  pub path : Str

-- What the callback changes: the known paths that were not seen, the queue of ids, the entries to
-- insert and the events.
pub record Walk : Type 0 where
  pub known_paths : List Str
  pub queue : List (ℕ × ChangeType)
  pub pending_dir_entry_inserts : List (Str × Str)
  pub reported_events : List ReportedEvent

pub data Verdict : Type 0 where
  goes_on : Verdict
  is_skip_dir : Verdict
  is_canceled : Verdict

-- `mtimeUnix > lastBackupUnix`
abbrev pub change_of : ℕ → ℕ → ChangeType
change_of mtime last_backup = if ltb last_backup mtime then updated else unchanged

-- A known entry is queued, a new one is to be inserted.
abbrev pub record_entry : Str → Str → ℕ → Option (ℕ × ℕ) → Walk → Walk
record_entry root_dir_name rel_path mtime (some (last_backup, id)) w = record w {
  queue = w.queue ++ ((id, change_of mtime last_backup) ∷ []);
}
record_entry root_dir_name rel_path mtime none w = record w {
  pending_dir_entry_inserts = w.pending_dir_entry_inserts ++ ((root_dir_name, rel_path) ∷ []);
}

-- `delete(knownPaths, ...)`
abbrev pub forget : Str → Walk → Walk
forget path w = record w { known_paths = select (λ p. not (p == path)) w.known_paths }

abbrev verdict_of : Bool → Verdict
verdict_of true = is_canceled
verdict_of false = goes_on

abbrev after_lookup :
    Str → Str → ℕ → Bool → Walk → Result (Option (ℕ × ℕ)) × Db → Outcome Verdict × (Walk × Db)
after_lookup root_dir_name rel_path mtime canceled w (err e, db) = (done goes_on, (w, db))
after_lookup root_dir_name rel_path mtime canceled w (ok entry, db) =
    (done (verdict_of canceled), (record_entry root_dir_name rel_path mtime entry w, db))

-- The key of `knownPaths`.
abbrev pub known_path : Str → Str → Str
known_path root_dir_name rel_path = root_dir_name ++ (slash ++ rel_path)

module _ (W : Globs) (order : RowOrder DirEntRow) (root_path root_dir_name : Str)
    (excludes : List Str) where
  -- An entry that is there, below the root.
  unfoldable pub visit_entry :
      Str → Option FileInfo → Option FileInfo → Bool → Walk → Db → Outcome Verdict × (Walk × Db)
  unfolding has_dir_ent select str_eq
  visit_entry rel_path none info canceled w db = (done goes_on, (w, db))
  visit_entry rel_path (some timed) none canceled w db = (done goes_on, (w, db))
  visit_entry rel_path (some timed) (some info) canceled w db =
      if is_filtered info
      then (done goes_on, (w, db))
      else after_lookup root_dir_name rel_path timed.mod_time canceled
          (forget (known_path root_dir_name rel_path) w)
          (has_dir_ent order root_dir_name rel_path db)

  -- The callback of the walk. Without an entry the call of `IsDir` panics.
  unfoldable pub visit : Visit → Walk → Db → Outcome Verdict × (Walk × Db)
  unfolding visit_entry is_excluded relativize_path str_eq
  visit (unreadable path entry) w db =
      if is_excluded W path excludes then (done goes_on, (w, db)) else elim entry [
        | none ↦ (crash, (w, db))
        | some true ↦ (
          done is_skip_dir,
          (record w { reported_events = w.reported_events ++ (record { path = path } ∷ []) }, db),
        )
        | some false ↦ (done is_skip_dir, (w, db))
      ]
  visit (found path timed info canceled) w db =
      let rel_path = relativize_path path root_path in
      if is_excluded W path excludes
        || (path == root_path || (rel_path == root_path || rel_path == []))
      then (done goes_on, (w, db))
      else visit_entry rel_path timed info canceled w db

  abbrev pub after_visit :
      (Walk → Db → Outcome Verdict × (Walk × Db))
      → Outcome Verdict × (Walk × Db)
      → Outcome Verdict × (Walk × Db)
  after_visit next (done goes_on, (w, db)) = next w db
  after_visit next (done is_skip_dir, (w, db)) = next w db
  after_visit next (done is_canceled, (w, db)) = (done is_canceled, (w, db))
  after_visit next (failed, (w, db)) = (failed, (w, db))
  after_visit next (crash, (w, db)) = (crash, (w, db))

  unfoldable pub walk_dir : List Visit → Walk → Db → Outcome Verdict × (Walk × Db)
  unfolding visit
  walk_dir [] w db = (done goes_on, (w, db))
  walk_dir (v ∷ visits) w db = after_visit (walk_dir visits) (visit v w db)

-- The inserts of one transaction: an error leaves it open.
unfoldable pub insert_pending : List (Str × Str) → DirEntInserts → Sql DirEntInserts
unfolding insert_dir_ent
insert_pending [] idst = pure idst
insert_pending ((root_dir_name, rel_path) ∷ inserts) idst = do
  idst' ← insert_dir_ent root_dir_name rel_path 0 idst
  insert_pending inserts idst'

abbrev pub after_inserts : Result DirEntInserts × Db → Db
after_inserts (err e, db) = db
after_inserts (ok idst, db) = close_dir_ents idst db

-- `doPendingDirEntryInserts`, whose error is only logged.
unfoldable pub do_pending_dir_entry_inserts : List (Str × Str) → Db → Db
unfolding insert_pending new_insert_dir_ent_stmt close_dir_ents
do_pending_dir_entry_inserts inserts db =
    after_inserts ((new_insert_dir_ent_stmt >>= insert_pending inserts) db)

-- The id of an entry; 0 after an error, or where it is not there.
abbrev pub id_or_zero : Result (Option (ℕ × ℕ)) → ℕ
id_or_zero (ok (some (_, id))) = id
id_or_zero (ok none) = 0
id_or_zero (err e) = 0

unfoldable pub queue_inserted :
    RowOrder DirEntRow → List (Str × Str) → List (ℕ × ChangeType) → Db → List (ℕ × ChangeType) × Db
unfolding has_dir_ent
queue_inserted order [] queue db = (queue, db)
queue_inserted order ((root_dir_name, rel_path) ∷ inserts) queue db =
    let (entry, db') = has_dir_ent order root_dir_name rel_path db in
    queue_inserted order inserts (queue ++ ((id_or_zero entry, updated) ∷ [])) db'

-- What `Traverse` leaves: the known paths that were not found, the queue, and the events.
pub record Traversal : Type 0 where
  pub not_found : List Str
  pub queue : List (ℕ × ChangeType)
  pub reported_events : List ReportedEvent

module _ (order : RowOrder DirEntRow) where
  -- `none` is `ErrTraversalCanceled`.
  abbrev pub after_walk : Outcome Verdict × (Walk × Db) → Outcome (Option Traversal) × Db
  after_walk (done is_canceled, (w, db)) = (done none, db)
  after_walk (done _, (w, db)) =
      let db' = do_pending_dir_entry_inserts w.pending_dir_entry_inserts db in
      let (queue, db'') = queue_inserted order w.pending_dir_entry_inserts w.queue db' in
      (
        done (
            some (record {
              not_found = w.known_paths;
              queue = queue;
              reported_events = w.reported_events;
            })),
        db'',
      )
  after_walk (failed, (w, db)) = (failed, db)
  after_walk (crash, (w, db)) = (crash, db)

-- `Traverse`, with `filepath.Base` for the name of the root.
unfoldable pub traverse :
    Globs
    → RowOrder DirEntRow
    → (Str → Str)
    → Str
    → List Str
    → List Str
    → List Visit
    → Db
    → Outcome (Option Traversal) × Db
unfolding walk_dir do_pending_dir_entry_inserts queue_inserted strip_trailing_slashes
traverse W order base path known_paths excludes visits db =
    let root_path = strip_trailing_slashes path in
    after_walk order (
      walk_dir W order root_path (base root_path) excludes visits
        (record {
          known_paths = known_paths;
          queue = [];
          pending_dir_entry_inserts = [];
          reported_events = [];
        })
        db)
