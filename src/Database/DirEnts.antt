-- ===== src/Database/DirEnts.antt =====
-- pkg/database/database.go: the directory entries that were seen, with the time of their last
-- backup. The rows of a query come in the table's order where the code takes them all.
use tless.Util.{slash}
use tless.Cryptography.{Outcome, done, crash}
use tless.Prelude.{
  ◌≡◌, false, contains, ℕ, ◌+◌, Str, Bool, not, ◌&&◌, Option, none, some, List, [], ◌∷◌, ◌++◌, map,
  if◌then◌else◌, ◌==◌, nat_eq, str_eq, select,
}
use tless.Database.{
  DirEntRow, Tables, Db, Sql, pure, RowOrder, or_no_rows, query, update, prepare, ◌>>=◌, ◌>>◌,
  Result, ok, err,
}

-- `WHERE rootdir = ? AND relpath = ?`
abbrev pub at_path : Str → Str → DirEntRow → Bool
at_path root_dir_name rel_path d = d.root_dir == root_dir_name && d.rel_path == rel_path

abbrev pub found : Option DirEntRow → Option (ℕ × ℕ)
found none = none
found (some d) = some (d.last_backup, d.id)

-- The last backup and the id, if the entry is found.
unfoldable pub has_dir_ent : RowOrder DirEntRow → Str → Str → Sql (Option (ℕ × ℕ))
unfolding prepare query select str_eq
has_dir_ent order root_dir_name rel_path = do
  prepare
  row ← query (λ t. order.first (select (at_path root_dir_name rel_path) t.dirents))
  pure (found row)

-- `insert into dirents(rootdir, relpath, last_backup) values (?, ?, ?)`
unfoldable pub insert_dir_ent_row : Str → Str → ℕ → Tables → Tables
insert_dir_ent_row root_dir_name rel_path last_backup t =
    let id = t.dirents_seq + 1 in
    let row : DirEntRow = record {
      id = id;
      root_dir = root_dir_name;
      rel_path = rel_path;
      last_backup = last_backup;
    } in
    record t { dirents = t.dirents ++ (row ∷ []); dirents_seq = id }

-- An open transaction: the rows that its statement has inserted so far.
abbrev pub DirEntInserts : Type 0
DirEntInserts = List (Str × Str × ℕ)

unfoldable pub new_insert_dir_ent_stmt : Sql DirEntInserts
unfolding prepare
new_insert_dir_ent_stmt = do prepare; prepare; pure []

unfoldable pub insert_dir_ent : Str → Str → ℕ → DirEntInserts → Sql DirEntInserts
unfolding prepare
insert_dir_ent root_dir_name rel_path last_backup idst = do
  prepare
  pure (idst ++ ((root_dir_name, rel_path, last_backup) ∷ []))

unfoldable pub commit_dir_ents : DirEntInserts → Tables → Tables
unfolding insert_dir_ent_row
commit_dir_ents [] t = t
commit_dir_ents ((root_dir_name, rel_path, last_backup) ∷ inserts) t =
    commit_dir_ents inserts (insert_dir_ent_row root_dir_name rel_path last_backup t)

-- `Close` commits, and ignores an error of the commit.
unfoldable pub close_dir_ents : DirEntInserts → Db → Db
unfolding commit_dir_ents update
close_dir_ents idst db = (update (commit_dir_ents idst) db).1

abbrev pub set_last_backup : ℕ → ℕ → DirEntRow → DirEntRow
set_last_backup id now d = if d.id == id then record d { last_backup = now } else d

-- At the time `now`.
unfoldable pub update_last_backup_time : ℕ → ℕ → Sql (Unit {0})
unfolding prepare update
update_last_backup_time now dir_ent_id = do
  prepare
  update (λ t. record t { dirents = map (set_last_backup dir_ent_id now) t.dirents })

unfoldable pub get_dir_ent_by_id : RowOrder DirEntRow → ℕ → Sql DirEntRow
unfolding prepare query select
get_dir_ent_by_id order dir_ent_id = do
  prepare
  row ← query (λ t. order.first (select (λ d. d.id == dir_ent_id) t.dirents))
  or_no_rows row

unfoldable pub get_dir_ent_paths : RowOrder DirEntRow → ℕ → Sql (Str × Str)
unfolding get_dir_ent_by_id
get_dir_ent_paths order dir_ent_id = do
  d ← get_dir_ent_by_id order dir_ent_id
  pure (d.root_dir, d.rel_path)

unfoldable pub delete_dir_ent_by_path : Str → Str → Sql (Unit {0})
unfolding prepare update select
delete_dir_ent_by_path root_dir_name rel_path = do
  prepare
  update
      (λ t. record t { dirents = select (λ d. not (at_path root_dir_name rel_path d)) t.dirents })

unfoldable pub reset_last_backed_up_time_for_entire_backup : Str → Sql (Unit {0})
unfolding prepare update
reset_last_backed_up_time_for_entire_backup root_dir_name = do
  prepare
  update (λ t. record t {
    dirents =
        map
          (λ (d : DirEntRow).
            if d.root_dir == root_dir_name then record d { last_backup = 0 } else d)
          t.dirents;
  })

unfoldable pub reset_last_backed_up_time_for_all_dirents : Sql (Unit {0})
unfolding prepare update
reset_last_backed_up_time_for_all_dirents = do
  prepare
  update
      (λ t. record t { dirents = map (λ (d : DirEntRow). record d { last_backup = 0 }) t.dirents })

-- What the engine does with the text of a query into which a directory's name was pasted between
-- apostrophes.
pub record PastedQueries : Type 0 where
  pub select_root_dir : Str → List DirEntRow → Result (List DirEntRow)

-- `select id, rootdir, relpath from dirents where rootdir = '...'`, if the name has no apostrophe.
pub record IsQuoted (E : PastedQueries) : Type 0 where
  pub selected :
      (root_dir_name : Str) (rows : List DirEntRow)
      → contains root_dir_name 39 ≡ false
      → E.select_root_dir root_dir_name rows ≡ ok (select (λ d. d.root_dir == root_dir_name) rows)

abbrev pub path_of : DirEntRow → Str
path_of d = d.root_dir ++ (slash ++ d.rel_path)

abbrev pub or_fatal : Result (Result (List DirEntRow)) × Db → Outcome (List Str) × Db
or_fatal (ok (ok rows), db) = (done (map path_of rows), db)
or_fatal (ok (err e), db) = (crash, db)
or_fatal (err e, db) = (crash, db)

-- `GetAllKnownPaths`: every error is fatal. The ids, which no caller reads, are left out.
unfoldable pub get_all_known_paths : PastedQueries → Str → Db → Outcome (List Str) × Db
unfolding query
get_all_known_paths E root_dir_name db =
    or_fatal (query (λ t. E.select_root_dir root_dir_name t.dirents) db)
