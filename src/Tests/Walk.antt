-- ===== src/Tests/Walk.antt =====
-- Walks over a directory.
use tless.Prelude.{
  ℕ, Str, codes, some, List, [], ◌∷◌, ◌≡◌, ◌≢◌, ◌↔◌, refl, false, true, In, All, ◌==◌, select,
  contains, nat_eq, str_eq,
}
use tless.Util.{strip_trailing_slashes}
use tless.Database.{Tables, quiet, DirEntRow, ChangeType, JournalRow, deleted, ok}
use tless.Cryptography.{done}
use tless.Backup.Entry.{FileInfo}
use tless.Fstraverse.Excludes.{Globs}
use tless.Fstraverse.{Visit, unreadable, found, Traversal, known_path, traverse, ReportedEvent}
use tless.Fstraverse.Queued.{IsUndisturbed, IsFound}
use tless.Fstraverse.Inserted.{IsQueued, traverse_lem, IsRowOf, IsChange}
use tless.Database.DirEnts.{PastedQueries, IsQuoted}
use tless.Backup.Journaled.{Prepared, fatal_error}
use tless.Backup.Journaled.Filled.{IsTask}
use tless.Backup.Whole.{walked, prepare_backup}
use tless.Backup.Whole.Planned.{IsPlanned, prepare_backup_lem}
use tless.Tests.Data.{in_table_order, tables}

abbrev globs : Globs
globs = record { is_match = λ glob path. some false; dir = λ path. codes "/" }

abbrev info_at : ℕ → FileInfo
info_at time = record {
  is_dir = false;
  is_symlink = false;
  is_device = false;
  is_socket = false;
  is_irregular = false;
  is_named_pipe = false;
  mode = 0;
  mod_time = time;
  size = 2;
}

abbrev base : Str → Str
base path = codes "/home"

abbrev known_paths : List Str
known_paths = codes "/home/a" ∷ codes "/home/gone" ∷ []

-- A file that was changed, a new one, and a directory that may not be read.
abbrev visits : List Visit
visits =
    found (codes "/home") (some (info_at 1)) (some (info_at 1)) false
    ∷ found (codes "/home/a") (some (info_at 200)) (some (info_at 200)) false
    ∷ found (codes "/home/b") (some (info_at 5)) (some (info_at 5)) false
    ∷ unreadable (codes "/home/c") (some true)
    ∷ []

visits-IsUndisturbed : All IsUndisturbed visits
visits-IsUndisturbed = (refl, (refl, (refl, (λ e. cc e, tt))))

traverse_example :
    let root = codes "/home" in
    let root_path = strip_trailing_slashes root in
    (r : Traversal) × (u : Tables) × (traverse globs in_table_order base root known_paths [] visits
        (quiet tables)
      ≡ (done (some r), quiet u))
    × ((d : DirEntRow) → In d tables.dirents → In d u.dirents)
    × ((rel_path : Str) (mtime : ℕ)
        → IsFound globs root_path root [] rel_path mtime visits
        → IsQueued in_table_order root rel_path mtime tables u r.queue)
    × ((p : Str)
        → In p r.not_found ↔ (
            In p known_paths
            × ((rel_path : Str) (mtime : ℕ)
                → IsFound globs root_path root [] rel_path mtime visits
                → p ≢ known_path root rel_path)))
traverse_example =
    traverse_lem globs in_table_order base (codes "/home") known_paths [] visits tables
      visits-IsUndisturbed

abbrev engine : PastedQueries
engine = record { select_root_dir = λ dir rows. ok (select (λ d. d.root_dir == dir) rows) }

engine-IsQuoted : IsQuoted engine
engine-IsQuoted = record { selected = λ dir rows e. refl }

no_apostrophe : contains (codes "/home") 39 ≡ false
unfolding contains nat_eq
no_apostrophe = refl

prepare_backup_example :
    let dir = codes "/home" in
    let root_path = strip_trailing_slashes dir in
    (events : List ReportedEvent) × (p : Prepared) × (t' : Tables) × (prepare_backup engine globs
        in_table_order in_table_order base 300 301 dir [] visits
        (quiet tables)
      ≡ (done (walked events p), quiet t'))
    × (p ≢ fatal_error)
    × ((rel_path : Str) (mtime : ℕ)
        → IsFound globs root_path dir [] rel_path mtime visits
        → (d : DirEntRow) × (change : ChangeType) × (j : JournalRow) × IsRowOf dir rel_path t' d
          × In j t'.backup_journal
          × IsTask d.id change j
          × IsChange in_table_order dir rel_path mtime tables d change)
    × ((d : DirEntRow)
        → In d tables.dirents
        → d.root_dir ≡ dir
        → ((mtime : ℕ) → ¬ IsFound globs root_path dir [] d.rel_path mtime visits)
        → IsPlanned dir d.rel_path deleted t')
prepare_backup_example =
    prepare_backup_lem engine globs in_table_order in_table_order base 300 301 (codes "/home") []
      visits tables engine-IsQuoted refl no_apostrophe visits-IsUndisturbed
