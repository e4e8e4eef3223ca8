-- ===== src/Backup/Play/Steady.antt =====
-- The world between the statements of a play without database errors: which tasks are held, and how
-- many are waiting and finished. What claims, completions and the packer do to it.
use mathlib.Core.Path.{subst}
use mathlib.Core.Option
use tless.Prelude.{
  ℕ, suc, ◌≡◌, refl, sym, ap, ◌∙◌, inl, inr, Str, Bool, true, false, Option, List, [], ◌∷◌, arith,
  length, select, nat_eq, Option-cases, ◌==◌,
}
use tless.Database.{Tables, quiet, RowOrder, DirEntRow, unstarted, finished}
use tless.Database.Journal.{BackupJournalTask, update_row}
use tless.Database.Journal.Finish.{count_status, finish}
use tless.Database.Journal.Rows.{IsKeyed, update_row-IsKeyed, length-update_row}
use tless.Database.DirEnts
use tless.Objstore.{Minio, Cloud}
use tless.Snapshots.{CloudRelPath, Json}
use tless.Backup.{World, update_last_backup_time, complete_task}
use tless.Backup.Tasks.{completed, complete_task_lem}
use tless.Backup.Play.Running.{IsRunning, finish-IsRunning}

-- A keyed journal with these tasks in progress and so many waiting and finished.
pub record IsJournal (t : Tables) (ids : List ℕ) (waiting done_cnt : ℕ) : Type 0 where
  pub keyed : IsKeyed t
  pub running : IsRunning ids t.backup_journal
  pub waiting_rows : count_status unstarted t.backup_journal ≡ waiting
  pub finished_rows : count_status finished t.backup_journal ≡ done_cnt

-- The counts in memory are those of the journal, and the driver does not fail.
pub record IsAt {M : Minio} (w : World M) (ids : List ℕ) (waiting done_cnt : ℕ) : Type 0 where
  pub tables : Tables
  pub is_quiet : w.db ≡ quiet tables
  pub journal : IsJournal tables ids waiting done_cnt
  pub total : w.total_cnt_journal ≡ length tables.backup_journal
  pub finished_count : w.finished_count_journal ≡ done_cnt

-- A change of the other tables.
abbrev pub SameJournal : Tables → Tables → Type 0
SameJournal t u =
    (u.backup_journal ≡ t.backup_journal) × (u.backup_journal_seq ≡ t.backup_journal_seq)

finish-IsJournal :
    (t : Tables) (id : ℕ) (entry : Option Str) (ids : List ℕ) (waiting done_cnt : ℕ)
    → IsJournal t (id ∷ ids) waiting done_cnt
    → IsJournal
        (record t { backup_journal = update_row id (finish entry) t.backup_journal })
        ids
        waiting
        (suc done_cnt)
finish-IsJournal t id entry ids waiting done_cnt h =
    let (running, w, f) =
      finish-IsRunning id entry ids t.backup_journal h.keyed.distinct h.running in
    record {
      keyed = update_row-IsKeyed id (finish entry) t (λ q. refl) h.keyed;
      running = running;
      waiting_rows = w ∙ h.waiting_rows;
      finished_rows = f ∙ ap suc h.finished_rows;
    }

nil_of_zero : (ids : List ℕ) → length ids ≡ 0 → ids ≡ []
nil_of_zero [] e = refl
nil_of_zero (i ∷ ids) e = absurd (omega arith)

world_of :
    {M : Minio} (w : World M) {ids : List ℕ} {waiting done_cnt : ℕ}
    (h : IsAt w ids waiting done_cnt)
    → w ≡ record {
      db = quiet h.tables;
      cloud = w.cloud;
      total_cnt_journal = length h.tables.backup_journal;
      finished_count_journal = done_cnt;
    }
world_of w h i = record {
  db = h.is_quiet i;
  cloud = w.cloud;
  total_cnt_journal = h.total i;
  finished_count_journal = h.finished_count i;
}

module _ {M : Minio} (J : Json) (bjt : BackupJournalTask) (crp : Option CloudRelPath) where
  -- A completed task is finished; the journal is complete only where none is held or waiting.
  abbrev IsCompleted : List ℕ → ℕ → ℕ → Bool × World M → Type 0
  IsCompleted ids waiting done_cnt (complete, w) =
      IsAt w ids waiting (suc done_cnt) × (complete ≡ true → (waiting ≡ 0) × (ids ≡ []))

  complete_quiet :
      (t : Tables) (cloud : Cloud M) (ids : List ℕ) (waiting done_cnt : ℕ)
      → IsJournal t (bjt.id ∷ ids) waiting done_cnt
      → IsCompleted ids waiting done_cnt (
          complete_task J bjt crp (record {
            db = quiet t;
            cloud = cloud;
            total_cnt_journal = length t.backup_journal;
            finished_count_journal = done_cnt;
          }))
  complete_quiet t cloud ids waiting done_cnt h =
      let j = finish-IsJournal t bjt.id (Option.map J.to_json crp) ids waiting done_cnt h in
      let (db, cases) = complete_task_lem J bjt crp t cloud (length t.backup_journal) done_cnt in
      elim cases [
        | inl (less, open_, f, n) ↦ (
          record {
            tables = completed J bjt crp t;
            is_quiet = db;
            journal = j;
            total = n ∙ sym (length-update_row bjt.id _ t.backup_journal);
            finished_count = omega (arith, f);
          },
          λ e. absurd (let b : false ≡ true = sym open_ ∙ e in cc b),
        )
        | inr (most, all, f, n) ↦ (
          record {
            tables = completed J bjt crp t;
            is_quiet = db;
            journal = j;
            total = n;
            finished_count = f ∙ j.finished_rows;
          },
          λ e.
              let (u, p) = all.0 e in
              (sym j.waiting_rows ∙ u, nil_of_zero ids (sym j.running.counted ∙ p)),
        )
      ]

  pub complete_task-IsAt :
      (w : World M) (ids : List ℕ) (waiting done_cnt : ℕ)
      → IsAt w (bjt.id ∷ ids) waiting done_cnt
      → IsCompleted ids waiting done_cnt (complete_task J bjt crp w)
  complete_task-IsAt w ids waiting done_cnt h =
      subst (λ (v : World M). IsCompleted ids waiting done_cnt (complete_task J bjt crp v))
        (sym (world_of w h)) (complete_quiet h.tables w.cloud ids waiting done_cnt h.journal)

-- A change that leaves the journal leaves all else here.
other_tables :
    {M : Minio} (w w' : World M) (u : Tables) {ids : List ℕ} {waiting done_cnt : ℕ}
    (h : IsAt w ids waiting done_cnt)
    → w'.db ≡ quiet u
    → SameJournal h.tables u
    → w'.total_cnt_journal ≡ w.total_cnt_journal
    → w'.finished_count_journal ≡ w.finished_count_journal
    → IsAt w' ids waiting done_cnt
other_tables w w' u h e (rows, seq) n f = record {
  tables = u;
  is_quiet = e;
  journal = record {
    keyed = record {
      distinct = rw rows h.journal.keyed.distinct;
      bounded = rw (rows, seq) h.journal.keyed.bounded;
    };
    running = rw rows h.journal.running;
    waiting_rows = rw rows h.journal.waiting_rows;
    finished_rows = rw rows h.journal.finished_rows;
  };
  total = n ∙ h.total ∙ sym (ap length rows);
  finished_count = f ∙ h.finished_count;
}

paths-quiet :
    (dirents : RowOrder DirEntRow) (id : ℕ) (t : Tables)
    → (DirEnts.get_dir_ent_paths dirents id (quiet t)).1 ≡ quiet t
unfolding DirEnts.get_dir_ent_paths
paths-quiet dirents id t =
    elim (Option-cases (dirents.first (select (λ (d : DirEntRow). d.id == id) t.dirents))) [
      | inl e ↦ rw e refl
      | inr (d, e) ↦ rw e refl
    ]

module _ {M : Minio} (w : World M) {ids : List ℕ} {waiting done_cnt : ℕ} where
  pub update_last_backup_time-IsAt :
      (now id : ℕ)
      → IsAt w ids waiting done_cnt
      → IsAt (update_last_backup_time now id w) ids waiting done_cnt
  unfolding update_last_backup_time DirEnts.update_last_backup_time
  update_last_backup_time-IsAt now id h =
      other_tables w (update_last_backup_time now id w)
        (DirEnts.update_last_backup_time now id (quiet h.tables)).1.tables h
        (ap (λ db. (DirEnts.update_last_backup_time now id db).1) h.is_quiet) (refl, refl) refl refl

  pub delete_dir_ent-IsAt :
      (dir path : Str)
      → IsAt w ids waiting done_cnt
      → IsAt
          (record w { db = (DirEnts.delete_dir_ent_by_path dir path w.db).1 })
          ids
          waiting
          done_cnt
  unfolding DirEnts.delete_dir_ent_by_path
  delete_dir_ent-IsAt dir path h =
      other_tables w (record w { db = (DirEnts.delete_dir_ent_by_path dir path w.db).1 })
        (DirEnts.delete_dir_ent_by_path dir path (quiet h.tables)).1.tables h
        (ap (λ db. (DirEnts.delete_dir_ent_by_path dir path db).1) h.is_quiet) (refl, refl) refl
        refl

  -- A lookup of paths changes nothing.
  pub get_dir_ent_paths-IsAt :
      (dirents : RowOrder DirEntRow) (id : ℕ)
      → IsAt w ids waiting done_cnt
      → IsAt (record w { db = (DirEnts.get_dir_ent_paths dirents id w.db).1 }) ids waiting done_cnt
  get_dir_ent_paths-IsAt dirents id h =
      other_tables w (record w { db = (DirEnts.get_dir_ent_paths dirents id w.db).1 }) h.tables h
        (ap (λ db. (DirEnts.get_dir_ent_paths dirents id db).1) h.is_quiet
          ∙ paths-quiet dirents id h.tables)
        (refl, refl) refl refl
