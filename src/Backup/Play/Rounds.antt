-- ===== src/Backup/Play/Rounds.antt =====
-- One round of the loop, as a step of the machine.
use tless.Prelude.{
  ℕ, suc, ◌≡◌, refl, ap, inl, inr, Str, true, false, Option, List, [], ◌∷◌, ◌++◌, Bool-cases, Never,
  ◌⊎◌, sym, ◌∙◌, length,
}
use tless.Database.{Db, RowOrder, DirEntRow, JournalRow, Tables, quiet}
use tless.Database.Journal.{BackupJournalTask}
use tless.Database.Journal.Finish.{
  wipe_backup_journal, get_all_backup_journal_row_index_entries, get_all-quiet,
}
use tless.Cryptography.{Outcome, done, failed, crash, Primitives, encrypt_filename}
use tless.Objstore.{Hashes, Minio, Cloud}
use tless.Snapshots.{CloudRelPath, Json}
use tless.Snapshots.Index.{write_index_file}
use tless.Backup.{World, update_last_backup_time, complete_task}
use tless.Backup.ChunkPacker.{ChunkPackerItem, complete}
use tless.Backup.Entry.{State, back_up}
use tless.Backup.Play.{
  Round, Playing, going, stopped, Job, with_world, wipe, write_index_file_and_wipe_journal,
  finish_task,
}
use tless.Backup.Play.Running.{to_first, to_last}
use tless.Backup.Play.Steady.{IsAt, complete_task-IsAt, update_last_backup_time-IsAt}
use tless.Backup.Play.Held.{ids_of, IsRefused}
use tless.Backup.Play.Progress.{Progress, Flushes, hold_one, finish_one, IsFree, IsBusy}

-- A waiting task is taken. The packer may be emptied before the task goes to it, or is finished.
pub data Advances : Progress → Progress → Type 0 where
  to_packer :
      (n r f : ℕ) (q : Progress)
      → Flushes (record { waiting = n; held = r; finished = f }) q
      → Advances (record { waiting = suc n; held = r; finished = f }) (hold_one q)
  to_done :
      (n r f : ℕ) (q : Progress)
      → Flushes (record { waiting = n; held = r; finished = f }) q
      → Advances (record { waiting = suc n; held = r; finished = f }) (finish_one q)

abbrev pub IsWiped : {M : Minio} → State M → Type 0
IsWiped s = (t : Tables) × (s.world.db ≡ quiet t) × (t.backup_journal ≡ [])

-- The task that the loop has claimed may be named first or last.
busy_first :
    {M : Minio} (id : ℕ) (w : World M) (ids : List ℕ) (waiting done_cnt : ℕ)
    → IsAt w (ids ++ (id ∷ [])) waiting done_cnt
    → IsAt w (id ∷ ids) waiting done_cnt
busy_first id w ids waiting done_cnt h = record {
  tables = h.tables;
  is_quiet = h.is_quiet;
  journal = record {
    keyed = h.journal.keyed;
    running = to_first id ids h.tables.backup_journal h.journal.running;
    waiting_rows = h.journal.waiting_rows;
    finished_rows = h.journal.finished_rows;
  };
  total = h.total;
  finished_count = h.finished_count;
}

pub busy_last :
    {M : Minio} (id : ℕ) (w : World M) (ids : List ℕ) (waiting done_cnt : ℕ)
    → IsAt w (id ∷ ids) waiting done_cnt
    → IsAt w (ids ++ (id ∷ [])) waiting done_cnt
busy_last id w ids waiting done_cnt h = record {
  tables = h.tables;
  is_quiet = h.is_quiet;
  journal = record {
    keyed = h.journal.keyed;
    running = to_last id ids h.tables.backup_journal h.journal.running;
    waiting_rows = h.journal.waiting_rows;
    finished_rows = h.journal.finished_rows;
  };
  total = h.total;
  finished_count = h.finished_count;
}

module _ {M : Minio} (P : Primitives) (H : Hashes) (J : Json) (order : RowOrder JournalRow)
    (dirents : RowOrder DirEntRow) (cancel : Db × Cloud M → Db × Cloud M) (job : Job)
    (round : Round) where
  -- A call that a round makes does not return: `Backup`, `Complete` or `WriteIndexFile`.
  abbrev pub IsCrash : Type 0
  IsCrash =
      ((bjt : BackupJournalTask) × (rel_path : Str) × (s : State M) × ((back_up P H J job.key
            round.os round.draws rel_path bjt job.backup_dir_path s).0
          ≡ crash))
      ⊎ (((s : State M) × (complete P H J job.key (round.draws.chunk_names 0) round.draws.nonce
                round.draws.rounds round.draws.now s.packer s.world
              ≡ crash))
          ⊎ ((db : Db) × (c : Cloud M) × ((write_index_file P H J job.key round.index_nonce
                  round.draws.rounds job.backup_dir_name job.snapshot_name job.parsed_time db c).0
                ≡ crash)))

  -- The upload of the chunk that the packer holds has an error.
  abbrev pub IsStuck : State M → Type 0
  IsStuck s =
      IsRefused M P H job.key (round.draws.chunk_names 0) round.draws.nonce round.draws.rounds
        s.packer.plaintext_chunk_buf

  -- No task waits, and the packer holds none or its chunk could not be uploaded.
  abbrev pub IsAllDone : (Progress → Type 0) → State M → Type 0
  IsAllDone G s = (q : Progress) × G q × IsFree s q × (q.waiting ≡ 0) × ((q.held ≡ 0) ⊎ IsStuck s)

  -- The loop has written the index file from a state where all is done, and wiped the journal.
  abbrev pub IsFinished : (Progress → Type 0) → Outcome Playing × State M → Type 0
  IsFinished G r =
      (s : State M) × IsAllDone G s
      × (r ≡ write_index_file_and_wipe_journal P H J order dirents cancel job round s)
      × IsWiped r.1

  -- The loop goes on from a state whose numbers are `G`; or it has ended from one, with the numbers
  -- `F`; or a call did not return.
  abbrev pub IsOnOrStopped :
      (Progress → Type 0) → (Progress → Type 0) → Outcome Playing × State M → Type 0
  IsOnOrStopped G F (done going, s) = (q : Progress) × G q × IsFree s q
  IsOnOrStopped G F (done (stopped b), s) = (b ≡ false) × IsFinished F (done (stopped b), s)
  IsOnOrStopped G F (failed, s) = Never
  IsOnOrStopped G F (crash, s) = IsCrash

  -- The index file is written from the database, which stays as it is.
  abbrev IsRead : Tables → Cloud M → Type 0
  IsRead t c =
      (write_index_file P H J job.key round.index_nonce round.draws.rounds job.backup_dir_name
        job.snapshot_name job.parsed_time (quiet t) c).1.0
      ≡ quiet t

  index_cases :
      (t : Tables) (c : Cloud M) (o o' : Outcome Str)
      → o ≡ encrypt_filename P job.key job.snapshot_name
      → o' ≡ encrypt_filename P job.key job.backup_dir_name
      → IsRead t c
  unfolding write_index_file get_all_backup_journal_row_index_entries
  index_cases t c crash o' e g = rw (write_index_file, ← e) refl
  index_cases t c failed o' e g = rw (write_index_file, ← e) refl
  index_cases t c (done n) crash e g = rw (write_index_file, ← e, ← g) refl
  index_cases t c (done n) failed e g = rw (write_index_file, ← e, ← g) refl
  index_cases t c (done n) (done m) e g = rw (write_index_file, ← e, ← g, get_all-quiet t) refl

  index_db : (t : Tables) (c : Cloud M) → IsRead t c
  index_db t c =
      index_cases t c (encrypt_filename P job.key job.snapshot_name)
        (encrypt_filename P job.key job.backup_dir_name) refl refl

  -- What the index file and the wipe leave.
  abbrev IsStopped : Outcome Playing × State M → Type 0
  IsStopped (done going, s) = Never
  IsStopped (done (stopped b), s) = (b ≡ false) × IsWiped s
  IsStopped (failed, s) = Never
  IsStopped (crash, s) = IsCrash

  wipe-IsStopped :
      (s : State M) (r : Outcome (Unit {0})) (db : Db) (c : Cloud M) (t : Tables)
      → db ≡ quiet t
      → (r ≡ crash → IsCrash)
      → IsStopped (wipe P H J order dirents cancel job round s (r, (db, c)))
  unfolding wipe_backup_journal
  wipe-IsStopped s (done tt) db c t e x =
      (refl, (record t { backup_journal = [] }, ap (λ d. (wipe_backup_journal d).1) e, refl))
  wipe-IsStopped s failed db c t e x =
      (refl, (record t { backup_journal = [] }, ap (λ d. (wipe_backup_journal d).1) e, refl))
  wipe-IsStopped s crash db c t e x = x refl

  write_index-IsStopped :
      (s : State M) (t : Tables)
      → s.world.db ≡ quiet t
      → IsStopped (write_index_file_and_wipe_journal P H J order dirents cancel job round s)
  unfolding write_index_file_and_wipe_journal
  write_index-IsStopped s t e =
      let r =
        write_index_file P H J job.key round.index_nonce round.draws.rounds job.backup_dir_name
          job.snapshot_name job.parsed_time s.world.db s.world.cloud in
      wipe-IsStopped s r.0 r.1.0 r.1.1 t (rw e (index_db t s.world.cloud))
        (λ f. inr (inr (s.world.db, s.world.cloud, f)))

  ended :
      (G F : Progress → Type 0) (s' : State M) (r : Outcome Playing) (s : State M)
      → IsAllDone F s'
      → (r, s) ≡ write_index_file_and_wipe_journal P H J order dirents cancel job round s'
      → IsStopped (r, s)
      → IsOnOrStopped G F (r, s)
  ended G F s' (done going) s a e h = elim h [ ]
  ended G F s' (done (stopped b)) s a e h = (h.0, (s', a, e, h.1))
  ended G F s' failed s a e h = h
  ended G F s' crash s a e h = h

  pub write_index-IsFinished :
      (G F : Progress → Type 0) (s : State M)
      → IsAllDone F s
      → IsOnOrStopped G F (write_index_file_and_wipe_journal P H J order dirents cancel job round s)
  write_index-IsFinished G F s (q, g, h, n, p) =
      let r = write_index_file_and_wipe_journal P H J order dirents cancel job round s in
      ended G F s r.0 r.1 (q, g, h, n, p) refl (write_index-IsStopped s h.0.tables h.0.is_quiet)

  none_held : (items : List ChunkPackerItem) → ids_of items ≡ [] → length items ≡ 0
  none_held [] e = refl
  none_held (i ∷ items) e = cc e

  pub complete_task-IsOn :
      (bjt : BackupJournalTask) (crp : Option CloudRelPath) (s : State M) (p : Progress)
      → IsBusy bjt.id s p
      → let r = complete_task J bjt crp s.world in
        IsFree (with_world r.1 s) (finish_one p) × (r.0 ≡ true → (p.waiting ≡ 0) × (p.held ≡ 0))
  complete_task-IsOn bjt crp s p (h, n) =
      let (h', all) =
        complete_task-IsAt J bjt crp s.world (ids_of s.packer.items) p.waiting p.finished
          (busy_first bjt.id s.world (ids_of s.packer.items) p.waiting p.finished h) in
      ((h', n), λ e. ((all e).0, sym n ∙ none_held s.packer.items (all e).1))

  pub finish_task-IsOn :
      (bjt : BackupJournalTask) (crp : Option CloudRelPath) (s : State M) (p : Progress)
      (G F : Progress → Type 0)
      → IsBusy bjt.id s p
      → G (finish_one p)
      → F (finish_one p)
      → IsOnOrStopped G F (finish_task P H J order dirents cancel job round bjt crp s)
  unfolding finish_task
  finish_task-IsOn bjt crp s p G F h g f =
      let w = update_last_backup_time round.draws.now bjt.dir_ent_id s.world in
      let s' = with_world w s in
      let ((h', n), all) =
        complete_task-IsOn bjt crp s' p
          (update_last_backup_time-IsAt s.world round.draws.now bjt.dir_ent_id h.0, h.1) in
      let r = complete_task J bjt crp w in
      elim (Bool-cases r.0) [
        | inr e ↦ rw e (finish_one p, g, (h', n))
        | inl e ↦ rw e (
            write_index-IsFinished G F (with_world r.1 s)
              (finish_one p, f, (h', n), (all e).0, inl (all e).1))
      ]
