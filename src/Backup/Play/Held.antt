-- ===== src/Backup/Play/Held.antt =====
-- Claims, and the packer's completion, in a play without database errors.
use mathlib.Core.Path.{subst}
use tless.Prelude.{
  ℕ, suc, ◌+◌, ◌≡◌, refl, sym, ◌∙◌, ◌⊎◌, inl, inr, Str, codes, Bool, false, Option, none, some,
  List, [], ◌∷◌, ◌++◌, arith, length, select, ltb, Bool-cases, Never, ◌≢◌,
}
use tless.Database.{
  Db, quiet, RowOrder, JournalRow, unstarted, in_progress, finished, ok, err, no_work, Result,
}
use tless.Database.Journal.{
  BackupJournalTask, is_status, update_row, set_status, claimed, claim_next_backup_journal_task,
}
use tless.Database.Journal.Finish.{count_status}
use tless.Database.Journal.Rows.{update_row-IsKeyed, length-update_row}
use tless.Database.Journal.Claim.{claim_next_backup_journal_task_lem}
use tless.Cryptography.{Outcome, done, failed, crash, Primitives, encrypt_buffer}
use tless.Objstore.{
  Hashes, Minio, Cloud, UploadError, upload_obj_from_buffer, compute_etag, upload_corrupted,
  put_failed, out_of_rounds,
}
use tless.Snapshots.{Json}
use tless.Backup.{World, update_last_backup_time, complete_task}
use tless.Backup.ChunkPacker.{
  ChunkPackerItem, ChunkPacker, Completed, finalize, entry_of, complete, commit_chunk, after_upload,
  finish_items,
}
use tless.Backup.Play.Running.{claim-IsRunning, count_moved}
use tless.Backup.Play.Steady.{IsAt, complete_task-IsAt, update_last_backup_time-IsAt}

none_waits :
    (rows : List JournalRow)
    → select (is_status unstarted) rows ≡ []
    → count_status unstarted rows ≡ 0
unfolding select
none_waits [] e = refl
none_waits (r ∷ rows) e = ground (arith, none_waits rows)

module _ {M : Minio} (w : World M) (ids : List ℕ) (waiting done_cnt : ℕ) where
  -- There is no work, and no task waits; or a task that waited is held.
  abbrev pub IsClaimed : Result BackupJournalTask × Db → Type 0
  IsClaimed r =
      ((r.0 ≡ err no_work) × (waiting ≡ 0) × IsAt (record w { db = r.1 }) ids waiting done_cnt)
      ⊎ ((bjt : BackupJournalTask) × (n : ℕ) × (r.0 ≡ ok bjt)
          × (waiting ≡ suc n)
          × IsAt (record w { db = r.1 }) (bjt.id ∷ ids) n done_cnt)

  claim_quiet :
      (order : RowOrder JournalRow) (rounds : ℕ)
      → (h : IsAt w ids waiting done_cnt)
      → IsClaimed (claim_next_backup_journal_task order (suc rounds) (quiet h.tables))
  claim_quiet order rounds h =
      let t = h.tables in
      elim (claim_next_backup_journal_task_lem order rounds t h.journal.keyed) [
        | inl (empty, e) ↦ rw e (
            inl (
              refl,
              sym h.journal.waiting_rows ∙ none_waits t.backup_journal empty,
              record {
                tables = t;
                is_quiet = refl;
                journal = h.journal;
                total = h.total;
                finished_count = h.finished_count;
              },
            ))
        | inr (r, m, u, e) ↦
            let f = set_status in_progress in
            let d = h.journal.keyed.distinct in
            let rows = update_row r.id f t.backup_journal in
            let fewer = count_moved unstarted unstarted f r t.backup_journal d m u in
            let same = count_moved finished unstarted f r t.backup_journal d m u in
            rw e (
              inr (
                claimed r,
                count_status unstarted rows,
                refl,
                omega (arith, fewer, h.journal.waiting_rows),
                record {
                  tables = record t { backup_journal = rows };
                  is_quiet = refl;
                  journal = record {
                    keyed = update_row-IsKeyed r.id f t (λ q. refl) h.journal.keyed;
                    running = claim-IsRunning r ids t.backup_journal d m u h.journal.running;
                    waiting_rows = refl;
                    finished_rows = omega (arith, same, h.journal.finished_rows);
                  };
                  total = h.total ∙ sym (length-update_row r.id f t.backup_journal);
                  finished_count = h.finished_count;
                },
              ))
      ]

  pub claim-IsClaimed :
      (order : RowOrder JournalRow) (rounds : ℕ)
      → IsAt w ids waiting done_cnt
      → IsClaimed (claim_next_backup_journal_task order (suc rounds) w.db)
  claim-IsClaimed order rounds h = rw h.is_quiet (claim_quiet order rounds h)

abbrev pub ids_of : List ChunkPackerItem → List ℕ
ids_of [] = []
ids_of (item ∷ items) = item.bjt.id ∷ ids_of items

-- The packer's items are finished one after the other.
pub finalize-IsAt :
    {M : Minio} (J : Json) (now : ℕ) (chunk_name : Str) (items : List ChunkPackerItem) (b : Bool)
    (w : World M) (ids : List ℕ) (waiting done_cnt : ℕ)
    → IsAt w (ids_of items ++ ids) waiting done_cnt
    → IsAt (finalize J now chunk_name items b w).1 ids waiting (length items + done_cnt)
unfolding finalize
finalize-IsAt J now chunk_name [] b w ids waiting done_cnt h =
    let e : done_cnt ≡ 0 + done_cnt = omega arith in subst (IsAt w ids waiting) e h
finalize-IsAt J now chunk_name (item ∷ items) b w ids waiting done_cnt h =
    let w' = update_last_backup_time now item.bjt.dir_ent_id w in
    let crp = some (entry_of chunk_name item) in
    let (h', _) =
      complete_task-IsAt J item.bjt crp w' (ids_of items ++ ids) waiting done_cnt
        (update_last_backup_time-IsAt w now item.bjt.dir_ent_id h) in
    let (c, w'') = complete_task J item.bjt crp w' in
    let e : length items + suc done_cnt ≡ suc (length items) + done_cnt = omega arith in
    subst (IsAt (finalize J now chunk_name items c w'').1 ids waiting) e
      (finalize-IsAt J now chunk_name items c w'' ids waiting (suc done_cnt) h')

-- From some state of the store, the upload of the chunk of this buffer has an error.
abbrev pub IsRefused : (M : Minio) → Primitives → Hashes → Str → Str → Option Str → ℕ → Str → Type 0
IsRefused M P H key chunk_name random rounds buf =
    (ciphertext : Str) × (c : Cloud M) × (encrypt_buffer P key buf random ≡ done ciphertext)
    × ((upload_obj_from_buffer M (codes "chunks/" ++ chunk_name) ciphertext
          (compute_etag H ciphertext) rounds c).error
        ≢ none)

module _ {M : Minio} (P : Primitives) (H : Hashes) (J : Json) (key chunk_name : Str)
    (random : Option Str) (rounds now : ℕ) (cp : ChunkPacker) (w : World M) (ids : List ℕ)
    (waiting done_cnt : ℕ) where
  -- All items of the packer are finished, or none is and the packer is as it was, where the upload
  -- of its chunk has failed.
  abbrev IsEmptied : Completed M → Type 0
  IsEmptied r =
      ((r.packer.items ≡ []) × IsAt r.world ids waiting (length cp.items + done_cnt))
      ⊎ ((r.packer ≡ cp)
          × IsAt r.world (ids_of cp.items ++ ids) waiting done_cnt
          × IsRefused M P H key chunk_name random rounds cp.plaintext_chunk_buf)

  abbrev pub IsEmptiedOrCrash : Outcome (Completed M) → Type 0
  IsEmptiedOrCrash (done r) = IsEmptied r
  IsEmptiedOrCrash failed = Never
  IsEmptiedOrCrash crash = Unit

  cloud-IsAt :
      (c : Cloud M)
      → IsAt w (ids_of cp.items ++ ids) waiting done_cnt
      → IsAt (record w { cloud = c }) (ids_of cp.items ++ ids) waiting done_cnt
  cloud-IsAt c h = record {
    tables = h.tables;
    is_quiet = h.is_quiet;
    journal = h.journal;
    total = h.total;
    finished_count = h.finished_count;
  }

  module _ (h : IsAt w (ids_of cp.items ++ ids) waiting done_cnt) where
    finish_items-IsEmptied :
        (c : Cloud M)
        → IsEmptied
            (finish_items P H J key chunk_name random rounds now cp (record w { cloud = c }))
    unfolding finish_items
    finish_items-IsEmptied c = inl (
      refl,
      finalize-IsAt J now chunk_name cp.items false (record w { cloud = c }) ids waiting done_cnt
          (cloud-IsAt c h),
    )

    after_upload-IsEmptied :
        (ciphertext : Str) (c : Cloud M)
        → encrypt_buffer P key cp.plaintext_chunk_buf random ≡ done ciphertext
        → let u =
            upload_obj_from_buffer M
              (codes "chunks/" ++ chunk_name)
              ciphertext
              (compute_etag H ciphertext)
              rounds
              c in
          (error : Option UploadError)
          → u.error ≡ error
          → IsEmptiedOrCrash (after_upload P H J key chunk_name random rounds now cp w u)
    unfolding after_upload
    after_upload-IsEmptied ciphertext c sealed none e = rw e (finish_items-IsEmptied _)
    after_upload-IsEmptied ciphertext c sealed (some upload_corrupted) e =
        rw e (inr (refl, cloud-IsAt _ h, (ciphertext, c, sealed, λ f. cc (sym e ∙ f))))
    after_upload-IsEmptied ciphertext c sealed (some put_failed) e =
        rw e (inr (refl, cloud-IsAt _ h, (ciphertext, c, sealed, λ f. cc (sym e ∙ f))))
    after_upload-IsEmptied ciphertext c sealed (some out_of_rounds) e = rw e tt

    commit_chunk-IsEmptied :
        (o : Outcome Str)
        → encrypt_buffer P key cp.plaintext_chunk_buf random ≡ o
        → IsEmptiedOrCrash (commit_chunk P H J key chunk_name random rounds now cp w o)
    unfolding commit_chunk
    commit_chunk-IsEmptied failed sealed = tt
    commit_chunk-IsEmptied crash sealed = tt
    commit_chunk-IsEmptied (done ciphertext) sealed =
        after_upload-IsEmptied ciphertext w.cloud sealed _ refl

    pub complete-IsEmptied : IsEmptiedOrCrash (complete P H J key chunk_name random rounds now cp w)
    unfolding complete
    complete-IsEmptied = elim (Bool-cases (ltb 0 (length cp.plaintext_chunk_buf))) [
      | inl e ↦
          rw e (commit_chunk-IsEmptied (encrypt_buffer P key cp.plaintext_chunk_buf random) refl)
      | inr e ↦ rw e (finish_items-IsEmptied w.cloud)
    ]
