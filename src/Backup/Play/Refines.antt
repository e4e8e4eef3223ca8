-- ===== src/Backup/Play/Refines.antt =====
-- A round of `PlayBackupJournal` refines the machine on the numbers of tasks.
use mathlib.Core.Path.{subst}
use mathlib.Core.List.{append-nil}
use tless.Prelude.{
  suc, ◌≡◌, refl, sym, ◌⊎◌, inl, inr, Str, Bool, true, false, Option, none, some, List, [], length,
  Bool-cases, str_eq, ◌+◌, ap, ◌∙◌,
}
use tless.Prelude.Dict.{lookup}
use tless.Database.{
  Db, RowOrder, DirEntRow, JournalRow, updated, unchanged, deleted, Result, ChangeType,
}
use tless.Database.DirEnts.{get_dir_ent_paths}
use tless.Database.Journal.{BackupJournalTask, claim_next_backup_journal_task}
use tless.Cryptography.{Outcome, done, failed, crash, Primitives}
use tless.Objstore.{Hashes, Minio, Cloud}
use tless.Snapshots.{ChunkExtent, Snapshot, Json}
use tless.Backup.ChunkPacker.{Completed, complete}
use tless.Backup.Entry.{State, back_up}
use tless.Backup.Play.{
  Round, stopped, Job, extents_of, rel_path_or_blank, with_db, count_file, count_bytes,
  purge_from_db, finish_play, after_back_up, back_up_task, run_change, after_claim, play_round,
  Playing, unwound,
}
use tless.Backup.Play.Steady.{IsAt, delete_dir_ent-IsAt, get_dir_ent_paths-IsAt}
use tless.Backup.Play.Held.{
  ids_of, IsClaimed, IsEmptiedOrCrash, complete-IsEmptied, claim-IsClaimed, IsRefused,
}
use tless.Backup.Play.Progress.{
  Progress, keeps, hold_one, finish_one, IsFree, IsBusy, IsBackedUp, back_up-IsBackedUp, Flushes,
  empties,
}
use tless.Backup.Play.Rounds.{
  Advances, to_packer, to_done, IsCrash, IsOnOrStopped, busy_last, complete_task-IsOn,
  finish_task-IsOn, write_index-IsFinished,
}

-- From the numbers before a claim.
abbrev Next : Progress → Progress → Type 0
Next p q = Advances (record p { waiting = suc p.waiting }) q

-- The numbers from which the loop ends: after the step of a task, or with no task to claim.
abbrev pub EndsAt : Progress → Progress → Type 0
EndsAt p q = Advances p q ⊎ Flushes p q

abbrev NextEnd : Progress → Progress → Type 0
NextEnd p q = EndsAt (record p { waiting = suc p.waiting }) q

module _ {M : Minio} (P : Primitives) (H : Hashes) (J : Json) (order : RowOrder JournalRow)
    (dirents : RowOrder DirEntRow) (cancel : Db × Cloud M → Db × Cloud M) (job : Job)
    (round : Round) where
  abbrev OnOrStopped :
      (Progress → Type 0) → (Progress → Type 0) → Outcome Playing × State M → Type 0
  OnOrStopped = IsOnOrStopped P H J order dirents cancel job round

  module _ (bjt : BackupJournalTask) (rel_path : Str) (p : Progress) where
    after_back_up-IsOn :
        (r : Outcome (List ChunkExtent × Bool)) (s : State M)
        → IsBackedUp bjt.id p (r, s)
        → (r ≡ crash → IsCrash P H J order dirents cancel job round)
        → OnOrStopped
            (Next p)
            (NextEnd p)
            (after_back_up P H J order dirents cancel job round bjt rel_path (r, s))
    after_back_up-IsOn crash s h x = x refl
    after_back_up-IsOn failed s (q, g, h) x = (
      finish_one q,
      to_done p.waiting p.held p.finished q g,
      (complete_task-IsOn P H J order dirents cancel job round bjt none s q h).0,
    )
    after_back_up-IsOn (done (extents, true)) s (q, g, h) x =
        (hold_one q, to_packer p.waiting p.held p.finished q g, h)
    after_back_up-IsOn (done (extents, false)) s (q, g, h) x =
        let step = to_done p.waiting p.held p.finished q g in
        finish_task-IsOn P H J order dirents cancel job round bjt
          (some (record { rel_path = rel_path; chunk_extents = extents })) (count_bytes extents s) q
          (Next p) (NextEnd p) h step (inl step)

    back_up_task-IsOn :
        (s : State M)
        → IsBusy bjt.id s p
        → OnOrStopped
            (Next p)
            (NextEnd p)
            (back_up_task P H J order dirents cancel job round bjt rel_path s)
    unfolding back_up_task
    back_up_task-IsOn s h =
        let r = back_up P H J job.key round.os round.draws rel_path bjt job.backup_dir_path s in
        after_back_up-IsOn r.0 r.1
          (back_up-IsBackedUp P H J job.key round.os round.draws rel_path bjt job.backup_dir_path s
            p h)
          (λ e. inl (bjt, rel_path, s, e))

    run_change-IsOn :
        (c : ChangeType) (prev : Option Snapshot) (s : State M)
        → IsBusy bjt.id s p
        → OnOrStopped
            (Next p)
            (NextEnd p)
            (run_change P H J order dirents cancel job round c prev bjt rel_path s)
    unfolding run_change purge_from_db
    run_change-IsOn updated prev s h = back_up_task-IsOn s h
    run_change-IsOn unchanged none s h = back_up_task-IsOn s h
    run_change-IsOn unchanged (some ss) s h =
        let extents = extents_of (lookup rel_path ss.rel_paths) in
        let step = to_done p.waiting p.held p.finished p (keeps p) in
        finish_task-IsOn P H J order dirents cancel job round bjt
          (some (record { rel_path = rel_path; chunk_extents = extents })) (count_bytes extents s) p
          (Next p) (NextEnd p) h step (inl step)
    run_change-IsOn deleted prev s h =
        let step = to_done p.waiting p.held p.finished p (keeps p) in
        finish_task-IsOn P H J order dirents cancel job round bjt none
          (purge_from_db job.backup_dir_name rel_path s) p (Next p) (NextEnd p)
          (delete_dir_ent-IsAt s.world job.backup_dir_name rel_path h.0, h.1) step (inl step)

  -- With no work the packer is emptied, or its chunk cannot be uploaded, and the loop ends.
  finish_play-IsStopped :
      (s : State M) (p : Progress) (o : Outcome (Completed M))
      → complete P H J job.key
          (round.draws.chunk_names 0)
          round.draws.nonce
          round.draws.rounds
          round.draws.now
          s.packer
          s.world
        ≡ o
      → IsEmptiedOrCrash P H J job.key
          (round.draws.chunk_names 0)
          round.draws.nonce
          round.draws.rounds
          round.draws.now
          s.packer
          s.world
          []
          p.waiting
          p.finished
          o
      → p.waiting ≡ 0
      → length s.packer.items ≡ p.held
      → OnOrStopped (Advances p) (EndsAt p) (finish_play P H J order dirents cancel job round s o)
  finish_play-IsStopped s p failed e h z n = elim h [ ]
  finish_play-IsStopped s p crash e h z n = inr (inl (s, e))
  finish_play-IsStopped s p (done c) e (inl (empty, h)) z n =
      write_index-IsFinished P H J order dirents cancel job round (Advances p) (EndsAt p)
        (record { packer = c.packer; world = c.world; cnt_files = s.cnt_files })
        (
          record { waiting = p.waiting; held = 0; finished = p.held + p.finished },
          inr (empties p.waiting p.held p.finished),
          (
            subst (λ items. IsAt c.world (ids_of items) p.waiting (p.held + p.finished)) (sym empty)
                (subst (λ k. IsAt c.world [] p.waiting (k + p.finished)) n h),
            ap length empty,
          ),
          z,
          inl refl,
        )
  finish_play-IsStopped s p (done c) e (inr (same, h, refused)) z n =
      let h' =
        subst (λ ids. IsAt c.world ids p.waiting p.finished) (append-nil (ids_of s.packer.items))
          h in
      write_index-IsFinished P H J order dirents cancel job round (Advances p) (EndsAt p)
        (record { packer = c.packer; world = c.world; cnt_files = s.cnt_files })
        (
          p,
          inr (keeps p),
          (
            subst (λ cp. IsAt c.world (ids_of cp.items) p.waiting p.finished) (sym same) h',
            ap (λ cp. length cp.items) same ∙ n,
          ),
          z,
          inr (
              subst
                (λ cp.
                  IsRefused M P H job.key (round.draws.chunk_names 0) round.draws.nonce
                    round.draws.rounds cp.plaintext_chunk_buf)
                (sym same) refused),
        )

  -- What a round does that is not canceled.
  after_claim-IsOn :
      (s : State M) (p : Progress) (r : Result BackupJournalTask) (db : Db)
      → IsClaimed s.world (ids_of s.packer.items) p.waiting p.finished (r, db)
      → length s.packer.items ≡ p.held
      → OnOrStopped
          (Advances p)
          (EndsAt p)
          (after_claim P H J order dirents cancel job round s (r, db))
  unfolding complete
  after_claim-IsOn s p r db (inl (e, w, h)) n =
      let s' = with_db db s in
      let o =
        complete P H J job.key (round.draws.chunk_names 0) round.draws.nonce round.draws.rounds
          round.draws.now s'.packer s'.world in
      let h' =
        subst (λ ids. IsAt s'.world ids p.waiting p.finished)
          (sym (append-nil (ids_of s.packer.items))) h in
      rw e (
        finish_play-IsStopped s' p o refl
          (complete-IsEmptied P H J job.key (round.draws.chunk_names 0) round.draws.nonce
            round.draws.rounds round.draws.now s'.packer s'.world [] p.waiting p.finished h')
          w n)
  after_claim-IsOn s p r db (inr (bjt, m, e, w, h)) n =
      let q : Progress = record { waiting = m; held = p.held; finished = p.finished } in
      let s1 = with_db db s in
      let paths = get_dir_ent_paths dirents bjt.dir_ent_id db in
      let s2 = count_file (with_db paths.1 s) in
      let h1 = busy_last bjt.id s1.world (ids_of s.packer.items) m p.finished h in
      let h2 = get_dir_ent_paths-IsAt s1.world dirents bjt.dir_ent_id h1 in
      let r2 =
        run_change P H J order dirents cancel job round bjt.change_type job.prev_snapshot bjt
          (rel_path_or_blank paths.0) s2 in
      rw e (
        subst
          (λ k.
            let before : Progress = record { waiting = k; held = p.held; finished = p.finished } in
            OnOrStopped (Advances before) (EndsAt before) r2)
          (sym w)
          (run_change-IsOn bjt (rel_path_or_blank paths.0) q bjt.change_type job.prev_snapshot s2
            (h2, n)))

  pub play_round_refines :
      (s : State M) (p : Progress)
      → IsFree s p
      → let r = play_round P H J order dirents cancel job round s in
        ((round.is_canceled ≡ true) × (r ≡ (done (stopped true), unwound cancel s)))
        ⊎ ((round.is_canceled ≡ false)
            × IsOnOrStopped P H J order dirents cancel job round (Advances p) (EndsAt p) r)
  unfolding play_round
  play_round_refines s p (h, n) =
      let c = claim_next_backup_journal_task order (suc round.draws.rounds) s.world.db in
      elim (Bool-cases round.is_canceled) [
        | inl e ↦ inl (e, rw (play_round, e) refl)
        | inr e ↦ inr (
          e,
          rw (play_round, e)
              (after_claim-IsOn s p c.0 c.1
                (claim-IsClaimed s.world (ids_of s.packer.items) p.waiting p.finished order
                  round.draws.rounds h)
                n),
        )
      ]
