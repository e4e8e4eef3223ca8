-- ===== src/Backup/Play/Ends.antt =====
-- The loop of `PlayBackupJournal` ends.
use tless.Prelude.{
  suc, ◌<◌, ◌≡◌, refl, sym, ap, inl, inr, true, false, List, [], ◌∷◌, arith, length, Never, In,
}
use tless.Database.{Db, RowOrder, DirEntRow, JournalRow}
use tless.Cryptography.{Outcome, done, failed, crash, Primitives}
use tless.Objstore.{Hashes, Minio, Cloud}
use tless.Snapshots.{Json}
use tless.Backup.Entry.{State}
use tless.Backup.Play.{Round, Playing, going, stopped, Job, play_round, play_loop, go_on}
use tless.Backup.Play.Progress.{Progress, Flushes, keeps, empties, IsFree}
use tless.Backup.Play.Rounds.{Advances, to_packer, to_done, IsCrash, IsFinished, IsOnOrStopped}
use tless.Backup.Play.Refines.{EndsAt, play_round_refines}

-- A task fewer waits.
Flushes-waiting : (p q : Progress) → Flushes p q → q.waiting ≡ p.waiting
Flushes-waiting p q (keeps _) = refl
Flushes-waiting p q (empties n r f) = refl

Advances-waiting : (p q : Progress) → Advances p q → p.waiting ≡ suc q.waiting
Advances-waiting p q (to_packer n r f q' g) = ap suc (sym (Flushes-waiting _ q' g))
Advances-waiting p q (to_done n r f q' g) = ap suc (sym (Flushes-waiting _ q' g))

abbrev pub Any : Progress → Type 0
Any p = Unit

module _ {M : Minio} (P : Primitives) (H : Hashes) (J : Json) (order : RowOrder JournalRow)
    (dirents : RowOrder DirEntRow) (cancel : Db × Cloud M → Db × Cloud M) (job : Job) where
  -- How a play ends: in one of its rounds, where all was done and the journal is wiped, or a
  -- cancelation was asked for, or a call did not return.
  abbrev pub IsEnded : List Round → Outcome Playing × State M → Type 0
  IsEnded rounds (done going, s) = Never
  IsEnded rounds (done (stopped false), s) =
      (round : Round) × In round rounds
      × IsFinished P H J order dirents cancel job round Any (done (stopped false), s)
  IsEnded rounds (done (stopped true), s) =
      (round : Round) × In round rounds × (round.is_canceled ≡ true)
  IsEnded rounds (failed, s) = Never
  IsEnded rounds (crash, s) =
      (round : Round) × In round rounds × IsCrash P H J order dirents cancel job round

  IsEnded-cons :
      (round : Round) (rounds : List Round) (r : Outcome Playing) (s : State M)
      → IsEnded rounds (r, s)
      → IsEnded (round ∷ rounds) (r, s)
  IsEnded-cons round rounds (done going) s h = h
  IsEnded-cons round rounds (done (stopped false)) s (x, m, e) = (x, inr m, e)
  IsEnded-cons round rounds (done (stopped true)) s (x, m, e) = (x, inr m, e)
  IsEnded-cons round rounds failed s h = h
  IsEnded-cons round rounds crash s (x, m, e) = (x, inr m, e)

  go_on-IsEnded :
      (round : Round) (rounds : List Round) (s : State M) (p : Progress) (F : Progress → Type 0)
      → ((s' : State M) (q : Progress)
          → IsFree s' q
          → q.waiting < length rounds
          → IsEnded rounds (play_loop P H J order dirents cancel job rounds s'))
      → p.waiting < suc (length rounds)
      → (r : Outcome Playing) (s' : State M)
      → IsOnOrStopped P H J order dirents cancel job round (Advances p) F (r, s')
      → IsEnded (round ∷ rounds) (go_on (play_loop P H J order dirents cancel job rounds) (r, s'))
  go_on-IsEnded round rounds s p F again less (done going) s' (q, g, h) =
      let e = Advances-waiting p q g in
      let r = play_loop P H J order dirents cancel job rounds s' in
      IsEnded-cons round rounds r.0 r.1 (again s' q h (omega arith))
  go_on-IsEnded round rounds s p F again less (done (stopped false)) s'
        (e, (x, (q, g, at, z, left), same, wiped)) =
      (round, inl refl, (x, (q, tt, at, z, left), same, wiped))
  go_on-IsEnded round rounds s p F again less (done (stopped true)) s' (e, h) = cc e
  go_on-IsEnded round rounds s p F again less failed s' h = h
  go_on-IsEnded round rounds s p F again less crash s' h = (round, inl refl, h)

  -- Without database errors, from a journal of which the packer holds the tasks in progress, and with
  -- more rounds than tasks that wait, the loop ends.
  pub play_loop_ends :
      (rounds : List Round) (s : State M) (p : Progress)
      → IsFree s p
      → p.waiting < length rounds
      → IsEnded rounds (play_loop P H J order dirents cancel job rounds s)
  unfolding play_loop
  play_loop_ends [] s p h less = absurd (omega arith)
  play_loop_ends (round ∷ rounds) s p h less =
      let r = play_round P H J order dirents cancel job round s in
      elim (play_round_refines P H J order dirents cancel job round s p h) [
        | inl (e, stop) ↦ rw stop (round, inl refl, e)
        | inr (_, on) ↦
            go_on-IsEnded round rounds s p (EndsAt p) (play_loop_ends rounds) less r.0 r.1 on
      ]
