-- ===== src/Backup/Play/Progress.antt =====
-- A play as a machine on three numbers: the tasks that wait, those that the packer holds, and those
-- that are finished. What `Backup` does to it.
use tless.Prelude.{
  ℕ, suc, ◌+◌, ◌≡◌, refl, sym, ap, inl, inr, Str, Bool, true, false, not, ◌&&◌, ◌||◌, Option, none,
  some, List, [], ◌∷◌, ◌++◌, arith, length, length-append, ltb, Bool-cases, Option-cases, ◌==◌,
  str_eq,
}
use mathlib.Core.Path.{subst}
use tless.Util.{strip_trailing_slashes}
use tless.Database.Journal.{BackupJournalTask}
use tless.Cryptography.{Outcome, done, failed, crash, Primitives}
use tless.Objstore.{Hashes, Minio, Cloud}
use tless.Snapshots.{ChunkExtent, Json}
use tless.Backup.{chunk_size, World}
use tless.Backup.ChunkPacker.{ChunkPackerItem, ChunkPacker, Completed, add_dir_entry, with_entry}
use tless.Backup.Small.{back_up_small, try_again}
use tless.Backup.Entry.{
  Os, Draws, State, FileInfo, is_filtered, of_packed, of_large, pack, back_up_contents,
  back_up_found, back_up, back_up_large, serialize_metadata_struct, metadata_of, appended,
}
use tless.Backup.Play.Steady.{IsAt}
use tless.Backup.Play.Held.{ids_of, IsEmptiedOrCrash, complete-IsEmptied}

pub record Progress : Type 0 where
  pub waiting : ℕ
  pub held : ℕ
  pub finished : ℕ

-- The packer may be emptied, which finishes all that it holds.
pub data Flushes : Progress → Progress → Type 0 where
  keeps : (p : Progress) → Flushes p p
  empties :
      (n r f : ℕ)
      → Flushes
          (record { waiting = n; held = r; finished = f })
          (record { waiting = n; held = 0; finished = r + f })

abbrev pub hold_one : Progress → Progress
hold_one p = record p { held = suc p.held }

abbrev pub finish_one : Progress → Progress
finish_one p = record p { finished = suc p.finished }

-- The packer holds the tasks that are in progress, of which the state has these numbers.
abbrev pub IsFree : {M : Minio} → State M → Progress → Type 0
IsFree s p =
    IsAt s.world (ids_of s.packer.items) p.waiting p.finished × (length s.packer.items ≡ p.held)

-- The same with one more task in progress, that the loop has claimed.
abbrev pub IsBusy : {M : Minio} → ℕ → State M → Progress → Type 0
IsBusy id s p =
    IsAt s.world (ids_of s.packer.items ++ (id ∷ [])) p.waiting p.finished
    × (length s.packer.items ≡ p.held)

-- After `Backup` the claimed task is in the packer too, or still the loop's.
abbrev pub IsBackedUp :
    {M : Minio} → ℕ → Progress → Outcome (List ChunkExtent × Bool) × State M → Type 0
IsBackedUp id p (done (extents, true), s) = (q : Progress) × Flushes p q × IsFree s (hold_one q)
IsBackedUp id p (done (extents, false), s) = (q : Progress) × Flushes p q × IsBusy id s q
IsBackedUp id p (failed, s) = (q : Progress) × Flushes p q × IsBusy id s q
IsBackedUp id p (crash, s) = Unit

ids_of-snoc :
    (items : List ChunkPackerItem) (item : ChunkPackerItem)
    → ids_of (items ++ (item ∷ [])) ≡ ids_of items ++ (item.bjt.id ∷ [])
ids_of-snoc [] item = refl
ids_of-snoc (x ∷ items) item = ap (◌∷◌ x.bjt.id) (ids_of-snoc items item)

pub other_cloud :
    {M : Minio} (s : State M) (c : Cloud M) {ids : List ℕ} {waiting done_cnt : ℕ}
    → IsAt s.world ids waiting done_cnt
    → IsAt (record s.world { cloud = c }) ids waiting done_cnt
other_cloud s c h = record {
  tables = h.tables;
  is_quiet = h.is_quiet;
  journal = h.journal;
  total = h.total;
  finished_count = h.finished_count;
}

module _ {M : Minio} (P : Primitives) (H : Hashes) (J : Json) (key : Str) (os : Os) (draws : Draws)
    (rel_path : Str) (bjt : BackupJournalTask) where
  -- The item takes the task from the loop.
  with_entry-IsFree :
      (buf : Str) (cp : ChunkPacker) (w : World M) (files : Option ℕ) (p : Progress)
      → IsBusy bjt.id (record { packer = cp; world = w; cnt_files = files }) p
      → IsFree
          (record { packer = with_entry rel_path buf bjt cp; world = w; cnt_files = files })
          (hold_one p)
  with_entry-IsFree buf cp w files p (h, n) = (
    subst (λ ids. IsAt w ids p.waiting p.finished) (sym (ids_of-snoc cp.items _)) h,
    omega (arith, n, length-append cp.items _),
  )

  abbrev packed_state :
      Option ℕ → World M → Bool × ChunkPacker → Outcome (List ChunkExtent × Bool) × State M
  packed_state files w (ok, cp) =
      (done ([], ok), record { packer = cp; world = w; cnt_files = files })

  add-IsBackedUp :
      (buf : Str) (cp : ChunkPacker) (w : World M) (files : Option ℕ) (p q : Progress)
      → Flushes p q
      → IsBusy bjt.id (record { packer = cp; world = w; cnt_files = files }) q
      → IsBackedUp bjt.id p (packed_state files w (add_dir_entry rel_path buf bjt cp))
  unfolding add_dir_entry
  add-IsBackedUp buf cp w files p q g h =
      elim (Bool-cases (ltb chunk_size (length buf + cp.pos_in_plaintext_chunk))) [
        | inl e ↦ rw e (q, g, h)
        | inr e ↦ rw e (q, g, with_entry-IsFree buf cp w files q h)
      ]

  module _ (buf : Str) (s : State M) (p : Progress) where
    abbrev tried : Outcome (Completed M) → Outcome (List ChunkExtent × Bool) × State M
    tried o = of_packed s (
        try_again P H J key (draws.chunk_names 0) draws.nonce draws.rounds draws.now rel_path buf
          bjt o)

    try_again-IsBackedUp :
        (o : Outcome (Completed M))
        → IsEmptiedOrCrash P H J key
            (draws.chunk_names 0)
            draws.nonce
            draws.rounds
            draws.now
            s.packer
            s.world
            (bjt.id ∷ [])
            p.waiting
            p.finished
            o
        → length s.packer.items ≡ p.held
        → IsBackedUp bjt.id p (tried o)
    try_again-IsBackedUp failed h n = elim h [ ]
    try_again-IsBackedUp crash h n = tt
    try_again-IsBackedUp (done r) (inl (empty, h)) n =
        add-IsBackedUp buf r.packer r.world s.cnt_files p
          (record { waiting = p.waiting; held = 0; finished = p.held + p.finished })
          (empties p.waiting p.held p.finished)
          (
            subst
                (λ items.
                  IsAt r.world (ids_of items ++ (bjt.id ∷ [])) p.waiting (p.held + p.finished))
                (sym empty)
                (subst (λ k. IsAt r.world (bjt.id ∷ []) p.waiting (k + p.finished)) n h),
            ap length empty,
          )
    try_again-IsBackedUp (done r) (inr (same, h, _)) n =
        subst
          (λ cp.
            IsBackedUp bjt.id p
              (packed_state s.cnt_files r.world (add_dir_entry rel_path buf bjt cp)))
          (sym same) (add-IsBackedUp buf s.packer r.world s.cnt_files p p (keeps p) (h, n))

    back_up_small-IsBackedUp :
        IsBusy bjt.id s p
        → IsBackedUp bjt.id p (
            of_packed s (
              back_up_small P H J key
                (draws.chunk_names 0)
                draws.nonce
                draws.rounds
                draws.now
                rel_path
                buf
                bjt
                s.packer
                s.world))
    unfolding back_up_small add_dir_entry
    back_up_small-IsBackedUp h =
        elim (Bool-cases (ltb chunk_size (length buf + s.packer.pos_in_plaintext_chunk))) [
          | inl e ↦ rw e (
              try_again-IsBackedUp _
                (complete-IsEmptied P H J key (draws.chunk_names 0) draws.nonce draws.rounds
                  draws.now s.packer s.world (bjt.id ∷ []) p.waiting p.finished h.0)
                h.1)
          | inr e ↦ rw e (p, keeps p, with_entry-IsFree buf s.packer s.world s.cnt_files p h)
        ]

  pack-IsBackedUp :
      (buf : Option Str) (s : State M) (p : Progress)
      → IsBusy bjt.id s p
      → IsBackedUp bjt.id p (pack P H J key os draws rel_path bjt buf s)
  unfolding pack
  pack-IsBackedUp none s p h = (p, keeps p, h)
  pack-IsBackedUp (some buf) s p h = back_up_small-IsBackedUp buf s p h

  large-IsBackedUp :
      (s : State M) (p : Progress) (r : Outcome (List ChunkExtent)) (c : Cloud M)
      → IsBusy bjt.id s p
      → IsBackedUp bjt.id p (of_large s (r, c))
  large-IsBackedUp s p (done extents) c (h, n) = (p, keeps p, (other_cloud s c h, n))
  large-IsBackedUp s p failed c (h, n) = (p, keeps p, (other_cloud s c h, n))
  large-IsBackedUp s p crash c h = tt

  contents-IsBackedUp :
      (abs_path : Str) (info : FileInfo) (link : Bool) (buf : Option Str) (s : State M)
      (p : Progress)
      → IsBusy bjt.id s p
      → IsBackedUp bjt.id p
          (back_up_contents P H J key os draws rel_path bjt abs_path info link buf s)
  unfolding back_up_contents
  contents-IsBackedUp abs_path info link none s p h = (p, keeps p, h)
  contents-IsBackedUp abs_path info link (some buf) s p h =
      elim (Bool-cases (info.is_dir || (ltb (info.size + length buf) chunk_size || link))) [
        | inr e ↦ rw e (
            large-IsBackedUp s p (back_up_large P H key draws os abs_path buf s.world.cloud).0
              (back_up_large P H key draws os abs_path buf s.world.cloud).1 h)
        | inl e ↦ elim (Bool-cases (not info.is_dir && not link)) [
          | inl g ↦ rw (e, g) (pack-IsBackedUp (appended buf (os.read_once abs_path)) s p h)
          | inr g ↦ rw (e, g) (pack-IsBackedUp (some buf) s p h)
        ]
      ]

  found-IsBackedUp :
      (abs_path : Str) (info : FileInfo) (origin : Option Str) (s : State M) (p : Progress)
      → IsBusy bjt.id s p
      → IsBackedUp bjt.id p (back_up_found P H J key os draws rel_path bjt abs_path info origin s)
  unfolding back_up_found
  found-IsBackedUp abs_path info none s p h = (p, keeps p, h)
  found-IsBackedUp abs_path info (some origin) s p h =
      contents-IsBackedUp abs_path info (not (origin == []))
        (serialize_metadata_struct os (metadata_of info origin (os.serialize_xattrs abs_path))) s p
        h

  pub back_up-IsBackedUp :
      (path : Str) (s : State M) (p : Progress)
      → IsBusy bjt.id s p
      → IsBackedUp bjt.id p (back_up P H J key os draws rel_path bjt path s)
  unfolding back_up
  back_up-IsBackedUp path s p h =
      let abs_path = os.join (strip_trailing_slashes path) rel_path in
      elim (Option-cases (os.lstat abs_path)) [
        | inl e ↦ rw (back_up, e) (p, keeps p, h)
        | inr (info, e) ↦ elim (Bool-cases (is_filtered info)) [
          | inl g ↦ rw (back_up, e, g) (p, keeps p, h)
          | inr g ↦ rw (back_up, e, g) (found-IsBackedUp abs_path info _ s p h)
        ]
      ]
