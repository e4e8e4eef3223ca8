-- ===== src/Snapshots/Collect/Counts.antt =====
-- The reference counts of `GCChunks`: which chunks have one.
use tless.Prelude.{
  ℕ, ◌≡◌, refl, Str, Bool, true, false, ◌||◌, Option, none, some, List, [], ◌∷◌, ◌==◌, str_eq,
  arith, Bool-cases, inl, inr,
}
use tless.Prelude.Dict.{Dict, lookup, insert, lookup-insert}
use tless.Snapshots.{ChunkExtent, CloudRelPath, Snapshot, BackupDir}
use tless.Snapshots.Collect.{
  Counts, one_more, count_extents, count_rel_paths, count_snapshots, count_backups,
}

abbrev pub is_some : Option ℕ → Bool
is_some none = false
is_some (some _) = true

-- Whether a chunk is one of an extent's, of a path's, of a snapshot's, of a backup's.
abbrev pub has_extent : Str → List ChunkExtent → Bool
has_extent k [] = false
has_extent k (e ∷ extents) = e.chunk_name == k || has_extent k extents

abbrev pub has_rel_path : Str → Dict Str CloudRelPath → Bool
has_rel_path k [] = false
has_rel_path k ((_, crp) ∷ paths) = has_extent k crp.chunk_extents || has_rel_path k paths

abbrev pub has_snapshot : Str → Dict Str Snapshot → Bool
has_snapshot k [] = false
has_snapshot k ((_, ss) ∷ snapshots) = has_rel_path k ss.rel_paths || has_snapshot k snapshots

abbrev pub is_referenced : Str → Dict Str BackupDir → Bool
is_referenced k [] = false
is_referenced k ((_, dir) ∷ groups) = has_snapshot k dir.snapshots || is_referenced k groups

or_swap : (a b c : Bool) → (a || (b || c)) ≡ ((b || a) || c)
or_swap a b c = ground arith

one_counted :
    (k name : Str) (counts : Counts)
    → is_some (lookup k (insert name (one_more (lookup name counts)) counts))
      ≡ (name == k || is_some (lookup k counts))
one_counted k name counts =
    rw lookup-insert (elim (Bool-cases (name == k)) [ inl e ↦ rw e refl | inr e ↦ rw e refl ])

extents_counted :
    (k : Str) (extents : List ChunkExtent) (counts : Counts)
    → is_some (lookup k (count_extents extents counts))
      ≡ (has_extent k extents || is_some (lookup k counts))
unfolding count_extents
extents_counted k [] counts = refl
extents_counted k (e ∷ extents) counts =
    rw (extents_counted k extents, one_counted)
      (or_swap (has_extent k extents) (e.chunk_name == k) (is_some (lookup k counts)))

rel_paths_counted :
    (k : Str) (paths : Dict Str CloudRelPath) (counts : Counts)
    → is_some (lookup k (count_rel_paths paths counts))
      ≡ (has_rel_path k paths || is_some (lookup k counts))
unfolding count_rel_paths
rel_paths_counted k [] counts = refl
rel_paths_counted k ((_, crp) ∷ paths) counts =
    rw (rel_paths_counted k paths, extents_counted)
      (or_swap (has_rel_path k paths) (has_extent k crp.chunk_extents) (is_some (lookup k counts)))

snapshots_counted :
    (k : Str) (snapshots : Dict Str Snapshot) (counts : Counts)
    → is_some (lookup k (count_snapshots snapshots counts))
      ≡ (has_snapshot k snapshots || is_some (lookup k counts))
unfolding count_snapshots
snapshots_counted k [] counts = refl
snapshots_counted k ((_, ss) ∷ snapshots) counts =
    rw (snapshots_counted k snapshots, rel_paths_counted)
      (or_swap (has_snapshot k snapshots) (has_rel_path k ss.rel_paths) (is_some (lookup k counts)))

pub backups_counted :
    (k : Str) (groups : Dict Str BackupDir) (counts : Counts)
    → is_some (lookup k (count_backups groups counts))
      ≡ (is_referenced k groups || is_some (lookup k counts))
unfolding count_backups
backups_counted k [] counts = refl
backups_counted k ((_, dir) ∷ groups) counts =
    rw (backups_counted k groups, snapshots_counted)
      (or_swap (is_referenced k groups) (has_snapshot k dir.snapshots) (is_some (lookup k counts)))
