-- ===== src/Snapshots/Collect.antt =====
-- pkg/snapshots/snapshots.go: the deletion of snapshots, and of the chunks that no snapshot has.
pub mod Counts
pub mod Reads
pub mod Orphans
use tless.Prelude.{
  ℕ, suc, ◌+◌, Str, codes, Bool, true, false, Option, none, some, List, [], ◌∷◌, ◌++◌,
  if◌then◌else◌, str_eq,
}
use tless.Prelude.Dict.{Dict, lookup, insert}
use tless.Util.Strings.{trim_prefix}
use tless.Cryptography.{Outcome, done, failed, crash, Primitives, encrypt_filename}
use tless.Objstore.{Minio, Cloud, get_obj_list, delete_obj}
use tless.Snapshots.{ChunkExtent, CloudRelPath, Snapshot, BackupDir, Json}
use tless.Snapshots.Grouped.{
  Net, pure, given, asked, ◌>>=◌, ◌>>◌, index_prefix, get_grouped_snapshots,
}

abbrev pub Counts : Type 0
Counts = Dict Str ℕ

-- One reference more.
abbrev pub one_more : Option ℕ → ℕ
one_more none = 1
one_more (some val) = val + 1

unfoldable pub count_extents : List ChunkExtent → Counts → Counts
unfolding lookup insert str_eq
count_extents [] counts = counts
count_extents (e ∷ extents) counts =
    count_extents extents (insert e.chunk_name (one_more (lookup e.chunk_name counts)) counts)

unfoldable pub count_rel_paths : Dict Str CloudRelPath → Counts → Counts
unfolding count_extents
count_rel_paths [] counts = counts
count_rel_paths ((_, crp) ∷ paths) counts =
    count_rel_paths paths (count_extents crp.chunk_extents counts)

unfoldable pub count_snapshots : Dict Str Snapshot → Counts → Counts
unfolding count_rel_paths
count_snapshots [] counts = counts
count_snapshots ((_, ss) ∷ snapshots) counts =
    count_snapshots snapshots (count_rel_paths ss.rel_paths counts)

unfoldable pub count_backups : Dict Str BackupDir → Counts → Counts
unfolding count_snapshots
count_backups [] counts = counts
count_backups ((_, dir) ∷ groups) counts =
    count_backups groups (count_snapshots dir.snapshots counts)

abbrev pub chunks_prefix : Str
chunks_prefix = codes "chunks/"

module _ {M : Minio} where
  -- A deletion that fails ends the function with its error.
  abbrev pub delete_or_fail : Str → Net M (Unit {0})
  delete_or_fail name c =
      (if (delete_obj M name c).0 then done tt else failed, (delete_obj M name c).1)

  -- The objects of the list that have no count are deleted.
  unfoldable pub delete_orphans : Counts → List (Str × ℕ) → Net M (Unit {0})
  unfolding lookup trim_prefix delete_obj str_eq
  delete_orphans counts [] = pure tt
  delete_orphans counts ((name, _) ∷ objs) = elim (lookup (trim_prefix name chunks_prefix) counts) [
    | none ↦ delete_or_fail name >> delete_orphans counts objs
    | some _ ↦ delete_orphans counts objs
  ]

  module _ (P : Primitives) (J : Json) (key : Str) (with_progress : Bool) where
    unfoldable pub gc_chunks : Net M (Unit {0})
    unfolding get_grouped_snapshots count_backups get_obj_list delete_orphans
    gc_chunks = do
      groups ← get_grouped_snapshots P J key with_progress
      chunks ← asked (get_obj_list M chunks_prefix)
      delete_orphans (count_backups groups []) chunks

    -- The index files, of pairs of a backup's and a snapshot's name.
    unfoldable pub delete_indices : List (Str × Str) → Net M (Unit {0})
    unfolding encrypt_filename delete_obj
    delete_indices [] = pure tt
    delete_indices ((backup_dir_name, snapshot_name) ∷ rest) = do
      encrypted_snapshot_name ← given (encrypt_filename P key snapshot_name)
      encrypted_backup_dir_name ← given (encrypt_filename P key backup_dir_name)
      delete_or_fail (index_prefix encrypted_backup_dir_name ++ encrypted_snapshot_name)
      delete_indices rest

    unfoldable pub delete_snapshots : List (Str × Str) → Net M (Unit {0})
    unfolding delete_indices gc_chunks
    delete_snapshots snapshots = do delete_indices snapshots; gc_chunks
