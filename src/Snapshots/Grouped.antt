-- ===== src/Snapshots/Grouped.antt =====
-- pkg/snapshots/get_grouped_snapshots.go: all snapshots of all backups, read from the cloud. A Go
-- map is walked in the order of the list that it was made of.
use tless.Prelude.{ℕ, Str, codes, Bool, Option, List, [], ◌∷◌, ◌++◌, if◌then◌else◌, str_eq}
use tless.Prelude.Dict.{Dict, insert}
use tless.Util.Strings.{trim_prefix}
use tless.Cryptography.{
  Outcome, done, failed, crash, or_failed, Primitives, decrypt_filename, decrypt_buffer,
}
use tless.Objstore.{Minio, Cloud, download_obj_to_buffer, get_obj_list, get_obj_list_top_level}
use tless.Snapshots.{Snapshot, BackupDir, Json}

-- What a function that works on the cloud returns, and the cloud that it leaves.
abbrev pub Net : Minio → Type 0 → Type 0
Net M A = Cloud M → Outcome A × Cloud M

module _ {M : Minio} {A : Type 0} where
  abbrev pub pure : A → Net M A
  pure a c = (done a, c)

  -- A result that does not need the cloud.
  abbrev pub given : Outcome A → Net M A
  given r c = (r, c)

  -- A call of the store, with its error.
  abbrev pub asked : (Cloud M → Option A × Cloud M) → Net M A
  asked call c = (or_failed (call c).0, (call c).1)

module _ {M : Minio} {A B : Type 0} where
  abbrev pub continue : Outcome A → (A → Net M B) → Net M B
  continue (done a) f c = f a c
  continue failed f c = (failed, c)
  continue crash f c = (crash, c)

  infixl 5 ◌>>=◌ ◌>>◌
  abbrev pub ◌>>=◌ : Net M A → (A → Net M B) → Net M B
  ◌>>=◌ m f c = continue (m c).0 f (m c).1

  abbrev pub ◌>>◌ : Net M A → Net M B → Net M B
  m >> n = m >>= λ _. n

-- The prefix of the index files of a backup.
abbrev pub index_prefix : Str → Str
index_prefix enc_backup_name = enc_backup_name ++ codes "/@"

module _ {M : Minio} (P : Primitives) (J : Json) (key : Str) where
  unfoldable pub get_snapshot_index_file : Str → Net M Str
  unfolding download_obj_to_buffer decrypt_buffer
  get_snapshot_index_file enc_obj_name = do
    buf ← asked (download_obj_to_buffer M enc_obj_name)
    given (decrypt_buffer P key buf)

  -- One index file, given its decrypted name: a name that cannot be decrypted is skipped.
  abbrev pub read_snapshot : Str → Outcome Str → Dict Str Snapshot → Net M (Dict Str Snapshot)
  read_snapshot enc_obj_name failed snapshots = pure snapshots
  read_snapshot enc_obj_name crash snapshots = given crash
  read_snapshot enc_obj_name (done ss_name) snapshots = do
    buf ← get_snapshot_index_file enc_obj_name
    ss ← given (or_failed (J.unmarshal buf))
    pure (insert ss_name ss snapshots)

  unfoldable pub read_snapshots :
      Str → List (Str × ℕ) → Dict Str Snapshot → Net M (Dict Str Snapshot)
  unfolding get_snapshot_index_file decrypt_filename trim_prefix insert
  read_snapshots enc_backup_name [] snapshots = pure snapshots
  read_snapshots enc_backup_name ((enc_obj_name, _) ∷ objs) snapshots = do
    snapshots' ←
        read_snapshot enc_obj_name
          (decrypt_filename P key (trim_prefix enc_obj_name (index_prefix enc_backup_name)))
          snapshots
    read_snapshots enc_backup_name objs snapshots'

  unfoldable pub read_backups : List Str → Dict Str BackupDir → Net M (Dict Str BackupDir)
  unfolding read_snapshots get_obj_list
  read_backups [] groups = pure groups
  read_backups (enc_backup_name ∷ names) groups = do
    backup_name ← given (decrypt_filename P key enc_backup_name)
    objs ← asked (get_obj_list M (index_prefix enc_backup_name))
    snapshots ← read_snapshots enc_backup_name objs []
    read_backups names (
        insert backup_name
          (record {
            encrypted_name = enc_backup_name;
            decrypted_name = backup_name;
            snapshots = snapshots;
          })
          groups)

  -- The first pass, which only counts the index files.
  unfoldable pub count_indices : List Str → Net M (Unit {0})
  unfolding get_obj_list
  count_indices [] = pure tt
  count_indices (enc_backup_name ∷ names) = do
    asked (get_obj_list M (index_prefix enc_backup_name))
    count_indices names

  -- With a function for the progress, the index files are counted first.
  unfoldable pub get_grouped_snapshots : Bool → Net M (Dict Str BackupDir)
  unfolding read_backups count_indices get_obj_list_top_level
  get_grouped_snapshots with_progress = do
    names ← asked (get_obj_list_top_level M (codes "metadata" ∷ codes "chunks" ∷ []))
    if with_progress then count_indices names else pure tt
    read_backups names []
