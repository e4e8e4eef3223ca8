-- ===== src/Snapshots/Collect/Reads.antt =====
-- Reading the snapshots changes no object.
use tless.Prelude.{
  ℕ, ◌≡◌, refl, ◌∙◌, Str, Bool, true, false, codes, Option, none, some, List, [], ◌∷◌,
  if◌then◌else◌, str_eq,
}
use tless.Prelude.Dict.{Dict, insert}
use tless.Util.Strings.{trim_prefix}
use tless.Cryptography.{
  Outcome, done, failed, crash, or_failed, Primitives, decrypt_filename, decrypt_buffer,
}
use tless.Objstore.{
  Minio, Cloud, IsLawful, count_download, download_obj_to_buffer, get_obj_list,
  get_obj_list_top_level,
}
use tless.Snapshots.{Snapshot, BackupDir, Json}
use tless.Snapshots.Grouped.{
  Net, pure, given, asked, continue, ◌>>=◌, ◌>>◌, index_prefix, get_snapshot_index_file,
  read_snapshot, read_snapshots, read_backups, count_indices, get_grouped_snapshots,
}

module _ {M : Minio} (L : IsLawful M) where
  abbrev pub Reads : {A : Type 0} → Net M A → Type 0
  Reads m = (c : Cloud M) (k : Str) → L.objects (m c).1.server k ≡ L.objects c.server k

  continue-Reads :
      {A B : Type 0} (r : Outcome A) (f : A → Net M B)
      → ((a : A) → Reads (f a))
      → Reads (continue r f)
  continue-Reads (done a) f h c k = h a c k
  continue-Reads failed f h c k = refl
  continue-Reads crash f h c k = refl

  bind-Reads :
      {A B : Type 0} (m : Net M A) (f : A → Net M B)
      → Reads m
      → ((a : A) → Reads (f a))
      → Reads (m >>= f)
  bind-Reads m f h g c k = continue-Reads (m c).0 f g (m c).1 k ∙ h c k

  pub get_obj_list-Reads : (prefix : Str) → Reads (asked (get_obj_list M prefix))
  unfolding get_obj_list
  get_obj_list-Reads prefix c k = L.objects-list prefix k c.server

  top_level-Reads : (prefixes : List Str) → Reads (asked (get_obj_list_top_level M prefixes))
  unfolding get_obj_list_top_level
  top_level-Reads prefixes c k = get_obj_list-Reads [] c k

  counted-Reads :
      (buf : Option Str) (c : Cloud M) (k : Str)
      → L.objects (count_download M buf c).server k ≡ L.objects c.server k
  counted-Reads none c k = refl
  counted-Reads (some buf) c k = refl

  download-Reads : (name : Str) → Reads (asked (download_obj_to_buffer M name))
  unfolding download_obj_to_buffer
  download-Reads name c k =
      counted-Reads (M.get_object name c.server).0
        (record c { server = (M.get_object name c.server).1 }) k
      ∙ L.objects-get name k c.server

  module _ (P : Primitives) (J : Json) (key : Str) where
    index_file-Reads : (name : Str) → Reads (get_snapshot_index_file P J key name)
    unfolding get_snapshot_index_file
    index_file-Reads name =
        bind-Reads (asked (download_obj_to_buffer M name)) (λ buf. given (decrypt_buffer P key buf))
          (download-Reads name) (λ buf c k. refl)

    snapshot-Reads :
        (name : Str) (r : Outcome Str) (snapshots : Dict Str Snapshot)
        → Reads (read_snapshot P J key name r snapshots)
    snapshot-Reads name failed snapshots = λ c k. refl
    snapshot-Reads name crash snapshots = λ c k. refl
    snapshot-Reads name (done ss_name) snapshots =
        bind-Reads (get_snapshot_index_file P J key name)
          (λ buf. given (or_failed (J.unmarshal buf)) >>= λ ss. pure (insert ss_name ss snapshots))
          (index_file-Reads name)
          (λ buf.
            bind-Reads (given (or_failed (J.unmarshal buf)))
              (λ ss. pure (insert ss_name ss snapshots)) (λ c k. refl) (λ ss c k. refl))

    snapshots-Reads :
        (backup : Str) (objs : List (Str × ℕ)) (snapshots : Dict Str Snapshot)
        → Reads (read_snapshots P J key backup objs snapshots)
    unfolding read_snapshots
    snapshots-Reads backup [] snapshots = λ c k. refl
    snapshots-Reads backup ((name, _) ∷ objs) snapshots =
        let r = decrypt_filename P key (trim_prefix name (index_prefix backup)) in
        bind-Reads (read_snapshot P J key name r snapshots) (read_snapshots P J key backup objs)
          (snapshot-Reads name r snapshots) (snapshots-Reads backup objs)

    -- What is made of a backup whose index files were read.
    abbrev with_backup : Str → Str → Dict Str BackupDir → Dict Str Snapshot → Dict Str BackupDir
    with_backup backup backup_name groups snapshots =
        insert backup_name
          (record { encrypted_name = backup; decrypted_name = backup_name; snapshots = snapshots })
          groups

    abbrev next_backups :
        Str → List Str → Dict Str BackupDir → Str → Dict Str Snapshot → Net M (Dict Str BackupDir)
    next_backups backup names groups backup_name snapshots =
        read_backups P J key names (with_backup backup backup_name groups snapshots)

    abbrev next_snapshots :
        Str → List Str → Dict Str BackupDir → Str → List (Str × ℕ) → Net M (Dict Str BackupDir)
    next_snapshots backup names groups backup_name objs =
        read_snapshots P J key backup objs [] >>= next_backups backup names groups backup_name

    backups-Reads :
        (names : List Str) (groups : Dict Str BackupDir) → Reads (read_backups P J key names groups)
    unfolding read_backups
    backups-Reads [] groups = λ c k. refl
    backups-Reads (backup ∷ names) groups =
        bind-Reads (given (decrypt_filename P key backup))
          (λ backup_name.
            asked (get_obj_list M (index_prefix backup))
            >>= next_snapshots backup names groups backup_name)
          (λ c k. refl)
          (λ backup_name.
            bind-Reads (asked (get_obj_list M (index_prefix backup)))
              (next_snapshots backup names groups backup_name)
              (get_obj_list-Reads (index_prefix backup))
              (λ objs.
                bind-Reads (read_snapshots P J key backup objs [])
                  (next_backups backup names groups backup_name) (snapshots-Reads backup objs [])
                  (λ snapshots.
                    backups-Reads names (with_backup backup backup_name groups snapshots))))

    indices-Reads : (names : List Str) → Reads (count_indices P J key names)
    unfolding count_indices
    indices-Reads [] = λ c k. refl
    indices-Reads (backup ∷ names) =
        bind-Reads (asked (get_obj_list M (index_prefix backup))) (λ _. count_indices P J key names)
          (get_obj_list-Reads (index_prefix backup)) (λ _. indices-Reads names)

    progress-Reads :
        (b : Bool) (names : List Str) → Reads (if b then count_indices P J key names else pure tt)
    progress-Reads true names = indices-Reads names
    progress-Reads false names = λ c k. refl

    pub get_grouped_snapshots-Reads : (b : Bool) → Reads (get_grouped_snapshots P J key b)
    unfolding get_grouped_snapshots
    get_grouped_snapshots-Reads b =
        let excluded = codes "metadata" ∷ codes "chunks" ∷ [] in
        bind-Reads (asked (get_obj_list_top_level M excluded))
          (λ names.
            (if b then count_indices P J key names else pure tt) >> read_backups P J key names [])
          (top_level-Reads excluded)
          (λ names.
            bind-Reads (if b then count_indices P J key names else pure tt)
              (λ _. read_backups P J key names []) (progress-Reads b names)
              (λ _. backups-Reads names []))
