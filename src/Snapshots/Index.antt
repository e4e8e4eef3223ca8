-- ===== src/Snapshots/Index.antt =====
-- pkg/snapshots/indices.go: the index file of a snapshot, from the finished rows of the journal.
pub mod Written
use tless.Prelude.{
  ℕ, Str, codes, Bool, true, false, Option, none, some, List, [], ◌∷◌, ◌++◌, map, if◌then◌else◌,
  str_eq,
}
use tless.Prelude.Dict.{Dict, insert}
use tless.Cryptography.{
  Outcome, done, failed, crash, or_failed, Primitives, encrypt_filename, encrypt_buffer,
}
use tless.Objstore.{
  Hashes, Minio, Cloud, Uploaded, compute_etag, upload_obj_from_buffer, UploadError,
  upload_corrupted, put_failed, out_of_rounds,
}
use tless.Database.{Db, Result, ok, err}
use tless.Database.Journal.Finish.{get_all_backup_journal_row_index_entries}
use tless.Snapshots.{CloudRelPath, Snapshot, Json}
use tless.Snapshots.Grouped.{Net, given, ◌>>=◌, index_prefix}

-- `time.Parse`, whose error leaves the zero time.
abbrev pub time_or_zero : Option ℕ → ℕ
time_or_zero none = 0
time_or_zero (some t) = t

-- An entry that is not empty is added under its path; one that is no JSON leaves a nil pointer, on
-- which the next statement panics.
unfoldable pub add_entries :
    Json → List Str → Dict Str CloudRelPath → Outcome (Dict Str CloudRelPath)
unfolding insert str_eq
add_entries J [] paths = done paths
add_entries J ([] ∷ entries) paths = add_entries J entries paths
add_entries J ((c ∷ index_entry) ∷ entries) paths = elim (J.from_json (c ∷ index_entry)) [
  | none ↦ crash
  | some crp ↦ add_entries J entries (insert crp.rel_path crp paths)
]

-- The snapshot of the given entries of the journal.
abbrev pub snapshot_of : Option ℕ → Str → Str → Dict Str CloudRelPath → Snapshot
snapshot_of parsed_time encrypted_name snapshot_name paths = record {
  encrypted_name = encrypted_name;
  decrypted_name = snapshot_name;
  datetime = time_or_zero parsed_time;
  rel_paths = paths;
}

-- The error of an upload as an outcome. An upload that has used up its rounds has not returned.
abbrev pub of_error : Option UploadError → Outcome (Unit {0})
of_error none = done tt
of_error (some upload_corrupted) = failed
of_error (some put_failed) = failed
of_error (some out_of_rounds) = crash

abbrev pub uploaded : {M : Minio} → Uploaded M → Outcome (Unit {0}) × Cloud M
uploaded u = (of_error u.error, u.cloud)

module _ {M : Minio} (P : Primitives) (H : Hashes) (J : Json) (key : Str) (random : Option Str)
    (rounds : ℕ) where
  unfoldable pub serialize_and_write_snapshot_obj : Snapshot → Str → Str → Net M (Unit {0})
  unfolding encrypt_buffer upload_obj_from_buffer compute_etag
  serialize_and_write_snapshot_obj snapshot_obj encrypted_backup_dir_name encrypted_snapshot_name =
      do
        enc_buf ← given (encrypt_buffer P key (J.marshal snapshot_obj) random)
        λ c. uploaded (
            upload_obj_from_buffer M
              (index_prefix encrypted_backup_dir_name ++ encrypted_snapshot_name) enc_buf
              (compute_etag H enc_buf) rounds c)

  -- What follows the query of the entries, with its result.
  unfoldable pub write_entries : Str → Option ℕ → Str → Str → Result (List Str) → Net M (Unit {0})
  unfolding add_entries serialize_and_write_snapshot_obj
  write_entries snapshot_name parsed_time encrypted_dir encrypted_name (err e) = given failed
  write_entries snapshot_name parsed_time encrypted_dir encrypted_name (ok entries) = do
    paths ← given (add_entries J entries [])
    serialize_and_write_snapshot_obj (snapshot_of parsed_time encrypted_name snapshot_name paths)
        encrypted_dir encrypted_name

  -- `parsed_time` is what the time package makes of the snapshot's name. The database is left as
  -- the query leaves it.
  unfoldable pub write_index_file :
      Str → Str → Option ℕ → Db → Cloud M → Outcome (Unit {0}) × (Db × Cloud M)
  unfolding write_entries encrypt_filename get_all_backup_journal_row_index_entries
  write_index_file backup_dir_name snapshot_name parsed_time db c =
      elim (encrypt_filename P key snapshot_name) [
        | crash ↦ (crash, (db, c))
        | failed ↦ (failed, (db, c))
        | done encrypted_name ↦ elim (encrypt_filename P key backup_dir_name) [
          | crash ↦ (crash, (db, c))
          | failed ↦ (failed, (db, c))
          | done encrypted_dir ↦
              let (entries, db') = get_all_backup_journal_row_index_entries db in
              let (r, c') =
                write_entries snapshot_name parsed_time encrypted_dir encrypted_name entries c in
              (r, (db', c'))
        ]
      ]
