-- ===== src/Tests/Snapshots.antt =====
-- A garbage collection, and the index file of a journal.
use tless.Prelude.{
  ◌≡◌, ◌++◌, refl, inl, inr, true, none, codes, [], ◌∷◌, nat_eq, str_eq, replicate, if◌then◌else◌,
}
use tless.Prelude.Dict.{lookup, erase}
use tless.Objstore.{Cloud, get_obj_list}
use tless.Objstore.Memory.{memory, memory-IsLawful}
use tless.Snapshots.Grouped.{get_grouped_snapshots}
use tless.Snapshots.Collect.{chunks_prefix, gc_chunks}
use tless.Snapshots.Collect.Orphans.{IsCollected, gc_chunks_lem}
use tless.Snapshots.Index.Written.{IsWritten, write_index_file_lem}
use tless.Snapshots.{Snapshot}
use tless.Backup.Restore.{filter_rel_paths}
use tless.Backup.Restore.Wanted.{is_wanted, filter_rel_paths_lem}
use tless.Tests.Data.{json, hashes, plain, plain-IsLawful, key, key-aes, key-siv, nonce, tables}

-- A snapshot "s" of a backup "b", the chunk "c" that it refers to, and another.
abbrev cloud : Cloud (memory hashes)
cloud = record {
  server = record {
    objects =
        (codes "b/@s", replicate 28 0 ++ codes "{}")
        ∷ (codes "chunks/c", codes "x")
        ∷ (codes "chunks/d", codes "y")
        ∷ [];
    outages = 0;
  };
  upload_bytes = 0;
  download_bytes = 0;
}

gc_run :
    (gc_chunks plain json key true cloud).1.server.objects
    ≡ (codes "b/@s", replicate 28 0 ++ codes "{}") ∷ (codes "chunks/c", codes "x") ∷ []
unfolding gc_chunks erase
gc_run = refl

gc_chunks_example :
    let read = get_grouped_snapshots plain json key true cloud in
    IsCollected
      (memory-IsLawful hashes)
      cloud
      read.0
      (get_obj_list (memory hashes) chunks_prefix read.1).0
      (gc_chunks plain json key true cloud)
gc_chunks_example = gc_chunks_lem (memory-IsLawful hashes) plain json key true cloud

write_index_file_example :
    IsWritten
      (memory-IsLawful hashes)
      plain
      plain-IsLawful
      hashes
      json
      key
      nonce
      1
      (codes "home")
      (codes "2020")
      none
      tables
      cloud
write_index_file_example =
    write_index_file_lem (memory-IsLawful hashes) plain plain-IsLawful hashes json key nonce 1
      (codes "home") (codes "2020") none tables cloud key-aes key-siv refl (λ e. cc e) (λ e. cc e)
      (inr (_, refl), (inl refl, (inl refl, tt)))

abbrev snapshot : Snapshot
snapshot = record {
  encrypted_name = [];
  decrypted_name = codes "2020";
  datetime = 0;
  rel_paths =
      (codes "a/b", record { rel_path = codes "a/b"; chunk_extents = [] })
      ∷ (codes "c", record { rel_path = codes "c"; chunk_extents = [] })
      ∷ [];
}

filter_rel_paths_example : lookup (codes "a/b") (filter_rel_paths snapshot [] (codes "a" ∷ [])) ≡ (
    if is_wanted [] (codes "a" ∷ []) (codes "a/b")
    then lookup (codes "a/b") snapshot.rel_paths
    else none)
filter_rel_paths_example = filter_rel_paths_lem snapshot [] (codes "a" ∷ []) (codes "a/b")
