-- ===== src/Tests/Chunks.antt =====
-- Encryption, the object store, nonces, the packer and the completion of its tasks.
use tless.Prelude.{
  nat_eq, ◌+◌, ◌^◌, ◌≡◌, ◌≢◌, ◌≤◌, ◌<◌, ◌↔◌, ◌⊎◌, ◌++◌, refl, inr, Str, true, false, some, none,
  codes, List, [], ◌∷◌, length, map, All, arith,
}
use tless.Cryptography.{
  done, failed, crash, encrypt_buffer, encrypt_buffer_with_nonce, decrypt_buffer,
  decrypt_buffer_returning_nonce, encrypt_filename, decrypt_filename,
}
use tless.Cryptography.Buffers.{decrypt-encrypt}
use tless.Cryptography.Filenames.{decrypt-encrypt_filename}
use tless.Objstore.{
  etag_of_md5s, Cloud, upload_obj_from_buffer, out_of_rounds, compute_etag,
  multi_part_upload_part_size,
}
use tless.Objstore.Upload.{StoresOnly, IsPause, upload_obj_from_buffer_lem}
use tless.Objstore.Etag.{concat, AreParts, compute_etag_lem}
use tless.Objstore.Memory.{memory, memory-IsLawful}
use tless.Backup.Nonce.{
  set_bytes, increment_nonce, is_nonce_one_more_than_prev, increment_nonce_lem,
}
use tless.Backup.{World, chunk_size, complete_task}
use tless.Backup.Tasks.{completed, IsAllDone, complete_task_lem}
use tless.Backup.ChunkPacker.{ChunkPacker, new_chunk_packer, with_entry, add_dir_entry, complete}
use tless.Backup.ChunkPacker.Extents.{IsPacked, Added, add_dir_entry_lem}
use tless.Backup.ChunkPacker.Commit.{IsCommitted, complete_lem}
use tless.Database.{Tables, finished, quiet}
use tless.Database.Journal.Finish.{count_status}
use tless.Database.Journal.{claimed}
use tless.Backup.Small.{back_up_small, IsPending, IsSecondTry, back_up_small_lem}
use tless.Tests.Data.{
  row_running, tables, json, hashes, plain, plain-IsLawful, key, key-aes, key-siv, nonce,
}

abbrev text : Str
text = codes "hello"

decrypt-encrypt_example :
    (ciphertext : Str) × (encrypt_buffer plain key text (some nonce) ≡ done ciphertext)
    × (encrypt_buffer_with_nonce plain key text nonce ≡ done ciphertext)
    × (decrypt_buffer plain key ciphertext ≡ done text)
    × (decrypt_buffer_returning_nonce plain key ciphertext ≡ done (text, nonce))
decrypt-encrypt_example = decrypt-encrypt plain plain-IsLawful key text nonce key-aes refl

decrypt-encrypt_filename_example :
    (encrypt_filename plain key [] ≡ failed)
    × (text ≢ []
        → (encrypted : Str) × (encrypt_filename plain key text ≡ done encrypted)
          × (decrypt_filename plain key encrypted ≡ done text))
decrypt-encrypt_filename_example = decrypt-encrypt_filename plain plain-IsLawful key text key-siv

-- The network is down twice.
abbrev cloud : Cloud (memory hashes)
cloud = record {
  server = record { objects = []; outages = 2 };
  upload_bytes = 0;
  download_bytes = 0;
}

upload_run :
    (upload_obj_from_buffer
      (memory hashes)
      (codes "chunks/c")
      text
      (compute_etag hashes text)
      3
      cloud).pauses
    ≡ 5 ∷ 10 ∷ []
unfolding upload_obj_from_buffer compute_etag
upload_run = refl

upload_obj_from_buffer_example :
    let u = upload_obj_from_buffer (memory hashes) (codes "chunks/c") text (5 ∷ []) 3 cloud in
    (u.error ≢ some out_of_rounds)
    × All IsPause u.pauses
    × ((k : Str)
        → StoresOnly
            (memory hashes)
            (memory-IsLawful hashes)
            (codes "chunks/c")
            text
            (5 ∷ [])
            cloud
            k
            u)
upload_obj_from_buffer_example =
    upload_obj_from_buffer_lem (memory hashes) (memory-IsLawful hashes) (codes "chunks/c") text
      (5 ∷ []) 2 3 cloud (inr (inr (λ e. cc e))) (omega arith)

compute_etag_example :
    (length text ≤ multi_part_upload_part_size
      → compute_etag hashes text ≡ hashes.hex (hashes.md5 text))
    × ((parts : List Str) × (concat parts ≡ text)
        × AreParts multi_part_upload_part_size parts
        × (compute_etag hashes text ≡ etag_of_md5s hashes (map hashes.md5 parts)))
compute_etag_example = compute_etag_lem hashes text

increment_nonce_example :
    ((set_bytes 0 nonce + 1 < 256 ^ 12)
      × ((next : Str) × (increment_nonce nonce ≡ done next)
          × (length next ≡ 12)
          × (set_bytes 0 next ≡ set_bytes 0 nonce + 1)
          × (is_nonce_one_more_than_prev next nonce ≡ true)))
    ⊎ ((256 ^ 12 ≤ set_bytes 0 nonce + 1) × (increment_nonce nonce ≡ crash))
increment_nonce_example = increment_nonce_lem nonce

abbrev world : World (memory hashes)
world = record {
  db = quiet tables;
  cloud = cloud;
  total_cnt_journal = 3;
  finished_count_journal = 1;
}

abbrev after : Tables
after = completed json (claimed row_running) none tables

complete_task_example :
    let (complete, w') = complete_task json (claimed row_running) none world in
    (w'.db ≡ quiet after)
    × (((2 < 3) × (complete ≡ false) × (w'.finished_count_journal ≡ 2) × (w'.total_cnt_journal ≡ 3))
        ⊎ ((3 ≤ 2)
            × ((complete ≡ true) ↔ IsAllDone after)
            × (w'.finished_count_journal ≡ count_status finished after.backup_journal)
            × (w'.total_cnt_journal ≡ length after.backup_journal)))
complete_task_example = complete_task_lem json (claimed row_running) none tables cloud 3 1

abbrev packer : ChunkPacker
packer = with_entry (codes "a") text (claimed row_running) (new_chunk_packer none)

packer-IsPacked : IsPacked packer
packer-IsPacked = record { position = refl; fits = omega arith; tiled = (refl, refl) }

add_dir_entry_example :
    ((chunk_size < 5 + packer.pos_in_plaintext_chunk)
      × (add_dir_entry (codes "b") (codes "world") (claimed row_running) packer ≡ (false, packer)))
    ⊎ ((5 + packer.pos_in_plaintext_chunk ≤ chunk_size)
        × ((cp' : ChunkPacker) × (add_dir_entry
                (codes "b")
                (codes "world")
                (claimed row_running)
                packer
              ≡ (true, cp'))
            × IsPacked cp'
            × Added (codes "b") (codes "world") (claimed row_running) packer cp'))
add_dir_entry_example =
    add_dir_entry_lem (codes "b") (codes "world") (claimed row_running) packer packer-IsPacked

complete_example :
    (ciphertext : Str) × (decrypt_buffer plain key ciphertext ≡ done packer.plaintext_chunk_buf)
    × IsCommitted
        (memory-IsLawful hashes)
        json
        1000
        (codes "c")
        packer
        world
        ciphertext
        (upload_obj_from_buffer
          (memory hashes)
          (codes "chunks/" ++ codes "c")
          ciphertext
          (compute_etag hashes ciphertext)
          3
          world.cloud)
        (complete plain hashes json key (codes "c") (some nonce) 3 1000 packer world)
complete_example =
    complete_lem (memory-IsLawful hashes) hashes json plain key (codes "c") nonce 3 1000
      plain-IsLawful packer world key-aes refl (omega arith)

back_up_small_example :
    let o =
      back_up_small plain hashes json key
        (codes "c")
        (some nonce)
        3
        1000
        (codes "b")
        (codes "world")
        (claimed row_running)
        packer
        world in
    ((length (codes "world") + packer.pos_in_plaintext_chunk ≤ chunk_size)
      × IsPending (codes "b") (codes "world") o)
    ⊎ ((chunk_size < length (codes "world") + packer.pos_in_plaintext_chunk)
        × ((ciphertext : Str) × (decrypt_buffer plain key ciphertext
              ≡ done packer.plaintext_chunk_buf)
            × IsSecondTry
                (codes "b")
                (codes "world")
                packer
                world
                (upload_obj_from_buffer
                  (memory hashes)
                  (codes "chunks/" ++ codes "c")
                  ciphertext
                  (compute_etag hashes ciphertext)
                  3
                  world.cloud)
                o))
back_up_small_example =
    back_up_small_lem (memory-IsLawful hashes) hashes json plain key (codes "c") nonce 3 1000
      (codes "b") (codes "world") (claimed row_running) plain-IsLawful packer world key-aes refl
      packer-IsPacked (omega arith)
