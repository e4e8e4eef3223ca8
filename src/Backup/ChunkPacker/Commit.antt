-- ===== src/Backup/ChunkPacker/Commit.antt =====
-- `Complete`: what it stores, and in which state it leaves the packer and the database.
use mathlib.Core.Path.{subst}
use tless.Prelude.{
  sym, ◌≢◌, ℕ, ◌<◌, ◌≡◌, refl, ◌∙◌, ◌⊎◌, inl, inr, Str, codes, true, false, Option, none, some,
  ◌++◌, arith, ltb, length, str_eq, ==_refl,
}
use tless.Cryptography.{done, Primitives, aes_key, IsLawful, decrypt_buffer, Outcome, crash}
use tless.Cryptography.Buffers.{decrypt-encrypt}
use tless.Objstore
use tless.Objstore.{
  Hashes, Minio, Cloud, Uploaded, UploadError, compute_etag, upload_obj_from_buffer,
  upload_corrupted, put_failed, out_of_rounds,
}
use tless.Objstore.Upload.{StoresOnly, upload_loop-objects}
use tless.Snapshots.{Json}
use tless.Backup.{World}
use tless.Backup.ChunkPacker.{
  ChunkPacker, Completed, new_chunk_packer, finalize, finish_items, after_upload, commit_chunk,
  complete,
}

-- By the error of the upload of the chunk `ciphertext`. Without one the chunk is stored under
-- `name`, the packer is empty, and the items were finished. An upload that has failed leaves the
-- packer and the database as they were. One that does not return in its rounds: nor does `Complete`.
abbrev pub IsCommitted :
    {M : Minio}
    → Objstore.IsLawful M
    → Json
    → ℕ
    → Str
    → ChunkPacker
    → World M
    → Str
    → Uploaded M
    → Outcome (Completed M)
    → Type 0
IsCommitted L J now chunk_name cp w ciphertext u o =
    let w' = record w { cloud = u.cloud } in
    ((u.error ≡ none)
      × (L.objects u.cloud.server (codes "chunks/" ++ chunk_name) ≡ some ciphertext)
      × (o
          ≡ done (record {
            is_journal_complete = (finalize J now chunk_name cp.items false w').0;
            packer = new_chunk_packer cp.cnt_bytes;
            world = (finalize J now chunk_name cp.items false w').1;
          })))
    ⊎ (((u.error ≢ none)
          × (u.error ≢ some out_of_rounds)
          × (o ≡ done (record { is_journal_complete = false; packer = cp; world = w' })))
        ⊎ ((u.error ≡ some out_of_rounds) × (o ≡ crash)))

module _ {M : Minio} (L : Objstore.IsLawful M) (H : Hashes) (J : Json) (P : Primitives)
    (key chunk_name nonce : Str) (rounds now : ℕ) where
  after_upload_lem :
      (cp : ChunkPacker) (w : World M) (ciphertext : Str) (u : Uploaded M)
      (error : Option UploadError)
      → u.error ≡ error
      → StoresOnly M L
          (codes "chunks/" ++ chunk_name)
          ciphertext
          (compute_etag H ciphertext)
          w.cloud
          (codes "chunks/" ++ chunk_name)
          u
      → IsCommitted L J now chunk_name cp w ciphertext u
          (after_upload P H J key chunk_name (some nonce) rounds now cp w u)
  unfolding after_upload finish_items
  after_upload_lem cp w ciphertext u none e h =
      let name = codes "chunks/" ++ chunk_name in
      inl (e, h ∙ rw (e, ==_refl name) refl, rw (after_upload, e) refl)
  after_upload_lem cp w ciphertext u (some upload_corrupted) e h =
      inr (inl (λ f. cc (sym e ∙ f), λ f. cc (sym e ∙ f), rw (after_upload, e) refl))
  after_upload_lem cp w ciphertext u (some put_failed) e h =
      inr (inl (λ f. cc (sym e ∙ f), λ f. cc (sym e ∙ f), rw (after_upload, e) refl))
  after_upload_lem cp w ciphertext u (some out_of_rounds) e h =
      inr (inr (e, rw (after_upload, e) refl))

  -- A chunk that is not empty, with lawful primitives, a valid key and a nonce of 12 bytes:
  -- `Complete` encrypts the packer's buffer to a text that decrypts to it, and uploads that.
  -- If the upload has no error, the object "chunks/<name>" is that text, the items are finished in
  -- their order, and the packer is empty again. If it has one, `Complete` returns, and the packer
  -- with its items and the database are as they were. If the upload does not return in its rounds,
  -- `Complete` does not.
  pub complete_lem :
      (LP : IsLawful P) (cp : ChunkPacker) (w : World M)
      → aes_key key ≡ true
      → length nonce ≡ 12
      → 0 < length cp.plaintext_chunk_buf
      → (ciphertext : Str) × (decrypt_buffer P key ciphertext ≡ done cp.plaintext_chunk_buf)
        × IsCommitted L J now chunk_name cp w ciphertext
            (upload_obj_from_buffer M
              (codes "chunks/" ++ chunk_name)
              ciphertext
              (compute_etag H ciphertext)
              rounds
              w.cloud)
            (complete P H J key chunk_name (some nonce) rounds now cp w)
  unfolding complete commit_chunk upload_obj_from_buffer
  complete_lem LP cp w good size filled =
      let (ciphertext, sealed, _, opened, _) =
        decrypt-encrypt P LP key cp.plaintext_chunk_buf nonce good size in
      let name = codes "chunks/" ++ chunk_name in
      let e : ltb 0 (length cp.plaintext_chunk_buf) ≡ true = ground arith in
      let u = upload_obj_from_buffer M name ciphertext (compute_etag H ciphertext) rounds w.cloud in
      let committed = after_upload_lem cp w ciphertext u u.error refl (
        upload_loop-objects M L name ciphertext (compute_etag H ciphertext) rounds 5 w.cloud
          name) in
      let run : complete P H J key chunk_name (some nonce) rounds now cp w
          ≡ after_upload P H J key chunk_name (some nonce) rounds now cp w u =
        rw (e, sealed) refl in
      (
        ciphertext,
        opened,
        subst (IsCommitted L J now chunk_name cp w ciphertext u) (sym run) committed,
      )
