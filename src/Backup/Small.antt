-- ===== src/Backup/Small.antt =====
-- pkg/backup/backup.go: how `Backup` packs a directory or a small file, of which `buf` is the
-- metadata and the contents.
use mathlib.Core.Path.{subst}
use tless.Prelude.{
  ℕ, ◌≤◌, ◌<◌, ◌≡◌, refl, sym, ◌⊎◌, inl, inr, Str, Bool, true, false, Option, some, List, [], ◌∷◌,
  ◌++◌, In, length, if◌then◌else◌, arith, ◌+◌, ◌≢◌, none, codes, ap,
}
use tless.Database.Journal.{BackupJournalTask}
use tless.Cryptography.{Outcome, done, failed, crash, Primitives, aes_key, decrypt_buffer}
use tless.Cryptography
use tless.Objstore
use tless.Objstore.{Hashes, Minio, Uploaded, out_of_rounds, compute_etag, upload_obj_from_buffer}
use tless.Snapshots.{Json}
use tless.Backup.{chunk_size, World}
use tless.Backup.ChunkPacker.{
  ChunkPackerItem, ChunkPacker, Completed, new_chunk_packer, add_dir_entry, complete,
}
use tless.Backup.ChunkPacker.Extents.{slice, IsPacked, Added, add_dir_entry_lem}
use tless.Backup.ChunkPacker.Commit.{IsCommitted, complete_lem}

-- Whether the entry is pending in the packer. There is no error: `err` is nil wherever this returns.
pub record Packed (M : Minio) : Type 0 where
  pub is_pending : Bool
  pub packer : ChunkPacker
  pub world : World M

module _ {M : Minio} (P : Primitives) (H : Hashes) (J : Json) (key chunk_name : Str)
    (random : Option Str) (rounds now : ℕ) (rel_path buf : Str) (bjt : BackupJournalTask) where
  abbrev pub packed : World M → Bool × ChunkPacker → Packed M
  packed w (ok, cp) = record { is_pending = ok; packer = cp; world = w }

  -- The second attempt, after the packer was completed.
  abbrev pub try_again : Outcome (Completed M) → Outcome (Packed M)
  try_again (done r) = done (packed r.world (add_dir_entry rel_path buf bjt r.packer))
  try_again failed = failed
  try_again crash = crash

  unfoldable pub back_up_small : ChunkPacker → World M → Outcome (Packed M)
  unfolding complete add_dir_entry
  back_up_small cp w =
      let (did_succeed, cp') = add_dir_entry rel_path buf bjt cp in
      if did_succeed
      then done (packed w (true, cp'))
      else try_again (complete P H J key chunk_name random rounds now cp w)

In-last : {A : Type 0} (xs : List A) (y : A) → In y (xs ++ (y ∷ []))
In-last [] y = inl refl
In-last (x ∷ xs) y = inr (In-last xs y)

-- The packer holds an item of the path, whose extent is the buffer.
abbrev pub Holds : Str → Str → ChunkPacker → Type 0
Holds rel_path buf cp =
    (item : ChunkPackerItem) × In item cp.items
    × (item.rel_path ≡ rel_path)
    × (slice cp.plaintext_chunk_buf item.offset item.len ≡ buf)

new_chunk_packer-IsPacked : (stats : Option ℕ) → IsPacked (new_chunk_packer stats)
new_chunk_packer-IsPacked stats = record { position = refl; fits = omega arith; tiled = refl }

module _ {M : Minio} (rel_path buf : Str) where
  -- The entry is pending, in a packer whose extents still tile its chunk.
  abbrev pub IsPending : Outcome (Packed M) → Type 0
  IsPending o =
      (p : Packed M) × (o ≡ done p)
      × (p.is_pending ≡ true)
      × IsPacked p.packer
      × Holds rel_path buf p.packer

  -- What `Backup` makes of the answer to the upload of the packer's chunk.
  abbrev pub IsSecondTry : ChunkPacker → World M → Uploaded M → Outcome (Packed M) → Type 0
  IsSecondTry cp w u o =
      ((u.error ≡ none)
        × ((p : Packed M) × (o ≡ done p)
            × (p.is_pending ≡ true)
            × IsPacked p.packer
            × Holds rel_path buf p.packer
            × (length p.packer.items ≡ 1)))
      ⊎ (((u.error ≢ none)
            × (u.error ≢ some out_of_rounds)
            × (o
                ≡ done (record {
                  is_pending = false;
                  packer = cp;
                  world = record w { cloud = u.cloud };
                })))
          ⊎ ((u.error ≡ some out_of_rounds) × (o ≡ crash)))

module _ {M : Minio} (L : Objstore.IsLawful M) (H : Hashes) (J : Json) (P : Primitives)
    (key chunk_name nonce : Str) (rounds now : ℕ) (rel_path buf : Str)
    (bjt : BackupJournalTask) where
  Holds-Added : (cp cp' : ChunkPacker) → Added rel_path buf bjt cp cp' → Holds rel_path buf cp'
  Holds-Added cp cp' (item, items, path, bytes, _) =
      (item, subst (In item) (sym items) (In-last cp.items item), path, bytes)

  second_try :
      (cp : ChunkPacker) (w : World M) (ciphertext : Str) (u : Uploaded M)
      (o : Outcome (Completed M))
      → length buf ≤ chunk_size
      → add_dir_entry rel_path buf bjt cp ≡ (false, cp)
      → IsCommitted L J now chunk_name cp w ciphertext u o
      → IsSecondTry rel_path buf cp w u
          (try_again P H J key chunk_name (some nonce) rounds now rel_path buf bjt o)
  second_try cp w ciphertext u o small full (inl (e, _, r)) =
      let empty = new_chunk_packer cp.cnt_bytes in
      elim (add_dir_entry_lem rel_path buf bjt empty (new_chunk_packer-IsPacked cp.cnt_bytes)) [
        | inl (large, _) ↦ absurd (omega arith)
        | inr (_, (c, added, packed_c, (item, items, path, bytes, others))) ↦ rw r (
            rw added (
              inl (
                e,
                (
                  _,
                  refl,
                  refl,
                  packed_c,
                  Holds-Added empty c (item, items, path, bytes, others),
                  ap length items,
                ),
              )))
      ]
  second_try cp w ciphertext u o small full (inr (inl (e, n, r))) =
      rw r (rw full (inr (inl (e, n, refl))))
  second_try cp w ciphertext u o small full (inr (inr (e, r))) = rw r (inr (inr (e, refl)))

  -- With lawful primitives, a valid key, a nonce of 12 bytes and a buffer of at most one chunk:
  -- where the packer has room, `Backup` returns the entry as pending, in a packer whose extents
  -- still tile its chunk and one of which is the entry's buffer. Where it has none, the packer's
  -- chunk is encrypted to a text that decrypts to it and uploaded. If that has no error, the entry
  -- is pending just so, and alone in the packer. If it has one, the entry is not pending, and the
  -- packer and the database are as they were. If it does not return in its rounds, nor does
  -- `Backup`.
  pub back_up_small_lem :
      (LP : Cryptography.IsLawful P) (cp : ChunkPacker) (w : World M)
      → aes_key key ≡ true
      → length nonce ≡ 12
      → IsPacked cp
      → length buf ≤ chunk_size
      → let o = back_up_small P H J key chunk_name (some nonce) rounds now rel_path buf bjt cp w in
        ((length buf + cp.pos_in_plaintext_chunk ≤ chunk_size) × IsPending rel_path buf o)
        ⊎ ((chunk_size < length buf + cp.pos_in_plaintext_chunk)
            × ((ciphertext : Str) × (decrypt_buffer P key ciphertext ≡ done cp.plaintext_chunk_buf)
                × IsSecondTry rel_path buf cp w
                    (upload_obj_from_buffer M
                      (codes "chunks/" ++ chunk_name)
                      ciphertext
                      (compute_etag H ciphertext)
                      rounds
                      w.cloud)
                    o))
  unfolding back_up_small
  back_up_small_lem LP cp w good size packed_cp small =
      elim (add_dir_entry_lem rel_path buf bjt cp packed_cp) [
        | inr (room, (cp', e, packed', added)) ↦ inl (
          room,
          (
            record { is_pending = true; packer = cp'; world = w },
            rw e refl,
            refl,
            packed',
            Holds-Added cp cp' added,
          ),
        )
        | inl (large, full) ↦
            let filled : 0 < length cp.plaintext_chunk_buf = omega (arith, packed_cp.position) in
            let (ciphertext, opened, committed) =
              complete_lem L H J P key chunk_name nonce rounds now LP cp w good size filled in
            inr (
              large,
              (
                ciphertext,
                opened,
                rw full (
                    second_try cp w ciphertext
                      (upload_obj_from_buffer M (codes "chunks/" ++ chunk_name) ciphertext
                        (compute_etag H ciphertext) rounds w.cloud)
                      (complete P H J key chunk_name (some nonce) rounds now cp w) small full
                      committed),
              ),
            )
      ]
