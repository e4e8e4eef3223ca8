-- ===== src/Backup/ChunkPacker/Extents.antt =====
-- `AddDirEntry`: the extents of the items tile the chunk, and each holds its entry's bytes.
use mathlib.Core.List.{append-nil}
use mathlib.Core.Path.{subst}
use tless.Prelude.{
  ℕ, zero, suc, ◌+◌, ◌≤◌, ◌<◌, ◌≡◌, refl, sym, ◌∙◌, ap, ◌⊎◌, inl, inr, Str, true, false, List, [],
  ◌∷◌, ◌++◌, arith, Bool-cases, ltb, ltb→lt, length, length-append, take, drop, take_append,
  drop_append, In,
}
use tless.Database.Journal.{BackupJournalTask}
use tless.Backup.{chunk_size}
use tless.Backup.ChunkPacker.{ChunkPackerItem, ChunkPacker, with_entry, add_dir_entry}

-- `buf[offset : offset+len]`
abbrev pub slice : Str → ℕ → ℕ → Str
slice buf offset len = take len (drop offset buf)

-- One extent begins where the one before it ends.
abbrev pub Tile : ℕ → List ChunkPackerItem → ℕ → Type 0
Tile from [] to = from ≡ to
Tile from (i ∷ items) to = (i.offset ≡ from) × Tile (from + i.len) items to

pub record IsPacked (cp : ChunkPacker) : Type 0 where
  pub position : cp.pos_in_plaintext_chunk ≡ length cp.plaintext_chunk_buf
  pub fits : cp.pos_in_plaintext_chunk ≤ chunk_size
  pub tiled : Tile 0 cp.items cp.pos_in_plaintext_chunk

Tile-append :
    (i : ChunkPackerItem) (from to : ℕ) (items : List ChunkPackerItem)
    → Tile from items to
    → i.offset ≡ to
    → Tile from (items ++ (i ∷ [])) (to + i.len)
Tile-append i from to [] t e = (e ∙ sym t, ap (λ k. k + i.len) t)
Tile-append i from to (j ∷ items) t e = (t.0, Tile-append i (from + j.len) to items t.1 e)

Tile-le : (from to : ℕ) (items : List ChunkPackerItem) → Tile from items to → from ≤ to
Tile-le from to [] t = omega arith
Tile-le from to (j ∷ items) t = omega (arith, Tile-le (from + j.len) to items t.1)

-- Every extent ends within the chunk.
pub Tile-In :
    (i : ChunkPackerItem) (from to : ℕ) (items : List ChunkPackerItem)
    → Tile from items to
    → In i items
    → i.offset + i.len ≤ to
Tile-In i from to [] t m = elim m [ ]
Tile-In i from to (j ∷ items) t (inl e) =
    let h = Tile-le (from + j.len) to items t.1 in
    subst (λ (x : ChunkPackerItem). x.offset + x.len ≤ to) (sym e) (omega (arith, t.0))
Tile-In i from to (j ∷ items) t (inr m) = Tile-In i (from + j.len) to items t.1 m

slice_append_right : (a b : Str) → slice (a ++ b) (length a) (length b) ≡ b
slice_append_right a b =
    rw drop_append (subst (λ x. take (length b) x ≡ b) (append-nil b) (take_append b []))

take_append_left : (n : ℕ) (a b : Str) → n ≤ length a → take n (a ++ b) ≡ take n a
take_append_left zero a b h = refl
take_append_left (suc n) [] b h = absurd (omega arith)
take_append_left (suc n) (x ∷ a) b h = ap (◌∷◌ x) (take_append_left n a b (omega arith))

slice_append_left :
    (a b : Str) (offset len : ℕ)
    → offset + len ≤ length a
    → slice (a ++ b) offset len ≡ slice a offset len
slice_append_left a b zero len h = take_append_left len a b (omega arith)
slice_append_left [] b (suc offset) len h = absurd (omega arith)
slice_append_left (x ∷ a) b (suc offset) len h = slice_append_left a b offset len (omega arith)

module _ (rel_path buf : Str) (bjt : BackupJournalTask) (cp : ChunkPacker) where
  -- The packer after an entry was added.
  abbrev pub Added : ChunkPacker → Type 0
  Added cp' =
      (item : ChunkPackerItem) × (cp'.items ≡ cp.items ++ (item ∷ []))
      × (item.rel_path ≡ rel_path)
      × (slice cp'.plaintext_chunk_buf item.offset item.len ≡ buf)
      × ((i : ChunkPackerItem)
          → In i cp.items
          → slice cp'.plaintext_chunk_buf i.offset i.len
            ≡ slice cp.plaintext_chunk_buf i.offset i.len)

  with_entry-IsPacked :
      IsPacked cp
      → length buf + cp.pos_in_plaintext_chunk ≤ chunk_size
      → IsPacked (with_entry rel_path buf bjt cp)
  with_entry-IsPacked p h = record {
    position = ap (λ k. k + length buf) p.position ∙ sym (length-append cp.plaintext_chunk_buf buf);
    fits = omega arith;
    tiled = Tile-append _ 0 cp.pos_in_plaintext_chunk cp.items p.tiled refl;
  }

  with_entry-Added : IsPacked cp → Added (with_entry rel_path buf bjt cp)
  with_entry-Added p = (
    _,
    refl,
    refl,
    subst (λ k. slice (cp.plaintext_chunk_buf ++ buf) k (length buf) ≡ buf) (sym p.position)
        (slice_append_right cp.plaintext_chunk_buf buf),
    λ i m. slice_append_left cp.plaintext_chunk_buf buf i.offset i.len (
        subst (λ k. i.offset + i.len ≤ k) p.position
          (Tile-In i 0 cp.pos_in_plaintext_chunk cp.items p.tiled m)),
  )

  -- An entry that does not fit is declined, and nothing changes. Another becomes the last item,
  -- whose extent of the chunk is its bytes; the extents of the other items keep theirs, and the
  -- extents go on tiling a chunk that is not too large.
  pub add_dir_entry_lem :
      IsPacked cp
      → ((chunk_size < length buf + cp.pos_in_plaintext_chunk)
          × (add_dir_entry rel_path buf bjt cp ≡ (false, cp)))
        ⊎ ((length buf + cp.pos_in_plaintext_chunk ≤ chunk_size)
            × ((cp' : ChunkPacker) × (add_dir_entry rel_path buf bjt cp ≡ (true, cp'))
                × IsPacked cp'
                × Added cp'))
  unfolding add_dir_entry
  add_dir_entry_lem p =
      elim (Bool-cases (ltb chunk_size (length buf + cp.pos_in_plaintext_chunk))) [
        | inl e ↦ inl (ltb→lt _ _ e, rw e)
        | inr e ↦
            let h : length buf + cp.pos_in_plaintext_chunk ≤ chunk_size = ground arith in
            inr (
              h,
              (with_entry rel_path buf bjt cp, rw e, with_entry-IsPacked p h, with_entry-Added p),
            )
      ]
