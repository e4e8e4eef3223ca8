-- ===== src/Backup/Large/RoundTrip.antt =====
-- A large file is restored as it was backed up.
use tless.Prelude.Dict.{lookup}
use tless.Snapshots.Grouped.{Net, given, ◌>>=◌}
use tless.Backup.Entry.{
  DirEntMetadata, Os, Draws, back_up_chunks, back_up_large, serialize_metadata_struct,
}
use tless.Backup.Serde.{Gob, deserialize_metadata_struct, Decodes, deserialize-serialize}
use mathlib.Core.Path.{subst}
use mathlib.Core.List.{append-nil, append_assoc}
use tless.Prelude.{
  ℕ, suc, ◌≤◌, ◌<◌, ◌≡◌, refl, sym, ap, ◌∙◌, inl, inr, Str, codes, true, none, some, List, [], ◌∷◌,
  ◌++◌, arith, if◌then◌else◌, length, take, false, ◌+◌, ◌^◌, Option, map, str_eq,
}
use tless.Util.Strings.{trim_prefix}
use tless.Cryptography
use tless.Cryptography.{Outcome, done, crash, Primitives, aes_key, or_failed}
use tless.Objstore
use tless.Objstore.{Hashes, Minio, Cloud}
use tless.Snapshots.{ChunkExtent}
use tless.Backup.Nonce.{
  increment_nonce, increment_nonce_lem, is_nonce_one_more_than_prev, set_bytes,
}
use tless.Backup.ChunkCache.{ChunkCache, Disk, no_statistics, CachedChunk}
use tless.Backup.ChunkCache.Fetch.{fetch_extent_into_buffer}
use tless.Backup.ChunkCache.Room.{IsOlder}
use tless.Backup.ChunkCache.Transparent.{chunk_object, Holds, IsTrue, fetch_lem}
use tless.Backup.RestoreEntry.{
  restore_rest, after_fetch, Target, file_with, restore_dir_entry, restore_as, restore_file,
  after_first, after_metadata, finish_file,
}
use tless.Backup.Large.{IsReliable, IsStored, pieces, bind-done, back_up_chunks-IsBackedUp}

take_all : (p : Str) → take (length p) p ≡ p
take_all [] = refl
take_all (c ∷ p) = ap (◌∷◌ c) (take_all p)

unfoldable pub join : List Str → Str
join [] = []
join (p ∷ ps) = p ++ join ps

-- Every call of the file system succeeds.
abbrev pub all_well : Target
all_well = record {
  makes_path = true;
  creates = true;
  changes_mode = true;
  writes = true;
  sets_xattrs = true;
  changes_owner = true;
}

one_more :
    (prev next : Str)
    → increment_nonce prev ≡ done next
    → is_nonce_one_more_than_prev next prev ≡ true
one_more prev next e = elim (increment_nonce_lem prev) [
  | inl (_, (n, inc, _, _, more)) ↦
      let both : done n ≡ done next = sym inc ∙ e in
      let same : n ≡ next = cc both in
      subst (λ m. is_nonce_one_more_than_prev m prev ≡ true) same more
  | inr (_, c) ↦ let both : crash ≡ done next = sym c ∙ e in absurd (cc both)
]

module _ {M : Minio} (L : Objstore.IsLawful M) (P : Primitives) (H : Hashes) (R : IsReliable L H)
    (key : Str) (max_size : ℕ) (names : ℕ → Str)
    (plain : (i : ℕ) → trim_prefix (names i) (codes "chunks/") ≡ names i) (s0 : M.State)
    (small : (name b : Str) → L.objects s0 name ≡ some b → length b ≤ max_size) (disks : ℕ → Disk)
    (writable : (i : ℕ) → (disks i).is_writable ≡ true)
    (later : (i : ℕ) → (disks i).now < (disks (suc i)).now) where
  -- The state of a restore before the `i`-th chunk is fetched.
  abbrev IsReady : ℕ → ChunkCache × Cloud M → Type 0
  IsReady i (c, cloud) =
      IsTrue L P key c cloud.server
      × IsOlder (disks i).now c.chunks
      × ((k : Str) → L.objects cloud.server k ≡ L.objects s0 k)

  older : (m n : ℕ) (chunks : _) → m ≤ n → IsOlder m chunks → IsOlder n chunks
  older m n [] l h = tt
  older m n ((k, v) ∷ chunks) l (a, h) = (omega arith, older m n chunks l h)

  abbrev fetch :
      ℕ → ChunkExtent → ChunkCache × Cloud M → Outcome (Str × Str) × (ChunkCache × Cloud M)
  fetch i x =
      fetch_extent_into_buffer P key max_size (disks i) (chunk_object x.chunk_name) x.offset x.len

  -- The whole plaintext of the chunk is fetched.
  fetch-whole :
      (i j : ℕ) (x : ChunkExtent) (p nonce : Str) (c : ChunkCache) (cloud : Cloud M)
      → Holds L P key s0 x.chunk_name p nonce
      → x.chunk_name ≡ names j
      → x.offset ≡ 0
      → x.len ≡ length p
      → IsReady i (c, cloud)
      → ((fetch i x (c, cloud)).0 ≡ done (p, nonce)) × IsReady (suc i) (fetch i x (c, cloud)).1
  fetch-whole i j x p nonce c cloud (ct, stored, opened) name zero_ len (t, old, same) =
      let trimmed : trim_prefix x.chunk_name (codes "chunks/") ≡ x.chunk_name =
        subst (λ n. trim_prefix n (codes "chunks/") ≡ n) (sym name) (plain j) in
      let h : Holds L P key cloud.server x.chunk_name p nonce = (ct, same _ ∙ stored, opened) in
      let (r, (t', old', same')) =
        fetch_lem L P key max_size (disks i) (writable i) x.chunk_name x.offset x.len p nonce
          (omega arith) c cloud trimmed h (small _ ct stored) t old in
      (
        elim r [
          | inl e ↦ e ∙ rw (zero_, len, take_all p) refl
          | inr (_, gone) ↦
              let got : none ≡ some ct =
                sym gone ∙ R.get-stored _ ct cloud.server (same _ ∙ stored) in
              absurd (cc got)
        ],
        (t', older (suc (disks i).now) (disks (suc i)).now _ (later i) old', λ k. same' k ∙ same k),
      )

  rest-restored :
      (xs : List ChunkExtent) (ps : List Str) (i : ℕ) (prev next written : Str)
      (s : ChunkCache × Cloud M)
      → increment_nonce prev ≡ done next
      → IsStored L P key names s0 i next xs ps
      → IsReady i s
      → (restore_rest P key max_size disks true i xs prev written 0 s).0
        ≡ done (written ++ join ps, 0)
  unfolding restore_rest join
  rest-restored [] [] i prev next written s inc h ready = rw append-nil refl
  rest-restored [] (p ∷ ps) i prev next written s inc h ready = elim h [ ]
  rest-restored (x ∷ xs) [] i prev next written s inc h ready = elim h [ ]
  rest-restored (x ∷ xs) (p ∷ ps) i prev next written s inc (holds, name, zero_, len, (n, inc', h))
        ready =
      let (e, ready') = fetch-whole i i x p next s.0 s.1 holds name zero_ len ready in
      let s' = (fetch i x s).1 in
      let go_on = restore_rest P key max_size disks true (suc i) xs in
      let first : (restore_rest P key max_size disks true i (x ∷ xs) prev written 0 s).0
          ≡ (go_on next (written ++ p) (if is_nonce_one_more_than_prev next prev then 0 else suc 0)
              s').0 =
        ap (λ r. (after_fetch P key max_size go_on true prev written 0 (r, s')).0) e in
      let counted : (go_on next (written ++ p)
            (if is_nonce_one_more_than_prev next prev then 0 else suc 0) s').0
          ≡ (go_on next (written ++ p) 0 s').0 =
        rw (one_more prev next inc) refl in
      first
      ∙ counted
      ∙ rest-restored xs ps (suc i) next n (written ++ p) s' inc' h ready'
      ∙ ap (λ text. done (text, 0)) (append_assoc written p (join ps))

  -- The first chunk, and then the rest.
  module _ (G : Gob) (m : DirEntMetadata) (file : m.is_dir ≡ false) (no_link : m.is_symlink ≡ false)
      (buf read : Str)
      (decoded : deserialize_metadata_struct G (buf ++ read) ≡ done (m, read)) where
    restored :
        (xs : List ChunkExtent) (ps : List Str) (nonce : Str) (s : ChunkCache × Cloud M)
        → IsStored L P key names s0 0 nonce xs ((buf ++ read) ∷ ps)
        → IsReady 0 s
        → (restore_dir_entry P G key max_size all_well disks xs s).0
          ≡ done (file_with m (read ++ join ps) 0)
    unfolding restore_dir_entry restore_as restore_file
    restored [] ps nonce s h ready = elim h [ ]
    restored (x ∷ xs) ps nonce s (holds, name, zero_, len, (n, inc, h)) ready =
        let (e, ready') =
          fetch-whole 0 0 x (buf ++ read) nonce s.0 s.1 holds name zero_ len ready in
        let s' = (fetch 0 x s).1 in
        let rest = rest-restored xs ps 1 nonce n read s' inc h ready' in
        let s2 = (restore_rest P key max_size disks true 1 xs nonce read 0 s').1 in
        let first : (restore_dir_entry P G key max_size all_well disks (x ∷ xs) s).0
            ≡ (after_metadata P G key max_size all_well disks xs nonce s'
                (deserialize_metadata_struct G (buf ++ read))).0 =
          ap (λ r. (after_first P G key max_size all_well disks xs (r, s')).0) e in
        first
        ∙ ap (λ r. (after_metadata P G key max_size all_well disks xs nonce s' r).0) decoded
        ∙ simp (file, no_link) (ap (λ r. (finish_file all_well m (r, s2)).0) rest)

pieces-suc : (i : ℕ) (buf : Str) (reads : List Str) → pieces (suc i) buf reads ≡ reads
pieces-suc i buf [] = refl
pieces-suc i buf (read ∷ reads) = ap (◌∷◌ read) (pieces-suc (suc i) buf reads)

-- A cache with nothing in it.
abbrev pub empty_cache : ChunkCache
empty_cache = record { chunks = []; stats = no_statistics }

empty-IsTrue : {A : Type 0} (k : Str) (v : CachedChunk) → lookup k empty_cache.chunks ≡ some v → A
unfolding lookup
empty-IsTrue k v e = absurd (cc e)

module _ {M : Minio} (L : Objstore.IsLawful M) (P : Primitives) (H : Hashes) (key : Str) (os : Os)
    (draws : Draws) (path buf nonce : Str) (reads : List Str) where
  large-chunks :
      (c : Cloud M)
      → draws.nonce ≡ some nonce
      → os.reads path ≡ some (map some reads)
      → back_up_large P H key draws os path buf c
        ≡ back_up_chunks P H key draws buf 0 nonce (map some reads) [] c
  unfolding back_up_large
  large-chunks c drawn open_ =
      let go : List (Option Str) → Net M (List ChunkExtent) =
        λ rs. back_up_chunks P H key draws buf 0 nonce rs [] in
      let from : Str → Net M (List ChunkExtent) = λ n.
        given (or_failed (os.reads path)) >>= λ rs. back_up_chunks P H key draws buf 0 n rs [] in
      bind-done (given (or_failed draws.nonce)) from c c nonce (ap (λ o. (or_failed o, c)) drawn)
      ∙ bind-done (given (or_failed (os.reads path))) go c c (map some reads)
          (ap (λ o. (or_failed o, c)) open_)

-- A file that is read in one chunk or more, with its metadata in front of the first; lawful
-- primitives, a valid key, a nonce of 12 bytes with room for the count of the chunks, and names of
-- chunks that are all different and without the prefix "chunks/"; a reliable network, and a cache
-- that is empty, is written on disk without errors, at times that go on, and is as large as
-- each object of the store; a decoder that reads what was encoded, an encoding of the metadata that
-- is shorter than 2^63 bytes, and a file system without errors:
-- `Backup` of the file returns extents, and `RestoreDirEntry` of these gives the metadata and the
-- bytes of the file back, and finds no nonce out of order.
pub restore-back_up_large :
    {M : Minio} (L : Objstore.IsLawful M) (P : Primitives) (H : Hashes) (key : Str) (os : Os)
    (draws : Draws) (path buf nonce read : Str) (reads : List Str) (G : Gob) (m : DirEntMetadata)
    (max_size : ℕ) (disks : ℕ → Disk) (c : Cloud M)
    → Cryptography.IsLawful P
    → IsReliable L H
    → aes_key key ≡ true
    → draws.nonce ≡ some nonce
    → length nonce ≡ 12
    → set_bytes 0 nonce + length (read ∷ reads) < 256 ^ 12
    → 0 < draws.rounds
    → ((i j : ℕ) → draws.chunk_names i ≡ draws.chunk_names j → i ≡ j)
    → ((i : ℕ) → trim_prefix (draws.chunk_names i) (codes "chunks/") ≡ draws.chunk_names i)
    → os.reads path ≡ some (map some (read ∷ reads))
    → ((i : ℕ) → (disks i).is_writable ≡ true)
    → ((i : ℕ) → (disks i).now < (disks (suc i)).now)
    → ((name b : Str)
        → L.objects (back_up_large P H key draws os path buf c).1.server name ≡ some b
        → length b ≤ max_size)
    → m.is_dir ≡ false
    → m.is_symlink ≡ false
    → Decodes G os
    → ((e : Str) → os.encode m ≡ some e → length e < 2 ^ 63)
    → serialize_metadata_struct os m ≡ some buf
    → let r = back_up_large P H key draws os path buf c in
      (extents : List ChunkExtent) × (r.0 ≡ done extents)
      × ((restore_dir_entry P G key max_size all_well disks extents (empty_cache, r.1)).0
          ≡ done (file_with m (join (read ∷ reads)) 0))
unfolding join
restore-back_up_large {M} L P H key os draws path buf nonce read reads G m max_size disks c LP R
      good drawn size room again apart plain open_ writable later small dir link decodes short
      header =
    let (xs, e, stored, _) =
      back_up_chunks-IsBackedUp L P LP H R key good draws again apart (read ∷ reads) 0 buf nonce []
        c size room in
    let same = large-chunks L P H key os draws path buf nonce (read ∷ reads) c drawn open_ in
    let r = back_up_large P H key draws os path buf c in
    let stored' : IsStored L P key draws.chunk_names r.1.server 0 nonce xs
        ((buf ++ read) ∷ pieces 1 buf reads) =
      subst
        (λ (o : Outcome (List ChunkExtent) × Cloud M).
          IsStored L P key draws.chunk_names o.1.server 0 nonce xs
            ((buf ++ read) ∷ pieces 1 buf reads))
        (sym same) stored in
    (
      xs,
      ap (λ o. o.0) same ∙ e,
      subst
          (λ ps.
            (restore_dir_entry P G key max_size all_well disks xs (empty_cache, r.1)).0
            ≡ done (file_with m (read ++ join ps) 0))
          (pieces-suc 0 buf reads)
          (restored L P H R key max_size draws.chunk_names plain r.1.server small disks writable
            later G m dir link buf read (deserialize-serialize G os m buf read decodes short header)
            xs (pieces 1 buf reads) nonce (empty_cache, r.1) stored'
            (λ k v e. empty-IsTrue k v e, tt, λ k. refl)),
    )
