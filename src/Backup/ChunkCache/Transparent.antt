-- ===== src/Backup/ChunkCache/Transparent.antt =====
-- The cache is transparent: a fetch gives what the stored chunk decrypts to.
use tless.Backup.ChunkCache.Fetch.{
  count_download, count_fetch, extract, after_download, fetch_extent_into_buffer, slice_of,
  count_hit,
}
use tless.Util.Strings.{trim_prefix}
use mathlib.Core.Path.{subst}
use tless.Prelude.{
  ℕ, suc, ◌<◌, ◌≡◌, refl, sym, ap, ◌∙◌, inl, inr, Str, codes, some, [], ◌∷◌, ◌++◌, arith,
  Bool-cases, ◌==◌, str_eq, ==_iff, ==_refl, le→leb, take, drop, ◌⊎◌, true, false, ◌+◌, ◌≤◌, length,
  Option, none, Option-cases, nat_eq,
}
use tless.Prelude.Dict.{Dict, lookup, insert, lookup-insert}
use tless.Cryptography.{done, Primitives, decrypt_buffer_returning_nonce, failed, Outcome}
use tless.Objstore
use tless.Objstore.{Minio, Cloud, download_obj_to_buffer}
use tless.Backup.ChunkCache.{
  CachedChunk, ChunkCache, Disk, cached_at, count_written, save_obj_to_cache, is_obj_cached,
}
use tless.Backup.ChunkCache.Room.{IsOlder, IsWithin, make_room_lem}

abbrev pub chunk_object : Str → Str
chunk_object name = codes "chunks/" ++ name

chunk_name-trimmed : (name : Str) → trim_prefix (chunk_object name) (codes "chunks/") ≡ name
unfolding trim_prefix nat_eq
chunk_name-trimmed name = refl

is_cached :
    (name : Str) (c : ChunkCache) (o : Option CachedChunk)
    → lookup name c.chunks ≡ o
    → is_obj_cached name c ≡ elim o [ none ↦ false | some _ ↦ true ]
unfolding is_obj_cached
is_cached name c none e = rw (is_obj_cached, e) refl
is_cached name c (some v) e = rw (is_obj_cached, e) refl

later-IsOlder :
    (now : ℕ) (chunks : Dict Str CachedChunk) → IsOlder now chunks → IsOlder (suc now) chunks
later-IsOlder now [] h = tt
later-IsOlder now ((n, cached) ∷ chunks) (less, h) = (omega arith, later-IsOlder now chunks h)

insert-IsOlder :
    (now : ℕ) (k : Str) (v : CachedChunk) (chunks : Dict Str CachedChunk)
    → v.last_used_unix_time < now
    → IsOlder now chunks
    → IsOlder now (insert k v chunks)
unfolding insert
insert-IsOlder now k v [] l h = (l, tt)
insert-IsOlder now k v ((n, cached) ∷ chunks) l (less, h) = elim (Bool-cases (n == k)) [
  | inl e ↦ rw e (l, h)
  | inr e ↦ rw e (less, insert-IsOlder now k v chunks l h)
]

module _ {M : Minio} (L : Objstore.IsLawful M) (P : Primitives) (key : Str) where
  -- The object of the chunk decrypts to these.
  abbrev pub Holds : M.State → Str → Str → Str → Type 0
  Holds s name plaintext nonce =
      (ciphertext : Str) × (L.objects s (chunk_object name) ≡ some ciphertext)
      × (decrypt_buffer_returning_nonce P key ciphertext ≡ done (plaintext, nonce))

  -- What is cached is what is stored.
  abbrev pub IsTrue : ChunkCache → M.State → Type 0
  IsTrue c s =
      (k : Str) (v : CachedChunk) → lookup k c.chunks ≡ some v → Holds s k v.plaintext v.nonce

  same_chunk :
      (s : M.State) (name p q n m : Str) → Holds s name p n → Holds s name q m → (p ≡ q) × (n ≡ m)
  same_chunk s name p q n m (c, stored, opened) (d, stored', opened') =
      let one : some c ≡ some d = sym stored ∙ stored' in
      let e : c ≡ d = cc one in
      let both : done (p, n) ≡ done (q, m) =
        sym opened ∙ ap (decrypt_buffer_returning_nonce P key) e ∙ opened' in
      (cc both, cc both)

  insert-IsTrue :
      (s : M.State) (name : Str) (v : CachedChunk) (c c' : ChunkCache)
      → Holds s name v.plaintext v.nonce
      → IsTrue c s
      → c'.chunks ≡ insert name v c.chunks
      → IsTrue c' s
  insert-IsTrue s name v c c' h t e k w f = elim (Bool-cases (name == k)) [
    | inl p ↦
        let there : lookup k (insert name v c.chunks) ≡ some v = rw (lookup-insert, p) refl in
        let one : some v ≡ some w = sym there ∙ ap (lookup k) (sym e) ∙ f in
        let same : v ≡ w = cc one in
        subst (λ j. Holds s j w.plaintext w.nonce) ((==_iff name k).0 p)
          (subst (λ (x : CachedChunk). Holds s name x.plaintext x.nonce) same h)
    | inr p ↦
        let other : lookup k (insert name v c.chunks) ≡ lookup k c.chunks =
          rw (lookup-insert, p) refl in
        t k w (sym other ∙ ap (lookup k) (sym e) ∙ f)
  ]

  module _ (now : ℕ) where
    -- What a fetch leaves: a true cache whose chunks were used by now, and the stored objects.
    abbrev pub IsLeft : M.State → ChunkCache × Cloud M → Type 0
    IsLeft s (c, cloud) =
        IsTrue c cloud.server
        × IsOlder (suc now) c.chunks
        × ((k : Str) → L.objects cloud.server k ≡ L.objects s k)

    -- The extent and the nonce were given, or the download failed.
    abbrev pub IsFetched :
        Str → ℕ → ℕ → Str → Str → Cloud M → Outcome (Str × Str) × (ChunkCache × Cloud M) → Type 0
    IsFetched name offset len plaintext nonce cloud (r, after) =
        ((r ≡ done (take len (drop offset plaintext), nonce))
          ⊎ ((r ≡ failed) × ((M.get_object (chunk_object name) cloud.server).0 ≡ none)))
        × IsLeft cloud.server after

    module _ (name : Str) (offset len : ℕ) (plaintext nonce : Str)
        (fits : offset + len ≤ length plaintext) where
      slice-cached :
          (v : CachedChunk)
          → v.plaintext ≡ plaintext
          → v.nonce ≡ nonce
          → slice_of offset len v ≡ done (take len (drop offset plaintext), nonce)
      slice-cached v e f = rw (e, f, le→leb _ _ fits) refl

      -- The chunk is in the cache.
      hit-IsFetched :
          (c : ChunkCache) (cloud : Cloud M) (v : CachedChunk)
          → lookup name c.chunks ≡ some v
          → Holds cloud.server name plaintext nonce
          → IsTrue c cloud.server
          → IsOlder (suc now) c.chunks
          → IsFetched name offset len plaintext nonce cloud
              (extract name offset len cloud c (done c))
      hit-IsFetched c cloud v e h t old =
          let (p, n) =
            same_chunk cloud.server name v.plaintext plaintext v.nonce nonce (t name v e) h in
          (inl (rw e (slice-cached v p n)), (t, old, λ k. refl))

  pub other-Holds :
      (s s' : M.State) (name p n : Str)
      → ((k : Str) → L.objects s' k ≡ L.objects s k)
      → Holds s name p n
      → Holds s' name p n
  other-Holds s s' name p n same (c, stored, opened) =
      (c, same (chunk_object name) ∙ stored, opened)

  within-IsTrue :
      (s s' : M.State) (c c' : ChunkCache)
      → ((k : Str) → L.objects s' k ≡ L.objects s k)
      → IsWithin c c'
      → IsTrue c s
      → IsTrue c' s'
  within-IsTrue s s' c c' same w t k v e =
      other-Holds s s' k v.plaintext v.nonce same (t k v (w k v e))

  module _ (max_size : ℕ) (disk : Disk) (writes : disk.is_writable ≡ true) (name : Str)
      (offset len : ℕ) (plaintext nonce : Str) (fits : offset + len ≤ length plaintext) where
    abbrev IsKept : ChunkCache → Outcome ChunkCache → Type 0
    IsKept c o =
        (c' : ChunkCache) × (v : CachedChunk) × (o ≡ done c')
        × (lookup name c'.chunks ≡ some v)
        × (v.plaintext ≡ plaintext)
        × (v.nonce ≡ nonce)
        × IsOlder (suc disk.now) c'.chunks
        × ((s : M.State) → Holds s name plaintext nonce → IsTrue c s → IsTrue c' s)

    -- A chunk that was downloaded goes into the cache.
    save-IsKept :
        (ciphertext : Str) (c : ChunkCache)
        → decrypt_buffer_returning_nonce P key ciphertext ≡ done (plaintext, nonce)
        → trim_prefix name (codes "chunks/") ≡ name
        → IsOlder disk.now c.chunks
        → length ciphertext ≤ max_size
        → IsKept c (save_obj_to_cache P key max_size name ciphertext disk c)
    unfolding save_obj_to_cache
    save-IsKept ciphertext c opened plain old small =
        let n = length ciphertext in
        let (room, e, _, old', within) =
          make_room_lem (suc (length c.chunks)) max_size disk.now n c old small (omega arith) in
        let v = cached_at n disk.now plaintext nonce in
        let after : ChunkCache = record {
          chunks = insert name v room.chunks;
          stats = (count_written n room).stats;
        } in
        (
          after,
          v,
          rw (save_obj_to_cache, plain, e, writes, opened) refl,
          rw (lookup-insert, ==_refl) refl,
          refl,
          refl,
          insert-IsOlder (suc disk.now) name v room.chunks (omega arith)
              (later-IsOlder disk.now room.chunks old'),
          λ s h t.
              insert-IsTrue s name v room after h (within-IsTrue s s c room (λ k. refl) within t)
                refl,
        )

    miss-IsFetched :
        (c : ChunkCache) (cloud : Cloud M) (got : Option Str) (s' : M.State)
        → (M.get_object (chunk_object name) cloud.server).0 ≡ got
        → ((k : Str) → L.objects s' k ≡ L.objects cloud.server k)
        → trim_prefix name (codes "chunks/") ≡ name
        → (h : Holds cloud.server name plaintext nonce) → length h.0 ≤ max_size
        → IsTrue c cloud.server
        → IsOlder disk.now c.chunks
        → IsFetched disk.now name offset len plaintext nonce cloud (
            after_download P key max_size disk
              (chunk_object name)
              offset
              len
              c
              (got, Objstore.count_download M got (record cloud { server = s' })))
    unfolding count_download
    miss-IsFetched c cloud none s' e same plain h small t old = (
      inr (refl, e),
      (
        within-IsTrue cloud.server s' c c same (λ k v g. g) t,
        later-IsOlder disk.now c.chunks old,
        same,
      ),
    )
    miss-IsFetched c cloud (some ciphertext) s' e same plain (x, stored, opened) small t old =
        let one : some ciphertext ≡ some x =
          sym (L.get-objects (chunk_object name) ciphertext cloud.server e) ∙ stored in
        let p : ciphertext ≡ x = cc one in
        let opened' = ap (decrypt_buffer_returning_nonce P key) p ∙ opened in
        let c1 = count_download (chunk_object name) (length ciphertext) c in
        let size = ap length p in
        let older : IsOlder disk.now c1.chunks = old in
        let (c2, v, saved, there, pl, nn, old', kept) =
          save-IsKept ciphertext c1 opened' plain older (omega arith) in
        rw (chunk_name-trimmed name, saved)
          (
            inl (rw there (slice-cached disk.now name offset len plaintext nonce fits v pl nn)),
            (
              kept s' (other-Holds cloud.server s' name plaintext nonce same (x, stored, opened))
                  (within-IsTrue cloud.server s' c c1 same (λ k v g. g) t),
              old',
              same,
            ),
          )

    -- A cache that is true to the store, whose chunks were used before now, and a stored chunk whose
    -- ciphertext is no larger than the cache and whose plaintext reaches to the end of the extent; a
    -- file that can be written, and a name without the prefix "chunks/": a fetch returns the
    -- extent of the plaintext and the nonce, from the cache or from the store, or fails where the
    -- download fails. The cache it leaves is true again, its chunks were used by now, and the
    -- objects of the store are as they were.
    pub fetch_lem :
        (c : ChunkCache) (cloud : Cloud M)
        → trim_prefix name (codes "chunks/") ≡ name
        → (h : Holds cloud.server name plaintext nonce) → length h.0 ≤ max_size
        → IsTrue c cloud.server
        → IsOlder disk.now c.chunks
        → IsFetched disk.now name offset len plaintext nonce cloud
            (fetch_extent_into_buffer P key max_size disk (chunk_object name) offset len (c, cloud))
    unfolding fetch_extent_into_buffer download_obj_to_buffer
    fetch_lem c cloud plain h small t old = elim (Option-cases (lookup name c.chunks)) [
      | inr (v, e) ↦
          rw
            (
              fetch_extent_into_buffer,
              chunk_name-trimmed name,
              is_cached name (count_fetch c) (some v) e,
            )
            (hit-IsFetched disk.now name offset len plaintext nonce fits (count_hit (count_fetch c))
              cloud v e h t (later-IsOlder disk.now c.chunks old))
      | inl e ↦
          let got = M.get_object (chunk_object name) cloud.server in
          rw
            (
              fetch_extent_into_buffer,
              chunk_name-trimmed name,
              is_cached name (count_fetch c) none e,
            )
            (miss-IsFetched (count_fetch c) cloud got.0 got.1 refl
              (λ k. L.objects-get (chunk_object name) k cloud.server) plain h small t old)
    ]
