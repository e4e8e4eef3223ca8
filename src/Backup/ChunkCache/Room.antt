-- ===== src/Backup/ChunkCache/Room.antt =====
-- The loop of evictions: when it ends, and when it never does.
use tless.Prelude.{
  ℕ, zero, suc, ◌+◌, ◌≤◌, ◌<◌, ◌≡◌, refl, sym, ◌∙◌, ◌⊎◌, inl, inr, Str, true, false, Option, none,
  some, [], ◌∷◌, arith, ltb, Bool-cases, ◌==◌, str_eq, ==_iff, length, Never, ltb→ge,
}
use tless.Prelude.Dict.{Dict, lookup, erase, lookup-erase}
use tless.Backup.ChunkCache.{
  CachedChunk, ChunkCache, sizes, total_size_on_disk, least_recently_used,
  evict_least_recently_used, make_room, CacheStatistics,
}

-- A chunk of the name is cached.
abbrev HasKey : Str → Dict Str CachedChunk → Type 0
HasKey k [] = Never
HasKey k ((name, cached) ∷ chunks) = (k ≡ name) ⊎ HasKey k chunks

-- All chunks were used before the time.
abbrev pub IsOlder : ℕ → Dict Str CachedChunk → Type 0
IsOlder now [] = Unit
IsOlder now ((name, cached) ∷ chunks) = (cached.last_used_unix_time < now) × IsOlder now chunks

-- What the second map has of a name, the first has too.
abbrev pub IsWithin : ChunkCache → ChunkCache → Type 0
IsWithin cc cc' =
    (k : Str) (v : CachedChunk) → lookup k cc'.chunks ≡ some v → lookup k cc.chunks ≡ some v

found_or_before :
    (chunks : Dict Str CachedChunk) (t : ℕ) (name : Str)
    → (k : Str) × (least_recently_used chunks t (some name) ≡ some k)
      × ((k ≡ name) ⊎ HasKey k chunks)
unfolding least_recently_used
found_or_before [] t name = (name, refl, inl refl)
found_or_before ((n, cached) ∷ chunks) t name =
    elim (Bool-cases (ltb cached.last_used_unix_time t)) [
      | inl e ↦
          let (k, f, c) = found_or_before chunks cached.last_used_unix_time n in (k, rw e f, inr c)
      | inr e ↦
          let (k, f, c) = found_or_before chunks t name in
          (k, rw e f, elim c [ inl p ↦ inl p | inr p ↦ inr (inr p) ])
    ]

-- Where all chunks are older and there is one, one is found.
oldest :
    (n : Str) (cached : CachedChunk) (chunks : Dict Str CachedChunk) (now : ℕ)
    → IsOlder now ((n, cached) ∷ chunks)
    → (k : Str) × (least_recently_used ((n, cached) ∷ chunks) now none ≡ some k)
      × HasKey k ((n, cached) ∷ chunks)
unfolding least_recently_used
oldest n cached chunks now (less, _) =
    let e : ltb cached.last_used_unix_time now ≡ true = ground arith in
    let (k, f, c) = found_or_before chunks cached.last_used_unix_time n in (k, rw e f, c)

length-erase_le :
    (k : Str) (chunks : Dict Str CachedChunk) → length (erase k chunks) ≤ length chunks
unfolding erase
length-erase_le k [] = omega arith
length-erase_le k ((n, cached) ∷ chunks) = ground (arith, length-erase_le k chunks)

length-erase :
    (k : Str) (chunks : Dict Str CachedChunk)
    → HasKey k chunks
    → length (erase k chunks) < length chunks
unfolding erase
length-erase k [] h = elim h [ ]
length-erase k ((n, cached) ∷ chunks) (inl e) =
    let t : (n == k) ≡ true = (==_iff n k).1 (sym e) in
    rw t (omega (arith, length-erase_le k chunks))
length-erase k ((n, cached) ∷ chunks) (inr h) = ground (arith, length-erase k chunks h)

erase-IsOlder :
    (now : ℕ) (k : Str) (chunks : Dict Str CachedChunk)
    → IsOlder now chunks
    → IsOlder now (erase k chunks)
unfolding erase
erase-IsOlder now k [] h = tt
erase-IsOlder now k ((n, cached) ∷ chunks) (less, h) = elim (Bool-cases (n == k)) [
  | inl e ↦ rw e (erase-IsOlder now k chunks h)
  | inr e ↦ rw e (less, erase-IsOlder now k chunks h)
]

erase-IsWithin :
    (k j : Str) (v : CachedChunk) (chunks : Dict Str CachedChunk)
    → lookup j (erase k chunks) ≡ some v
    → lookup j chunks ≡ some v
erase-IsWithin k j v chunks h = elim (Bool-cases (k == j)) [
  | inl e ↦
      let gone : lookup j (erase k chunks) ≡ none = rw (lookup-erase, e) refl in
      absurd (let b : none ≡ some v = sym gone ∙ h in cc b)
  | inr e ↦
      let same : lookup j (erase k chunks) ≡ lookup j chunks = rw (lookup-erase, e) refl in
      sym same ∙ h
]

-- An eviction removes one chunk.
evicts :
    (n : Str) (cached : CachedChunk) (chunks : Dict Str CachedChunk) (now : ℕ)
    (stats : CacheStatistics)
    → IsOlder now ((n, cached) ∷ chunks)
    → let cc : ChunkCache = record { chunks = (n, cached) ∷ chunks; stats = stats } in
      let cc' = evict_least_recently_used now cc in
      (length cc'.chunks < suc (length chunks)) × IsOlder now cc'.chunks × IsWithin cc cc'
unfolding evict_least_recently_used
evicts n cached chunks now stats h =
    let all = (n, cached) ∷ chunks in
    let (k, e, key) = oldest n cached chunks now h in
    rw (evict_least_recently_used, e)
      (length-erase k all key, erase-IsOlder now k all h, λ j v. erase-IsWithin k j v all)

-- There is room in a cache with chunks that were there before.
abbrev pub IsRoom : ℕ → ℕ → ℕ → ChunkCache → Option ChunkCache → Type 0
IsRoom max_size now size before o =
    (after : ChunkCache) × (o ≡ some after)
    × (total_size_on_disk after + size ≤ max_size)
    × IsOlder now after.chunks
    × IsWithin before after

make_room-cases :
    (rounds max_size now size : ℕ) (chunks : Dict Str CachedChunk) (stats : CacheStatistics)
    → IsOlder now chunks
    → size ≤ max_size
    → length chunks < rounds
    → let before : ChunkCache = record { chunks = chunks; stats = stats } in
      IsRoom max_size now size before (make_room rounds max_size now size before)
unfolding make_room sizes
make_room-cases zero max_size now size chunks stats old fits less = absurd (omega arith)
make_room-cases (suc rounds) max_size now size [] stats old fits less =
    let e : ltb max_size (0 + size) ≡ false = ground arith in
    (record { chunks = []; stats = stats }, rw e refl, omega arith, tt, λ k v h. h)
make_room-cases (suc rounds) max_size now size ((n, cached) ∷ chunks) stats old fits less =
    let before : ChunkCache = record { chunks = (n, cached) ∷ chunks; stats = stats } in
    let next = evict_least_recently_used now before in
    let (fewer, old', within) = evicts n cached chunks now stats old in
    elim (Bool-cases (ltb max_size (sizes before.chunks + size))) [
      | inl e ↦
          let (after, e', room, old'', within') =
            make_room-cases rounds max_size now size next.chunks next.stats old' fits
              (omega arith) in
          (after, rw e e', room, old'', λ k v h. within k v (within' k v h))
      | inr e ↦ (before, rw e refl, ltb→ge _ _ e, old, λ k v h. h)
    ]

-- With chunks that were all used before, a chunk no larger than the cache, and more rounds than
-- chunks, the evictions end: with room for the chunk, and with chunks that were there before.
pub make_room_lem :
    (rounds max_size now size : ℕ) (cc : ChunkCache)
    → IsOlder now cc.chunks
    → size ≤ max_size
    → length cc.chunks < rounds
    → IsRoom max_size now size cc (make_room rounds max_size now size cc)
make_room_lem rounds max_size now size cc =
    make_room-cases rounds max_size now size cc.chunks cc.stats

-- A chunk that is larger than the whole cache is evicted for without end: no number of rounds is
-- enough, whatever is cached.
pub oversized_never_fits :
    (rounds max_size now size : ℕ) (cc : ChunkCache)
    → max_size < size
    → make_room rounds max_size now size cc ≡ none
unfolding make_room
oversized_never_fits zero max_size now size cc h = refl
oversized_never_fits (suc rounds) max_size now size cc h =
    let e : ltb max_size (sizes cc.chunks + size) ≡ true = ground arith in
    rw e (oversized_never_fits rounds max_size now size (evict_least_recently_used now cc) h)
