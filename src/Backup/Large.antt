-- ===== src/Backup/Large.antt =====
-- pkg/backup/backup.go: what `Backup` stores of a large file.
pub mod RoundTrip
use tless.Snapshots.Grouped.{Net, given, continue, ◌>>=◌}
use mathlib.Core.Path.{subst}
use tless.Prelude.{
  ℕ, zero, suc, ◌+◌, ◌^◌, ◌≤◌, ◌<◌, ◌≡◌, ◌≢◌, refl, sym, ap, ◌∙◌, ◌⊎◌, inl, inr, Str, codes, Bool,
  true, false, ◌&&◌, Option, none, some, List, [], ◌∷◌, ◌++◌, arith, if◌then◌else◌, ◌==◌, str_eq,
  ==_iff, ==_refl, Bool-cases, length, append-cons, append-cancel_left, map, Never,
}
use mathlib.Core.List.{append-nil}
use tless.Cryptography.{
  Outcome, done, failed, crash, Primitives, aes_key, encrypt_buffer_with_nonce,
  decrypt_buffer_returning_nonce,
}
use tless.Cryptography
use tless.Cryptography.Buffers.{decrypt-encrypt}
use tless.Objstore
use tless.Objstore.{
  Hashes, Minio, Cloud, Uploaded, accepted, compute_etag, upload_loop, upload_obj_from_buffer,
}
use tless.Objstore.Upload.{StoresOnly, upload_loop-objects}
use tless.Snapshots.{ChunkExtent}
use tless.Snapshots.Index.{uploaded}
use tless.Backup.Nonce.{set_bytes, increment_nonce, increment_nonce_lem}
use tless.Backup.Entry.{Draws, read_buf, extent_of, back_up_chunks}
use tless.Backup.ChunkCache.Transparent.{chunk_object, Holds}

-- A store behind a network without failures: a put is accepted with the ETag of the buffer, and a
-- stored object can be downloaded.
pub record IsReliable {M : Minio} (L : Objstore.IsLawful M) (H : Hashes) : Type 0 where
  pub put-accepted :
      (name buffer : Str) (s : M.State)
      → (M.put_object name buffer s).0 ≡ accepted (compute_etag H buffer)
  pub get-stored :
      (name buffer : Str) (s : M.State)
      → L.objects s name ≡ some buffer
      → (M.get_object name s).0 ≡ some buffer

-- The plaintext of each chunk: the header goes before the first.
abbrev pub pieces : ℕ → Str → List Str → List Str
pieces i buf [] = []
pieces i buf (read ∷ reads) = read_buf i buf read ∷ pieces (suc i) buf reads

module _ {M : Minio} (L : Objstore.IsLawful M) (P : Primitives) (key : Str) where
  -- Each extent is the whole of a stored chunk, of the names from the `i`-th on, and each nonce is
  -- the one after the nonce before.
  abbrev pub IsStored : (ℕ → Str) → M.State → ℕ → Str → List ChunkExtent → List Str → Type 0
  IsStored names s i nonce [] [] = Unit
  IsStored names s i nonce [] (p ∷ ps) = Never
  IsStored names s i nonce (x ∷ xs) [] = Never
  IsStored names s i nonce (x ∷ xs) (p ∷ ps) =
      Holds L P key s x.chunk_name p nonce
      × (x.chunk_name ≡ names i)
      × (x.offset ≡ 0)
      × (x.len ≡ length p)
      × ((next : Str) × (increment_nonce nonce ≡ done next) × IsStored names s (suc i) next xs ps)

pub bind-done :
    {M : Minio} {A B : Type 0} (m : Net M A) (f : A → Net M B) (c c' : Cloud M) (a : A)
    → m c ≡ (done a, c')
    → (m >>= f) c ≡ f a c'
bind-done m f c c' a e = ap (λ r. continue r.0 f r.1) e

uploaded-done : {M : Minio} (u : Uploaded M) → u.error ≡ none → uploaded u ≡ (done tt, u.cloud)
uploaded-done u e = rw e refl

module _ {M : Minio} (L : Objstore.IsLawful M) (P : Primitives) (LP : Cryptography.IsLawful P)
    (H : Hashes) (R : IsReliable L H) (key : Str) (good : aes_key key ≡ true) (draws : Draws)
    (again : 0 < draws.rounds)
    (apart : (i j : ℕ) → draws.chunk_names i ≡ draws.chunk_names j → i ≡ j) where
  accepted_at_once :
      (rounds : ℕ) (name buffer : Str) (c : Cloud M)
      → 0 < rounds
      → (upload_loop M name buffer (compute_etag H buffer) rounds 5 c).error ≡ none
  unfolding upload_loop
  accepted_at_once zero name buffer c h = absurd (omega arith)
  accepted_at_once (suc rounds) name buffer c h =
      rw (R.put-accepted name buffer c.server, ==_refl (compute_etag H buffer)) refl

  -- One put, which is accepted, stores the buffer and no other.
  upload-reliable :
      (name buffer : Str) (c : Cloud M)
      → let u = upload_obj_from_buffer M name buffer (compute_etag H buffer) draws.rounds c in
        (u.error ≡ none)
        × (L.objects u.cloud.server name ≡ some buffer)
        × ((k : Str) → k ≢ name → L.objects u.cloud.server k ≡ L.objects c.server k)
  unfolding upload_obj_from_buffer
  upload-reliable name buffer c =
      let e = accepted_at_once draws.rounds name buffer c again in
      let stores = upload_loop-objects M L name buffer (compute_etag H buffer) draws.rounds 5 c in
      (
        e,
        stores name ∙ rw (e, ==_refl name) refl,
        λ k n. stores k ∙ elim (Bool-cases (name == k)) [
          | inl p ↦ absurd (n (sym ((==_iff name k).0 p)))
          | inr p ↦ rw (e, p) refl
        ],
      )

  -- Objects that the chunks from the `i`-th on are not named after.
  abbrev IsOther : ℕ → Str → Type 0
  IsOther i k = (j : ℕ) → i ≤ j → k ≢ chunk_object (draws.chunk_names j)

  -- All chunks from the `i`-th on are stored.
  abbrev IsBackedUp :
      ℕ
      → Str
      → Str
      → List Str
      → List ChunkExtent
      → Cloud M
      → Outcome (List ChunkExtent) × Cloud M
      → Type 0
  IsBackedUp i buf nonce reads before c r =
      (xs : List ChunkExtent) × (r.0 ≡ done (before ++ xs))
      × IsStored L P key draws.chunk_names r.1.server i nonce xs (pieces i buf reads)
      × ((k : Str) → IsOther i k → L.objects r.1.server k ≡ L.objects c.server k)

  module _ (buf nonce next read ciphertext : Str) (i : ℕ) (reads : List (Option Str))
      (before : List ChunkExtent) (c : Cloud M)
      (sealed : encrypt_buffer_with_nonce P key (read_buf i buf read) nonce ≡ done ciphertext)
      (inc : increment_nonce nonce ≡ done next) where
    abbrev put_chunk : Uploaded M
    put_chunk =
        upload_obj_from_buffer M (chunk_object (draws.chunk_names i)) ciphertext
          (compute_etag H ciphertext) draws.rounds c

    -- One round of the loop.
    unrolled :
        put_chunk.error ≡ none
        → back_up_chunks P H key draws buf i nonce (some read ∷ reads) before c
          ≡ back_up_chunks P H key draws buf
              (suc i)
              next
              reads
              (before ++ (extent_of draws i (read_buf i buf read) ∷ []))
              put_chunk.cloud
    unfolding back_up_chunks
    unrolled e =
        let go_on : Str → Net M (List ChunkExtent) = λ n.
          back_up_chunks P H key draws buf (suc i) n reads
            (before ++ (extent_of draws i (read_buf i buf read) ∷ [])) in
        let count : Unit {0} → Net M (List ChunkExtent) =
          λ _. given (increment_nonce nonce) >>= go_on in
        let put : Str → Net M (Unit {0}) = λ text cloud. uploaded (
          upload_obj_from_buffer M (chunk_object (draws.chunk_names i)) text (compute_etag H text)
            draws.rounds cloud) in
        bind-done (given (encrypt_buffer_with_nonce P key (read_buf i buf read) nonce))
          (λ text. put text >>= count) c c ciphertext (ap (λ r. (r, c)) sealed)
        ∙ bind-done (put ciphertext) count c put_chunk.cloud tt (uploaded-done put_chunk e)
        ∙ bind-done (given (increment_nonce nonce)) go_on put_chunk.cloud put_chunk.cloud next
            (ap (λ r. (r, put_chunk.cloud)) inc)

  fresh : (i : ℕ) → IsOther (suc i) (chunk_object (draws.chunk_names i))
  fresh i j l e =
      let p : i ≡ j =
        apart i j
          (append-cancel_left (codes "chunks/") (draws.chunk_names i) (draws.chunk_names j) e) in
      absurd (omega arith)

  pub back_up_chunks-IsBackedUp :
      (reads : List Str) (i : ℕ) (buf nonce : Str) (before : List ChunkExtent) (c : Cloud M)
      → length nonce ≡ 12
      → set_bytes 0 nonce + length reads < 256 ^ 12
      → IsBackedUp i buf nonce reads before c
          (back_up_chunks P H key draws buf i nonce (map some reads) before c)
  unfolding back_up_chunks
  back_up_chunks-IsBackedUp [] i buf nonce before c size room =
      ([], ap done (sym (append-nil before)), tt, λ k h. refl)
  back_up_chunks-IsBackedUp (read ∷ reads) i buf nonce before c size room =
      let plaintext = read_buf i buf read in
      let (ciphertext, _, sealed, _, opened) = decrypt-encrypt P LP key plaintext nonce good size in
      let name = draws.chunk_names i in
      let u =
        upload_obj_from_buffer M (chunk_object name) ciphertext (compute_etag H ciphertext)
          draws.rounds c in
      let (e, stored, others) = upload-reliable (chunk_object name) ciphertext c in
      elim (increment_nonce_lem nonce) [
        | inr (large, _) ↦ absurd (omega arith)
        | inl (_, (next, inc, size', value, _)) ↦
            let x = extent_of draws i plaintext in
            let (xs, returned, rest, kept) =
              back_up_chunks-IsBackedUp reads (suc i) buf next (before ++ (x ∷ [])) u.cloud size'
                (omega arith) in
            subst (IsBackedUp i buf nonce (read ∷ reads) before c)
              (sym
                (unrolled buf nonce next read ciphertext i (map some reads) before c sealed inc e))
              (
                x ∷ xs,
                returned ∙ ap done (append-cons before x xs),
                (
                  (ciphertext, kept (chunk_object name) (fresh i) ∙ stored, opened),
                  refl,
                  refl,
                  refl,
                  (next, inc, rest),
                ),
                λ k h. kept k (λ j l. h j (omega arith)) ∙ others k (h i (omega arith)),
              )
      ]
