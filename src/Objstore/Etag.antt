-- ===== src/Objstore/Etag.antt =====
-- `ComputeETag` cuts a buffer into full parts and a last one.
use mathlib.Core.List.{append-nil}
use tless.Prelude.{
  ℕ, zero, suc, ◌≤◌, ◌<◌, ◌≡◌, refl, ap, inl, inr, Str, List, [], ◌∷◌, ◌++◌, arith, Bool-cases, ltb,
  ltb→lt, length, take, drop, take-append-drop, length-drop, length-append, map,
}
use tless.Objstore.{Hashes, etag_parts, compute_etag, multi_part_upload_part_size, etag_of_md5s}

abbrev pub concat : List Str → Str
concat [] = []
concat (p ∷ parts) = p ++ concat parts

-- All parts are full but the last, which is no larger, and not empty unless it is alone.
abbrev pub AreParts : ℕ → List Str → Type 0
AreParts size [] = ⊥
AreParts size (p ∷ []) = length p ≤ size
AreParts size (p ∷ q ∷ parts) = (length p ≡ size) × (0 < length q) × AreParts size (q ∷ parts)

AreParts-cons :
    (size : ℕ) (p : Str) (parts : List Str)
    → length p ≡ size
    → 0 < length (concat parts)
    → 0 < size
    → AreParts size parts
    → AreParts size (p ∷ parts)
AreParts-cons size p [] h k z a = absurd a
AreParts-cons size p (q ∷ []) h k z a = (h, omega (arith, ap length (append-nil q)), a)
AreParts-cons size p (q ∷ r ∷ parts) h k z a = (h, omega (arith, a.0), a)

length-take_full : (n : ℕ) (s : Str) → n < length s → length (take n s) ≡ n
length-take_full n s h = omega (
  arith,
  length-append {0} (take n s) (drop n s),
  ap length (take-append-drop n s),
  length-drop {0} n s,
)

-- With a round for each byte, and parts of at least one byte, the parts make up the buffer.
pub etag_parts_lem :
    (rounds size : ℕ) (buf : Str)
    → 0 < size
    → length buf ≤ rounds
    → (concat (etag_parts rounds size buf) ≡ buf) × AreParts size (etag_parts rounds size buf)
unfolding etag_parts
etag_parts_lem zero size buf z h = (append-nil buf, omega arith)
etag_parts_lem (suc rounds) size buf z h = elim (Bool-cases (ltb size (length buf))) [
  | inl e ↦
      let lt : size < length buf = ltb→lt size (length buf) e in
      let (whole, parts) =
        etag_parts_lem rounds size (drop size buf) z (omega (arith, length-drop {0} size buf)) in
      rw e (
        rw whole (take-append-drop size buf),
        AreParts-cons size (take size buf) _ (length-take_full size buf lt)
            (rw whole (omega (arith, length-drop {0} size buf))) z parts,
      )
  | inr e ↦ rw e (append-nil buf, ground arith)
]

etag_parts_single :
    (rounds size : ℕ) (buf : Str) → length buf ≤ size → etag_parts rounds size buf ≡ buf ∷ []
unfolding etag_parts
etag_parts_single zero size buf h = refl
etag_parts_single (suc rounds) size buf h = ground arith

by_parts :
    (H : Hashes) (buf : Str)
    → compute_etag H buf
      ≡ etag_of_md5s H (map H.md5 (etag_parts (length buf) multi_part_upload_part_size buf))
unfolding compute_etag
by_parts H buf = refl

-- A buffer of one part has its own MD5 for an ETag, and a larger one the MD5 of the MD5s of full
-- parts and a last one, with their number.
pub compute_etag_lem :
    (H : Hashes) (buf : Str)
    → (length buf ≤ multi_part_upload_part_size → compute_etag H buf ≡ H.hex (H.md5 buf))
      × ((parts : List Str) × (concat parts ≡ buf)
          × AreParts multi_part_upload_part_size parts
          × (compute_etag H buf ≡ etag_of_md5s H (map H.md5 parts)))
compute_etag_lem H buf =
    let (whole, parts) =
      etag_parts_lem (length buf) multi_part_upload_part_size buf (omega arith) (omega arith) in
    (
      λ h. rw (by_parts, etag_parts_single (length buf) multi_part_upload_part_size buf h),
      (etag_parts (length buf) multi_part_upload_part_size buf, whole, parts, by_parts H buf),
    )
