-- ===== src/Backup/Serde.antt =====
-- pkg/backup/serde.go: the metadata in front of an entry's contents, with its length in 8 bytes.
use mathlib.Core.Option
use mathlib.Core.Path.{subst}
use tless.Prelude.{
  ℕ, zero, suc, ◌+◌, ◌*◌, ◌/◌, ◌^◌, ◌<◌, ◌≡◌, refl, ap, Str, Option, none, some, [], ◌∷◌, ◌++◌,
  arith, ltb, if◌then◌else◌, length, take, drop, length-append, drop_append, ◌≤◌, sym, ◌∙◌, false,
  Option-cases, inl, inr, ◌-◌, true,
}
use tless.Cryptography.{Outcome, done, failed, crash}
use tless.Backup.Entry.{
  DirEntMetadata, Os, little_endian, length_prefixed, serialize_metadata_struct,
}

-- `gob.Decoder`, which reads one value and leaves what follows.
pub record Gob : Type 0 where
  pub decode : Str → Option DirEntMetadata

-- The number that a little-endian buffer holds, without a sign.
abbrev pub from_little_endian : Str → ℕ
from_little_endian [] = 0
from_little_endian (b ∷ bytes) = b + 256 * from_little_endian bytes

-- `8 + structSize`, if it is not negative: `structSize` is an `int64`, whose first bit is the sign.
abbrev contents_start : ℕ → Option ℕ
contents_start n =
    if ltb n (2 ^ 63)
    then some (8 + n)
    else if ltb (n + 8) (2 ^ 64)
    then none
    else some (n + 8 - 2 ^ 64)

abbrev slice_from : Str → DirEntMetadata → Option ℕ → Outcome (DirEntMetadata × Str)
slice_from blob metadata none = crash
slice_from blob metadata (some start) =
    if ltb (length blob) start then crash else done (metadata, drop start blob)

abbrev split_contents : Str → Option DirEntMetadata → Outcome (DirEntMetadata × Str)
split_contents blob none = failed
split_contents blob (some metadata) =
    slice_from blob metadata (contents_start (from_little_endian (take 8 blob)))

-- The metadata and the contents. The slice panics where the buffer is shorter than its length says,
-- or the length is negative.
unfoldable pub deserialize_metadata_struct : Gob → Str → Outcome (DirEntMetadata × Str)
deserialize_metadata_struct G blob =
    if ltb (length blob) 8 then failed else split_contents blob (G.decode (drop 8 blob))

-- What the code relies on: a value that was encoded can be read, whatever follows it.
abbrev pub Decodes : Gob → Os → Type 0
Decodes G os =
    (m : DirEntMetadata) (e rest : Str) → os.encode m ≡ some e → G.decode (e ++ rest) ≡ some m

length-little_endian : (size n : ℕ) → length (little_endian size n) ≡ size
length-little_endian zero n = refl
length-little_endian (suc size) n = ap suc (length-little_endian size (n / 256))

from-little_endian : (size n : ℕ) → n < 256 ^ size → from_little_endian (little_endian size n) ≡ n
from-little_endian zero n h = omega arith
from-little_endian (suc size) n h =
    let p : 256 ^ suc size ≡ 256 ^ size * 256 = omega arith in
    let less : n / 256 < 256 ^ size = omega arith in
    let ih = from-little_endian size (n / 256) less in omega arith

module _ (G : Gob) (m : DirEntMetadata) (e contents : Str) (short : length e < 2 ^ 63) where
  abbrev blob : Str
  blob = length_prefixed e ++ contents

  length-prefixed : length (length_prefixed e) ≡ 8 + length e
  length-prefixed =
      omega (arith, length-append (little_endian 8 (length e)) e, length-little_endian 8 (length e))

  start-contents : drop (8 + length e) blob ≡ contents
  start-contents =
      subst (λ n. drop n blob ≡ contents) length-prefixed (drop_append (length_prefixed e) contents)

  long : 8 + length e ≤ length blob
  long = omega (arith, length-prefixed, length-append (length_prefixed e) contents)

  deserialize_lem :
      G.decode (e ++ contents) ≡ some m → deserialize_metadata_struct G blob ≡ done (m, contents)
  unfolding deserialize_metadata_struct
  deserialize_lem d =
      let a : ltb (length blob) 8 ≡ false = let h = long in ground arith in
      let b : ltb (length blob) (8 + length e) ≡ false = let h = long in ground arith in
      let c : ltb (length e) (2 ^ 63) ≡ true = ground arith in
      let fits : length e < 256 ^ 8 = omega (arith, short) in
      rw
        (
          deserialize_metadata_struct,
          a,
          d,
          from-little_endian 8 (length e) fits,
          c,
          b,
          start-contents,
        )
        refl

-- With a decoder that reads what was encoded, and metadata whose encoding is shorter than 2^63 bytes:
-- the buffer of the metadata, followed by any contents, gives back the metadata and the contents.
pub deserialize-serialize :
    (G : Gob) (os : Os) (m : DirEntMetadata) (buf contents : Str)
    → Decodes G os
    → ((e : Str) → os.encode m ≡ some e → length e < 2 ^ 63)
    → serialize_metadata_struct os m ≡ some buf
    → deserialize_metadata_struct G (buf ++ contents) ≡ done (m, contents)
unfolding serialize_metadata_struct
deserialize-serialize G os m buf contents decodes short h = elim (Option-cases (os.encode m)) [
  | inl e ↦
      let gone : none ≡ some buf = ap (Option.map length_prefixed) (sym e) ∙ h in absurd (cc gone)
  | inr (e, p) ↦
      let one : some (length_prefixed e) ≡ some buf = ap (Option.map length_prefixed) (sym p) ∙ h in
      let same : length_prefixed e ≡ buf = cc one in
      subst (λ b. deserialize_metadata_struct G (b ++ contents) ≡ done (m, contents)) same
        (deserialize_lem G m e contents (short e p) (decodes m e contents p))
]
