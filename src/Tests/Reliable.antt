-- ===== src/Tests/Reliable.antt =====
-- A store behind a network without failures, and a file system and a coding of metadata to test with.
use mathlib.Core.Path.{subst}
use tless.Prelude.{
  ℕ, zero, suc, ◌<◌, Str, codes, ◌≡◌, refl, ap, true, false, Option, none, some, List, [], ◌∷◌,
  ◌++◌, length, str_eq, nat_eq, arith, replicate, drop, Bool, ◌^◌,
}
use tless.Prelude.Dict.{Dict, lookup, insert, erase, lookup-insert, lookup-erase}
use tless.Util.Strings.{trim_prefix}
use tless.Objstore.{Hashes, compute_etag, accepted, Minio, IsLawful}
use tless.Backup.Entry.{DirEntMetadata, FileInfo, Os, Draws}
use tless.Backup.Serde.{Gob, Decodes}
use tless.Backup.Large.{IsReliable}

abbrev pub steady : Hashes → Minio
steady H = record {
  State = Dict Str Str;
  put_object = λ name buffer b. (accepted (compute_etag H buffer), insert name buffer b);
  get_object = λ name b. (lookup name b, b);
  list_objects = λ prefix b. (some [], b);
  remove_object = λ name b. (true, erase name b);
}

pub steady-IsLawful : (H : Hashes) → IsLawful (steady H)
steady-IsLawful H = record {
  objects = λ b k. lookup k b;
  objects-put = λ name buffer k b. lookup-insert k name buffer b;
  get-objects = λ name buffer b e. e;
  objects-get = λ name k b. refl;
  objects-list = λ prefix k b. refl;
  objects-remove = λ name k b. lookup-erase k name b;
}

pub steady-objects :
    (H : Hashes) (b : Dict Str Str) (k : Str) → (steady-IsLawful H).objects b k ≡ lookup k b
unfolding steady-IsLawful
steady-objects H b k = refl

pub steady-IsReliable : (H : Hashes) → IsReliable (steady-IsLawful H) H
unfolding lookup steady-IsLawful
steady-IsReliable H = record {
  put-accepted = λ name buffer s. refl;
  get-stored = λ name buffer s e. e;
}

abbrev pub metadata : DirEntMetadata
metadata = record {
  is_dir = false;
  m_time = 100;
  x_attrs = [];
  mode = 420;
  is_symlink = false;
  symlink_origin = [];
}

-- A coding of metadata without extended attributes and origin, in four numbers.
abbrev bit : Bool → ℕ
bit true = 1
bit false = 0

abbrev unbit : ℕ → Bool
unbit zero = false
unbit (suc n) = true

abbrev encode : DirEntMetadata → Option Str
encode m = elim m.x_attrs [
  | [] ↦ elim m.symlink_origin [
    | [] ↦ some (bit m.is_dir ∷ bit m.is_symlink ∷ m.m_time ∷ m.mode ∷ [])
    | _ ↦ none
  ]
  | _ ↦ none
]

abbrev decode : Str → Option DirEntMetadata
decode (d ∷ l ∷ time ∷ mode ∷ rest) = some (record {
  is_dir = unbit d;
  m_time = time;
  x_attrs = [];
  mode = mode;
  is_symlink = unbit l;
  symlink_origin = [];
})
decode _ = none

abbrev info : FileInfo
info = record {
  is_dir = false;
  is_symlink = false;
  is_device = false;
  is_socket = false;
  is_irregular = false;
  is_named_pipe = false;
  mode = 420;
  mod_time = 100;
  size = 5;
}

abbrev pub chunks_read : List Str
chunks_read = codes "ab" ∷ codes "cd" ∷ []

-- A file of two chunks.
abbrev pub os : Os
os = record {
  join = λ dir path. dir ++ (codes "/" ++ path);
  lstat = λ path. some info;
  readlink = λ path. none;
  serialize_xattrs = λ path. some [];
  encode = encode;
  read_once = λ path. some (5, codes "hello");
  reads = λ path. some (some (codes "ab") ∷ some (codes "cd") ∷ []);
}

abbrev pub gob : Gob
gob = record { decode = decode }

unbit-bit : (b : Bool) → unbit (bit b) ≡ b
unbit-bit true = refl
unbit-bit false = refl

decodes_four :
    (d l : Bool) (time mode : ℕ) (x_attrs origin e rest : Str)
    → let m : DirEntMetadata = record {
      is_dir = d;
      m_time = time;
      x_attrs = x_attrs;
      mode = mode;
      is_symlink = l;
      symlink_origin = origin;
    } in
      encode m ≡ some e → decode (e ++ rest) ≡ some m
decodes_four d l time mode [] [] e rest h =
    let same : bit d ∷ bit l ∷ time ∷ mode ∷ [] ≡ e = cc h in
    rw (← same, unbit-bit d, unbit-bit l) refl
decodes_four d l time mode [] (c ∷ o) e rest h = cc h
decodes_four d l time mode (c ∷ x) o e rest h = cc h

pub gob-Decodes : Decodes gob os
gob-Decodes m e rest h =
    decodes_four m.is_dir m.is_symlink m.m_time m.mode m.x_attrs m.symlink_origin e rest h

short_four :
    (d l : Bool) (time mode : ℕ) (x_attrs origin e : Str)
    → encode (record {
      is_dir = d;
      m_time = time;
      x_attrs = x_attrs;
      mode = mode;
      is_symlink = l;
      symlink_origin = origin;
    })
      ≡ some e
    → length e < 2 ^ 63
short_four d l time mode [] [] e h =
    let same : bit d ∷ bit l ∷ time ∷ mode ∷ [] ≡ e = cc h in
    subst (λ s. length s < 2 ^ 63) same (omega arith)
short_four d l time mode [] (c ∷ o) e h = cc h
short_four d l time mode (c ∷ x) o e h = cc h

pub encode-short : (m : DirEntMetadata) (e : Str) → os.encode m ≡ some e → length e < 2 ^ 63
encode-short m e h = short_four m.is_dir m.is_symlink m.m_time m.mode m.x_attrs m.symlink_origin e h

-- Names of so many letters.
abbrev pub draws : Draws
draws = record {
  chunk_names = λ i. replicate i 97;
  nonce = some (replicate 12 5);
  rounds = 1;
  now = 300;
}

apart_letters : (i j : ℕ) → replicate {A = ℕ} i 97 ≡ replicate {A = ℕ} j 97 → i ≡ j
apart_letters zero zero e = refl
apart_letters zero (suc j) e = cc e
apart_letters (suc i) zero e = cc e
apart_letters (suc i) (suc j) e = ap suc (apart_letters i j (ap (drop 1) e))

pub draws-apart : (i j : ℕ) → draws.chunk_names i ≡ draws.chunk_names j → i ≡ j
draws-apart = apart_letters

pub draws-trimmed :
    (i : ℕ) → trim_prefix (draws.chunk_names i) (codes "chunks/") ≡ draws.chunk_names i
unfolding trim_prefix nat_eq
draws-trimmed zero = refl
draws-trimmed (suc i) = refl
