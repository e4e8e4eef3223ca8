-- ===== src/Objstore/Memory.antt =====
-- A store in memory that keeps what is put, behind a network that is down for a number of puts.
use tless.Prelude.{
  nat_eq, ◌++◌, if◌then◌else◌, ℕ, zero, suc, Str, ◌≡◌, refl, true, some, length, str_eq, ◌==◌, List,
  ◌∷◌, [],
}
use tless.Prelude.Dict.{Dict, lookup, insert, erase, lookup-insert, lookup-erase}
use tless.Util.Strings.{has_prefix, trim_prefix}
use tless.Objstore.{
  Hashes, compute_etag, PutReply, accepted, unreachable, Minio, IsLawful, after_put,
}

pub record Bucket : Type 0 where
  pub objects : Dict Str Str
  pub outages : ℕ

abbrev put : Hashes → Str → Str → Dict Str Str → ℕ → PutReply × Bucket
put H name buffer objects zero =
    (accepted (compute_etag H buffer), record { objects = insert name buffer objects; outages = 0 })
put H name buffer objects (suc n) = (unreachable, record { objects = objects; outages = n })

-- The name up to the first slash after the prefix, which is how a list that is not recursive gives it.
abbrev cut : Str → Str
cut [] = []
cut (c ∷ name) = if c == b'/' then c ∷ [] else c ∷ cut name

abbrev pub listed : Str → Dict Str Str → List (Str × ℕ)
listed prefix [] = []
listed prefix ((name, buffer) ∷ objects) =
    if has_prefix name prefix
    then (prefix ++ cut (trim_prefix name prefix), length buffer) ∷ listed prefix objects
    else listed prefix objects

abbrev pub memory : Hashes → Minio
memory H = record {
  State = Bucket;
  put_object = λ name buffer b. put H name buffer b.objects b.outages;
  get_object = λ name b. (lookup name b.objects, b);
  list_objects = λ prefix b. (some (listed prefix b.objects), b);
  remove_object = λ name b. (true, record b { objects = erase name b.objects });
}

put-objects :
    (H : Hashes) (name buffer k : Str) (objects : Dict Str Str) (outages : ℕ)
    → let b = put H name buffer objects outages in
      lookup k b.1.objects ≡ after_put b.0 (name == k) buffer (lookup k objects)
put-objects H name buffer k objects zero = lookup-insert k name buffer objects
put-objects H name buffer k objects (suc n) = refl

pub memory-IsLawful : (H : Hashes) → IsLawful (memory H)
memory-IsLawful H = record {
  objects = λ b k. lookup k b.objects;
  objects-put = λ name buffer k b. put-objects H name buffer k b.objects b.outages;
  get-objects = λ name buffer b e. e;
  objects-get = λ name k b. refl;
  objects-list = λ prefix k b. refl;
  objects-remove = λ name k b. lookup-erase k name b.objects;
}
