-- ===== src/Objstore/Upload.antt =====
-- `UploadObjFromBuffer`: what it stores, how long it pauses, and that it ends.
use mathlib.Core.Path.{subst}
use tless.Prelude.{
  ℕ, zero, suc, ◌≤◌, ◌<◌, ◌≡◌, ◌≢◌, refl, ◌⊎◌, inl, inr, Str, Bool, true, false, ◌&&◌, Option, none,
  some, arith, if◌then◌else◌, ◌==◌, str_eq, All,
}
use tless.Objstore.{
  PutReply, accepted, unreachable, refused, Minio, IsLawful, after_put, UploadError,
  upload_corrupted, out_of_rounds, max_backoff_sec, next_backoff, Cloud, Uploaded, upload_loop,
  upload_obj_from_buffer, finish_upload,
}

-- Whether the object was stored, from the error: a bad ETag comes after the object was taken.
abbrev pub is_stored : Option UploadError → Bool
is_stored none = true
is_stored (some upload_corrupted) = true
is_stored (some _) = false

-- A pause between 5 seconds and 5 minutes.
abbrev pub IsPause : ℕ → Type 0
IsPause sec = (5 ≤ sec) × (sec ≤ max_backoff_sec)

module _ (M : Minio) (L : IsLawful M) (name buffer expected : Str) where
  -- The network is back after at most `n` puts that did not reach it.
  abbrev pub Answers : ℕ → M.State → Type 0
  Answers zero s = (M.put_object name buffer s).0 ≢ unreachable
  Answers (suc n) s =
      ((M.put_object name buffer s).0 ≢ unreachable) ⊎ Answers n (M.put_object name buffer s).1

  abbrev run : ℕ → ℕ → Cloud M → Uploaded M
  run = upload_loop M name buffer expected

  -- What the loop does with an answer to its put.
  abbrev react : ℕ → ℕ → Cloud M → PutReply → Uploaded M
  react rounds b c r =
      finish_upload M name buffer expected (run rounds (next_backoff b)) b c
        (r, (M.put_object name buffer c.server).1)

  -- The state in which an unreachable network leaves the loop.
  abbrev retry : Cloud M → Cloud M
  retry c = record c { server = (M.put_object name buffer c.server).1 }

  -- The object is there if it was stored, and all else is as it was.
  abbrev pub StoresOnly : Cloud M → Str → Uploaded M → Type 0
  StoresOnly c k u =
      L.objects u.cloud.server k
      ≡ (if is_stored u.error && (name == k) then some buffer else L.objects c.server k)

  react-objects :
      (rounds b : ℕ) (c : Cloud M) (k : Str) (r : PutReply)
      → L.objects (M.put_object name buffer c.server).1 k
        ≡ after_put r (name == k) buffer (L.objects c.server k)
      → StoresOnly (retry c) k (run rounds (next_backoff b) (retry c))
      → StoresOnly c k (react rounds b c r)
  react-objects rounds b c k (accepted etag) h ih = ground arith
  react-objects rounds b c k refused h ih = h
  react-objects rounds b c k unreachable h ih =
      subst
        (λ old. L.objects (run rounds (next_backoff b) (retry c)).cloud.server k ≡ (
          if is_stored (run rounds (next_backoff b) (retry c)).error && (name == k)
          then some buffer
          else old))
        h ih

  pub upload_loop-objects : (rounds b : ℕ) (c : Cloud M) (k : Str) → StoresOnly c k (run rounds b c)
  unfolding upload_loop
  upload_loop-objects zero b c k = refl
  upload_loop-objects (suc rounds) b c k =
      react-objects rounds b c k (M.put_object name buffer c.server).0
        (L.objects-put name buffer k c.server)
        (upload_loop-objects rounds (next_backoff b) (retry c) k)

  react-pauses :
      (rounds b : ℕ) (c : Cloud M) (r : PutReply)
      → IsPause b
      → All IsPause (run rounds (next_backoff b) (retry c)).pauses
      → All IsPause (react rounds b c r).pauses
  react-pauses rounds b c (accepted etag) h ih = tt
  react-pauses rounds b c refused h ih = tt
  react-pauses rounds b c unreachable h ih = (h, ih)

  next_backoff-IsPause : (b : ℕ) → IsPause b → IsPause (next_backoff b)
  next_backoff-IsPause b h = ground arith

  upload_loop-pauses :
      (rounds b : ℕ) (c : Cloud M) → IsPause b → All IsPause (run rounds b c).pauses
  unfolding upload_loop
  upload_loop-pauses zero b c h = tt
  upload_loop-pauses (suc rounds) b c h =
      react-pauses rounds b c (M.put_object name buffer c.server).0 h
        (upload_loop-pauses rounds (next_backoff b) (retry c) (next_backoff-IsPause b h))

  react_ends :
      (rounds b : ℕ) (c : Cloud M) (r : PutReply)
      → (r ≢ unreachable) ⊎ ((run rounds (next_backoff b) (retry c)).error ≢ some out_of_rounds)
      → (react rounds b c r).error ≢ some out_of_rounds
  react_ends rounds b c (accepted etag) h e = ground arith
  react_ends rounds b c refused h e = cc
  react_ends rounds b c unreachable (inl n) e = n refl
  react_ends rounds b c unreachable (inr ih) e = ih e

  upload_loop_ends :
      (n rounds b : ℕ) (c : Cloud M)
      → Answers n c.server
      → n < rounds
      → (run rounds b c).error ≢ some out_of_rounds
  unfolding upload_loop
  upload_loop_ends n zero b c a h = absurd (omega arith)
  upload_loop_ends zero (suc rounds) b c a h =
      react_ends rounds b c (M.put_object name buffer c.server).0 (inl a)
  upload_loop_ends (suc n) (suc rounds) b c (inl a) h =
      react_ends rounds b c (M.put_object name buffer c.server).0 (inl a)
  upload_loop_ends (suc n) (suc rounds) b c (inr a) h =
      react_ends rounds b c (M.put_object name buffer c.server).0
        (inr (upload_loop_ends n rounds (next_backoff b) (retry c) a (omega arith)))

-- With an answer from the network after at most `n` failures to reach it, and more than `n`
-- rounds, an upload ends. It pauses between 5 seconds and 5 minutes each time. It returns no error,
-- or that the upload was corrupted, exactly where it has stored the buffer under the name, and in
-- no case does it change another object.
pub upload_obj_from_buffer_lem :
    (M : Minio) (L : IsLawful M) (name buffer expected : Str) (n rounds : ℕ) (c : Cloud M)
    → Answers M L name buffer expected n c.server
    → n < rounds
    → ((upload_obj_from_buffer M name buffer expected rounds c).error ≢ some out_of_rounds)
      × All IsPause (upload_obj_from_buffer M name buffer expected rounds c).pauses
      × ((k : Str)
          → StoresOnly M L name buffer expected c k
              (upload_obj_from_buffer M name buffer expected rounds c))
unfolding upload_obj_from_buffer
upload_obj_from_buffer_lem M L name buffer expected n rounds c a h = (
  upload_loop_ends M L name buffer expected n rounds 5 c a h,
  upload_loop-pauses M L name buffer expected rounds 5 c (omega arith),
  upload_loop-objects M L name buffer expected rounds 5 c,
)
