-- ===== src/Objstore.antt =====
-- pkg/objstore/objstore.go over an unknown object store: the client's calls are the parameter
-- `Minio`, and what the code relies on is `IsLawful`. MD5 and the printing of hexadecimal and
-- decimal numbers are parameters too.
pub mod Etag
pub mod Upload
pub mod Memory
use tless.Prelude.{
  ℕ, zero, suc, ◌+◌, ◌*◌, Str, codes, ◌≡◌, Bool, true, false, not, ◌&&◌, ◌||◌, Option, none, some,
  List, [], ◌∷◌, ◌++◌, map, ltb, if◌then◌else◌, ◌==◌, nat_eq, str_eq, length, take, drop, select,
}
use mathlib.Core.Option
use tless.Util.{strip_trailing_slashes}
use tless.Util.Strings.{has_prefix}

pub record Hashes : Type 0 where
  pub md5 : Str → Str
  pub hex : Str → Str
  pub decimal : ℕ → Str

abbrev pub multi_part_upload_part_size : ℕ
multi_part_upload_part_size = 16 * 1024 * 1024

-- The parts of the buffer, of a given size and a last one that is no larger, with the number of
-- parts that may be cut off.
unfoldable pub etag_parts : ℕ → ℕ → Str → List Str
etag_parts zero part_size buf = buf ∷ []
etag_parts (suc rounds) part_size buf =
    let rest = etag_parts rounds part_size (drop part_size buf) in
    if ltb part_size (length buf) then take part_size buf ∷ rest else buf ∷ []

abbrev pub join_md5s : List Str → Str
join_md5s [] = []
join_md5s (m ∷ md5s) = m ++ join_md5s md5s

-- Of one MD5 its digits, of several the digits of the MD5 of them all, and their number.
abbrev pub etag_of_md5s : Hashes → List Str → Str
etag_of_md5s H (m ∷ []) = H.hex m
etag_of_md5s H md5s = H.hex (H.md5 (join_md5s md5s)) ++ (codes "-" ++ H.decimal (length md5s))

-- Each part but the last takes a byte at least, so the length is enough rounds.
unfoldable pub compute_etag : Hashes → Str → Str
unfolding etag_parts
compute_etag H buf =
    etag_of_md5s H (map H.md5 (etag_parts (length buf) multi_part_upload_part_size buf))

-- The answer to `PutObject`: the object is stored and has an ETag, or the network is unreachable,
-- or another error.
pub data PutReply : Type 0 where
  accepted : Str → PutReply
  unreachable : PutReply
  refused : PutReply

-- The calls of the client, over the state of the store and of the network. `none` and `false` are
-- errors. `list_objects` is not recursive, and gives the size with each key.
pub record Minio : Type 1 where
  pub State : Type 0
  pub put_object : Str → Str → State → PutReply × State
  pub get_object : Str → State → Option Str × State
  pub list_objects : Str → State → Option (List (Str × ℕ)) × State
  pub remove_object : Str → State → Bool × State

-- What a put leaves under a key that held `old`.
abbrev pub after_put : PutReply → Bool → Str → Option Str → Option Str
after_put (accepted _) here buffer old = if here then some buffer else old
after_put unreachable here buffer old = old
after_put refused here buffer old = old

-- What the calls do to the objects of the bucket, and what they return of them.
pub record IsLawful (M : Minio) : Type 0 where
  pub objects : M.State → Str → Option Str
  pub objects-put :
      (name buffer k : Str) (s : M.State)
      → objects (M.put_object name buffer s).1 k
        ≡ after_put (M.put_object name buffer s).0 (name == k) buffer (objects s k)
  pub get-objects :
      (name buffer : Str) (s : M.State)
      → (M.get_object name s).0 ≡ some buffer
      → objects s name ≡ some buffer
  pub objects-get : (name k : Str) (s : M.State) → objects (M.get_object name s).1 k ≡ objects s k
  pub objects-list :
      (prefix k : Str) (s : M.State) → objects (M.list_objects prefix s).1 k ≡ objects s k
  pub objects-remove :
      (name k : Str) (s : M.State)
      → objects (M.remove_object name s).1 k
        ≡ (if (M.remove_object name s).0 && (name == k) then none else objects s k)

pub data UploadError : Type 0 where
  upload_corrupted : UploadError
  put_failed : UploadError
  -- the model's own, for a loop that is given too few rounds
  out_of_rounds : UploadError

abbrev pub max_backoff_sec : ℕ
max_backoff_sec = 5 * 60

-- The next pause, after one of `backoff_sec`.
abbrev pub next_backoff : ℕ → ℕ
next_backoff backoff_sec =
    if ltb max_backoff_sec (backoff_sec * 2) then max_backoff_sec else backoff_sec * 2

module _ (M : Minio) where
  -- The store with the byte counters of the process.
  pub record Cloud : Type 0 where
    pub server : M.State
    pub upload_bytes : ℕ
    pub download_bytes : ℕ

  -- The error, if any, and the pauses that were made, in seconds.
  pub record Uploaded : Type 0 where
    pub error : Option UploadError
    pub pauses : List ℕ
    pub cloud : Cloud

  module _ (object_name buffer expected_etag : Str) where
    -- What follows a put: its answer and the state that it left.
    abbrev finish_upload : (Cloud → Uploaded) → ℕ → Cloud → PutReply × M.State → Uploaded
    finish_upload again backoff_sec c (accepted etag, s) = record {
      error = if etag == expected_etag then none else some upload_corrupted;
      pauses = [];
      cloud = record {
        server = s;
        upload_bytes = c.upload_bytes + length buffer;
        download_bytes = c.download_bytes;
      };
    }
    finish_upload again backoff_sec c (refused, s) = record {
      error = some put_failed;
      pauses = [];
      cloud = record c { server = s };
    }
    finish_upload again backoff_sec c (unreachable, s) =
        let later = again (record c { server = s }) in
        record { error = later.error; pauses = backoff_sec ∷ later.pauses; cloud = later.cloud }

    -- The loop, with the number of rounds that it may take.
    unfoldable pub upload_loop : ℕ → ℕ → Cloud → Uploaded
    unfolding str_eq
    upload_loop zero backoff_sec c = record { error = some out_of_rounds; pauses = []; cloud = c }
    upload_loop (suc rounds) backoff_sec c =
        finish_upload (upload_loop rounds (next_backoff backoff_sec)) backoff_sec c
          (M.put_object object_name buffer c.server)

    unfoldable pub upload_obj_from_buffer : ℕ → Cloud → Uploaded
    unfolding upload_loop
    upload_obj_from_buffer rounds = upload_loop rounds 5

  abbrev pub count_download : Option Str → Cloud → Cloud
  count_download none c = c
  count_download (some buf) c = record {
    server = c.server;
    upload_bytes = c.upload_bytes;
    download_bytes = c.download_bytes + length buf;
  }

  unfoldable pub download_obj_to_buffer : Str → Cloud → Option Str × Cloud
  download_obj_to_buffer object_name c =
      let (got, s) = M.get_object object_name c.server in
      (got, count_download got (record c { server = s }))

  unfoldable pub get_obj_list : Str → Cloud → Option (List (Str × ℕ)) × Cloud
  get_obj_list prefix c =
      let (listed, s) = M.list_objects prefix c.server in (listed, record c { server = s })

  -- Whether the key has one of the prefixes.
  unfoldable pub is_skipped : Str → List Str → Bool
  unfolding has_prefix
  is_skipped key [] = false
  is_skipped key (p ∷ prefixes) = has_prefix key p || is_skipped key prefixes

  unfoldable pub get_obj_list_top_level : List Str → Cloud → Option (List Str) × Cloud
  unfolding get_obj_list is_skipped select strip_trailing_slashes
  get_obj_list_top_level exclude_prefixes c =
      let (listed, c') = get_obj_list [] c in
      (
        Option.map
            (λ l.
              map (λ (o : Str × ℕ). strip_trailing_slashes o.0)
                (select (λ o. not (is_skipped o.0 exclude_prefixes)) l))
            listed,
        c',
      )

  unfoldable pub delete_obj : Str → Cloud → Bool × Cloud
  delete_obj object_name c =
      let (ok, s) = M.remove_object object_name c.server in (ok, record c { server = s })
