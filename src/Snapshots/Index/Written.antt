-- ===== src/Snapshots/Index/Written.antt =====
-- The index file holds the entries of the journal, and can be read back.
use mathlib.Core.Path.{subst}
use tless.Prelude.{
  ℕ, ◌≡◌, ◌≢◌, refl, sym, ap, ◌∙◌, ◌⊎◌, inl, inr, Str, true, Option, none, some, List, [], ◌∷◌,
  ◌++◌, map, In, ◌==◌, ==_iff, ==_refl, str_eq, Bool-cases, Option-cases, length, All,
}
use tless.Prelude.Dict.{Dict, lookup, insert, lookup-insert}
use tless.Cryptography.{
  Outcome, done, failed, crash, Primitives, IsLawful, aes_key, encrypt_filename, encrypt_buffer,
  decrypt_buffer,
}
use tless.Cryptography.Buffers.{decrypt-encrypt}
use tless.Objstore
use tless.Objstore.{
  Hashes, Minio, Cloud, Uploaded, UploadError, compute_etag, upload_obj_from_buffer,
  upload_corrupted, put_failed, out_of_rounds,
}
use tless.Objstore.Upload.{upload_loop-objects}
use tless.Snapshots.{CloudRelPath, Json}
use tless.Snapshots.Grouped.{index_prefix}
use tless.Snapshots.Index.{
  add_entries, snapshot_of, uploaded, serialize_and_write_snapshot_obj, write_entries,
  write_index_file,
}
use tless.Database.{JournalRow, Tables, quiet}
use tless.Database.Journal.Finish.{
  entry_bytes, get_all_backup_journal_row_index_entries, get_all-quiet,
}
use tless.Cryptography.Filenames.{decrypt-encrypt_filename}

-- The entry is for this path, and no other entry is.
abbrev pub IsOnly : Json → CloudRelPath → List Str → Type 0
IsOnly J crp entries =
    (e : Str) (other : CloudRelPath)
    → In e entries
    → J.from_json e ≡ some other
    → other.rel_path ≡ crp.rel_path
    → other ≡ crp

module _ (J : Json) (crp : CloudRelPath) where
  abbrev IsEntry : Str → Type 0
  IsEntry e = (e ≢ []) × (J.from_json e ≡ some crp)

  abbrev IsGoingIn : List Str → Dict Str CloudRelPath → Type 0
  IsGoingIn entries paths =
      ((e : Str) × In e entries × IsEntry e) ⊎ (lookup crp.rel_path paths ≡ some crp)

  insert_same :
      (other : CloudRelPath) (paths : Dict Str CloudRelPath)
      → other ≡ crp
      → lookup crp.rel_path (insert other.rel_path other paths) ≡ some crp
  insert_same other paths p =
      subst (λ x. lookup crp.rel_path (insert x.rel_path x paths) ≡ some crp) (sym p)
        (rw (lookup-insert, ==_refl) refl)

  insert_keeps :
      (other : CloudRelPath) (paths : Dict Str CloudRelPath)
      → (other.rel_path ≡ crp.rel_path → other ≡ crp)
      → lookup crp.rel_path paths ≡ some crp
      → lookup crp.rel_path (insert other.rel_path other paths) ≡ some crp
  insert_keeps other paths only h = elim (Bool-cases (other.rel_path == crp.rel_path)) [
    | inl p ↦ insert_same other paths (only ((==_iff other.rel_path crp.rel_path).0 p))
    | inr p ↦ rw (lookup-insert, p) h
  ]

  goes_on :
      (entry : Str) (other : CloudRelPath) (entries : List Str) (paths : Dict Str CloudRelPath)
      → J.from_json entry ≡ some other
      → IsOnly J crp (entry ∷ entries)
      → IsGoingIn (entry ∷ entries) paths
      → IsGoingIn entries (insert other.rel_path other paths)
  goes_on entry other entries paths read only (inl (e, inl p, is)) =
      let same : some other ≡ some crp = sym read ∙ subst (λ x. J.from_json x ≡ some crp) p is.1 in
      inr (insert_same other paths (cc same))
  goes_on entry other entries paths read only (inl (e, inr m, is)) = inl (e, m, is)
  goes_on entry other entries paths read only (inr h) =
      inr (insert_keeps other paths (only entry other (inl refl) read) h)

  add_entries-has :
      (entries : List Str) (paths result : Dict Str CloudRelPath)
      → IsOnly J crp entries
      → add_entries J entries paths ≡ done result
      → IsGoingIn entries paths
      → lookup crp.rel_path result ≡ some crp
  unfolding add_entries
  add_entries-has [] paths result only e (inl (x, m, is)) = elim m [ ]
  add_entries-has [] paths result only e (inr h) =
      subst (λ d. lookup crp.rel_path d ≡ some crp) (cc e) h
  add_entries-has ([] ∷ entries) paths result only e (inl (x, inl p, is)) = absurd (is.0 p)
  add_entries-has ([] ∷ entries) paths result only e (inl (x, inr m, is)) =
      add_entries-has entries paths result (λ y o i. only y o (inr i)) e (inl (x, m, is))
  add_entries-has ([] ∷ entries) paths result only e (inr h) =
      add_entries-has entries paths result (λ y o i. only y o (inr i)) e (inr h)
  add_entries-has ((c ∷ entry) ∷ entries) paths result only e h =
      elim (Option-cases (J.from_json (c ∷ entry))) [
        | inl n ↦
            let x : add_entries J ((c ∷ entry) ∷ entries) paths ≡ crash =
              rw (n, add_entries) refl in
            absurd (cc (sym x ∙ e))
        | inr (other, read) ↦
            let x : add_entries J ((c ∷ entry) ∷ entries) paths
                ≡ add_entries J entries (insert other.rel_path other paths) =
              rw (read, add_entries) refl in
            add_entries-has entries (insert other.rel_path other paths) result
              (λ y o i. only y o (inr i)) (sym x ∙ e)
              (goes_on (c ∷ entry) other entries paths read only h)
      ]

-- Each entry is empty or one that the JSON package reads.
abbrev pub AreReadable : Json → List Str → Type 0
AreReadable J = All (λ e. (e ≡ []) ⊎ ((crp : CloudRelPath) × (J.from_json e ≡ some crp)))

add_entries_total :
    (J : Json) (entries : List Str) (paths : Dict Str CloudRelPath)
    → AreReadable J entries
    → (result : Dict Str CloudRelPath) × (add_entries J entries paths ≡ done result)
unfolding add_entries
add_entries_total J [] paths h = (paths, refl)
add_entries_total J ([] ∷ entries) paths h = add_entries_total J entries paths h.1
add_entries_total J ((c ∷ entry) ∷ entries) paths (inl p, h) = absurd (cc p)
add_entries_total J ((c ∷ entry) ∷ entries) paths (inr (crp, read), h) =
    let (result, e) = add_entries_total J entries (insert crp.rel_path crp paths) h in
    (result, rw (read, add_entries) e)

In-map : {A : Type 0} (f : A → Str) (a : A) (xs : List A) → In a xs → In (f a) (map f xs)
In-map f a [] m = elim m [ ]
In-map f a (x ∷ xs) (inl e) = inl (ap f e)
In-map f a (x ∷ xs) (inr m) = inr (In-map f a xs m)

module _ {M : Minio} (L : Objstore.IsLawful M) (P : Primitives) (LP : IsLawful P) (H : Hashes)
    (J : Json) (key nonce : Str) (rounds : ℕ) where
  -- The upload stored the object and the result is good, or it had an error and so has the result,
  -- or it has not returned in its rounds.
  abbrev pub IsUploaded : Str → Str → Uploaded M → Outcome (Unit {0}) → Type 0
  IsUploaded name buffer u r =
      ((u.error ≡ none) × (r ≡ done tt) × (L.objects u.cloud.server name ≡ some buffer))
      ⊎ (((u.error ≢ none) × (u.error ≢ some out_of_rounds) × (r ≡ failed))
          ⊎ ((u.error ≡ some out_of_rounds) × (r ≡ crash)))

  uploaded-IsUploaded :
      (name buffer expected : Str) (c : Cloud M) (error : Option UploadError)
      → (upload_obj_from_buffer M name buffer expected rounds c).error ≡ error
      → IsUploaded name buffer
          (upload_obj_from_buffer M name buffer expected rounds c)
          (uploaded (upload_obj_from_buffer M name buffer expected rounds c)).0
  unfolding upload_obj_from_buffer
  uploaded-IsUploaded name buffer expected c none e =
      let h = upload_loop-objects M L name buffer expected rounds 5 c name in
      inl (e, rw (e, uploaded) refl, h ∙ rw (e, ==_refl name) refl)
  uploaded-IsUploaded name buffer expected c (some upload_corrupted) e =
      inr (inl (λ f. cc (sym e ∙ f), λ f. cc (sym e ∙ f), rw (e, uploaded) refl))
  uploaded-IsUploaded name buffer expected c (some put_failed) e =
      inr (inl (λ f. cc (sym e ∙ f), λ f. cc (sym e ∙ f), rw (e, uploaded) refl))
  uploaded-IsUploaded name buffer expected c (some out_of_rounds) e =
      inr (inr (e, rw (e, uploaded) refl))

  -- The snapshot that a journal makes is in the index file.
  pub record IsWritten (backup_dir_name snapshot_name : Str) (parsed_time : Option ℕ) (t : Tables)
      (c : Cloud M) : Type 0 where
    pub dir : Str
    pub name : Str
    pub ciphertext : Str
    pub paths : Dict Str CloudRelPath
    pub dir_name : encrypt_filename P key backup_dir_name ≡ done dir
    pub ss_name : encrypt_filename P key snapshot_name ≡ done name
    pub opens :
        decrypt_buffer P key ciphertext
        ≡ done (J.marshal (snapshot_of parsed_time name snapshot_name paths))
    pub has_rows :
        (crp : CloudRelPath) (r : JournalRow)
        → In r t.backup_journal
        → entry_bytes r ≢ []
        → J.from_json (entry_bytes r) ≡ some crp
        → IsOnly J crp (map entry_bytes t.backup_journal)
        → lookup crp.rel_path paths ≡ some crp
    pub result : Outcome (Unit {0})
    pub returns :
        write_index_file P H J key
          (some nonce)
          rounds
          backup_dir_name
          snapshot_name
          parsed_time
          (quiet t)
          c
        ≡ (
          result,
          (
            quiet t,
            (upload_obj_from_buffer M
                (index_prefix dir ++ name)
                ciphertext
                (compute_etag H ciphertext)
                rounds
                c).cloud,
          ),
        )
    pub stored :
        IsUploaded
          (index_prefix dir ++ name)
          ciphertext
          (upload_obj_from_buffer M
            (index_prefix dir ++ name)
            ciphertext
            (compute_etag H ciphertext)
            rounds
            c)
          result

  writes :
      (backup_dir_name snapshot_name dir name : Str) (parsed_time : Option ℕ) (t : Tables)
      (c : Cloud M) (paths : Dict Str CloudRelPath) (ciphertext : Str)
      → encrypt_filename P key backup_dir_name ≡ done dir
      → encrypt_filename P key snapshot_name ≡ done name
      → add_entries J (map entry_bytes t.backup_journal) [] ≡ done paths
      → encrypt_buffer P key
          (J.marshal (snapshot_of parsed_time name snapshot_name paths))
          (some nonce)
        ≡ done ciphertext
      → let u =
          upload_obj_from_buffer M
            (index_prefix dir ++ name)
            ciphertext
            (compute_etag H ciphertext)
            rounds
            c in
        write_index_file P H J key
          (some nonce)
          rounds
          backup_dir_name
          snapshot_name
          parsed_time
          (quiet t)
          c
        ≡ ((uploaded u).0, (quiet t, u.cloud))
  unfolding write_index_file write_entries serialize_and_write_snapshot_obj
      get_all_backup_journal_row_index_entries
  writes backup_dir_name snapshot_name dir name parsed_time t c paths ciphertext ed en added
        sealed =
      rw (en, ed, get_all-quiet t, added, sealed, write_index_file) refl

  -- With lawful primitives, valid keys, a nonce of 12 bytes, names that are not empty, and a
  -- journal whose entries can be read: the index file is one that decrypts to a snapshot with each
  -- entry of the journal under its path, where no other entry has that path. The result is good
  -- exactly if the upload has no error, and then that file is stored under the encrypted names.
  -- The database is not changed.
  pub write_index_file_lem :
      (backup_dir_name snapshot_name : Str) (parsed_time : Option ℕ) (t : Tables) (c : Cloud M)
      → aes_key key ≡ true
      → P.siv_key key ≡ true
      → length nonce ≡ 12
      → backup_dir_name ≢ []
      → snapshot_name ≢ []
      → AreReadable J (map entry_bytes t.backup_journal)
      → IsWritten backup_dir_name snapshot_name parsed_time t c
  write_index_file_lem backup_dir_name snapshot_name parsed_time t c good siv size d_ne s_ne
        readable =
      let (dir, ed, _) = (decrypt-encrypt_filename P LP key backup_dir_name siv).1 d_ne in
      let (name, en, _) = (decrypt-encrypt_filename P LP key snapshot_name siv).1 s_ne in
      let (paths, added) = add_entries_total J (map entry_bytes t.backup_journal) [] readable in
      let ss = snapshot_of parsed_time name snapshot_name paths in
      let (ciphertext, sealed, _, opened, _) =
        decrypt-encrypt P LP key (J.marshal ss) nonce good size in
      let u =
        upload_obj_from_buffer M (index_prefix dir ++ name) ciphertext (compute_etag H ciphertext)
          rounds c in
      record {
        dir = dir;
        name = name;
        ciphertext = ciphertext;
        paths = paths;
        dir_name = ed;
        ss_name = en;
        opens = opened;
        has_rows = λ crp r m ne read only.
            add_entries-has J crp (map entry_bytes t.backup_journal) [] paths only added
              (inl (entry_bytes r, In-map entry_bytes r t.backup_journal m, (ne, read)));
        result = (uploaded u).0;
        returns =
            writes backup_dir_name snapshot_name dir name parsed_time t c paths ciphertext ed en
              added sealed;
        stored =
            uploaded-IsUploaded (index_prefix dir ++ name) ciphertext (compute_etag H ciphertext) c
              u.error refl;
      }
