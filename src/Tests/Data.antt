-- ===== src/Tests/Data.antt =====
-- Test data: a journal, and stand-ins for the packages that the code calls.
use tless.Prelude.{
  nat_eq, ◌≢◌, Str, codes, ◌≡◌, refl, Option, none, some, List, [], ◌∷◌, ◌++◌, drop, length,
  replicate, arith, inl, In, ◌==◌, nat_eq, true,
}
use tless.Cryptography.{aes_key, Primitives, IsLawful}
use tless.Objstore.{Hashes}
use tless.Snapshots.{CloudRelPath, Json}
use tless.Database.{
  JournalRow, Tables, unstarted, in_progress, finished, updated, deleted, RowOrder,
}
use tless.Database.Journal.Rows.{IsKeyed}

-- The first row of a query is the first of the table.
abbrev pub first : {A : Type 0} → List A → Option A
first [] = none
first (r ∷ rows) = some r

pub first-In : {A : Type 0} (l : List A) (r : A) → first l ≡ some r → In r l
first-In [] r e = cc e
first-In (q ∷ l) r e = inl (cc e)

pub first-cons : {A : Type 0} (r : A) (l : List A) → first (r ∷ l) ≢ none
first-cons r l e = cc e

abbrev pub in_table_order : {A : Type 0} → RowOrder A
in_table_order = record {
  first = first;
  first-nil = refl;
  first-In = first-In;
  first-cons = first-cons;
}

abbrev pub row_done : JournalRow
row_done = record {
  id = 1;
  backup_info_id = 1;
  dir_ent_id = 7;
  change_type = updated;
  index_entry = some (codes "{}");
  status = finished;
}

abbrev pub row_running : JournalRow
row_running = record {
  id = 2;
  backup_info_id = 1;
  dir_ent_id = 8;
  change_type = updated;
  index_entry = none;
  status = in_progress;
}

abbrev pub row_waiting : JournalRow
row_waiting = record {
  id = 3;
  backup_info_id = 1;
  dir_ent_id = 9;
  change_type = deleted;
  index_entry = none;
  status = unstarted;
}

abbrev pub tables : Tables
tables = record {
  dirents =
      record { id = 7; root_dir = codes "/home"; rel_path = codes "a"; last_backup = 100 } ∷ [];
  dirents_seq = 9;
  backup_info = record { id = 1; snapshot_time = 100; dir_path = codes "/home" } ∷ [];
  backup_info_seq = 1;
  backup_journal = row_done ∷ row_running ∷ row_waiting ∷ [];
  backup_journal_seq = 3;
}

pub tables-IsKeyed : IsKeyed tables
tables-IsKeyed = record {
  distinct = ((λ e. cc e, (λ e. cc e, tt)), ((λ e. cc e, tt), (tt, tt)));
  bounded = (omega arith, (omega arith, (omega arith, tt)));
}

-- Stand-ins for the JSON of paths and of snapshots. Each snapshot has one file, in the chunk "c".
abbrev file_in_c : CloudRelPath
file_in_c = record {
  rel_path = codes "f";
  chunk_extents = record { chunk_name = codes "c"; offset = 0; len = 1 } ∷ [];
}

abbrev pub json : Json
json = record {
  to_json = λ crp. crp.rel_path;
  from_json = λ s. some (record { rel_path = s; chunk_extents = [] });
  marshal = λ ss. ss.decrypted_name;
  unmarshal = λ s. some (record {
    encrypted_name = s;
    decrypted_name = s;
    datetime = 0;
    rel_paths = (codes "f", file_in_c) ∷ [];
  });
}

abbrev pub hashes : Hashes
hashes = record { md5 = λ s. length s ∷ []; hex = λ s. s; decimal = λ n. n ∷ [] }

-- A cipher that puts 16 zeros in front.
abbrev tag : Str
tag = replicate 16 0

abbrev pub plain : Primitives
plain = record {
  gz = λ s. s;
  gunzip = λ s. some s;
  gcm_seal = λ key nonce s. tag ++ s;
  gcm_open = λ key nonce s. some (drop 16 s);
  siv_key = λ key. length key == 32;
  siv_nonce_size = 12;
  siv_seal = λ key nonce s. s;
  siv_open = λ key nonce s. some s;
  encode_base64 = λ s. s;
  decode_base64 = λ s. some s;
}

pub plain-IsLawful : IsLawful plain
plain-IsLawful = record {
  gunzip-gz = λ s. refl;
  gcm_open-seal = λ key nonce s. refl;
  length-gcm_seal = λ key nonce s. omega arith;
  siv_open-seal = λ key nonce s. refl;
  decode-encode = λ s. refl;
}

abbrev pub key : Str
key = replicate 32 1

abbrev pub nonce : Str
nonce = replicate 12 5

pub key-aes : aes_key key ≡ true
unfolding nat_eq
key-aes = refl

pub key-siv : plain.siv_key key ≡ true
unfolding nat_eq
key-siv = refl

-- The tables with no journal.
abbrev pub tables_idle : Tables
tables_idle = record tables { backup_journal = [] }
