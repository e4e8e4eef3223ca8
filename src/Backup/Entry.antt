-- ===== src/Backup/Entry.antt =====
-- pkg/backup/backup.go, serde.go and cryptography.AppendEntireFileToBuffer: `Backup` of one
-- directory entry. The file system and the gob encoding are parameters; so are the draws of the
-- random reader and the clock, which a call takes from `Draws`.
use mathlib.Core.Option
use tless.Prelude.{
  ℕ, zero, suc, ◌+◌, ◌/◌, ◌%◌, Str, codes, Bool, false, not, ◌&&◌, ◌||◌, Option, none, some, List,
  [], ◌∷◌, ◌++◌, ltb, if◌then◌else◌, ◌==◌, nat_eq, str_eq, length,
}
use tless.Util.{strip_trailing_slashes}
use tless.Database.Journal.{BackupJournalTask}
use tless.Cryptography.{
  Outcome, done, failed, crash, or_failed, Primitives, encrypt_buffer_with_nonce,
}
use tless.Objstore.{Hashes, Minio, Cloud, compute_etag, upload_obj_from_buffer}
use tless.Snapshots.{ChunkExtent, Json}
use tless.Snapshots.Grouped.{Net, pure, given, ◌>>=◌}
use tless.Snapshots.Index.{uploaded}
use tless.Backup.{chunk_size, World}
use tless.Backup.Nonce.{increment_nonce}
use tless.Backup.ChunkPacker.{ChunkPacker}
use tless.Backup.Small.{Packed, back_up_small}

pub record DirEntMetadata : Type 0 where
  pub is_dir : Bool
  pub m_time : ℕ
  pub x_attrs : Str
  pub mode : ℕ
  pub is_symlink : Bool
  pub symlink_origin : Str

-- What `Lstat` says, with the bits of the mode that the code asks for.
pub record FileInfo : Type 0 where
  pub is_dir : Bool
  pub is_symlink : Bool
  pub is_device : Bool
  pub is_socket : Bool
  pub is_irregular : Bool
  pub is_named_pipe : Bool
  pub mode : ℕ
  pub mod_time : ℕ
  pub size : ℕ

-- `none` is an error. `read_once` gives the size of the opened file and the bytes of one read of
-- that size; `reads` the answers to the reads of a file of at most one chunk each, up to the end of
-- the file, where `none` is an error. `serialize_xattrs` is `serializeXAttrsToHex`.
pub record Os : Type 0 where
  pub join : Str → Str → Str
  pub lstat : Str → Option FileInfo
  pub readlink : Str → Option Str
  pub serialize_xattrs : Str → Option Str
  pub encode : DirEntMetadata → Option Str
  pub read_once : Str → Option (ℕ × Str)
  pub reads : Str → Option (List (Option Str))

-- What a call draws: names for chunks, 12 bytes, the rounds of each upload, and the time.
pub record Draws : Type 0 where
  pub chunk_names : ℕ → Str
  pub nonce : Option Str
  pub rounds : ℕ
  pub now : ℕ

-- `binary.LittleEndian` of a number, in so many bytes.
abbrev pub little_endian : ℕ → ℕ → Str
little_endian zero n = []
little_endian (suc size) n = n % 256 ∷ little_endian size (n / 256)

abbrev pub length_prefixed : Str → Str
length_prefixed buf = little_endian 8 (length buf) ++ buf

unfoldable pub serialize_metadata_struct : Os → DirEntMetadata → Option Str
serialize_metadata_struct os metadata = Option.map length_prefixed (os.encode metadata)

-- A short read is an error.
abbrev pub appended : Str → Option (ℕ × Str) → Option Str
appended buf none = none
appended buf (some (filesize, read)) = if length read == filesize then some (buf ++ read) else none

-- `getSymlinkOriginIfSymlink`
unfoldable pub get_symlink_origin_if_symlink : Os → Str → Option Str
get_symlink_origin_if_symlink os path = elim (os.lstat path) [
  | none ↦ none
  | some info ↦ if info.is_symlink then os.readlink path else some []
]

abbrev or_blank : Option Str → Str
or_blank none = []
or_blank (some xattrs) = xattrs

abbrev pub metadata_of : FileInfo → Str → Option Str → DirEntMetadata
metadata_of info symlink_origin xattrs = record {
  is_dir = info.is_dir;
  m_time = info.mod_time;
  x_attrs = or_blank xattrs;
  mode = info.mode;
  is_symlink = not (symlink_origin == []);
  symlink_origin = symlink_origin;
}

-- A socket, a FIFO or a device.
abbrev pub is_filtered : FileInfo → Bool
is_filtered info = info.is_device || (info.is_socket || (info.is_irregular || info.is_named_pipe))

-- The header goes before the first chunk only.
abbrev pub read_buf : ℕ → Str → Str → Str
read_buf zero buf read = buf ++ read
read_buf (suc i) buf read = read

abbrev pub extent_of : Draws → ℕ → Str → ChunkExtent
extent_of draws i plaintext = record {
  chunk_name = draws.chunk_names i;
  offset = 0;
  len = length plaintext;
}

module _ {M : Minio} (P : Primitives) (H : Hashes) (key : Str) (draws : Draws) where
  -- The loop over the chunks of a large file.
  unfoldable pub back_up_chunks :
      Str → ℕ → Str → List (Option Str) → List ChunkExtent → Net M (List ChunkExtent)
  unfolding encrypt_buffer_with_nonce upload_obj_from_buffer compute_etag increment_nonce
  back_up_chunks buf i nonce [] extents = pure extents
  back_up_chunks buf i nonce (none ∷ reads) extents = given failed
  back_up_chunks buf i nonce (some read ∷ reads) extents = do
    ciphertext ← given (encrypt_buffer_with_nonce P key (read_buf i buf read) nonce)
    _ ← λ c. uploaded (
        upload_obj_from_buffer M (codes "chunks/" ++ draws.chunk_names i) ciphertext
          (compute_etag H ciphertext) draws.rounds c)
    next_nonce ← given (increment_nonce nonce)
    back_up_chunks buf (suc i) next_nonce reads
        (extents ++ (extent_of draws i (read_buf i buf read) ∷ []))

  unfoldable pub back_up_large : Os → Str → Str → Net M (List ChunkExtent)
  unfolding back_up_chunks
  back_up_large os abs_path buf = do
    nonce ← given (or_failed draws.nonce)
    reads ← given (or_failed (os.reads abs_path))
    back_up_chunks buf 0 nonce reads []

-- The packer, the world, and the count of files in `stats`, if there is one.
pub record State (M : Minio) : Type 0 where
  pub packer : ChunkPacker
  pub world : World M
  pub cnt_files : Option ℕ

-- The extents and whether the entry is pending in the packer, and the state, also after an error.
abbrev pub Step : Minio → Type 0 → Type 0
Step M A = State M → Outcome A × State M

abbrev pub not_pending : Outcome (List ChunkExtent) → Outcome (List ChunkExtent × Bool)
not_pending (done extents) = done (extents, false)
not_pending failed = failed
not_pending crash = crash

module _ {M : Minio} where
  abbrev pub of_packed : State M → Outcome (Packed M) → Outcome (List ChunkExtent × Bool) × State M
  of_packed s (done p) = (
    done ([], p.is_pending),
    record { packer = p.packer; world = p.world; cnt_files = s.cnt_files },
  )
  of_packed s failed = (failed, s)
  of_packed s crash = (crash, s)

  abbrev pub of_large :
      State M → Outcome (List ChunkExtent) × Cloud M → Outcome (List ChunkExtent × Bool) × State M
  of_large s (r, c) = (
    not_pending r,
    record {
      packer = s.packer;
      world = record {
        db = s.world.db;
        cloud = c;
        total_cnt_journal = s.world.total_cnt_journal;
        finished_count_journal = s.world.finished_count_journal;
      };
      cnt_files = s.cnt_files;
    },
  )

module _ {M : Minio} (P : Primitives) (H : Hashes) (J : Json) (key : Str) (os : Os) (draws : Draws)
    (rel_path : Str) (bjt : BackupJournalTask) where
  -- A directory, a symbolic link or a small file, with its metadata and contents; else an error.
  unfoldable pub pack : Option Str → Step M (List ChunkExtent × Bool)
  unfolding back_up_small
  pack none s = (failed, s)
  pack (some buf) s = of_packed s (
      back_up_small P H J key (draws.chunk_names 0) draws.nonce draws.rounds draws.now rel_path buf
        bjt s.packer s.world)

  -- What follows the metadata.
  unfoldable pub back_up_contents :
      Str → FileInfo → Bool → Option Str → Step M (List ChunkExtent × Bool)
  unfolding pack back_up_large nat_eq
  back_up_contents abs_path info is_symlink none s = (failed, s)
  back_up_contents abs_path info is_symlink (some buf) s =
      if info.is_dir || (ltb (info.size + length buf) chunk_size || is_symlink)
      then (if not info.is_dir && not is_symlink
          then pack (appended buf (os.read_once abs_path)) s
          else pack (some buf) s)
      else of_large s (back_up_large P H key draws os abs_path buf s.world.cloud)

  unfoldable pub back_up_found : Str → FileInfo → Option Str → Step M (List ChunkExtent × Bool)
  unfolding back_up_contents serialize_metadata_struct str_eq
  back_up_found abs_path info none s = (failed, s)
  back_up_found abs_path info (some origin) s =
      back_up_contents abs_path info (not (origin == []))
        (serialize_metadata_struct os (metadata_of info origin (os.serialize_xattrs abs_path))) s

  -- `Backup`
  unfoldable pub back_up : Str → Step M (List ChunkExtent × Bool)
  unfolding back_up_found get_symlink_origin_if_symlink strip_trailing_slashes
  back_up backup_dir_path s =
      let abs_path = os.join (strip_trailing_slashes backup_dir_path) rel_path in
      elim (os.lstat abs_path) [
        | none ↦ (failed, s)
        | some info ↦
            if is_filtered info
            then (failed, s)
            else back_up_found abs_path info (get_symlink_origin_if_symlink os abs_path) s
      ]
