-- ===== src/Snapshots.antt =====
-- pkg/snapshots: the data that its parts share.
pub mod Prune
pub mod Grouped
pub mod Collect
pub mod Index
use tless.Prelude.Dict.{Dict}
use tless.Prelude.{ℕ, ◌≡◌, Str, Option, some, List}

-- snapshots.go
pub record SnapshotInfo : Type 0 where
  pub name : Str
  pub raw_snapshot_name : Str
  pub timestamp_unix : ℕ

-- get_grouped_snapshots.go
pub record ChunkExtent : Type 0 where
  pub chunk_name : Str
  pub offset : ℕ
  pub len : ℕ

pub record CloudRelPath : Type 0 where
  pub rel_path : Str
  pub chunk_extents : List ChunkExtent

-- The maps of these two are keyed by the relative path and by the decrypted name.
pub record Snapshot : Type 0 where
  pub encrypted_name : Str
  pub decrypted_name : Str
  pub datetime : ℕ
  pub rel_paths : Dict Str CloudRelPath

pub record BackupDir : Type 0 where
  pub encrypted_name : Str
  pub decrypted_name : Str
  pub snapshots : Dict Str Snapshot

-- `ToJson`, `NewCloudRelPathFromJson`, and the JSON of a snapshot, by the JSON package, which has no
-- error for structs of strings, numbers, lists and maps of these.
pub record Json : Type 0 where
  pub to_json : CloudRelPath → Str
  pub from_json : Str → Option CloudRelPath
  pub marshal : Snapshot → Str
  pub unmarshal : Str → Option Snapshot
