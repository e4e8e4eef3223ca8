-- ===== src/Lib.antt =====
-- tless, an encrypted backup program: its logic and what is proved of it.
--
-- A backup walks a directory and writes into a local database a journal, one row for each entry
-- that was changed or deleted. It plays the journal: it claims a row, backs up the entry, small
-- files packed together into chunks, and finishes the row with the entry's extents. The chunks are
-- compressed, encrypted and uploaded to an object store, and the index made of the finished rows
-- is uploaded last. A prune deletes intermediate snapshots, and then the chunks that no snapshot
-- has.
--
--   Util: pkg/util/util.go, the string helpers. Util/Paths, Util/Slices, Util/Durations prove of them.
--   Cryptography: pkg/cryptography/encryption.go. gzip, AES-GCM, AES-GCM-SIV and base64 are the
--     parameter `Primitives`, with laws `IsLawful`: what was sealed opens, what was packed unpacks.
--     A panic and `log.Fatal` are the outcome `crash`, and so is a call that has not returned
--     in the rounds that it is given.
--   Objstore: pkg/objstore/objstore.go. The client's calls are the parameter `Minio` over a state
--     of the server and the network, with laws `IsLawful` on the objects. MD5 is a parameter.
--     Objstore/Memory is a store in memory that has those laws, which the tests use. `IsReliable`
--     in Backup/Large adds a network without failures.
--   Snapshots: the data of pkg/snapshots, and Snapshots/Prune its prune.go, with the time of the
--     call as an argument. Prune/Within, Prune/Keeps, Prune/Intermediate prove of it.
--     Snapshots/Grouped is get_grouped_snapshots.go, Snapshots/Collect the deletion of snapshots
--     and of orphaned chunks in snapshots.go, Snapshots/Index is indices.go.
--   Database: pkg/database. The tables are lists of rows, a SQL statement is the function on them
--     that its text describes, and each call of the driver may fail as a list of faults says.
--     Database/Journal and its children are journals.go, Database/DirEnts is of database.go. The
--     row that a query without ORDER BY yields first is a parameter, `RowOrder`. Journal/Undo has
--     the two statements of `cancelBackup` in daemon/backup.go.
--   Backup: pkg/backup. Backup.antt has the state that a backup works on and `completeTask`,
--     Backup/Journaled the fill of the journal in journaled_backup.go, Backup/Play the loop of
--     `PlayBackupJournal`, Backup/Replay its beginning and `ReplayBackupJournal`, Backup/Whole all
--     of `DoJournaledBackup` from the walk to the play, with Whole/Planned on what comes before it,
--     Backup/ChunkPacker is chunk_packer.go, Backup/Nonce the nonces of the chunks of a large file,
--     Backup/Small the packing of small files in backup.go, Backup/Entry all of `Backup` over the
--     calls of the operating system as the parameter `Os`, Backup/Serde is serde.go,
--     Backup/Restore the choice of the paths to restore in restore.go, Backup/RestoreEntry its
--     `RestoreDirEntry`, and Backup/ChunkCache is chunk_cache.go. Play/Running, Play/Steady,
--     Play/Held, Play/Progress, Play/Rounds, Play/Refines and Play/Ends lead from one row of the
--     journal to the whole play, with the callback of a cancelation as a parameter: the play is a machine on the numbers of tasks that wait, that the
--     packer holds and that are finished.
--   Fstraverse: pkg/fstraverse/fstraverse.go, the walk over the visits of `filepath.WalkDir`, which
--     are given in order. Fstraverse/Excludes has the exclusions, with `filepath.Match` and
--     `filepath.Dir` as the parameter `Globs`; Fstraverse/Walked and Fstraverse/Queued lead from one
--     visit to the walk, and Fstraverse/Inserted goes on to all of `Traverse`.
--   Daemon: daemon/timer.go, the loop of the timer, over a list of what its rounds find outside;
--     Daemon/Spaced proves of it.
--   Prelude: lists, Booleans, association lists and sorting, which the others share.
--   Tests: tests, and one use of each result on a concrete input.
--
-- Numbers are natural numbers: sizes, ids and times of the code are not negative and far below
-- 2^63, and the code's subtractions of times are written as additions on the other side. The loops
-- of the string helpers and of the ETag get the length of their input for rounds, which is enough
-- since each round takes a byte. The upload and the claim, whose loops end by what the network or
-- the driver does, get the number of rounds as an argument, and the results say how many suffice.
-- The way up from an excluded path gets one round more than the path's length, which is enough
-- since a directory's path is shorter. An upload without an
-- answer in its rounds makes the call that waits for it not return. The play gets the list of what
-- its rounds meet outside, and has used them up when it is still
-- going. The evictions of the cache get one round more than there are chunks, since a round that
-- evicts nothing changes nothing.
--
-- Not modelled: extended attributes, the paths of restored files, the copies of the database
-- between memory and disk, reports of progress, the rest of the daemon, its goroutines and
-- locks, the gRPC interface, the command line, the configuration, database migrations and usage
-- reports.
pub mod Prelude
pub mod Cryptography
pub mod Database
pub mod Objstore
pub mod Snapshots
pub mod Util
pub mod Backup
pub mod Fstraverse
pub mod Daemon
mod Tests
