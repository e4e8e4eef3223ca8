-- ===== src/Tests/Backup.antt =====
-- Filling the journal and undoing a backup.
use tless.Prelude.{
  ℕ, ◌+◌, ◌≡◌, ◌≤◌, refl, codes, true, List, [], ◌∷◌, In, length, str_eq, nat_eq, map, ◌⊎◌,
}
use tless.Database.{
  DirEntRow, JournalRow, Tables, ChangeType, updated, deleted, unstarted, ok, quiet, ◌>>◌,
}
use tless.Database.Journal.Finish.{count_status}
use tless.Database.Journal.Cancel.{was_processed, get_last_completed_backup_unix_time}
use tless.Database.Journal.Undo.{undo, undo_lem}
use tless.Backup.Journaled.{deleted_dirent_ids, fill_journal}
use tless.Backup.Journaled.Filled.{IsTask}
use tless.Backup.Journaled.Deleted.{IsGone, fill_journal_lem}
use tless.Fstraverse.{known_path}
use tless.Backup.Journaled.Remembered.{canceled_is_remembered}
use tless.Tests.Data.{in_table_order, tables, tables_idle}

undo_example :
    (t' : Tables) × (undo (quiet tables) ≡ (ok tt, quiet t'))
    × (t'.backup_journal ≡ [])
    × ((get_last_completed_backup_unix_time (quiet t')).0
        ≡ (get_last_completed_backup_unix_time (quiet tables)).0)
    × ((d : DirEntRow) (r : JournalRow)
        → In d t'.dirents
        → In r tables.backup_journal
        → was_processed r ≡ true
        → d.id ≡ r.dir_ent_id
        → d.last_backup ≡ 0)
undo_example = undo_lem tables

abbrev queue : List (ℕ × ChangeType)
queue = (8, updated) ∷ (9, updated) ∷ []

deleted_run :
    (deleted_dirent_ids in_table_order
      (codes "/home")
      (codes "/home/a" ∷ codes "/home/b" ∷ [])
      (quiet tables_idle)).0
    ≡ (7, deleted) ∷ []
unfolding deleted_dirent_ids nat_eq
deleted_run = refl

fill_journal_example :
    let dir = codes "/home" in
    let gone = codes "a" ∷ codes "b" ∷ [] in
    (t' : Tables) × (fill_journal in_table_order 200 201 dir dir queue
        (map (known_path dir) gone)
        (quiet tables_idle)
      ≡ (ok tt, quiet t'))
    × ((r : JournalRow) → In r tables_idle.backup_journal → In r t'.backup_journal)
    × ((id : ℕ) (c : ChangeType)
        → In (id, c) queue
        → (r : JournalRow) × In r t'.backup_journal × IsTask id c r)
    × ((id : ℕ)
        → IsGone in_table_order dir tables_idle gone id
        → (r : JournalRow) × In r t'.backup_journal × IsTask id deleted r)
    × ((r : JournalRow)
        → In r t'.backup_journal
        → In r tables_idle.backup_journal
          ⊎ (((id : ℕ) × (c : ChangeType) × In (id, c) queue × IsTask id c r)
              ⊎ ((id : ℕ) × IsGone in_table_order dir tables_idle gone id × IsTask id deleted r)))
    × (count_status unstarted t'.backup_journal
        ≤ count_status unstarted tables_idle.backup_journal + length queue + length gone)
    × (t'.dirents ≡ tables_idle.dirents)
fill_journal_example =
    fill_journal_lem in_table_order (codes "/home") tables_idle 200 201 (codes "/home") queue
      (codes "a" ∷ codes "b" ∷ [])

canceled_is_remembered_example :
    (m : ℕ) × (((fill_journal in_table_order 200 201 (codes "/home") (codes "home") queue []
          >> undo
          >> get_last_completed_backup_unix_time)
        (quiet tables_idle)).0
      ≡ ok m)
    × (201 ≤ m)
canceled_is_remembered_example =
    canceled_is_remembered in_table_order 200 201 (codes "/home") (codes "home") queue tables_idle
      refl
