-- ===== src/Database.antt =====
-- pkg/database: the rows of the local database's tables, and statements that may fail. A statement
-- is a function on the tables; the driver and the engine are taken by what the SQL text says. Each
-- call of the driver (Prepare, Exec, QueryRow, Begin, Commit) takes the next of `faults`: `true`
-- is a call that returns an error and changes nothing. An empty list means no more faults.
pub mod Journal
pub mod DirEnts
use tless.Prelude.{ℕ, Str, ◌≡◌, ◌≢◌, Bool, true, false, Option, none, some, List, [], ◌∷◌, In}

-- `JournalStatus`, stored as 1, 2, 3.
pub data JournalStatus : Type 0 where
  unstarted in_progress finished : JournalStatus

-- `ChangeType`, stored as 1, 2, 3.
pub data ChangeType : Type 0 where
  updated unchanged deleted : ChangeType

pub record DirEntRow : Type 0 where
  pub id : ℕ
  pub root_dir : Str
  pub rel_path : Str
  pub last_backup : ℕ

pub record BackupInfoRow : Type 0 where
  pub id : ℕ
  pub snapshot_time : ℕ
  pub dir_path : Str

-- `index_entry` is NULL until a task is completed with one.
pub record JournalRow : Type 0 where
  pub id : ℕ
  pub backup_info_id : ℕ
  pub dir_ent_id : ℕ
  pub change_type : ChangeType
  pub index_entry : Option Str
  pub status : JournalStatus

-- The tables, each with the largest id that AUTOINCREMENT has given out.
pub record Tables : Type 0 where
  pub dirents : List DirEntRow
  pub dirents_seq : ℕ
  pub backup_info : List BackupInfoRow
  pub backup_info_seq : ℕ
  pub backup_journal : List JournalRow
  pub backup_journal_seq : ℕ

pub record Db : Type 0 where
  pub tables : Tables
  pub faults : List Bool

-- A database whose driver does not fail any more.
abbrev pub quiet : Tables → Db
quiet t = record { tables = t; faults = [] }

-- `no_rows` is `sql.ErrNoRows`, `no_work` is `ErrNoWork`; `out_of_rounds` is the model's own, for a
-- loop that is given too few rounds.
pub data DbError : Type 0 where
  sql_error no_rows no_work out_of_rounds : DbError

pub data Result {ℓ} (A : Type ℓ) : Type ℓ where
  ok : A → Result A
  err : DbError → Result A

abbrev pub Sql {ℓ} : Type ℓ → Type ℓ
Sql A = Db → Result A × Db

module _ {ℓ} {A : Type ℓ} where
  abbrev pub pure : A → Sql A
  pure a db = (ok a, db)

  abbrev pub raise : DbError → Sql A
  raise e db = (err e, db)

  abbrev succeed : (Tables → A × Tables) → Tables → List Bool → Result A × Db
  succeed f t rest = (ok (f t).0, record { tables = (f t).1; faults = rest })

  take_fault : (Tables → A × Tables) → Tables → List Bool → Result A × Db
  take_fault f t [] = succeed f t []
  take_fault f t (false ∷ rest) = succeed f t rest
  take_fault f t (true ∷ rest) = (err sql_error, record { tables = t; faults = rest })

  -- A statement, by what it does to the tables and what it returns.
  unfoldable pub exec : (Tables → A × Tables) → Sql A
  unfolding take_fault
  exec f db = take_fault f db.tables db.faults

-- `Prepare` and `Begin` only reach the driver.
unfoldable pub prepare : Sql (Unit {0})
unfolding exec
prepare = exec (λ t. (tt, t))

-- `RowsAffected` and `LastInsertId`, of the result of a statement.
unfoldable pub of_result : ℕ → Sql ℕ
unfolding exec
of_result n = exec (λ t. (n, t))

-- A query changes nothing.
unfoldable pub query {ℓ} : {A : Type ℓ} → (Tables → A) → Sql A
unfolding exec
query f = exec (λ t. (f t, t))

-- A statement with no result.
unfoldable pub update : (Tables → Tables) → Sql (Unit {0})
unfolding exec
update f = exec (λ t. (tt, f t))

module _ {ℓ κ} {A : Type ℓ} {B : Type κ} where
  abbrev continue : Result A → (A → Sql B) → Sql B
  continue (ok a) f db = f a db
  continue (err e) f db = (err e, db)

  infixl 5 ◌>>=◌ ◌>>◌
  abbrev pub ◌>>=◌ : Sql A → (A → Sql B) → Sql B
  ◌>>=◌ m f db = continue (m db).0 f (m db).1

  abbrev pub ◌>>◌ : Sql A → Sql B → Sql B
  m >> n = m >>= λ _. n

-- A query that yields one row where none is asked to come first: the engine chooses. So `LIMIT 1`
-- and `QueryRow` with no ORDER BY.
pub record RowOrder (A : Type 0) : Type 0 where
  pub first : List A → Option A
  pub first-nil : first [] ≡ none
  pub first-In : (l : List A) (r : A) → first l ≡ some r → In r l
  pub first-cons : (r : A) (l : List A) → first (r ∷ l) ≢ none

abbrev pub or_no_rows {ℓ} : {A : Type ℓ} → Option A → Sql A
or_no_rows none = raise no_rows
or_no_rows (some r) = pure r
