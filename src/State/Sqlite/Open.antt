-- ===== src/State/Sqlite/Open.antt =====
-- store.go: opening the file of the database and making its tables. The file system and the driver
-- modernc.org/sqlite are a parameter.
use arda_wed_gateway.Base.{
  ◌≡◌, refl, Bool, true, false, Option, none, some, List, [], ◌∷◌, if◌then◌else◌, arith, ◌||◌,
}
use arda_wed_gateway.Base.Text.{Text, codes, text_eq}

-- CREATE TABLE IF NOT EXISTS, with its columns and the key of its last line.
pub record CreateTable : Type 0 where
  pub name : Text
  pub columns : List (Text × Text)
  pub key : List Text

abbrev pub state_snapshot : CreateTable
state_snapshot = record {
  name = codes "state_snapshot";
  columns =
      (codes "session_id", codes "TEXT PRIMARY KEY")
      ∷ (codes "location", codes "TEXT")
      ∷ (codes "hp_current", codes "INTEGER")
      ∷ (codes "hp_max", codes "INTEGER")
      ∷ (codes "ma_current", codes "INTEGER")
      ∷ (codes "ma_max", codes "INTEGER")
      ∷ (codes "mv_current", codes "INTEGER")
      ∷ (codes "mv_max", codes "INTEGER")
      ∷ (codes "exp", codes "INTEGER")
      ∷ (codes "status_tags_json", codes "TEXT NOT NULL DEFAULT '[]'")
      ∷ (codes "updated_at", codes "TEXT NOT NULL")
      ∷ [];
  key = [];
}

abbrev pub state_equipment : CreateTable
state_equipment = record {
  name = codes "state_equipment";
  columns =
      (codes "session_id", codes "TEXT NOT NULL")
      ∷ (codes "slot", codes "TEXT NOT NULL")
      ∷ (codes "item", codes "TEXT NOT NULL")
      ∷ (codes "updated_at", codes "TEXT NOT NULL")
      ∷ [];
  key = codes "session_id" ∷ codes "slot" ∷ [];
}

-- os.MkdirAll and whether it succeeds, filepath.Dir, sql.Open, and Exec of a statement.
pub record Driver (D : Type 0) : Type 0 where
  pub mkdir_all : Text → Bool
  pub dir : Text → Text
  pub sql_open : Text → Option D
  pub exec : CreateTable → D → D × Bool

-- What NewSQLiteStore returns; where the tables cannot be made, the database that it closes again.
pub data Opening (D : Type 0) : Type 0 where
  no_directory no_database : Opening D
  no_schema opened : D → Opening D

abbrev pub memory_path : Text
memory_path = codes ":memory:"

module _ {D : Type 0} (driver : Driver D) where
  -- The loop of init.
  unfoldable pub exec_all : List CreateTable → D → D × Bool
  exec_all [] d = (d, true)
  exec_all (s ∷ ss) d =
      let (d1, ok) = driver.exec s d in
      let rest = exec_all ss d1 in if ok then rest else (d1, false)

  unfoldable pub init : D → D × Bool
  unfolding exec_all
  init d = exec_all (state_snapshot ∷ state_equipment ∷ []) d

  abbrev after_init : D × Bool → Opening D
  after_init (d, ok) = if ok then opened d else no_schema d

  abbrev after_open : Option D → Opening D
  after_open none = no_database
  after_open (some d) = after_init (init d)

  unfoldable pub open_path : Text → Opening D
  unfolding init
  open_path path =
      if text_eq path memory_path
      then after_open (driver.sql_open path)
      else (if driver.mkdir_all (driver.dir path)
          then after_open (driver.sql_open path)
          else no_directory)

  -- NewSQLiteStore
  unfoldable pub new_sqlite_store : Text → Opening D
  unfolding open_path
  new_sqlite_store path = open_path (if text_eq path [] then memory_path else path)

-- The store, if there is no error.
abbrev pub store_of : {D : Type 0} → Opening D → Option D
store_of (opened d) = some d
store_of o = none

-- A statement that succeeds.
abbrev pub done : {D : Type 0} → D × Bool → Option D
done (d, ok) = if ok then some d else none

abbrev and_then : {D : Type 0} → Option D → (D → Option D) → Option D
and_then none f = none
and_then (some d) f = f d

tables_in : {D : Type 0} → Driver D → D → Option D
tables_in driver d =
    and_then (done (driver.exec state_snapshot d)) λ d1. done (driver.exec state_equipment d1)

-- The database at a path with both tables, if it can be had: a file wants its directory, memory none.
pub ready : {D : Type 0} → Driver D → Text → Option D
ready driver path =
    if text_eq path memory_path || driver.mkdir_all (driver.dir path)
    then and_then (driver.sql_open path) (tables_in driver)
    else none

after_open-ready :
    {D : Type 0} (driver : Driver D) (o : Option D)
    → store_of (after_open driver o) ≡ and_then o (tables_in driver)
unfolding init exec_all tables_in
after_open-ready driver none = refl
after_open-ready driver (some d) = ground arith

-- NewSQLiteStore returns a store exactly if the database is ready, with both tables made in it; the
-- empty path is the one in memory, which needs no directory.
pub new_sqlite_store-ready :
    {D : Type 0} (driver : Driver D) (path : Text)
    → store_of (new_sqlite_store driver path)
      ≡ ready driver (if text_eq path [] then memory_path else path)
unfolding new_sqlite_store open_path ready
new_sqlite_store-ready driver path = ground (
  arith,
  after_open-ready driver (driver.sql_open path),
  after_open-ready driver (driver.sql_open memory_path),
)
