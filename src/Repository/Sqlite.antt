-- ===== src/Repository/Sqlite.antt =====
-- internal/adapters/out/repository/sqlite/server_repository.go and internal/adapters/out/db/sqlite.go:
-- the repository over a table of an SQL database, and the table that the daemon creates for it.
pub mod Schema
use gameserver_daemon.Common.{
  ℕ, zero, suc, String, ◌<>◌, Bool, true, false, ◌≡◌, ◌≢◌, Option, none, some, List, [], ◌∷◌, All,
}
use gameserver_daemon.Errors.{GoError, failure, wrapped, Result, ok, err}
use gameserver_daemon.Ports.{ServerRecord}
use gameserver_daemon.Ports.Interfaces.{ServerRepository}
use gameserver_daemon.FileApi.Archive.{dir_of}

-- The statements of the two files, by the columns of `servers` that they name. `upsert` inserts a row
-- or, if its id is there, overwrites the other columns.
pub data Change : Type 0 where
  create_if_missing : List String → Change
  upsert : List String → ServerRecord → Change
  set_status : List String → String → String → Change

pub data Query : Type 0 where
  by_id : List String → String → Query
  all : List String → Query

-- What is used of `database/sql`: `exec` answers the number of rows that it has changed.
pub record Database (D : Type 0) : Type 0 where
  pub exec : Change → D → Result ℕ × D
  pub select : Query → D → Result (List ServerRecord)

-- The columns of the records, as `Save`, `FindByID` and `ListAll` name them.
abbrev pub record_columns : List String
record_columns =
    "id" ∷ "name" ∷ "address" ∷ "port" ∷ "status" ∷ "node_id" ∷ "runtime" ∷ "runtime_ref"
    ∷ "project_id" ∷ "environment_id" ∷ []

-- The columns that `createSchema` gives the table.
abbrev pub schema_columns : List String
schema_columns =
    "id" ∷ "name" ∷ "address" ∷ "port" ∷ "status" ∷ "node_id" ∷ "runtime" ∷ "runtime_ref"
    ∷ "created_at" ∷ "updated_at" ∷ []

abbrev pub only_error : {D : Type 0} → Result ℕ × D → Option GoError × D
only_error (ok n, d) = (none, d)
only_error (err e, d) = (some e, d)

module _ {D : Type 0} (db : Database D) where
  -- `Save`
  unfoldable pub save : ServerRecord → D → Option GoError × D
  save r d = only_error (db.exec (upsert ("updated_at" ∷ record_columns) r) d)

  abbrev pub first_row : String → Result (List ServerRecord) → Result ServerRecord
  first_row id (err e) = err e
  first_row id (ok []) = err (failure ("server not found: " <> id))
  first_row id (ok (r ∷ rs)) = ok r

  -- `FindByID`
  unfoldable pub find_by_id : String → D → Result ServerRecord
  find_by_id id d = first_row id (db.select (by_id record_columns id) d)

  abbrev counted : String → Result ℕ × D → Option GoError × D
  counted id (err e, d) = (some e, d)
  counted id (ok zero, d) = (some (failure ("server not found: " <> id)), d)
  counted id (ok (suc n), d) = (none, d)

  -- `UpdateStatus`
  unfoldable pub update_status : String → String → D → Option GoError × D
  update_status id status d =
      counted id (db.exec (set_status ("status" ∷ "updated_at" ∷ "id" ∷ []) id status) d)

  -- `ListAll`
  unfoldable pub list_all : D → Result (List ServerRecord)
  list_all d = db.select (all record_columns) d

  abbrev pub sqlite_repository : ServerRepository D
  sqlite_repository = record {
    save = save;
    find_by_id = find_by_id;
    update_status = update_status;
    list_all = list_all;
  }

  -- `createSchema`
  unfoldable pub create_schema : D → Option GoError × D
  create_schema d = only_error (db.exec (create_if_missing schema_columns) d)

-- What `InitDB` uses beside: the directory of the file, the driver and its ping.
pub record Driver (D F : Type 0) : Type 0 where
  pub mkdir_all : String → F → Option GoError × F
  pub connect : String → Result D
  pub ping : D → Option GoError

module _ {D F : Type 0} (db : Database D) (driver : Driver D F) where
  abbrev pub with_schema : Option GoError × D → Result D
  with_schema (some e, d) = err (wrapped "failed to create schema: " e "")
  with_schema (none, d) = ok d

  abbrev pub pinged : D → Option GoError → Result D
  unfolding create_schema
  pinged d (some e) = err (wrapped "failed to ping database: " e "")
  pinged d none = with_schema (create_schema db d)

  abbrev pub opened : Result D → Result D
  opened (err e) = err (wrapped "failed to open database: " e "")
  opened (ok d) = pinged d (driver.ping d)

  abbrev pub with_directory : String → Option GoError × F → Result D × F
  with_directory dsn (some e, f) = (err (wrapped "failed to create database directory: " e ""), f)
  with_directory dsn (none, f) = (opened (driver.connect dsn), f)

  -- `InitDB`
  unfoldable pub init_db : String → F → Result D × F
  unfolding dir_of
  init_db dsn f = with_directory dsn (driver.mkdir_all (dir_of dsn) f)
