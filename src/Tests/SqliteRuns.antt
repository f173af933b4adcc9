-- ===== src/Tests/SqliteRuns.antt =====
-- Runs of the SQL repository on a table that is kept as a list.
use gameserver_daemon.Common.{
  ℕ, String, Bool, true, false, ◌&&◌, ◌≡◌, refl, sym, ap, ◌∙◌, none, some, List, [], ◌∷◌, arith,
  if◌then◌else◌,
}
use gameserver_daemon.Errors.{GoError, failure, Result, ok, err}
use gameserver_daemon.Ports.{ServerRecord}
use gameserver_daemon.Repository.Sqlite.{
  Change, create_if_missing, upsert, set_status, Query, by_id, all, Database, save, find_by_id,
  list_all, create_schema, schema_columns,
}
use gameserver_daemon.Repository.Sqlite.Schema.{among, HasColumns, fresh_database_refuses}
use gameserver_daemon.Tests.Data.{server}

record Table : Type 0 where
  columns : List String
  rows : List ServerRecord

unfoldable all_among : List String → List String → Bool
all_among [] table = true
all_among (c ∷ cs) table = among c table && all_among cs table

abbrev no_column : GoError
no_column = failure "no such column"

abbrev not_given : List String → Bool
not_given [] = true
not_given (x ∷ xs) = false

abbrev execute : Change → Table → Result ℕ × Table
execute (create_if_missing cs) t =
    (ok 0, if not_given t.columns then record t { columns = cs } else t)
execute (upsert cs r) t =
    if all_among cs t.columns then (ok 1, record t { rows = r ∷ t.rows }) else (err no_column, t)
execute (set_status cs id status) t = (ok 0, t)

abbrev select_from : Query → Table → Result (List ServerRecord)
select_from (by_id cs id) t = if all_among cs t.columns then ok t.rows else err no_column
select_from (all cs) t = if all_among cs t.columns then ok t.rows else err no_column

abbrev list_database : Database Table
list_database = record { exec = execute; select = select_from }

not_all :
    (k : String) (cs table : List String)
    → among k cs ≡ true
    → among k table ≡ false
    → all_among cs table ≡ false
unfolding among all_among
not_all k [] table h m = cc
not_all k (c ∷ cs) table h m = ground (arith, not_all k cs table)

created_columns :
    (cs : List String) (d : Table)
    → d.columns ≡ []
    → (execute (create_if_missing cs) d).1.columns ≡ cs
created_columns cs d empty = rw empty refl

list_database-HasColumns : HasColumns list_database (λ t. t.columns)
list_database-HasColumns = record {
  created = λ cs d d' n empty made.
      ap (λ (r : Result ℕ × Table). r.1.columns) (sym made) ∙ created_columns cs d empty;
  unknown_in_upsert =
      λ cs r d lacks. (no_column, rw (not_all lacks.0 cs d.columns lacks.1 lacks.2) refl);
  unknown_by_id =
      λ cs id d lacks. (no_column, rw (not_all lacks.0 cs d.columns lacks.1 lacks.2) refl);
  unknown_in_all =
      λ cs d lacks. (no_column, rw (not_all lacks.0 cs d.columns lacks.1 lacks.2) refl);
}

abbrev no_table : Table
no_table = record { columns = []; rows = [] }

abbrev fresh : Table
fresh = record { columns = schema_columns; rows = [] }

created : create_schema list_database no_table ≡ (none, fresh)
unfolding create_schema
created = refl

fresh_database_refuses_example :
    ((e : GoError) × (save list_database server fresh ≡ (some e, fresh)))
    × ((e : GoError) × (find_by_id list_database "s1" fresh ≡ err e))
    × ((e : GoError) × (list_all list_database fresh ≡ err e))
fresh_database_refuses_example =
    fresh_database_refuses list_database (λ t. t.columns) list_database-HasColumns no_table fresh
      refl created server "s1"
