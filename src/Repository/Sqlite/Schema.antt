-- ===== src/Repository/Sqlite/Schema.antt =====
-- internal/adapters/out/db/sqlite.go: whether the table has the columns that the repository names.
use gameserver_daemon.Common.{
  ℕ, String, Bool, true, false, ◌||◌, ◌==◌, string_dec, ◌≡◌, refl, sym, ap, subst, ◌∙◌, Option,
  none, some, List, [], ◌∷◌,
}
use gameserver_daemon.Errors.{GoError, Result, ok, err}
use gameserver_daemon.Ports.{ServerRecord}
use gameserver_daemon.Repository.Sqlite.{
  create_if_missing, upsert, by_id, all, Database, record_columns, schema_columns, save, find_by_id,
  list_all, create_schema, only_error, first_row,
}

unfoldable pub among : String → List String → Bool
among k [] = false
among k (x ∷ xs) = x == k || among k xs

-- A column that a statement names and a table does not have.
abbrev pub LacksOneOf : List String → List String → Type 0
LacksOneOf table named = (k : String) × (among k named ≡ true) × (among k table ≡ false)

-- What SQL says of columns: a table that has been created has the given ones, and a statement that
-- names another one is an error and changes nothing. `columns` are those of the table, none without it.
pub record HasColumns {D : Type 0} (db : Database D) (columns : D → List String) : Type 0 where
  pub created :
      (cs : List String) (d d' : D) (n : ℕ)
      → columns d ≡ []
      → db.exec (create_if_missing cs) d ≡ (ok n, d')
      → columns d' ≡ cs
  pub unknown_in_upsert :
      (cs : List String) (r : ServerRecord) (d : D)
      → LacksOneOf (columns d) cs
      → (e : GoError) × (db.exec (upsert cs r) d ≡ (err e, d))
  pub unknown_by_id :
      (cs : List String) (id : String) (d : D)
      → LacksOneOf (columns d) cs
      → (e : GoError) × (db.select (by_id cs id) d ≡ err e)
  pub unknown_in_all :
      (cs : List String) (d : D)
      → LacksOneOf (columns d) cs
      → (e : GoError) × (db.select (all cs) d ≡ err e)

schema_lacks : LacksOneOf schema_columns record_columns
unfolding among string_dec
schema_lacks = ("project_id", refl, refl)

schema_lacks_too : LacksOneOf schema_columns ("updated_at" ∷ record_columns)
unfolding among string_dec
schema_lacks_too = ("project_id", refl, refl)

module _ {D : Type 0} (db : Database D) (columns : D → List String)
    (sql : HasColumns db columns) where
  created_columns :
      (d d' : D) (r : Result ℕ × D)
      → columns d ≡ []
      → db.exec (create_if_missing schema_columns) d ≡ r
      → only_error r ≡ (none, d')
      → columns d' ≡ schema_columns
  created_columns d d' (ok n, d'') empty ran h =
      sql.created schema_columns d d' n empty
        (ran ∙ ap (λ x. (ok n, x)) (ap (λ (p : Option GoError × D). p.1) h))
  created_columns d d' (err e, d'') empty ran h = cc

  -- In a database whose table the daemon has created, nothing can be saved, found or listed: the table
  -- has no columns for the project and the environment, which all three statements name. Each of them
  -- answers an error, and saving leaves the database as it is. A statement that names a column that a
  -- table does not have is an error in SQL.
  pub fresh_database_refuses :
      (d d' : D)
      → columns d ≡ []
      → create_schema db d ≡ (none, d')
      → (r : ServerRecord) (id : String)
      → ((e : GoError) × (save db r d' ≡ (some e, d')))
        × ((e : GoError) × (find_by_id db id d' ≡ err e))
        × ((e : GoError) × (list_all db d' ≡ err e))
  unfolding create_schema save find_by_id list_all
  fresh_database_refuses d d' empty made r id =
      let has =
        created_columns d d' (db.exec (create_if_missing schema_columns) d) empty refl made in
      let (e1, saving) =
        sql.unknown_in_upsert ("updated_at" ∷ record_columns) r d' (
          subst (λ cs. LacksOneOf cs ("updated_at" ∷ record_columns)) (sym has) schema_lacks_too) in
      let (e2, finding) =
        sql.unknown_by_id record_columns id d'
          (subst (λ cs. LacksOneOf cs record_columns) (sym has) schema_lacks) in
      let (e3, listing) =
        sql.unknown_in_all record_columns d'
          (subst (λ cs. LacksOneOf cs record_columns) (sym has) schema_lacks) in
      ((e1, ap only_error saving), (e2, ap (first_row db id) finding), (e3, listing))
