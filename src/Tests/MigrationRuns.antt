-- ===== src/Tests/MigrationRuns.antt =====
-- Runs of the migration on an engine that keeps its containers in a list.
use gameserver_daemon.Common.{
  ℕ, String, ◌<>◌, true, false, ◌≡◌, refl, Option, none, some, List, [], ◌∷◌, ◌==◌, if◌then◌else◌,
  string_dec,
}
use gameserver_daemon.Common.Dict.{Dict, insert, get}
use gameserver_daemon.Common.Strings.{trim_prefix, trim_space, remove_char, take_text, size}
use gameserver_daemon.Errors.{GoError, failure, Result, ok, err}
use gameserver_daemon.Labels.{workload_id_key, managed_by_key, managed_by_value, set_if}
use gameserver_daemon.Migration.{
  Summary, Settings, Inspected, Engine, migrate_container, migrated_labels, project_network,
  short_text,
}
use gameserver_daemon.Migration.Command.{
  Flags, targets, network_labels, ensure_project_network, migrate_all, migrate_to_projects,
}
use gameserver_daemon.Migration.Finished.{IsFinished, migrate_to_projects-IsFinished}

abbrev labels_in : Option (Settings ℕ) → Dict String
labels_in none = []
labels_in (some s) = s.labels

unfoldable summaries : List (Inspected ℕ) → List Summary
summaries [] = []
summaries (i ∷ is) = record { id = i.id; labels = labels_in i.settings } ∷ summaries is

unfoldable with_id : String → List (Inspected ℕ) → Result (Inspected ℕ)
with_id id [] = err (failure "no such container")
with_id id (i ∷ is) = if i.id == id then ok i else with_id id is

unfoldable without : String → List (Inspected ℕ) → List (Inspected ℕ)
without id [] = []
without id (i ∷ is) = let rest = without id is in if i.id == id then rest else i ∷ rest

unfoldable renamed : String → String → List (Inspected ℕ) → List (Inspected ℕ)
renamed id name [] = []
renamed id name (i ∷ is) =
    let rest = renamed id name is in
    if i.id == id then record i { name = "/" <> name } ∷ rest else i ∷ rest

abbrev list_engine : Engine ℕ (List (Inspected ℕ))
list_engine = record {
  list_networks = λ label is. ok [];
  create_network = λ name labels is. (none, is);
  list_managed = λ is. ok (summaries is);
  inspect = with_id;
  stop = λ id is. (none, is);
  rename = λ id name is. (none, renamed id name is);
  create = λ name s is. (
    ok "new",
    record { id = "new"; name = "/" <> name; running = false; settings = some s } ∷ is,
  );
  start = λ id is. (none, is);
  remove = λ id is. (none, without id is);
}

abbrev old_settings : Settings ℕ
old_settings = record {
  labels = (managed_by_key, managed_by_value) ∷ (workload_id_key, "w1") ∷ [];
  network = "bridge";
  rest = 7;
}

abbrev world : List (Inspected ℕ)
world = record { id = "c1"; name = "/game"; running = true; settings = some old_settings } ∷ []

abbrev flags : Flags
flags = record { project_id = "my-project"; project_slug = "mine"; execute = true }

abbrev noon : List (Inspected ℕ) → String
noon is = "20260101120000"

abbrev after_run : Option GoError × List (Inspected ℕ)
after_run = migrate_to_projects list_engine noon (ok world) flags []

-- A second run finds nothing to do.
nothing_left_over : targets (summaries after_run.1) ≡ []
unfolding migrate_to_projects migrate_all migrate_container migrated_labels targets summaries
    with_id without renamed string_dec get set_if trim_prefix trim_space project_network short_text
    remove_char take_text size ensure_project_network network_labels insert
nothing_left_over = refl

migrate_to_projects-IsFinished_example : IsFinished list_engine noon flags world after_run.1
unfolding migrate_to_projects migrate_all migrate_container migrated_labels targets summaries
    with_id without renamed string_dec get set_if trim_prefix trim_space project_network short_text
    remove_char take_text size ensure_project_network network_labels
migrate_to_projects-IsFinished_example =
    migrate_to_projects-IsFinished list_engine noon flags (ok world) world [] refl refl refl
