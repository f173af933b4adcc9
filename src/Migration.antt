-- ===== src/Migration.antt =====
-- cmd/kleffctl/main.go: moving the containers of a node into a project.
pub mod Command
pub mod Moved
pub mod Network
pub mod Finished
use gameserver_daemon.Common.{
  String, ◌<>◌, Bool, true, false, not, ◌&&◌, Option, none, some, List, [], ◌∷◌, ◌==◌, ltb,
  if◌then◌else◌,
}
use gameserver_daemon.Common.Dict.{Dict, insert, get}
use gameserver_daemon.Common.Strings.{trim_prefix, trim_space, remove_char, take_text, size}
use gameserver_daemon.Errors.{GoError, failure, wrapped, Result, ok, err}
use gameserver_daemon.Labels.{
  workload_id_key, server_id_key, project_id_key, environment_id_key, project_slug_key,
  managed_by_key, managed_by_value, set_if,
}

-- `shortID` and `projectNetworkName`
unfoldable pub short_text : String → String
unfolding take_text size
short_text s = if ltb 12 (size s) then take_text 12 s else s

unfoldable pub project_network : String → String
unfolding short_text remove_char
project_network id = "kleff_proj_" <> short_text (remove_char b'-' id)

pub record Summary : Type 0 where
  pub id : String
  pub labels : Dict String

-- The parts of a container's configuration and of its host configuration that the tool changes; the
-- rest, `X`, is passed on as it is.
pub record Settings (X : Type 0) : Type 0 where
  pub labels : Dict String
  pub network : String
  pub rest : X

-- `inspect.Config` may be missing, then so is `settings`.
pub record Inspected (X : Type 0) : Type 0 where
  pub id : String
  pub name : String
  pub running : Bool
  pub settings : Option (Settings X)

-- What the tool uses of Docker's client. `list_managed` lists the containers with the daemon's label.
pub record Engine (X C : Type 0) : Type 0 where
  pub list_networks : String × String → C → Result (List String)
  pub create_network : String → Dict String → C → Option GoError × C
  pub list_managed : C → Result (List Summary)
  pub inspect : String → C → Result (Inspected X)
  pub stop : String → C → Option GoError × C
  pub rename : String → String → C → Option GoError × C
  pub create : String → Settings X → C → Result String × C
  pub start : String → C → Option GoError × C
  pub remove : String → C → Option GoError × C

-- `if cfg.Labels[k] == "" && cfg.Labels[j] != "" { cfg.Labels[k] = cfg.Labels[j] }`
abbrev pub copy_if_missing : String → String → Dict String → Dict String
copy_if_missing k j m = if get m k == "" && not (get m j == "") then insert k (get m j) m else m

-- The labels of the new container.
unfoldable pub migrated_labels : String → String → Dict String → Dict String
unfolding get set_if
migrated_labels project slug m = copy_if_missing server_id_key workload_id_key (
    copy_if_missing workload_id_key server_id_key (
      set_if project_slug_key slug
        (insert project_id_key project (insert managed_by_key managed_by_value m))))

module _ {X C : Type 0} (engine : Engine X C) (project slug network : String) where
  abbrev pub new_settings : Settings X → Settings X
  new_settings s = record s { labels = migrated_labels project slug s.labels; network = network }

  -- What follows the start of the new container: the old one goes, and an error of that is only
  -- printed.
  abbrev pub after_start : Inspected X → Option GoError × C → Option GoError × C
  after_start old (some e, c) = (some (wrapped "start new container: " e ""), c)
  after_start old (none, c) = (none, (engine.remove old.id c).1)

  abbrev pub after_create : Inspected X → String → Result String × C → Option GoError × C
  after_create old name (err e, c) =
      (some (wrapped "create new container: " e ""), (engine.rename old.id name c).1)
  after_create old name (ok id, c) = after_start old (engine.start id c)

  abbrev pub after_rename :
      Inspected X → String → Settings X → Option GoError × C → Option GoError × C
  after_rename old name s (some e, c) = (some (wrapped "rename old container: " e ""), c)
  after_rename old name s (none, c) = after_create old name (engine.create name (new_settings s) c)

  abbrev pub after_stop :
      Inspected X → String → String → Settings X → Option GoError × C → Option GoError × C
  after_stop old name stamp s (some e, c) = (some (wrapped "stop old container: " e ""), c)
  after_stop old name stamp s (none, c) =
      after_rename old name s (engine.rename old.id (name <> "-legacy-" <> stamp) c)

  abbrev pub replaced : String → C → Inspected X → Option (Settings X) → Option GoError × C
  replaced stamp c old none = (some (failure "missing container config"), c)
  replaced stamp c old (some s) =
      after_stop old (trim_prefix old.name "/") stamp s
        (if old.running then engine.stop old.id c else (none, c))

  abbrev pub after_inspect : String → C → Result (Inspected X) → Option GoError × C
  after_inspect stamp c (err e) = (some (wrapped "inspect: " e ""), c)
  after_inspect stamp c (ok old) = replaced stamp c old old.settings

  -- `migrateContainer`, at a time.
  unfoldable pub migrate_container : String → String → C → Option GoError × C
  unfolding migrated_labels
  migrate_container stamp id c = after_inspect stamp c (engine.inspect id c)
