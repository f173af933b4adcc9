-- ===== src/Migration/Command.antt =====
-- cmd/kleffctl/main.go: the command `migrate-to-projects`, from its arguments to its last container.
use gameserver_daemon.Common.{
  String, ◌<>◌, Bool, Option, none, some, List, [], ◌∷◌, ◌==◌, if◌then◌else◌,
}
use gameserver_daemon.Common.Dict.{Dict, insert, get}
use gameserver_daemon.Common.Strings.{trim_space}
use gameserver_daemon.Errors.{GoError, failure, wrapped, Result, ok, err}
use gameserver_daemon.Labels.{
  project_id_key, environment_id_key, project_slug_key, managed_by_key, managed_by_value, set_if,
}
use gameserver_daemon.Migration.{Summary, Engine, short_text, project_network, migrate_container}

-- The values of the flags.
pub record Flags : Type 0 where
  pub project_id : String
  pub project_slug : String
  pub execute : Bool

unfoldable pub network_labels : String → String → Dict String
unfolding set_if
network_labels project slug = set_if project_slug_key slug (
    insert environment_id_key project
      (insert project_id_key project (insert managed_by_key managed_by_value [])))

-- The containers without a project.
unfoldable pub targets : List Summary → List Summary
unfolding get
targets [] = []
targets (s ∷ ss) =
    let rest = targets ss in if get s.labels project_id_key == "" then s ∷ rest else rest

-- `clock` is the time's text in the name of a container that is set aside.
module _ {X C : Type 0} (engine : Engine X C) (clock : C → String) where
  -- `ensureProjectNetwork`
  unfoldable pub ensure_project_network : String → String → String → C → Option GoError × C
  unfolding network_labels
  ensure_project_network name project slug c =
      elim (engine.list_networks (project_id_key, project) c) [
        | err e ↦ (some e, c)
        | ok [] ↦ engine.create_network name (network_labels project slug) c
        | ok (n ∷ ns) ↦ (none, c)
      ]

  -- The loop over the targets, which ends at the first failure.
  abbrev pub after_migration :
      Summary → (C → Option GoError × C) → Option GoError × C → Option GoError × C
  after_migration t next (some e, c) =
      (some (wrapped ("migrate " <> short_text t.id <> " failed: ") e ""), c)
  after_migration t next (none, c) = next c

  unfoldable pub migrate_all : Flags → List Summary → C → Option GoError × C
  migrate_all flags [] c = (none, c)
  migrate_all flags (t ∷ ts) c = after_migration t (migrate_all flags ts) (
      migrate_container engine flags.project_id flags.project_slug
        (project_network flags.project_id) (clock c) t.id c)

  -- What follows the printed list.
  abbrev pub apply : Flags → List Summary → C → Option GoError × C
  apply flags ts c = if flags.execute then migrate_all flags ts c else (none, c)

  abbrev pub after_listing : Flags → Result (List Summary) → C → Option GoError × C
  after_listing flags (err e) c = (some (wrapped "list containers: " e ""), c)
  after_listing flags (ok ss) c = apply flags (targets ss) c

  abbrev pub after_network : Flags → Option GoError × C → Option GoError × C
  after_network flags (some e, c) = (some (wrapped "ensure project network: " e ""), c)
  after_network flags (none, c) = after_listing flags (engine.list_managed c) c

  abbrev pub network_ensured : Flags → C → Option GoError × C
  network_ensured flags c =
      if flags.execute
      then ensure_project_network (project_network flags.project_id) flags.project_id
          flags.project_slug c
      else (none, c)

  abbrev pub connected : Flags → C → Result C → Option GoError × C
  connected flags c (err e) = (some (wrapped "docker client: " e ""), c)
  connected flags c (ok d) = after_network flags (network_ensured flags d)

  -- `main` from the parsed flags on; `connect` makes the client.
  unfoldable pub migrate_to_projects : Result C → Flags → C → Option GoError × C
  unfolding ensure_project_network migrate_all targets
  migrate_to_projects connect flags c =
      if trim_space flags.project_id == ""
      then (some (failure "--project-id is required"), c)
      else connected flags c connect

  abbrev parsed : Result C → C → Result Flags → Option GoError × C
  parsed connect c (err e) = (some (wrapped "parse flags: " e ""), c)
  parsed connect c (ok flags) = migrate_to_projects connect flags c

  -- `main`, on the arguments after the program's name: an error is printed, and the exit code is 1.
  unfoldable pub main :
      (List String → Result Flags) → Result C → List String → C → Option GoError × C
  unfolding migrate_to_projects
  main parse connect [] c = (some (failure "usage"), c)
  main parse connect (command ∷ args) c =
      if command == "migrate-to-projects"
      then parsed connect c (parse args)
      else (some (failure "usage"), c)
