-- ===== src/Docker/Containers.antt =====
-- internal/adapters/out/runtime/docker/docker.go: finding, creating and listing containers.
use gameserver_daemon.Common.{
  ℕ, ◌-◌, ◌*◌, ◌%◌, ◌^◌, String, ◌<>◌, Bool, false, not, ◌&&◌, ◌||◌, ltb, eqb, Option, none, some,
  List, [], ◌∷◌, ◌==◌, if◌then◌else◌,
}
use gameserver_daemon.Common.Int.{ℤ, pos, negsuc, positive}
use gameserver_daemon.Common.Dict.{Dict, get}
use gameserver_daemon.Common.Strings.{to_lower}
use gameserver_daemon.Common.Paths.{join}
use gameserver_daemon.Errors.{
  GoError, sentinel, failure, wrapped, project_mismatch, container_not_found, Result, ok, err,
}
use gameserver_daemon.Labels.{
  WorkloadLabels, to_map, from_map, workload_id_key, server_id_key, managed_by_key,
  managed_by_value, namespace_id_key, project_id_key, environment_id_key, node_id_key,
}
use gameserver_daemon.Ports.{PortRequirement, ProjectScope, WorkloadSpec, ServerRecord}
use gameserver_daemon.FileApi.Disk.{FileSystem, Disk, change}
use gameserver_daemon.FileApi.Scope.{short_id}
use gameserver_daemon.Docker.Engine.{
  Container, NatPort, Mount, ContainerConfig, DockerClient, Adapter, Host,
}

-- `projectDataDir`
unfoldable pub project_data_dir : String → String → String
project_data_dir project workload = "kleff_proj_" <> (short_id project <> ("_" <> workload))

-- `containerName`
unfoldable pub container_name : WorkloadSpec → String
container_name spec =
    let scope = if spec.namespace_slug == "" then spec.project_slug else spec.namespace_slug in
    if spec.owner_username == "" || (scope == "" || spec.server_name == "")
    then spec.server_id
    else spec.owner_username <> "." <> scope <> "." <> spec.server_name

-- An int64 that has wrapped around.
unfoldable pub to_int64 : ℕ → ℤ
to_int64 n = let m = n % 2 ^ 64 in if ltb m (2 ^ 63) then pos m else negsuc (2 ^ 64 - 1 - m)

-- `millicores * 100` for a positive number, the quota of a period of 100000; 0 where none is asked for.
unfoldable pub cpu_quota_of : ℤ → ℤ
unfolding to_int64
cpu_quota_of (pos n) = to_int64 (n * 100)
cpu_quota_of (negsuc n) = pos 0

abbrev pub nat_port : PortRequirement → NatPort
nat_port p = record {
  port = p.target_port;
  proto = let proto = to_lower p.protocol in if proto == "" then "tcp" else proto;
}

abbrev same_int : ℤ → ℤ → Bool
same_int (pos m) (pos n) = eqb m n
same_int (negsuc m) (negsuc n) = eqb m n
same_int _ _ = false

unfoldable pub has_port : NatPort → List NatPort → Bool
has_port p [] = false
has_port p (q ∷ qs) = (same_int q.port p.port && q.proto == p.proto) || has_port p qs

-- The keys of `portBindings`.
unfoldable pub nat_ports : List PortRequirement → List NatPort
unfolding has_port
nat_ports [] = []
nat_ports (p ∷ ps) =
    let rest = nat_ports ps in if has_port (nat_port p) rest then rest else nat_port p ∷ rest

-- The environment, in the order in which the map is ranged over.
unfoldable pub env_of : Dict String → List String
env_of [] = []
env_of ((k, v) ∷ d) = (k <> "=" <> v) ∷ env_of d

abbrev pub labels_of : Adapter → WorkloadSpec → WorkloadLabels
labels_of adapter spec = record {
  owner_id = spec.owner_id;
  server_id = spec.server_id;
  blueprint_id = spec.blueprint_id;
  node_id = adapter.node_id;
  namespace_id = spec.namespace_id;
  project_id = spec.project_id;
  environment_id = spec.environment_id;
  project_slug = spec.project_slug;
}

abbrev pub wants_storage : WorkloadSpec → Bool
wants_storage spec =
    spec.runtime_hints.persistent_storage && not (spec.runtime_hints.storage_path == "")

abbrev pub mount_of : Adapter → WorkloadSpec → Mount
mount_of adapter spec = record {
  source = join adapter.storage_host_path (project_data_dir spec.project_id spec.server_id);
  target = spec.runtime_hints.storage_path;
}

-- The configurations that `createContainer` builds.
unfoldable pub container_config : Adapter → WorkloadSpec → ProjectScope → ContainerConfig
unfolding container_name nat_ports env_of cpu_quota_of project_data_dir
container_config adapter spec scope = record {
  name = container_name spec;
  image = spec.image;
  env = env_of spec.env_overrides;
  ports = nat_ports spec.port_requirements;
  labels = to_map (labels_of adapter spec);
  cmd = if spec.command == "" then [] else "sh" ∷ "-c" ∷ spec.command ∷ [];
  memory = if positive spec.memory_bytes then spec.memory_bytes else pos 0;
  cpu_quota = cpu_quota_of spec.cpu_millicores;
  cpu_period = if positive spec.cpu_millicores then pos 100000 else pos 0;
  mounts = if wants_storage spec then mount_of adapter spec ∷ [] else [];
  network = scope.network_name;
}

-- A container may be used for a project: one of its three labels names the project, or the caller
-- names none.
unfoldable pub may_use : String → Container → Bool
may_use project c =
    project == ""
    || (get c.labels namespace_id_key == project
        || (get c.labels project_id_key == project || get c.labels environment_id_key == project))

abbrev pub mismatch_text : String → String → Container → String
mismatch_text project workload c =
    ": workload "
    <> workload
    <> " belongs to ns/proj/env \""
    <> get c.labels namespace_id_key
    <> "\"/\""
    <> get c.labels project_id_key
    <> "\"/\""
    <> get c.labels environment_id_key
    <> "\", not \""
    <> project
    <> "\""

-- The last part of `findContainer`, on the list that has been found.
unfoldable pub pick_container : String → String → List Container → Result String
unfolding may_use
pick_container project workload [] =
    err (wrapped "" (sentinel container_not_found) (" for workload " <> workload))
pick_container project workload (c ∷ cs) =
    if may_use project c
    then ok c.id
    else err (wrapped "" (sentinel project_mismatch) (mismatch_text project workload c))

unfoldable pub image_in : String → List (List String) → Bool
image_in name [] = false
image_in name ([] ∷ images) = image_in name images
image_in name ((tag ∷ tags) ∷ images) = tag == name || image_in name (tags ∷ images)

abbrev list_error : GoError → GoError
list_error e = wrapped "failed to list containers: " e ""

-- The record of a listed container in `Discover`.
abbrev pub record_of_container : Container → WorkloadLabels → ServerRecord
record_of_container c wl = record {
  id = wl.server_id;
  name = wl.server_id;
  address = "";
  port = 0;
  status = if c.state == "running" then "Running" else "Stopped";
  node_id = wl.node_id;
  runtime = "";
  runtime_ref = c.id;
  project_id = if wl.namespace_id == "" then wl.project_id else wl.namespace_id;
  environment_id = wl.environment_id;
}

-- The loop of `Discover`.
unfoldable pub records_of : List Container → List ServerRecord
records_of [] = []
records_of (c ∷ cs) =
    let wl = from_map c.labels in
    let rest = records_of cs in if wl.server_id == "" then rest else record_of_container c wl ∷ rest

module _ {C : Type 0} (client : DockerClient C) where
  -- `imageExistsLocally`
  unfoldable pub image_exists_locally : String → C → Bool
  unfolding image_in
  image_exists_locally name c = elim (client.image_list c) [
    | err e ↦ false
    | ok images ↦ image_in name images
  ]

  abbrev pub by_key : String → String → C → Result (List Container)
  by_key key workload c =
      client.container_list ((key, workload) ∷ (managed_by_key, managed_by_value) ∷ []) c

  -- By the workload label, or else by the deprecated server label.
  unfoldable pub listed : String → C → Result (List Container)
  listed workload c = elim (by_key workload_id_key workload c) [
    | ok [] ↦ by_key server_id_key workload c
    | r ↦ r
  ]

  -- `findContainer`
  unfoldable pub find_container : String → String → C → Result String
  unfolding listed pick_container
  find_container project workload c =
      if workload == ""
      then err (failure "workload id is required")
      else (elim (listed workload c) [
        | err e ↦ err (list_error e)
        | ok cs ↦ pick_container project workload cs
      ])

  module _ (adapter : Adapter) where
    -- `Discover`
    unfoldable pub discover : C → Result (List ServerRecord)
    unfolding records_of
    discover c =
        elim (client.container_list
          ((managed_by_key, managed_by_value) ∷ (node_id_key, adapter.node_id) ∷ []) c) [
            | err e ↦ err (wrapped "discover containers: " e "")
            | ok cs ↦ ok (records_of cs)
          ]

    module _ {F : Type 0} (fs : FileSystem F) where
      abbrev pub created : Result String × C → Disk F → Result String × Host C F
      created (err e, c) d =
          (err (wrapped "failed to create container: " e ""), record { engine = c; disk = d })
      created (ok id, c) d = (ok id, record { engine = c; disk = d })

      abbrev pub create_on :
          WorkloadSpec → ProjectScope → C → Option GoError × Disk F → Result String × Host C F
      create_on spec scope c (some e, d) =
          (err (wrapped "create server storage directory: " e ""), record { engine = c; disk = d })
      create_on spec scope c (none, d) =
          created (client.container_create (container_config adapter spec scope) c) d

      abbrev local_dir : WorkloadSpec → String
      local_dir spec =
          join adapter.storage_local_path (project_data_dir spec.project_id spec.server_id)

      -- `createContainer`. The storage directory's mode is not part of the disk.
      unfoldable pub create_container :
          WorkloadSpec → ProjectScope → Host C F → Result String × Host C F
      unfolding container_config
      create_container spec scope h = create_on spec scope h.engine (
          if wants_storage spec
          then change (local_dir spec) fs.mkdir_all h.disk
          else (none, h.disk))
