-- ===== src/Labels.antt =====
-- pkg/labels/labels.go: the labels that identify a workload on its container.
pub mod RoundTrip
use gameserver_daemon.Common.{String, [], if◌then◌else◌, ◌==◌}
use gameserver_daemon.Common.Dict.{Dict, insert, get}

abbrev pub owner_id_key : String
owner_id_key = "kleff.io/owner_id"

abbrev pub workload_id_key : String
workload_id_key = "kleff.io/workload_id"

abbrev pub server_id_key : String
server_id_key = "kleff.io/server_id"

abbrev pub blueprint_id_key : String
blueprint_id_key = "kleff.io/blueprint_id"

abbrev pub node_id_key : String
node_id_key = "kleff.io/node_id"

abbrev pub namespace_id_key : String
namespace_id_key = "kleff.io/namespace_id"

abbrev pub project_id_key : String
project_id_key = "kleff.io/project_id"

abbrev pub environment_id_key : String
environment_id_key = "kleff.io/environment_id"

abbrev pub project_slug_key : String
project_slug_key = "kleff.io/project_slug"

abbrev pub managed_by_key : String
managed_by_key = "kleff.io/managed_by"

abbrev pub managed_by_value : String
managed_by_value = "kleff-daemon"

abbrev pub compose_project_key : String
compose_project_key = "com.docker.compose.project"

abbrev pub compose_project_value : String
compose_project_value = "kleff-local"

pub record WorkloadLabels : Type 0 where
  pub owner_id : String
  pub server_id : String
  pub blueprint_id : String
  pub node_id : String
  pub namespace_id : String
  pub project_id : String
  pub environment_id : String
  pub project_slug : String

-- `WorkloadLabels{}`
abbrev pub no_labels : WorkloadLabels
no_labels = record {
  owner_id = "";
  server_id = "";
  blueprint_id = "";
  node_id = "";
  namespace_id = "";
  project_id = "";
  environment_id = "";
  project_slug = "";
}

-- `if v != "" { m[k] = v }`
unfoldable pub set_if : String → String → Dict String → Dict String
set_if k v m = if v == "" then m else insert k v m

unfoldable pub to_map : WorkloadLabels → Dict String
to_map l =
    let m = insert compose_project_key compose_project_value (
      insert managed_by_key managed_by_value (
        insert node_id_key l.node_id (
          insert blueprint_id_key l.blueprint_id (
            insert server_id_key l.server_id
              (insert workload_id_key l.server_id (insert owner_id_key l.owner_id [])))))) in
    let m1 = set_if namespace_id_key l.namespace_id m in
    let m2 = set_if project_id_key l.project_id m1 in
    let m3 = set_if environment_id_key l.environment_id m2 in
    set_if project_slug_key l.project_slug m3

unfoldable pub effective_namespace_id : WorkloadLabels → String
effective_namespace_id l = if l.namespace_id == "" then l.project_id else l.namespace_id

unfoldable pub from_map : Dict String → WorkloadLabels
from_map m =
    if get m managed_by_key == managed_by_value
    then (record {
      owner_id = get m owner_id_key;
      server_id =
          if get m workload_id_key == "" then get m server_id_key else get m workload_id_key;
      blueprint_id = get m blueprint_id_key;
      node_id = get m node_id_key;
      namespace_id = get m namespace_id_key;
      project_id = get m project_id_key;
      environment_id = get m environment_id_key;
      project_slug = get m project_slug_key;
    })
    else no_labels
