-- ===== src/Kubernetes/Objects.antt =====
-- internal/adapters/out/runtime/kubernetes/kubernetes.go: the objects that the adapter creates.
use gameserver_daemon.Common.{ℕ, ◌+◌, ◌*◌, String, ◌<>◌, List, [], ◌∷◌, ◌==◌, if◌then◌else◌}
use gameserver_daemon.Common.Int.{ℤ, pos, positive}
use gameserver_daemon.Common.Dict.{Dict, insert}
use gameserver_daemon.Common.Strings.{to_lower, to_upper}
use gameserver_daemon.Common.Numerals.{decimal, to_int32}
use gameserver_daemon.Labels.{
  WorkloadLabels, set_if, to_map, project_id_key, environment_id_key, project_slug_key,
}
use gameserver_daemon.Ports.{PortRequirement, WorkloadSpec}
use gameserver_daemon.Kubernetes.Cluster.{
  bytes, thousandths, Resources, Requirements, tcp, udp, ServicePort, Service, Workload, AgonesPort,
  GameServer, Adapter,
}

-- `labelStrategy`
abbrev pub strategy_key : String
strategy_key = "kleff.io/runtime-strategy"

-- `buildResourceRequirements`, before it prints the quantities: 4 GiB and two processors where the specification asks for none.
unfoldable pub build_resource_requirements : ℤ → ℤ → Requirements
unfolding positive
build_resource_requirements memory cpu =
    let resources : Resources = record {
      memory = if positive memory then bytes memory else bytes (pos (4 * 1024 * 1024 * 1024));
      cpu = if positive cpu then thousandths cpu else thousandths (pos 2000);
    } in
    record { requests = resources; limits = resources }

-- `fmt.Sprintf("port-%d", i)`
unfoldable pub port_name : ℕ → String
unfolding decimal
port_name i = "port-" <> decimal i

-- The loop of `buildServicePorts`, from the port with number `i` on.
unfoldable pub service_ports_from : ℕ → List PortRequirement → List ServicePort
unfolding port_name to_int32 to_lower
service_ports_from i [] = []
service_ports_from i (p ∷ ps) =
    record {
      name = port_name i;
      port = to_int32 p.target_port;
      protocol = if to_lower p.protocol == "udp" then udp else tcp;
    }
    ∷ service_ports_from (i + 1) ps

unfoldable pub build_service_ports : List PortRequirement → List ServicePort
unfolding service_ports_from
build_service_ports ps = service_ports_from 0 ps

-- The loop of `deployAgones` over the ports.
unfoldable pub agones_ports_from : ℕ → List PortRequirement → List AgonesPort
unfolding port_name to_upper
agones_ports_from i [] = []
agones_ports_from i (p ∷ ps) =
    record {
      name = port_name i;
      policy = "Dynamic";
      container_port = p.target_port;
      protocol = to_upper p.protocol;
    }
    ∷ agones_ports_from (i + 1) ps

-- `serverLabels`
abbrev pub server_labels : Adapter → WorkloadSpec → WorkloadLabels
server_labels adapter spec = record {
  owner_id = spec.owner_id;
  server_id = spec.server_id;
  blueprint_id = spec.blueprint_id;
  node_id = adapter.node_id;
  namespace_id = "";
  project_id = spec.project_id;
  environment_id = "";
  project_slug = spec.project_slug;
}

-- `selectorLabels` of the strategies "statefulset" and "deployment".
unfoldable pub selector_labels : String → WorkloadSpec → Dict String
unfolding set_if
selector_labels strategy spec = set_if project_slug_key spec.project_slug (
    insert environment_id_key spec.environment_id (
      insert project_id_key spec.project_id
        (insert strategy_key strategy (insert "app" spec.server_id []))))

-- `buildTypedResourceRequirements`
abbrev build_typed_resource_requirements : ℤ → ℤ → Requirements
build_typed_resource_requirements = build_resource_requirements

-- What `buildStatefulSet` and `buildDeployment` share.
unfoldable pub build_workload : WorkloadSpec → ℤ → Dict String → Workload
unfolding build_resource_requirements
build_workload spec replicas labels = record {
  name = spec.server_id;
  labels = labels;
  replicas = replicas;
  selector = labels;
  pod_labels = labels;
  container = "app";
  image = spec.image;
  env = spec.env_overrides;
  resources = build_typed_resource_requirements spec.memory_bytes spec.cpu_millicores;
}

abbrev pub build_stateful_set : WorkloadSpec → ℤ → Dict String → Workload
build_stateful_set = build_workload

abbrev pub build_deployment : WorkloadSpec → ℤ → Dict String → Workload
build_deployment = build_workload

unfoldable pub build_service : WorkloadSpec → Dict String → Service
unfolding build_service_ports
build_service spec labels = record {
  name = spec.server_id;
  labels = labels;
  selector = labels;
  ports = build_service_ports spec.port_requirements;
}

-- The object that `deployAgones` creates.
unfoldable pub build_game_server : Adapter → WorkloadSpec → GameServer
unfolding to_map agones_ports_from build_resource_requirements
build_game_server adapter spec = record {
  name = spec.server_id;
  namespace = adapter.namespace;
  labels = insert strategy_key "agones" (to_map (server_labels adapter spec));
  ports = agones_ports_from 0 spec.port_requirements;
  image = spec.image;
  env = spec.env_overrides;
  resources = build_resource_requirements spec.memory_bytes spec.cpu_millicores;
}
