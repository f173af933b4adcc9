-- ===== src/Kubernetes/Cluster.antt =====
-- The cluster below internal/adapters/out/runtime/kubernetes/kubernetes.go: what the adapter uses of
-- the two Kubernetes clients, over an unknown state `C`. Every call names a namespace first. Queries
-- leave the state alone.
use gameserver_daemon.Common.{String, Bool, true, ◌≡◌, Option, none, List}
use gameserver_daemon.Common.Int.{ℤ}
use gameserver_daemon.Common.Dict.{Dict}
use gameserver_daemon.Errors.{GoError, Result}

-- `resource.NewQuantity` of bytes, and `resource.NewMilliQuantity` of thousandths of a processor.
pub data Quantity : Type 0 where
  bytes thousandths : ℤ → Quantity

pub record Resources : Type 0 where
  pub memory : Quantity
  pub cpu : Quantity

pub record Requirements : Type 0 where
  pub requests : Resources
  pub limits : Resources

pub data Protocol : Type 0 where
  tcp udp : Protocol

-- `corev1.ServicePort`
pub record ServicePort : Type 0 where
  pub name : String
  pub port : ℤ
  pub protocol : Protocol

-- `corev1.Service`, as it is created. `selector` are the labels of the pods that it routes to.
pub record Service : Type 0 where
  pub name : String
  pub labels : Dict String
  pub selector : Dict String
  pub ports : List ServicePort

-- `appsv1.StatefulSet` and `appsv1.Deployment`, which the adapter fills in alike.
pub record Workload : Type 0 where
  pub name : String
  pub labels : Dict String
  pub replicas : ℤ
  pub selector : Dict String
  pub pod_labels : Dict String
  pub container : String
  pub image : String
  pub env : Dict String
  pub resources : Requirements

-- One entry of `spec.ports` of an Agones game server.
pub record AgonesPort : Type 0 where
  pub name : String
  pub policy : String
  pub container_port : ℤ
  pub protocol : String

-- The unstructured object of an Agones game server, by the parts that depend on the specification.
pub record GameServer : Type 0 where
  pub name : String
  pub namespace : String
  pub labels : Dict String
  pub ports : List AgonesPort
  pub image : String
  pub env : Dict String
  pub resources : Requirements

-- A live game server, by the parts that are read. A port that is not an object is `none`, else the text
-- of its field.
pub record LiveGameServer : Type 0 where
  pub labels : Dict String
  pub state : String
  pub address : String
  pub ports : List (Option String)

pub record LiveService : Type 0 where
  pub cluster_ip : String
  pub ports : List ℤ

-- `autoscalingv1.Scale`
pub record Scale : Type 0 where
  pub version : String
  pub replicas : ℤ

-- `StatefulSets(namespace)` and `Deployments(namespace)`. `get` answers the labels.
pub record Workloads (C : Type 0) : Type 0 where
  pub get : String → String → C → Result (Dict String)
  pub create : String → Workload → C → Option GoError × C
  pub delete : String → String → C → Option GoError × C
  pub get_scale : String → String → C → Result Scale
  pub update_scale : String → String → Scale → C → Option GoError × C

-- `poll` is `wait.PollUntilContextTimeout` with the adapter's five seconds and five minutes: time
-- passes, and its condition looks at the cluster now and then. The condition never answers an error.
pub record Client (C : Type 0) : Type 0 where
  pub get_game_server : String → String → C → Result LiveGameServer
  pub create_game_server : String → GameServer → C → Option GoError × C
  pub delete_game_server : String → String → C → Option GoError × C
  pub stateful_sets : Workloads C
  pub deployments : Workloads C
  pub get_service : String → String → C → Result LiveService
  pub create_service : String → Service → C → Option GoError × C
  pub poll : (C → Bool) → C → Option GoError × C

-- What the documentation of the poll says: it answers no error only when its condition has held.
abbrev pub PollsFaithfully : {C : Type 0} → Client C → Type 0
PollsFaithfully {C} client =
    (condition : C → Bool) (c c' : C) → client.poll condition c ≡ (none, c') → condition c' ≡ true

-- `Adapter`, without its clients.
pub record Adapter : Type 0 where
  pub namespace : String
  pub node_id : String
