-- ===== src/Docker/Engine.antt =====
-- The engine below internal/adapters/out/runtime/docker/docker.go: what the adapter uses of Docker's
-- client, over an unknown state `C`. Queries leave the state alone.
use gameserver_daemon.Common.{ℕ, String, Bool, ◌≡◌, Option, some, List, All}
use gameserver_daemon.Common.Int.{ℤ}
use gameserver_daemon.Common.Dict.{Dict, lookup}
use gameserver_daemon.Errors.{GoError, Result, ok}
use gameserver_daemon.FileApi.Disk.{Disk}

pub record Network : Type 0 where
  pub id : String
  pub name : String

pub record Container : Type 0 where
  pub id : String
  pub state : String
  pub labels : Dict String

-- `nat.Port`, the text "25565/tcp", by its two parts.
pub record NatPort : Type 0 where
  pub port : ℤ
  pub proto : String

pub record Mount : Type 0 where
  pub source : String
  pub target : String

-- The configurations that `ContainerCreate` takes. Each port is bound to a random port of the host.
pub record ContainerConfig : Type 0 where
  pub name : String
  pub image : String
  pub env : List String
  pub ports : List NatPort
  pub labels : Dict String
  pub cmd : List String
  pub memory : ℤ
  pub cpu_quota : ℤ
  pub cpu_period : ℤ
  pub mounts : List Mount
  pub network : String

-- `bindings` has for a port's text the host ports that it is bound to.
pub record Inspection : Type 0 where
  pub status : String
  pub running : Bool
  pub bindings : Dict (List String)

-- A label filter is a key and a value. `image_pull` answers an error, or the end of the stream that is
-- then read. `network_inspect` answers how many containers the network has.
pub record DockerClient (C : Type 0) : Type 0 where
  pub network_list : String × String → C → Result (List Network)
  pub network_create : String → Dict String → C → Option GoError × C
  pub network_inspect : String → C → Result ℕ
  pub network_remove : String → C → Option GoError × C
  pub image_pull : String → C → Result (Option GoError) × C
  pub image_list : C → Result (List (List String))
  pub container_list : List (String × String) → C → Result (List Container)
  pub container_inspect : String → C → Result Inspection
  pub container_create : ContainerConfig → C → Result String × C
  pub container_start : String → C → Option GoError × C
  pub container_stop : String → C → Option GoError × C
  pub container_remove : String → C → Option GoError × C

-- What the documentation of the engine's list call says of its label filters: every container that it
-- lists has the labels.
abbrev pub Carries : List (String × String) → Container → Type 0
Carries filters c = All (λ f. lookup f.0 c.labels ≡ some f.1) filters

abbrev pub FiltersHold : {C : Type 0} → DockerClient C → Type 0
FiltersHold {C} client =
    (filters : List (String × String)) (c : C) (cs : List Container)
    → client.container_list filters c ≡ ok cs
    → All (Carries filters) cs

-- `Adapter`
pub record Adapter : Type 0 where
  pub node_id : String
  pub storage_local_path : String
  pub storage_host_path : String
  pub node_network : String

-- The engine and the disk that the adapter works on.
pub record Host (C F : Type 0) : Type 0 where
  pub engine : C
  pub disk : Disk F
