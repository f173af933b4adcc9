-- ===== src/Docker/Setup.antt =====
-- internal/adapters/out/runtime/docker/docker.go: making the adapter, reaching the engine, and opening
-- a container's output.
use gameserver_daemon.Common.{String, Bool, Option, none, some, List, [], ◌∷◌, ◌==◌, if◌then◌else◌}
use gameserver_daemon.Errors.{GoError, wrapped, Result, ok, err}
use gameserver_daemon.Docker.Engine.{DockerClient, Adapter, Mount}
use gameserver_daemon.Docker.Containers.{find_container}

-- The client of the environment, the name of the host, and what is beside of the engine: `mounts` are
-- those of a container, `start_time` the time at which one was last started, where inspecting it gives
-- a time that reads and is not zero, as RFC 3339 has it in UTC.
pub record Machine (C L : Type 0) : Type 0 where
  pub connect : Result C
  pub hostname : Result String
  pub mounts : String → C → Result (List Mount)
  pub ping : C → Option GoError
  pub start_time : String → C → Option String
  pub container_logs : String → Bool → Option String → C → Result L

-- The loop over the mounts of the daemon's own container: the source of the first one at this place.
unfoldable pub source_of : String → List Mount → String
source_of target [] = target
source_of target (m ∷ ms) = if m.target == target then m.source else source_of target ms

module _ {C L : Type 0} (machine : Machine C L) where
  abbrev own_mounts : String → Result (List Mount) → String
  own_mounts storage (err e) = storage
  own_mounts storage (ok ms) = source_of storage ms

  abbrev host_path_on : String → C → Result String → String
  host_path_on storage c (err e) = storage
  host_path_on storage c (ok host) = own_mounts storage (machine.mounts host c)

  unfoldable pub storage_host_path : String → C → String
  unfolding source_of
  storage_host_path storage c = host_path_on storage c machine.hostname

  abbrev pub connected : String → String → String → Result C → Result (C × Adapter)
  connected node storage network (err e) = err (wrapped "failed to create docker client: " e "")
  connected node storage network (ok c) = ok (
    c,
    record {
      node_id = node;
      storage_local_path = storage;
      storage_host_path = storage_host_path storage c;
      node_network = network;
    },
  )

  -- `New`
  unfoldable pub new : String → String → String → Result (C × Adapter)
  unfolding storage_host_path
  new node storage network = connected node storage network machine.connect

  abbrev unreachable : Option GoError → Option GoError
  unreachable none = none
  unreachable (some e) = some (wrapped "docker daemon unreachable: " e "")

  -- `Ping`
  unfoldable pub ping : C → Option GoError
  ping c = unreachable (machine.ping c)

  abbrev opened_logs : Result L → Result L
  opened_logs (ok l) = ok l
  opened_logs (err e) = err (wrapped "failed to get logs: " e "")

  -- `Logs`, which follows the output from the container's last start on, or reads all of it.
  unfoldable pub logs : DockerClient C → String → String → Bool → C → Result L
  logs client project workload follow c = elim (find_container client project workload c) [
    | err e ↦ err e
    | ok id ↦
        opened_logs
          (machine.container_logs id follow (if follow then machine.start_time id c else none) c)
  ]
