-- ===== src/Daemon/Main.antt =====
-- cmd/kleffd/main.go: the parts of the daemon, put together in their order.
use gameserver_daemon.Common.{String, Option, none, some, List, []}
use gameserver_daemon.Errors.{GoError, wrapped, Result, ok, err}
use gameserver_daemon.Ports.{ServerRecord}
use gameserver_daemon.Repository.Memory.{Servers, memory_repository}
use gameserver_daemon.Config.{Config}
use gameserver_daemon.Platform.{Client, Http, PlatformJson, new_client, register_node}
use gameserver_daemon.Daemon.Start.{
  Runtime, Probes, detect_runtime, QueueChoice, choose_queue, adopt,
}

-- What `main` calls: the tests for the runtime, the database, Redis, and the runtime's `Discover`.
pub record Surroundings (K D B Q : Type 0) : Type 0 where
  pub probes : Probes K D
  pub init_db : String → Result B
  pub new_redis : Config → Result Q
  pub discover : Runtime K D → Result (List ServerRecord)

-- What the loops of the daemon are started with.
pub record Started (K D Q : Type 0) : Type 0 where
  pub config : Config
  pub runtime : Runtime K D
  pub queue : QueueChoice Q
  pub servers : Servers
  pub platform : Client

module _ {K D B Q W : Type 0} (around : Surroundings K D B Q) (http : Http W)
    (json : PlatformJson) where
  abbrev pub new_platform : Config → Client
  new_platform c = new_client c.platform_url c.shared_secret c.node_id c.file_api_url

  abbrev pub registered :
      Config
      → Runtime K D
      → QueueChoice Q
      → Option GoError × Client × W
      → Result (Started K D Q) × W
  registered c runtime queue (some e, client, w) = (err e, w)
  registered c runtime queue (none, client, w) = (
    ok (record {
      config = c;
      runtime = runtime;
      queue = queue;
      servers = adopt memory_repository (around.discover runtime) [];
      platform = client;
    }),
    w,
  )

  abbrev pub with_queue :
      Config → Runtime K D → Result (QueueChoice Q) → W → Result (Started K D Q) × W
  with_queue c runtime (err e) w = (err e, w)
  with_queue c runtime (ok queue) w =
      registered c runtime queue (register_node http json (new_platform c) w)

  abbrev pub with_database : Config → Runtime K D → Result B → W → Result (Started K D Q) × W
  with_database c runtime (err e) w = (err e, w)
  with_database c runtime (ok b) w = with_queue c runtime (choose_queue around.new_redis c) w

  abbrev pub with_runtime : Config → Result (Runtime K D) → W → Result (Started K D Q) × W
  with_runtime c (err e) w = (err e, w)
  with_runtime c (ok runtime) w = with_database c runtime (around.init_db c.database_path) w

  -- `main`, up to its loops. An error is an exit with status 1.
  unfoldable pub start_up : Result Config → W → Result (Started K D Q) × W
  unfolding detect_runtime choose_queue adopt register_node new_client
  start_up (err e) w = (err (wrapped "Failed to start daemon: " e ""), w)
  start_up (ok c) w = with_runtime c (detect_runtime around.probes c) w
