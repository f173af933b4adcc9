-- ===== src/Docker/Backend.antt =====
-- internal/adapters/out/runtime/docker/docker.go: the adapter as a runtime backend of the workers.
use gameserver_daemon.Common.{String}
use gameserver_daemon.Ports.{WorkloadHealth}
use gameserver_daemon.Ports.Interfaces.{RuntimeAdapter}
use gameserver_daemon.FileApi.Disk.{FileSystem, Disk}
use gameserver_daemon.Docker.Engine.{DockerClient, Adapter, Host}
use gameserver_daemon.Docker.Networks
use gameserver_daemon.Docker.Containers
use gameserver_daemon.Docker.Operations
use gameserver_daemon.Docker.Files.{Download, Removal}
use gameserver_daemon.Docker.Files

module _ {C F : Type 0} (client : DockerClient C) (fs : FileSystem F) (adapter : Adapter)
    (collect : String → C → WorkloadHealth → WorkloadHealth) (fetch : String → Download)
    (remove : String → F → Removal × F) where
  abbrev with_engine : {A : Type 0} → Host C F → A × C → A × Host C F
  with_engine h (a, c) = (a, record h { engine = c })

  abbrev with_disk : {A : Type 0} → Host C F → A × Disk F → A × Host C F
  with_disk h (a, d) = (a, record h { disk = d })

  abbrev pub docker_adapter : RuntimeAdapter (Host C F)
  docker_adapter = record {
    ensure_project_scope = λ project slug h.
        with_engine h (Networks.ensure_project_scope client adapter project slug h.engine);
    teardown_project_scope =
        λ project h. with_engine h (Networks.teardown_project_scope client project h.engine);
    deploy = Operations.deploy client fs adapter;
    start = Operations.start client fs adapter;
    stop = Operations.stop client fs adapter;
    remove = Operations.remove client fs adapter;
    status = Operations.status client fs adapter collect;
    endpoint = Operations.endpoint client fs adapter;
    inject_file = λ project workload storage content url file h. with_disk h (
        Files.inject_file fs fetch remove adapter project workload storage content url file h.disk);
    remove_file = λ project workload storage content file h.
        with_disk h
          (Files.remove_file fs fetch remove adapter project workload storage content file h.disk);
    discover = λ h. (Containers.discover client adapter h.engine, h);
  }
