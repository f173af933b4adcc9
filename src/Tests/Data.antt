-- ===== src/Tests/Data.antt =====
-- A small daemon: a backend that counts its calls, a store, jobs, a disk.
use gameserver_daemon.Common.{ℕ, ◌+◌, true, false, none, some, [], ◌∷◌}
use gameserver_daemon.Common.Int.{pos}
use gameserver_daemon.Errors.{failure, ok, err}
use gameserver_daemon.Jobs.{Job, JobStatus, server_start}
use gameserver_daemon.Labels.{no_labels}
use gameserver_daemon.Ports.{
  RuntimeHints, WorkloadSpec, ModInstallSpec, RunningServer, WorkloadHealth, ServerRecord,
}
use gameserver_daemon.Ports.Interfaces.{RuntimeAdapter, World}
use gameserver_daemon.Repository.Memory.{Servers}
use gameserver_daemon.FileApi.Disk.{FileInfo, found, FileSystem, Disk}
use gameserver_daemon.FileApi.Handlers.{Request}

abbrev pub first_job : Job
first_job = record {
  job_id = "j1";
  job_type = server_start;
  resource_id = "s1";
  payload = "{}";
  status = JobStatus.pending;
  attempts = 0;
  max_attempts = 3;
  created_at = 0;
}

abbrev pub second_job : Job
second_job = record first_job { job_id = "j2" }

abbrev pub hints : RuntimeHints
hints = record {
  kubernetes_strategy = "";
  expose_udp = false;
  health_check_path = "";
  health_check_port = pos 0;
  persistent_storage = true;
  storage_path = "/data";
  storage_gb = pos 1;
}

abbrev pub spec : WorkloadSpec
spec = record {
  namespace_id = "ns";
  namespace_slug = "";
  owner_id = "o";
  owner_username = "";
  server_id = "s1";
  server_name = "";
  blueprint_id = "b";
  environment_id = "";
  project_id = "p";
  project_slug = "";
  image = "img";
  command = "";
  blueprint_version = "";
  env_overrides = [];
  memory_bytes = pos 0;
  cpu_millicores = pos 0;
  port_requirements = [];
  config_files = [];
  runtime_hints = hints;
}

abbrev pub mod_spec : ModInstallSpec
mod_spec = record {
  server_id = "s1";
  project_id = "p";
  download_url = "http://h/m.jar";
  file_name = "m.jar";
  content_type = "mod";
  storage_path = "";
}

abbrev pub running : RunningServer
running = record { labels = no_labels; runtime_ref = "c1"; state = "Running" }

abbrev pub health : WorkloadHealth
health = record {
  workload_id = "s1";
  blueprint_id = "";
  state = "running";
  cpu_millicores = 5;
  memory_mb = 64;
  network_rx = 700;
  network_tx = 10;
  disk_read = 0;
  disk_write = 0;
}

-- A backend where all goes well, which counts the calls that change it.
abbrev pub backend : RuntimeAdapter ℕ
backend = record {
  ensure_project_scope = λ p s n. (err (failure "no networks here"), n);
  teardown_project_scope = λ p n. (none, n + 1);
  deploy = λ w n. (ok running, n + 1);
  start = λ w n. (ok running, n + 1);
  stop = λ p w n. (none, n + 1);
  remove = λ p w n. (none, n + 1);
  status = λ p w n. (ok health, n);
  endpoint = λ p w n. (ok "127.0.0.1:25565", n);
  inject_file = λ p w path type url file n. (none, n + 1);
  remove_file = λ p w path type file n. (none, n + 1);
  discover = λ n. (ok [], n);
}

-- The same, but nothing can be stopped.
abbrev pub stuck_backend : RuntimeAdapter ℕ
stuck_backend = record backend { stop = λ p w n. (some (failure "busy"), n) }

abbrev pub server : ServerRecord
server = record {
  id = "s1";
  name = "s1";
  address = "";
  port = 0;
  status = "Running";
  node_id = "n";
  runtime = "";
  runtime_ref = "c1";
  project_id = "p";
  environment_id = "";
}

abbrev pub servers : Servers
servers = ("s1", server) ∷ []

abbrev pub world : World ℕ Servers
world = record { backend = 0; servers = servers; reports = [] }

abbrev pub file_info : FileInfo
file_info = record { name = "f"; is_dir = false; bytes = 3; mod_time = 0 }

-- A disk where every path is a file, which counts the changes.
abbrev pub files : FileSystem ℕ
files = record {
  stat = λ p n. found file_info;
  read_dir = λ p n. ok [];
  mkdir_all = λ p n. (none, n + 1);
  create = λ p n. (none, n + 1);
  write = λ c p n. (none, n + 1);
  rename = λ p q n. (none, n + 1);
  remove_all = λ p n. (none, n + 1);
}

abbrev pub disk : Disk ℕ
disk = record { state = 0; touched = [] }

abbrev pub request : Request
request = record { project_id = "p"; workload_id = "s1"; path = "world/level.dat" }
