-- ===== src/Tests/DockerRuns.antt =====
-- Runs of the Docker adapter, on an engine that has one container and counts the changes.
use gameserver_daemon.Common.{
  ◌++◌, inl, inr, ℕ, ◌+◌, ◌*◌, ◌/◌, ◌^◌, ◌≤◌, ◌<◌, String, Bool, true, false, ◌&&◌, ◌≡◌, refl,
  subst, Option, none, some, List, [], ◌∷◌, All, ◌==◌, if◌then◌else◌, arith, string_dec,
}
use gameserver_daemon.Common.Dict.{Dict, lookup, insert, get}
use gameserver_daemon.Common.Strings.{to_lower, contains, has_prefix, remove_char, take_text, size}
use gameserver_daemon.Common.Paths.{split, under}
use gameserver_daemon.Common.Paths.Laws.{IsEntry}
use gameserver_daemon.Common.Paths.Below.{IsBelow}
use gameserver_daemon.Errors.{failure, error_text, Result, ok, err}
use gameserver_daemon.Labels.{to_map, set_if, managed_by_key, managed_by_value, node_id_key}
use gameserver_daemon.Ports.{ServerRecord, WorkloadSpec, WorkloadHealth, ProjectScope}
use gameserver_daemon.Workers.Provision.{record_of}
use gameserver_daemon.FileApi.Scope.{short_id, workload_root}
use gameserver_daemon.FileApi.Handlers.Confined.{StaysInside}
use gameserver_daemon.Docker.Engine.{Container, DockerClient, Carries, FiltersHold, Adapter, Host}
use gameserver_daemon.Docker.Networks.{
  already_exists, ensure_project_scope, project_network_name, scope_named,
}
use gameserver_daemon.Docker.Containers.{
  labels_of, may_use, pick_container, listed, find_container, container_config, discover,
  project_data_dir,
}
use gameserver_daemon.Docker.Operations.{
  effective_id, running_server, start, stop, remove, status, endpoint,
}
use gameserver_daemon.Docker.Files.{Download, answered, Removal, gone, inject_file}
use gameserver_daemon.Docker.Authorized.{
  Runs, Belongs, Answers, mismatch, find_container-Belongs, refused_untouched,
}
use gameserver_daemon.Docker.Restored.{IsCreatedFrom, discover-created}
use gameserver_daemon.Docker.Shared.{collision_shares}
use gameserver_daemon.Docker.Placed.{inject_file-StaysInside}
use gameserver_daemon.Docker.Stats.{Stats, num_cpus, collect_stats}
use gameserver_daemon.Docker.Stats.Exact.{total_rx, total_tx, total_of, collect_stats_exact}
use gameserver_daemon.Tests.Data.{spec, files, disk, health}

abbrev adapter : Adapter
adapter = record {
  node_id = "n";
  storage_local_path = "/srv";
  storage_host_path = "/srv";
  node_network = "net";
}

abbrev scope : ProjectScope
scope = scope_named "ns" "" "net"

abbrev only : Container
only = record { id = "c1"; state = "running"; labels = to_map (labels_of adapter spec) }

abbrev is_text : Option String → String → Bool
is_text none v = false
is_text (some w) v = w == v

carries : List (String × String) → Dict String → Bool
carries [] d = true
carries ((k, v) ∷ fs) d = is_text (lookup k d) v && carries fs d

abbrev matching : List (String × String) → List Container
matching fs = if carries fs only.labels then only ∷ [] else []

abbrev client : DockerClient ℕ
client = record {
  network_list = λ f n. ok [];
  network_create = λ name labels n. (some (failure "network already exists"), n);
  network_inspect = λ i n. ok 1;
  network_remove = λ i n. (none, n + 1);
  image_pull = λ i n. (ok none, n);
  image_list = λ n. ok [];
  container_list = λ fs n. ok (matching fs);
  container_inspect = λ i n. err (failure "no");
  container_create = λ config n. (ok "c1", n + 1);
  container_start = λ i n. (none, n + 1);
  container_stop = λ i n. (none, n + 1);
  container_remove = λ i n. (none, n + 1);
}

abbrev host : Host ℕ ℕ
host = record { engine = 0; disk = disk }

is_text-some : (o : Option String) (v : String) → is_text o v ≡ true → o ≡ some v
is_text-some none v h = cc
is_text-some (some w) v h = ground arith

both : (a b : Bool) → (a && b) ≡ true → (a ≡ true) × (b ≡ true)
both true b h = (refl, h)
both false b h = cc

carries-All :
    (fs : List (String × String)) (c : Container) → carries fs c.labels ≡ true → Carries fs c
unfolding carries
carries-All [] c h = tt
carries-All ((k, v) ∷ fs) c h =
    let (a, b) = both (is_text (lookup k c.labels) v) (carries fs c.labels) h in
    (is_text-some (lookup k c.labels) v a, carries-All fs c b)

abbrev listing : Result (List Container) → List Container
listing (ok cs) = cs
listing (err e) = []

if-All :
    (fs : List (String × String)) (b : Bool)
    → (b ≡ true → Carries fs only)
    → All (Carries fs) (if b then only ∷ [] else [])
if-All fs true h = (h refl, tt)
if-All fs false h = tt

client-FiltersHold : FiltersHold client
client-FiltersHold fs n cs h =
    subst (λ r. All (Carries fs) (listing r)) h
      (if-All fs (carries fs only.labels) (carries-All fs only))

found : find_container client "p" "s1" 0 ≡ ok "c1"
unfolding find_container listed carries to_map set_if lookup insert string_dec pick_container
    may_use get
found = refl

find_container-Belongs_example :
    (c : Container) × (rest : List Container) × Answers client "s1" 0 (c ∷ rest)
    × (c.id ≡ "c1")
    × Runs "s1" c
    × Belongs "p" c
find_container-Belongs_example =
    find_container-Belongs client client-FiltersHold "p" "s1" "c1" 0 found

abbrev other_spec : WorkloadSpec
other_spec = record spec { namespace_id = "other" }

abbrev no_health : String → ℕ → WorkloadHealth → WorkloadHealth
no_health i n h = h

only-Answers : Answers client "s1" 0 (only ∷ [])
unfolding carries to_map set_if lookup insert string_dec
only-Answers = inl refl

other_foreign : Belongs "other" only → ⊥
unfolding to_map set_if lookup insert get string_dec
other_foreign (inl e) = cc e
other_foreign (inr (inl e)) = cc e
other_foreign (inr (inr (inl e))) = cc e
other_foreign (inr (inr (inr e))) = cc e

effective : effective_id other_spec ≡ "other"
unfolding string_dec
effective = refl

refused_untouched_example :
    (text : String) × (stop client files adapter "other" "s1" host ≡ (some (mismatch text), host))
    × (remove client files adapter "other" "s1" host ≡ (some (mismatch text), host))
    × (status client files adapter no_health "other" "s1" host ≡ (err (mismatch text), host))
    × (endpoint client files adapter "other" "s1" host ≡ (err (mismatch text), host))
    × (start client files adapter other_spec host ≡ (err (mismatch text), host))
refused_untouched_example =
    refused_untouched client files adapter no_health "other" "s1" other_spec host only [] (λ e. cc)
      (λ e. cc) effective refl only-Answers other_foreign

only-IsCreatedFrom : IsCreatedFrom client files adapter spec only
unfolding container_config
only-IsCreatedFrom = (scope, refl)

-- A container of this daemon that is no workload's.
abbrev stray : Container
stray = record {
  id = "c0";
  state = "running";
  labels = (managed_by_key, managed_by_value) ∷ (node_id_key, "n") ∷ [];
}

abbrev busy_client : DockerClient ℕ
busy_client = record client { container_list = λ fs n. ok (stray ∷ only ∷ []) }

discover-created_example :
    (front : List ServerRecord) × (back : List ServerRecord) × (discover busy_client adapter 0
      ≡ ok (
          front
          ++ record (record_of spec (running_server busy_client files adapter spec "c1")) {
            status = if only.state == "running" then "Running" else "Stopped";
            project_id = if spec.namespace_id == "" then "p" else "ns";
          }
            ∷ back))
discover-created_example =
    discover-created busy_client files adapter spec only (stray ∷ []) [] 0
      (scope, unfold container_config in refl) (λ e. cc) refl

abbrev first_project : String
first_project = "0123-4567-89ab-1111"

abbrev second_project : String
second_project = "0123-4567-89ab-2222"

same_start : short_id first_project ≡ short_id second_project
unfolding short_id remove_char take_text size
same_start = refl

in_use : already_exists (failure "network already exists") ≡ true
unfolding contains has_prefix error_text
in_use = refl

collision_shares_example :
    ensure_project_scope client adapter second_project "" 0
    ≡ (ok (scope_named second_project "" (project_network_name first_project)), 0)
collision_shares_example =
    collision_shares client adapter first_project second_project "" 0 0
      (failure "network already exists") (λ e. cc) same_start refl refl in_use

srv-IsEntry : IsEntry "srv"
unfolding split
srv-IsEntry = (refl, ((λ e. cc), (λ e. cc), (λ e. cc)))

jar-IsEntry : IsEntry "m.jar"
unfolding split
jar-IsEntry = (refl, ((λ e. cc), (λ e. cc), (λ e. cc)))

dir-IsEntry : IsEntry (project_data_dir "p" "s1")
unfolding split project_data_dir short_id remove_char take_text size
dir-IsEntry = (refl, ((λ e. cc), (λ e. cc), (λ e. cc)))

storage-IsBelow : IsBelow "/srv"
unfolding under
storage-IsBelow = ("srv", [], refl, srv-IsEntry, tt)

abbrev fetch : String → Download
fetch url = answered true "200" (ok "jar")

abbrev unlink : String → ℕ → Removal × ℕ
unlink path n = (gone, n + 1)

inject_file-StaysInside_example :
    StaysInside
      (workload_root "/srv" "p" "s1")
      disk
      (inject_file files fetch unlink adapter "p" "s1" "/data" "mod" "http://h/m.jar" "m.jar"
        disk).1
inject_file-StaysInside_example =
    inject_file-StaysInside files fetch unlink adapter "p" "s1" "/data" "mod" "http://h/m.jar"
      "m.jar" disk storage-IsBelow dir-IsEntry jar-IsEntry

abbrev sample : Stats
sample = record {
  cpu_usage = 300;
  pre_cpu_usage = 100;
  system_usage = 5000;
  pre_system_usage = 1000;
  online_cpus = 0;
  percpu_usage = 150 ∷ 150 ∷ [];
  memory_usage = 70000000;
  networks = record { rx_bytes = 10; tx_bytes = 20 } ∷ record { rx_bytes = 1; tx_bytes = 2 } ∷ [];
  blocks = record { op = "Read"; bytes = 5 } ∷ record { op = "sync"; bytes = 7 } ∷ [];
}

-- `float64` rounds down to whole numbers here.
abbrev millicores : ℕ → ℕ → ℕ → ℕ
millicores cpu system n = cpu * n * 1000 / system

collect_stats_exact_example :
    let (r, m) = collect_stats millicores (ok (ok sample)) health in
    (r ≡ none)
    × (m.network_rx ≡ total_rx sample.networks)
    × (m.network_tx ≡ total_tx sample.networks)
    × (m.disk_read ≡ total_of "read" sample.blocks)
    × (m.disk_write ≡ total_of "write" sample.blocks)
    × (m.memory_mb * 2 ^ 20 ≤ 70000000)
    × (70000000 < (m.memory_mb + 1) * 2 ^ 20)
    × (m.cpu_millicores ≡ 100)
    × (m.state ≡ health.state)
    × (m.workload_id ≡ health.workload_id)
    × (m.blueprint_id ≡ health.blueprint_id)
unfolding num_cpus
collect_stats_exact_example =
    collect_stats_exact millicores sample health (omega arith) (omega arith) (omega arith)
      (omega arith) fits.0 fits.1 fits.2 fits.3
  where
    fits :
        (total_rx sample.networks < 2 ^ 64)
        × (total_tx sample.networks < 2 ^ 64)
        × (total_of "read" sample.blocks < 2 ^ 64)
        × (total_of "write" sample.blocks < 2 ^ 64)
    fits =
        unfold total_rx in
        unfold total_tx in
        unfold total_of in
        unfold to_lower in unfold string_dec in (omega arith, omega arith, omega arith, omega arith)
