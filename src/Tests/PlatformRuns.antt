-- ===== src/Tests/PlatformRuns.antt =====
-- Runs of the platform client, against a platform that refuses the registration and counts the requests.
use gameserver_daemon.Common.{ℕ, ◌+◌, ◌≡◌, ◌≢◌, ◌⊎◌, none}
use gameserver_daemon.Errors.{ok}
use gameserver_daemon.Ports.{WorkloadStatusUpdate}
use gameserver_daemon.Platform.{Http, PlatformJson, new_client, register_node, report_status}
use gameserver_daemon.Platform.Laws.{register_before_report}

abbrev http : Http ℕ
http = record {
  build = λ url. none;
  send = λ p n. (ok (record { code = 403; digits = "403"; body = "forbidden" }), n + 1);
}

abbrev json : PlatformJson
json = record {
  registration = λ c. ok "{}";
  status = λ u now. ok "{}";
  log_lines = λ p e ls. ok "{}";
  registered = λ body. ok ("n", "t");
}

abbrev update : WorkloadStatusUpdate
update = record {
  workload_id = "s1";
  project_id = "p";
  status = "running";
  runtime_ref = "c1";
  endpoint = "";
  node_id = "n";
  error_message = "";
  cpu_millicores = 0;
  memory_mb = 0;
  network_rx = 0;
  network_tx = 0;
  disk_read = 0;
  disk_write = 0;
}

register_before_report_example :
    let c = new_client "http://h/api/v1" "key" "n" "" in
    let (r, c', w') = register_node http json c 0 in
    ((r ≡ none) × (c'.node_token ≢ "") × (c'.base_url ≡ c.base_url))
    ⊎ ((r ≢ none)
        × ((report_status http json c' update 7 1).0 ≢ none)
        × ((report_status http json c' update 7 1).1 ≡ 1))
register_before_report_example =
    register_before_report http json "http://h/api/v1" "key" "n" "" 0 update 7 1
