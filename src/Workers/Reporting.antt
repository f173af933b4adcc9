-- ===== src/Workers/Reporting.antt =====
-- internal/workers: what the five server handlers share. Each decodes its payload, settles on a
-- project, and closes with a report to the platform. `json.Unmarshal` is the parameter `decode`.
use gameserver_daemon.Common.{String, Option, some, [], ◌∷◌, ◌++◌, ◌==◌, if◌then◌else◌}
use gameserver_daemon.Errors.{GoError, failure, wrapped, Result, ok, err}
use gameserver_daemon.Jobs.{Job}
use gameserver_daemon.Ports.{WorkloadSpec, WorkloadStatusUpdate}
use gameserver_daemon.Ports.Interfaces.{World}

-- `spec.ProjectID` with both fallbacks, as provisioning and starting have it.
unfoldable pub project_or_namespace : WorkloadSpec → String
project_or_namespace spec =
    if spec.project_id == ""
    then if spec.environment_id == "" then spec.namespace_id else spec.environment_id
    else spec.project_id

-- With the environment as the only fallback, as stopping, restarting and deleting have it.
unfoldable pub project_or_environment : WorkloadSpec → String
project_or_environment spec = if spec.project_id == "" then spec.environment_id else spec.project_id

abbrev pub with_project : WorkloadSpec → String → WorkloadSpec
with_project spec project = record spec { project_id = project }

-- The closure `report` of the handlers, which leaves the other fields at their zero values.
abbrev pub update_for : WorkloadSpec → String → String → String → String → WorkloadStatusUpdate
update_for spec status runtime_ref endpoint message = record {
  workload_id = spec.server_id;
  project_id = spec.project_id;
  status = status;
  runtime_ref = runtime_ref;
  endpoint = endpoint;
  node_id = "";
  error_message = message;
  cpu_millicores = 0;
  memory_mb = 0;
  network_rx = 0;
  network_tx = 0;
  disk_read = 0;
  disk_write = 0;
}

module _ {R S : Type 0} where
  abbrev pub report : WorkloadStatusUpdate → World R S → World R S
  report u w = record w { reports = w.reports ++ u ∷ [] }

  -- A call of the backend, of the store.
  abbrev pub with_backend : World R S → R → World R S
  with_backend w r = record w { backend = r }

  abbrev pub with_servers : World R S → S → World R S
  with_servers w s = record w { servers = s }

  -- What every handler does before it acts: decode, choose the project, and refuse to go on without.
  unfoldable pub prepare :
      (String → Result WorkloadSpec)
      → (WorkloadSpec → String)
      → String
      → (WorkloadSpec → World R S → Option GoError × World R S)
      → Job
      → World R S
      → Option GoError × World R S
  prepare decode project missing act job w = elim (decode job.payload) [
    | err e ↦ (some (wrapped "invalid payload: " e ""), w)
    | ok spec ↦
        if project spec == ""
        then (some (failure missing), w)
        else act (with_project spec (project spec)) w
  ]

-- The value of a call that may fail: the zero value beside an error.
abbrev pub or_empty_text : Result String → String
or_empty_text (ok s) = s
or_empty_text (err e) = ""
