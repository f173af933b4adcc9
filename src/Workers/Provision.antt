-- ===== src/Workers/Provision.antt =====
-- internal/workers/provision_worker.go
use gameserver_daemon.Common.{String, Option, none, some}
use gameserver_daemon.Common.Strings.{to_lower}
use gameserver_daemon.Errors.{GoError, wrapped, error_text, Result, ok, err}
use gameserver_daemon.Jobs.{Job}
use gameserver_daemon.Ports.{WorkloadSpec, RunningServer, ServerRecord}
use gameserver_daemon.Ports.Interfaces.{RuntimeAdapter, ServerRepository, World}
use gameserver_daemon.Workers.Reporting.{
  project_or_namespace, update_for, report, with_backend, with_servers, prepare, or_empty_text,
}

-- The record that the handler stores.
abbrev pub record_of : WorkloadSpec → RunningServer → ServerRecord
record_of spec server = record {
  id = spec.server_id;
  name = spec.server_id;
  address = "";
  port = 0;
  status = server.state;
  node_id = server.labels.node_id;
  runtime = "";
  runtime_ref = server.runtime_ref;
  project_id = spec.project_id;
  environment_id = spec.environment_id;
}

module _ {R S : Type 0} (runtime : RuntimeAdapter R) (repo : ServerRepository S) where
  -- The endpoint is looked up, and an error there is only logged.
  unfoldable pub provisioned : WorkloadSpec → RunningServer → World R S → Option GoError × World R S
  provisioned spec server w =
      let (r, b) = runtime.endpoint spec.project_id spec.server_id w.backend in
      (
        none,
        report (update_for spec (to_lower server.state) server.runtime_ref (or_empty_text r) "")
            (with_backend w b),
      )

  unfoldable pub after_save :
      WorkloadSpec → RunningServer → Option GoError → World R S → Option GoError × World R S
  after_save spec server (some e) w = (
    some (wrapped "failed to store runtime reference: " e ""),
    report (update_for spec "failed" server.runtime_ref "" (error_text e)) w,
  )
  after_save spec server none w = provisioned spec server w

  unfoldable pub after_deploy :
      WorkloadSpec → Result RunningServer → World R S → Option GoError × World R S
  after_deploy spec (err e) w = (
    some (wrapped "provision failed: " e ""),
    report (update_for spec "failed" "" "" (error_text e)) w,
  )
  after_deploy spec (ok server) w =
      let (r, s) = repo.save (record_of spec server) w.servers in
      after_save spec server r (with_servers w s)

  unfoldable pub provision : WorkloadSpec → World R S → Option GoError × World R S
  provision spec w =
      let (r, b) = runtime.deploy spec w.backend in after_deploy spec r (with_backend w b)

  -- `ProvisionWorker.Handle`
  unfoldable pub handle :
      (String → Result WorkloadSpec) → Job → World R S → Option GoError × World R S
  unfolding provisioned after_save after_deploy provision prepare project_or_namespace
  handle decode =
      prepare decode project_or_namespace "invalid payload: project_id or namespace_id is required"
        provision
