-- ===== src/Workers/Start.antt =====
-- internal/workers/start_worker.go
use gameserver_daemon.Common.{String, Option, none, some}
use gameserver_daemon.Common.Strings.{to_lower}
use gameserver_daemon.Errors.{GoError, wrapped, error_text, Result, ok, err}
use gameserver_daemon.Jobs.{Job}
use gameserver_daemon.Ports.{WorkloadSpec, RunningServer}
use gameserver_daemon.Ports.Interfaces.{RuntimeAdapter, ServerRepository, World}
use gameserver_daemon.Workers.Reporting.{
  project_or_namespace, update_for, report, with_backend, with_servers, prepare, or_empty_text,
}

module _ {R S : Type 0} (runtime : RuntimeAdapter R) (repo : ServerRepository S) where
  -- The store is updated and the endpoint is looked up; errors of both are only logged.
  unfoldable pub started : WorkloadSpec → RunningServer → World R S → Option GoError × World R S
  started spec server w =
      let (_, s) = repo.update_status spec.server_id server.state w.servers in
      let (r, b) = runtime.endpoint spec.project_id spec.server_id w.backend in
      (
        none,
        report (update_for spec (to_lower server.state) server.runtime_ref (or_empty_text r) "")
            (with_backend (with_servers w s) b),
      )

  -- `message` is how the caller names the failure.
  unfoldable pub after_start :
      String → WorkloadSpec → Result RunningServer → World R S → Option GoError × World R S
  after_start message spec (err e) w =
      (some (wrapped message e ""), report (update_for spec "failed" "" "" (error_text e)) w)
  after_start message spec (ok server) w = started spec server w

  unfoldable pub start : String → WorkloadSpec → World R S → Option GoError × World R S
  start message spec w =
      let (r, b) = runtime.start spec w.backend in after_start message spec r (with_backend w b)

  -- `StartWorker.Handle`
  unfoldable pub handle :
      (String → Result WorkloadSpec) → Job → World R S → Option GoError × World R S
  unfolding started after_start start prepare project_or_namespace
  handle decode =
      prepare decode project_or_namespace "invalid payload: project_id or namespace_id is required"
        (start "start failed: ")
