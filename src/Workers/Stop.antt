-- ===== src/Workers/Stop.antt =====
-- internal/workers/stop_worker.go
use gameserver_daemon.Common.{String, Option, none, some}
use gameserver_daemon.Errors.{GoError, wrapped, error_text, Result}
use gameserver_daemon.Jobs.{Job}
use gameserver_daemon.Ports.{WorkloadSpec}
use gameserver_daemon.Ports.Interfaces.{RuntimeAdapter, ServerRepository, World}
use gameserver_daemon.Workers.Reporting.{
  project_or_environment, update_for, report, with_backend, with_servers, prepare,
}

module _ {R S : Type 0} (runtime : RuntimeAdapter R) (repo : ServerRepository S) where
  unfoldable pub after_stop : WorkloadSpec → Option GoError → World R S → Option GoError × World R S
  after_stop spec (some e) w = (
    some (wrapped "stop failed: " e ""),
    report (update_for spec "failed" "" "" (error_text e)) w,
  )
  after_stop spec none w =
      let (_, s) = repo.update_status spec.server_id "stopped" w.servers in
      (none, report (update_for spec "stopped" "" "" "") (with_servers w s))

  unfoldable pub stop : WorkloadSpec → World R S → Option GoError × World R S
  stop spec w =
      let (r, b) = runtime.stop spec.project_id spec.server_id w.backend in
      after_stop spec r (with_backend w b)

  -- `StopWorker.Handle`
  unfoldable pub handle :
      (String → Result WorkloadSpec) → Job → World R S → Option GoError × World R S
  unfolding after_stop stop prepare project_or_environment
  handle decode =
      prepare decode project_or_environment "invalid payload: project_id is required" stop
