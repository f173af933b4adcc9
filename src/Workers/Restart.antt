-- ===== src/Workers/Restart.antt =====
-- internal/workers/restart_worker.go
use gameserver_daemon.Common.{String, Option, none, some}
use gameserver_daemon.Errors.{GoError, wrapped, error_text, Result}
use gameserver_daemon.Jobs.{Job}
use gameserver_daemon.Ports.{WorkloadSpec}
use gameserver_daemon.Ports.Interfaces.{RuntimeAdapter, ServerRepository, World}
use gameserver_daemon.Workers.Reporting.{
  project_or_environment, update_for, report, with_backend, prepare,
}
use gameserver_daemon.Workers.Start.{start}

module _ {R S : Type 0} (runtime : RuntimeAdapter R) (repo : ServerRepository S) where
  -- Behind the stop the handler does what `StartWorker` does, line for line.
  unfoldable pub after_stop : WorkloadSpec → Option GoError → World R S → Option GoError × World R S
  after_stop spec (some e) w = (
    some (wrapped "restart failed on stop: " e ""),
    report (update_for spec "failed" "" "" (error_text e)) w,
  )
  after_stop spec none w = start runtime repo "restart failed on start: " spec w

  unfoldable pub restart : WorkloadSpec → World R S → Option GoError × World R S
  restart spec w =
      let (r, b) = runtime.stop spec.project_id spec.server_id w.backend in
      after_stop spec r (with_backend w b)

  -- `RestartWorker.Handle`
  unfoldable pub handle :
      (String → Result WorkloadSpec) → Job → World R S → Option GoError × World R S
  unfolding after_stop restart prepare project_or_environment
  handle decode =
      prepare decode project_or_environment "invalid payload: project_id is required" restart
