-- ===== src/Workers/Delete.antt =====
-- internal/workers/delete_worker.go
use gameserver_daemon.Common.{String, Option, none, some}
use gameserver_daemon.Errors.{GoError, wrapped, error_text, Result}
use gameserver_daemon.Jobs.{Job}
use gameserver_daemon.Ports.{WorkloadSpec}
use gameserver_daemon.Ports.Interfaces.{RuntimeAdapter, ServerRepository, World}
use gameserver_daemon.Workers.Reporting.{
  project_or_environment, update_for, report, with_backend, with_servers, prepare,
}

module _ {R S : Type 0} (runtime : RuntimeAdapter R) (repo : ServerRepository S) where
  unfoldable pub after_remove :
      WorkloadSpec → Option GoError → World R S → Option GoError × World R S
  after_remove spec (some e) w = (
    some (wrapped "delete failed: " e ""),
    report (update_for spec "failed" "" "" (error_text e)) w,
  )
  after_remove spec none w =
      let (_, s) = repo.update_status spec.server_id "deleted" w.servers in
      (none, report (update_for spec "deleted" "" "" "") (with_servers w s))

  unfoldable pub delete : WorkloadSpec → World R S → Option GoError × World R S
  delete spec w =
      let (r, b) = runtime.remove spec.project_id spec.server_id w.backend in
      after_remove spec r (with_backend w b)

  -- `DeleteWorker.Handle`
  unfoldable pub handle :
      (String → Result WorkloadSpec) → Job → World R S → Option GoError × World R S
  unfolding after_remove delete prepare project_or_environment
  handle decode =
      prepare decode project_or_environment "invalid payload: project_id is required" delete
