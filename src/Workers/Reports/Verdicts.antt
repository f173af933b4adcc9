-- ===== src/Workers/Reports/Verdicts.antt =====
-- internal/workers: a handler that starts to act reports once, and reports what it answers.
use gameserver_daemon.Common.{String, ◌≡◌, ◌≢◌, refl, Option, none, some, [], ◌∷◌, ◌++◌, arith, ◌∙◌}
use gameserver_daemon.Errors.{GoError, sentinel, failure, wrapped, error_text, Result, ok, err}
use gameserver_daemon.Jobs.{Job}
use gameserver_daemon.Ports.{WorkloadSpec, WorkloadStatusUpdate, RunningServer}
use gameserver_daemon.Ports.Interfaces.{RuntimeAdapter, ServerRepository, World}
use gameserver_daemon.Workers.Reporting.{with_project, prepare, with_backend, with_servers}
use gameserver_daemon.Workers.Reports.Kinds.{
  ServerJob, project_of, refusal, act, handle, provision, start, stop, restart, delete,
}
use gameserver_daemon.Workers.Provision
use gameserver_daemon.Workers.Start
use gameserver_daemon.Workers.Stop
use gameserver_daemon.Workers.Restart
use gameserver_daemon.Workers.Delete

-- The text of the error that an answer wraps.
abbrev pub cause_text : GoError → String
cause_text (sentinel s) = error_text (sentinel s)
cause_text (failure m) = m
cause_text (wrapped before e after) = error_text e

-- A report fits the handler's answer.
abbrev pub Fits : Option GoError → WorkloadStatusUpdate → Type 0
Fits none u = u.error_message ≡ ""
Fits (some e) u = (u.status ≡ "failed") × (u.error_message ≡ cause_text e)

module _ {R S : Type 0} where
  -- One report has been added, about this workload and project, and it fits the answer.
  abbrev pub Reported : WorkloadSpec → World R S → Option GoError × World R S → Type 0
  Reported spec w out =
      (u : WorkloadStatusUpdate) × (out.1.reports ≡ w.reports ++ u ∷ [])
      × (u.workload_id ≡ spec.server_id)
      × (u.project_id ≡ spec.project_id)
      × Fits out.0 u

module _ {R S : Type 0} (decode : String → Result WorkloadSpec) (project : WorkloadSpec → String)
    (missing : String) (go : WorkloadSpec → World R S → Option GoError × World R S)
    (job : Job) where
  prepare-act :
      (spec : WorkloadSpec) (w : World R S)
      → decode job.payload ≡ ok spec
      → project spec ≢ ""
      → prepare decode project missing go job w ≡ go (with_project spec (project spec)) w
  unfolding prepare
  prepare-act spec w read named = ground arith

  prepare_refused :
      (w : World R S)
      → ((spec : WorkloadSpec) → decode job.payload ≡ ok spec → project spec ≡ "")
      → ((prepare decode project missing go job w).0 ≢ none)
        × ((prepare decode project missing go job w).1 ≡ w)
  unfolding prepare
  prepare_refused w bad = refused (decode job.payload) refl
    where
      refused :
          (r : Result WorkloadSpec)
          → decode job.payload ≡ r
          → ((prepare decode project missing go job w).0 ≢ none)
            × ((prepare decode project missing go job w).1 ≡ w)
      refused (err e) read = ground arith
      refused (ok spec) read = ground (arith, bad spec read)

module _ {R S : Type 0} (runtime : RuntimeAdapter R) (repo : ServerRepository S) where
  saved-Reported :
      (spec : WorkloadSpec) (server : RunningServer) (r : Option GoError) (w : World R S)
      → Reported spec w (Provision.after_save runtime repo spec server r w)
  unfolding Provision.after_save Provision.provisioned
  saved-Reported spec server none w = (_, refl, refl, refl, refl)
  saved-Reported spec server (some e) w = (_, refl, refl, refl, (refl, refl))

  deployed-Reported :
      (spec : WorkloadSpec) (r : Result RunningServer) (w : World R S)
      → Reported spec w (Provision.after_deploy runtime repo spec r w)
  unfolding Provision.after_deploy
  deployed-Reported spec (err e) w = (_, refl, refl, refl, (refl, refl))
  deployed-Reported spec (ok server) w = saved-Reported spec server _ (with_servers w _)

  started-Reported :
      (before : String) (spec : WorkloadSpec) (r : Result RunningServer) (w : World R S)
      → Reported spec w (Start.after_start runtime repo before spec r w)
  unfolding Start.after_start Start.started
  started-Reported before spec (err e) w = (_, refl, refl, refl, (refl, refl))
  started-Reported before spec (ok server) w = (_, refl, refl, refl, refl)

  start-Reported :
      (before : String) (spec : WorkloadSpec) (w : World R S)
      → Reported spec w (Start.start runtime repo before spec w)
  unfolding Start.start
  start-Reported before spec w = started-Reported before spec _ (with_backend w _)

  stopped-Reported :
      (spec : WorkloadSpec) (r : Option GoError) (w : World R S)
      → Reported spec w (Stop.after_stop runtime repo spec r w)
  unfolding Stop.after_stop
  stopped-Reported spec none w = (_, refl, refl, refl, refl)
  stopped-Reported spec (some e) w = (_, refl, refl, refl, (refl, refl))

  removed-Reported :
      (spec : WorkloadSpec) (r : Option GoError) (w : World R S)
      → Reported spec w (Delete.after_remove runtime repo spec r w)
  unfolding Delete.after_remove
  removed-Reported spec none w = (_, refl, refl, refl, refl)
  removed-Reported spec (some e) w = (_, refl, refl, refl, (refl, refl))

  restarting-Reported :
      (spec : WorkloadSpec) (r : Option GoError) (w : World R S)
      → Reported spec w (Restart.after_stop runtime repo spec r w)
  unfolding Restart.after_stop
  restarting-Reported spec none w = start-Reported "restart failed on start: " spec w
  restarting-Reported spec (some e) w = (_, refl, refl, refl, (refl, refl))

  act-Reported :
      (kind : ServerJob) (spec : WorkloadSpec) (w : World R S)
      → Reported spec w (act runtime repo kind spec w)
  unfolding Provision.provision Stop.stop Restart.restart Delete.delete
  act-Reported provision spec w = deployed-Reported spec _ (with_backend w _)
  act-Reported start spec w = start-Reported "start failed: " spec w
  act-Reported stop spec w = stopped-Reported spec _ (with_backend w _)
  act-Reported restart spec w = restarting-Reported spec _ (with_backend w _)
  act-Reported delete spec w = removed-Reported spec _ (with_backend w _)

  handle-prepare :
      (kind : ServerJob) (decode : String → Result WorkloadSpec) (job : Job) (w : World R S)
      → handle runtime repo kind decode job w
        ≡ prepare decode (project_of kind) (refusal kind) (act runtime repo kind) job w
  unfolding Provision.handle Start.handle Stop.handle Restart.handle Delete.handle
  handle-prepare provision decode job w = refl
  handle-prepare start decode job w = refl
  handle-prepare stop decode job w = refl
  handle-prepare restart decode job w = refl
  handle-prepare delete decode job w = refl

  -- A payload that names a project is acted upon.
  pub handle-act :
      (kind : ServerJob) (decode : String → Result WorkloadSpec) (job : Job) (spec : WorkloadSpec)
      (w : World R S)
      → decode job.payload ≡ ok spec
      → project_of kind spec ≢ ""
      → handle runtime repo kind decode job w
        ≡ act runtime repo kind (with_project spec (project_of kind spec)) w
  handle-act kind decode job spec w read named =
      handle-prepare kind decode job w
      ∙ prepare-act decode (project_of kind) (refusal kind) (act runtime repo kind) job spec w read
          named

  -- A server handler whose payload decodes and names a project tells the platform exactly once: the
  -- one report added names the workload and the project, has status `failed` and the text of the
  -- underlying error if the handler answers an error, and an empty error text if it answers nil.
  pub handle-Reported :
      (kind : ServerJob) (decode : String → Result WorkloadSpec) (job : Job) (spec : WorkloadSpec)
      (w : World R S)
      → decode job.payload ≡ ok spec
      → project_of kind spec ≢ ""
      → Reported
          (with_project spec (project_of kind spec))
          w
          (handle runtime repo kind decode job w)
  handle-Reported kind decode job spec w read named =
      rw (handle-act kind decode job spec w read named)
        (act-Reported kind (with_project spec (project_of kind spec)) w)

  -- A server handler that cannot decode its payload, or finds no project in it, answers an error and
  -- touches nothing: not the backend, not the store, and the platform is not told.
  pub handle_refused :
      (kind : ServerJob) (decode : String → Result WorkloadSpec) (job : Job) (w : World R S)
      → ((spec : WorkloadSpec) → decode job.payload ≡ ok spec → project_of kind spec ≡ "")
      → ((handle runtime repo kind decode job w).0 ≢ none)
        × ((handle runtime repo kind decode job w).1 ≡ w)
  handle_refused kind decode job w bad =
      rw (handle-prepare kind decode job w)
        (prepare_refused decode (project_of kind) (refusal kind) (act runtime repo kind) job w bad)
