-- ===== src/Tests/WorkerRuns.antt =====
-- Runs of the workers over the backend and the store of Data.
use gameserver_daemon.Common.{
  String, ◌≡◌, ◌≢◌, refl, none, [], ◌∷◌, ◌++◌, ◌==◌, if◌then◌else◌, string_dec,
}
use gameserver_daemon.Common.Dict.{lookup}
use gameserver_daemon.Common.Strings.{to_lower}
use gameserver_daemon.Errors.{failure, Result, ok, err}
use gameserver_daemon.Ports.{WorkloadSpec, ModInstallSpec, RunningServer, WorkloadStatusUpdate}
use gameserver_daemon.Repository.Memory.{
  save, find_by_id, memory_repository, memory_repository-IsLawful,
}
use gameserver_daemon.Workers.Reporting.{with_project, update_for, project_or_environment}
use gameserver_daemon.Workers.Provision
use gameserver_daemon.Workers.Provision.{record_of}
use gameserver_daemon.Workers.Reports.Kinds.{
  provision, start, stop, restart, act, handle, project_of,
}
use gameserver_daemon.Workers.Reports.Verdicts.{Reported, handle-Reported}
use gameserver_daemon.Workers.Stores.{provision_stores, lifecycle_stores, restart-stop-start}
use gameserver_daemon.Tests.Data.{
  first_job, spec, mod_spec, running, backend, server, servers, world,
}

abbrev decode : String → Result WorkloadSpec
decode s = ok spec

abbrev decode_none : {A : Type 0} → String → Result A
decode_none s = err (failure "unexpected end of JSON input")

handle-Reported_example :
    Reported
      (with_project spec (project_of stop spec))
      world
      (handle backend memory_repository stop decode first_job world)
handle-Reported_example =
    handle-Reported backend memory_repository stop decode first_job spec world refl named
  where
    named : project_of stop spec ≢ ""
    named = unfold project_or_environment in unfold string_dec in λ e. cc

known : find_by_id "s1" servers ≡ ok server
unfolding find_by_id lookup string_dec
known = refl

provisioned_well : (act backend memory_repository provision spec world).0 ≡ none
unfolding Provision.provision Provision.after_deploy Provision.after_save Provision.provisioned save
provisioned_well = refl

provision_stores_example :
    (server : RunningServer) × (ok running ≡ ok server)
    × ((i : String)
        → find_by_id i (act backend memory_repository provision spec world).1.servers
          ≡ (if "s1" == i then ok (record_of spec server) else find_by_id i servers))
    × ((u : WorkloadStatusUpdate) × ((act backend memory_repository provision spec world).1.reports
          ≡ u ∷ [])
        × (u.workload_id ≡ "s1")
        × (u.status ≡ to_lower server.state)
        × (u.runtime_ref ≡ server.runtime_ref)
        × (u.error_message ≡ ""))
provision_stores_example =
    provision_stores backend memory_repository memory_repository-IsLawful spec world
      provisioned_well

lifecycle_stores_example :
    ((act backend memory_repository restart spec world).0 ≡ none)
    × ((i : String)
        → find_by_id i (act backend memory_repository restart spec world).1.servers
          ≡ (if "s1" == i then ok server else find_by_id i servers))
lifecycle_stores_example =
    lifecycle_stores backend memory_repository memory_repository-IsLawful restart spec world
      "Running" server (running, refl, refl, refl) known

abbrev decode_mod : String → Result ModInstallSpec
decode_mod s = ok mod_spec

restart-stop-start_example :
    let once = act backend memory_repository restart spec world in
    let twice =
      act backend memory_repository start spec (act backend memory_repository stop spec world).1 in
    (once.0 ≡ none)
    × (twice.0 ≡ none)
    × (once.1.backend ≡ twice.1.backend)
    × ((i : String) → find_by_id i once.1.servers ≡ find_by_id i twice.1.servers)
    × ((u : WorkloadStatusUpdate) × (once.1.reports ≡ [] ++ u ∷ [])
        × (twice.1.reports ≡ ([] ++ update_for spec "stopped" "" "" "" ∷ []) ++ u ∷ []))
restart-stop-start_example =
    restart-stop-start backend memory_repository memory_repository-IsLawful spec world running
      server refl refl known
