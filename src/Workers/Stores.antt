-- ===== src/Workers/Stores.antt =====
-- internal/workers: what the server handlers leave in the store and in the backend.
use gameserver_daemon.Common.{
  String, ◌≡◌, refl, sym, ap, ◌∙◌, arith, Option, none, some, [], ◌∷◌, ◌++◌, ◌==◌, if◌then◌else◌,
}
use gameserver_daemon.Common.Strings.{to_lower}
use gameserver_daemon.Errors.{GoError, wrapped, Result, ok, err}
use gameserver_daemon.Ports.{WorkloadSpec, RunningServer, ServerRecord, WorkloadStatusUpdate}
use gameserver_daemon.Ports.Interfaces.{RuntimeAdapter, ServerRepository, World, IsLawful}
use gameserver_daemon.Workers.Reporting.{update_for, report, with_backend, with_servers}
use gameserver_daemon.Workers.Provision
use gameserver_daemon.Workers.Provision.{record_of}
use gameserver_daemon.Workers.Start
use gameserver_daemon.Workers.Stop
use gameserver_daemon.Workers.Restart
use gameserver_daemon.Workers.Delete
use gameserver_daemon.Workers.Reports.Kinds.{
  ServerJob, act, provision, start, stop, restart, delete,
}

module _ {R S : Type 0} (runtime : RuntimeAdapter R) (repo : ServerRepository S) where
  saved_then :
      (spec : WorkloadSpec) (server : RunningServer) (r : Option GoError) (w : World R S)
      → (Provision.after_save runtime repo spec server r w).0 ≡ none
      → r ≡ none
  unfolding Provision.after_save
  saved_then spec server none w h = refl
  saved_then spec server (some e) w h = cc

  deployed_then :
      (spec : WorkloadSpec) (r : Result RunningServer) (w : World R S)
      → (Provision.after_deploy runtime repo spec r w).0 ≡ none
      → (server : RunningServer) × (r ≡ ok server)
        × ((repo.save (record_of spec server) w.servers).0 ≡ none)
  unfolding Provision.after_deploy
  deployed_then spec (err e) w h = cc
  deployed_then spec (ok server) w h = (
    server,
    refl,
    saved_then spec server (repo.save (record_of spec server) w.servers).0
        (with_servers w (repo.save (record_of spec server) w.servers).1) h,
  )

  provision_succeeded :
      (spec : WorkloadSpec) (w : World R S)
      → (act runtime repo provision spec w).0 ≡ none
      → (server : RunningServer) × ((runtime.deploy spec w.backend).0 ≡ ok server)
        × ((repo.save (record_of spec server) w.servers).0 ≡ none)
  unfolding Provision.provision
  provision_succeeded spec w h =
      deployed_then spec (runtime.deploy spec w.backend).0
        (with_backend w (runtime.deploy spec w.backend).1) h

  stores_record :
      IsLawful repo
      → (spec : WorkloadSpec) (w : World R S) (server : RunningServer)
      → (runtime.deploy spec w.backend).0 ≡ ok server
      → (repo.save (record_of spec server) w.servers).0 ≡ none
      → ((i : String)
          → repo.find_by_id i (act runtime repo provision spec w).1.servers ≡ (
              if spec.server_id == i
              then ok (record_of spec server)
              else repo.find_by_id i w.servers))
        × ((endpoint : String) × ((act runtime repo provision spec w).1.reports
              ≡ w.reports
                ++ update_for spec (to_lower server.state) server.runtime_ref endpoint "" ∷ []))
  unfolding Provision.provision Provision.after_deploy Provision.after_save Provision.provisioned
  stores_record lawful spec w server deployed saved =
      rw (deployed, Provision.after_deploy, saved, Provision.after_save)
        (λ i. lawful.find-save (record_of spec server) w.servers i saved, (_, refl))

  -- Provisioning that succeeds has deployed and saved. If the handler answers nil, the backend has
  -- answered a server, and the store has under the workload's id a new record, with the state, the
  -- reference and the node that the backend has answered and the project and environment of the
  -- specification, and for all other ids what it had. The one report
  -- names the workload and carries the same reference, the state in lower case and no error. The store keeps the promises of a repository.
  pub provision_stores :
      IsLawful repo
      → (spec : WorkloadSpec) (w : World R S) → (act runtime repo provision spec w).0 ≡ none
      → (server : RunningServer) × ((runtime.deploy spec w.backend).0 ≡ ok server)
        × ((i : String)
            → repo.find_by_id i (act runtime repo provision spec w).1.servers ≡ (
                if spec.server_id == i
                then ok (record {
                  id = spec.server_id;
                  name = spec.server_id;
                  address = "";
                  port = 0;
                  status = server.state;
                  node_id = server.labels.node_id;
                  runtime = "";
                  runtime_ref = server.runtime_ref;
                  project_id = spec.project_id;
                  environment_id = spec.environment_id;
                })
                else repo.find_by_id i w.servers))
        × ((u : WorkloadStatusUpdate) × ((act runtime repo provision spec w).1.reports
              ≡ w.reports ++ u ∷ [])
            × (u.workload_id ≡ spec.server_id)
            × (u.status ≡ to_lower server.state)
            × (u.runtime_ref ≡ server.runtime_ref)
            × (u.error_message ≡ ""))
  provision_stores lawful spec w h =
      let (server, deployed, saved) = provision_succeeded spec w h in
      let (found, told) = stores_record lawful spec w server deployed saved in
      (server, deployed, found, (_, told.1, refl, refl, refl, refl))

  -- The calls of the backend succeed, and lead to a status.
  abbrev pub Performed : ServerJob → WorkloadSpec → World R S → String → Type 0
  Performed provision spec w status = ⊥
  Performed start spec w status =
      (server : RunningServer) × ((runtime.start spec w.backend).0 ≡ ok server)
      × (status ≡ server.state)
  Performed stop spec w status =
      ((runtime.stop spec.project_id spec.server_id w.backend).0 ≡ none) × (status ≡ "stopped")
  Performed restart spec w status =
      (server : RunningServer) × ((runtime.stop spec.project_id spec.server_id w.backend).0 ≡ none)
      × ((runtime.start spec (runtime.stop spec.project_id spec.server_id w.backend).1).0
          ≡ ok server)
      × (status ≡ server.state)
  Performed delete spec w status =
      ((runtime.remove spec.project_id spec.server_id w.backend).0 ≡ none) × (status ≡ "deleted")

  -- The handler answers nil and has written that status, once, into the store.
  abbrev pub HasUpdated : WorkloadSpec → String → World R S → Option GoError × World R S → Type 0
  HasUpdated spec status w out =
      (out.0 ≡ none) × (out.1.servers ≡ (repo.update_status spec.server_id status w.servers).1)

  act-HasUpdated :
      (kind : ServerJob) (spec : WorkloadSpec) (w : World R S) (status : String)
      → Performed kind spec w status
      → HasUpdated spec status w (act runtime repo kind spec w)
  unfolding Start.start Start.after_start Start.started Stop.stop Stop.after_stop Restart.restart
      Restart.after_stop Delete.delete Delete.after_remove
  act-HasUpdated provision spec w status h = absurd h
  act-HasUpdated start spec w status (server, going, e) =
      rw (e, going, Start.after_start) (refl, refl)
  act-HasUpdated stop spec w status (done, e) = rw (e, done, Stop.after_stop) (refl, refl)
  act-HasUpdated restart spec w status (server, done, going, e) =
      rw (e, done, Restart.after_stop, going, Start.after_start) (refl, refl)
  act-HasUpdated delete spec w status (done, e) = rw (e, done, Delete.after_remove) (refl, refl)

  -- Starting, stopping, restarting or deleting a workload that the store knows, where the backend's
  -- calls succeed, answers nil and changes in the store the workload's status and nothing else: to
  -- `stopped`, to `deleted`, or to the state that the backend has answered.
  pub lifecycle_stores :
      IsLawful repo
      → (kind : ServerJob) (spec : WorkloadSpec) (w : World R S) (status : String)
        (r : ServerRecord)
      → Performed kind spec w status
      → repo.find_by_id spec.server_id w.servers ≡ ok r
      → ((act runtime repo kind spec w).0 ≡ none)
        × ((i : String)
            → repo.find_by_id i (act runtime repo kind spec w).1.servers ≡ (
                if spec.server_id == i
                then ok (record r { status = status })
                else repo.find_by_id i w.servers))
  lifecycle_stores lawful kind spec w status r done known =
      let (nil, written) = act-HasUpdated kind spec w status done in
      (nil, λ i. rw written (lawful.find-update_status spec.server_id status w.servers r i known))

  -- A restart whose stop fails does not start anything: the backend is left as the stop has left it,
  -- the store as it was, and the handler answers the stop's error with its own words in front.
  pub restart_stops_first :
      (spec : WorkloadSpec) (w : World R S) (e : GoError)
      → (runtime.stop spec.project_id spec.server_id w.backend).0 ≡ some e
      → ((act runtime repo restart spec w).0 ≡ some (wrapped "restart failed on stop: " e ""))
        × ((act runtime repo restart spec w).1.backend
            ≡ (runtime.stop spec.project_id spec.server_id w.backend).1)
        × ((act runtime repo restart spec w).1.servers ≡ w.servers)
  unfolding Restart.restart Restart.after_stop
  restart_stops_first spec w e failed = rw (failed, Restart.after_stop) (refl, refl, refl)

  -- The calls of the backend succeed: what the handlers have done then.
  start_succeeded :
      (message : String) (spec : WorkloadSpec) (w : World R S) (server : RunningServer)
      → (runtime.start spec w.backend).0 ≡ ok server
      → Start.start runtime repo message spec w
        ≡ Start.started runtime repo spec server (with_backend w (runtime.start spec w.backend).1)
  unfolding Start.start Start.after_start
  start_succeeded message spec w server going = rw (going, Start.after_start) refl

  -- The world after a stop that succeeds.
  abbrev stopped_world : WorkloadSpec → World R S → World R S
  stopped_world spec w = report (update_for spec "stopped" "" "" "") (
      with_servers (with_backend w (runtime.stop spec.project_id spec.server_id w.backend).1)
        (repo.update_status spec.server_id "stopped" w.servers).1)

  stop_succeeded :
      (spec : WorkloadSpec) (w : World R S)
      → (runtime.stop spec.project_id spec.server_id w.backend).0 ≡ none
      → Stop.stop runtime repo spec w ≡ (none, stopped_world spec w)
  unfolding Stop.stop Stop.after_stop
  stop_succeeded spec w stopped = rw (stopped, Stop.after_stop) refl

  restart_succeeded :
      (spec : WorkloadSpec) (w : World R S)
      → (runtime.stop spec.project_id spec.server_id w.backend).0 ≡ none
      → Restart.restart runtime repo spec w
        ≡ Start.start runtime repo "restart failed on start: " spec
            (with_backend w (runtime.stop spec.project_id spec.server_id w.backend).1)
  unfolding Restart.restart Restart.after_stop
  restart_succeeded spec w stopped = rw (stopped, Restart.after_stop) refl

  -- Two status updates in a row leave what the second one alone leaves.
  updated_twice :
      IsLawful repo
      → (k first second : String) (s : S) (r : ServerRecord) (i : String)
      → repo.find_by_id k s ≡ ok r
      → repo.find_by_id i (repo.update_status k second s).1
        ≡ repo.find_by_id i (repo.update_status k second (repo.update_status k first s).1).1
  updated_twice lawful k first second s r i known =
      let once = (repo.update_status k first s).1 in
      let known_once : repo.find_by_id k once ≡ ok (record r { status = first }) =
        ground (arith, lawful.find-update_status k first s r k known) in
      ground (
        arith,
        lawful.find-update_status k second s r i known,
        lawful.find-update_status k first s r i known,
        lawful.find-update_status k second once (record r { status = first }) i known_once,
      )

  -- A restart does what a stop and then a start do. For a workload that the store knows, where the
  -- backend's stop and its start succeed, both answer nil, leave the backend in the same state and the
  -- same records in the store; the reports differ by the one on the stop, which a restart does not send.
  pub restart-stop-start :
      IsLawful repo
      → (spec : WorkloadSpec) (w : World R S) (server : RunningServer) (r : ServerRecord)
      → (runtime.stop spec.project_id spec.server_id w.backend).0 ≡ none
      → (runtime.start spec (runtime.stop spec.project_id spec.server_id w.backend).1).0 ≡ ok server
      → repo.find_by_id spec.server_id w.servers ≡ ok r
      → let once = act runtime repo restart spec w in
        let twice = act runtime repo start spec (act runtime repo stop spec w).1 in
        (once.0 ≡ none)
        × (twice.0 ≡ none)
        × (once.1.backend ≡ twice.1.backend)
        × ((i : String) → repo.find_by_id i once.1.servers ≡ repo.find_by_id i twice.1.servers)
        × ((u : WorkloadStatusUpdate) × (once.1.reports ≡ w.reports ++ u ∷ [])
            × (twice.1.reports ≡ (w.reports ++ update_for spec "stopped" "" "" "" ∷ []) ++ u ∷ []))
  unfolding Start.started
  restart-stop-start lawful spec w server r stopped going known = (
    ap (λ (o : Option GoError × World R S). o.0) once,
    ap (λ (o : Option GoError × World R S). o.0) twice,
    ap (λ (o : Option GoError × World R S). o.1.backend) once
        ∙ sym (ap (λ (o : Option GoError × World R S). o.1.backend) twice),
    λ i.
        ap (λ (o : Option GoError × World R S). repo.find_by_id i o.1.servers) once
        ∙ updated_twice lawful spec.server_id "stopped" server.state w.servers r i known
        ∙ sym (ap (λ (o : Option GoError × World R S). repo.find_by_id i o.1.servers) twice),
    (
      _,
      ap (λ (o : Option GoError × World R S). o.1.reports) once,
      ap (λ (o : Option GoError × World R S). o.1.reports) twice,
    ),
  )
    where
      once :
          act runtime repo restart spec w
          ≡ Start.started runtime repo spec server (
              with_backend w
                (runtime.start spec (runtime.stop spec.project_id spec.server_id w.backend).1).1)
      once =
          restart_succeeded spec w stopped
          ∙ start_succeeded "restart failed on start: " spec
              (with_backend w (runtime.stop spec.project_id spec.server_id w.backend).1) server
              going

      twice :
          act runtime repo start spec (act runtime repo stop spec w).1
          ≡ Start.started runtime repo spec server (
              with_backend
                (stopped_world spec w)
                (runtime.start spec (runtime.stop spec.project_id spec.server_id w.backend).1).1)
      twice =
          ap
            (λ (o : Option GoError × World R S). Start.start runtime repo "start failed: " spec o.1)
            (stop_succeeded spec w stopped)
          ∙ start_succeeded "start failed: " spec (stopped_world spec w) server going
