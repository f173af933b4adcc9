-- ===== src/Kubernetes/Operations.antt =====
-- internal/adapters/out/runtime/kubernetes/kubernetes.go: the life of a workload in the cluster.
use gameserver_daemon.Common.{
  zero, suc, String, ◌<>◌, Bool, false, ◌||◌, Option, none, some, [], ◌∷◌, ◌==◌, if◌then◌else◌,
}
use gameserver_daemon.Common.Int.{ℤ, pos, negsuc}
use gameserver_daemon.Common.Dict.{Dict, get}
use gameserver_daemon.Common.Numerals.{int_text}
use gameserver_daemon.Common.Strings.{to_lower, trim_space}
use gameserver_daemon.Errors.{
  GoError, sentinel, failure, wrapped, project_mismatch, Result, ok, err,
}
use gameserver_daemon.Labels.{no_labels, WorkloadLabels, project_id_key, environment_id_key}
use gameserver_daemon.Ports.{ProjectScope, WorkloadSpec, WorkloadHealth, RunningServer}
use gameserver_daemon.Kubernetes.Cluster.{LiveGameServer, Workloads, Client, Adapter}
use gameserver_daemon.Kubernetes.Objects.{
  strategy_key, server_labels, selector_labels, build_workload, build_service, build_game_server,
}

-- The error of a pair, without its value.
abbrev pub without_value : {A C : Type 0} → Result A × C → Option GoError × C
without_value (ok a, c) = (none, c)
without_value (err e, c) = (some e, c)

abbrev mismatch_text : String → String → String → String → String
mismatch_text workload project environment wanted =
    ": workload " <> workload <> " belongs to project/environment \"" <> project <> "\"/\""
    <> environment <> "\", not \"" <> wanted <> "\""

abbrev pub mismatch_error : String → Dict String → String → GoError
mismatch_error project labels workload = wrapped "" (sentinel project_mismatch) (
    mismatch_text workload (trim_space (get labels project_id_key))
      (trim_space (get labels environment_id_key)) project)

-- `ensureProjectMatch`
unfoldable pub ensure_project_match : String → Dict String → String → Option GoError
unfolding get trim_space
ensure_project_match project labels workload =
    if project == ""
    then none
    else if trim_space (get labels project_id_key) == project
        || trim_space (get labels environment_id_key) == project
    then none
    else some (mismatch_error project labels workload)

-- The strategy that a live resource's label names, if the resource may be used.
unfoldable pub strategy_of : String → String → Dict String → Result String
unfolding ensure_project_match get
strategy_of project workload labels = elim (ensure_project_match project labels workload) [
  | some e ↦ err e
  | none ↦ ok (get labels strategy_key)
]

abbrev pub running_as : WorkloadLabels → String → String → RunningServer
running_as labels ref state = record { labels = labels; runtime_ref = ref; state = state }

-- `WorkloadHealth` with a state and no measurements.
abbrev health_as : String → String → WorkloadHealth
health_as workload state = record {
  workload_id = workload;
  blueprint_id = "";
  state = state;
  cpu_millicores = 0;
  memory_mb = 0;
  network_rx = 0;
  network_tx = 0;
  disk_read = 0;
  disk_write = 0;
}

module _ {C : Type 0} (client : Client C) (adapter : Adapter) where
  -- `strategyFor`
  unfoldable pub strategy_for : String → String → C → Result String
  unfolding strategy_of
  strategy_for project workload c = elim (client.get_game_server adapter.namespace workload c) [
    | ok gs ↦ strategy_of project workload gs.labels
    | err _ ↦ elim (client.stateful_sets.get adapter.namespace workload c) [
      | ok labels ↦ strategy_of project workload labels
      | err _ ↦ elim (client.deployments.get adapter.namespace workload c) [
        | ok labels ↦ strategy_of project workload labels
        | err _ ↦ err (failure ("workload \"" <> workload <> "\" not found in any strategy"))
      ]
    ]
  ]

  -- `waitForAgonesReady`: the condition of the poll, and what it has stored when it has held.
  unfoldable pub is_ready : String → C → Bool
  is_ready name c = elim (client.get_game_server adapter.namespace name c) [
    | ok gs ↦ gs.state == "Ready"
    | err _ ↦ false
  ]

  abbrev pub waited : WorkloadLabels → String → Option GoError × C → Result RunningServer × C
  waited labels name (some e, c) = (err e, c)
  waited labels name (none, c) = (ok (running_as labels name "Ready"), c)

  unfoldable pub wait_for_agones_ready : String → WorkloadLabels → C → Result RunningServer × C
  unfolding is_ready
  wait_for_agones_ready name labels c = waited labels name (client.poll (is_ready name) c)

  abbrev pub after_game_server : WorkloadSpec → Option GoError × C → Result RunningServer × C
  after_game_server spec (some e, c) = (err (wrapped "failed to create game server: " e ""), c)
  after_game_server spec (none, c) =
      wait_for_agones_ready spec.server_id (server_labels adapter spec) c

  -- `deployAgones`
  unfoldable pub deploy_agones : WorkloadSpec → C → Result RunningServer × C
  unfolding wait_for_agones_ready build_game_server
  deploy_agones spec c =
      after_game_server spec
        (client.create_game_server adapter.namespace (build_game_server adapter spec) c)

  abbrev pub after_service : WorkloadSpec → Option GoError × C → Result RunningServer × C
  after_service spec (some e, c) = (err (wrapped "failed to create service: " e ""), c)
  after_service spec (none, c) =
      (ok (running_as (server_labels adapter spec) spec.server_id "Running"), c)

  abbrev pub after_workload : String → WorkloadSpec → Option GoError × C → Result RunningServer × C
  after_workload strategy spec (some e, c) =
      (err (wrapped ("failed to create " <> strategy <> ": ") e ""), c)
  after_workload strategy spec (none, c) = after_service spec (
      client.create_service adapter.namespace (build_service spec (selector_labels strategy spec))
        c)

  -- `deployStatefulSet` and `deployDeployment` differ in the kind of the workload.
  unfoldable pub deploy_workload :
      Workloads C → String → WorkloadSpec → C → Result RunningServer × C
  unfolding build_workload build_service selector_labels
  deploy_workload workloads strategy spec c = after_workload strategy spec (
      workloads.create adapter.namespace
        (build_workload spec (pos 1) (selector_labels strategy spec)) c)

  abbrev pub deploy_stateful_set : WorkloadSpec → C → Result RunningServer × C
  deploy_stateful_set = deploy_workload client.stateful_sets "statefulset"

  abbrev pub deploy_deployment : WorkloadSpec → C → Result RunningServer × C
  deploy_deployment = deploy_workload client.deployments "deployment"

  abbrev stopped_or_running : ℤ → String
  stopped_or_running (pos zero) = "Stopped"
  stopped_or_running (pos (suc n)) = "Running"
  stopped_or_running (negsuc n) = "Running"

  abbrev pub after_scale : String → String → ℤ → Option GoError × C → Result RunningServer × C
  after_scale kind workload replicas (some e, c) =
      (err (wrapped ("failed to scale " <> kind <> ": ") e ""), c)
  after_scale kind workload replicas (none, c) =
      (ok (running_as no_labels workload (stopped_or_running replicas)), c)

  -- `scaleStatefulSet` and `scaleDeployment` differ likewise.
  unfoldable pub scale_workload : Workloads C → String → String → ℤ → C → Result RunningServer × C
  scale_workload workloads kind workload replicas c =
      elim (workloads.get_scale adapter.namespace workload c) [
        | err e ↦ (err (wrapped ("failed to get " <> kind <> " scale: ") e ""), c)
        | ok scale ↦ after_scale kind workload replicas (
            workloads.update_scale adapter.namespace workload (record scale { replicas = replicas })
              c)
      ]

  abbrev pub scale_stateful_set : String → ℤ → C → Result RunningServer × C
  scale_stateful_set = scale_workload client.stateful_sets "statefulset"

  abbrev pub scale_deployment : String → ℤ → C → Result RunningServer × C
  scale_deployment = scale_workload client.deployments "deployment"

  -- `Deploy`
  unfoldable pub deploy : WorkloadSpec → C → Result RunningServer × C
  unfolding deploy_agones deploy_workload
  deploy spec c =
      let strategy = spec.runtime_hints.kubernetes_strategy in
      if strategy == "agones"
      then deploy_agones spec c
      else if strategy == "statefulset"
      then deploy_stateful_set spec c
      else deploy_deployment spec c

  -- `Start`
  unfoldable pub start : WorkloadSpec → C → Result RunningServer × C
  unfolding deploy_agones scale_workload
  start spec c =
      let strategy = spec.runtime_hints.kubernetes_strategy in
      if strategy == "agones"
      then deploy_agones spec c
      else if strategy == "statefulset"
      then scale_stateful_set spec.server_id (pos 1) c
      else scale_deployment spec.server_id (pos 1) c

  -- The branches of `Stop` and of `Remove`, on the strategy that has been found.
  abbrev pub stop_as : String → String → C → Option GoError × C
  stop_as workload strategy c =
      if strategy == "agones"
      then client.delete_game_server adapter.namespace workload c
      else if strategy == "statefulset"
      then without_value (scale_stateful_set workload (pos 0) c)
      else without_value (scale_deployment workload (pos 0) c)

  abbrev pub remove_as : String → String → C → Option GoError × C
  remove_as workload strategy c =
      if strategy == "agones"
      then client.delete_game_server adapter.namespace workload c
      else if strategy == "statefulset"
      then client.stateful_sets.delete adapter.namespace workload c
      else client.deployments.delete adapter.namespace workload c

  -- `Stop`
  unfoldable pub stop : String → String → C → Option GoError × C
  unfolding strategy_for scale_workload
  stop project workload c = elim (strategy_for project workload c) [
    | err e ↦ (some e, c)
    | ok strategy ↦ stop_as workload strategy c
  ]

  -- `Remove`
  unfoldable pub remove : String → String → C → Option GoError × C
  unfolding strategy_for
  remove project workload c = elim (strategy_for project workload c) [
    | err e ↦ (some e, c)
    | ok strategy ↦ remove_as workload strategy c
  ]

  -- `Status`
  unfoldable pub status : String → String → C → Result WorkloadHealth
  unfolding strategy_for to_lower
  status project workload c = elim (strategy_for project workload c) [
    | err e ↦ err e
    | ok strategy ↦
        if strategy == "agones"
        then (elim (client.get_game_server adapter.namespace workload c) [
          | err e ↦ err (wrapped "failed to get game server: " e "")
          | ok gs ↦ ok (health_as workload (to_lower gs.state))
        ])
        else ok (health_as workload "unknown")
  ]

  abbrev game_server_address : LiveGameServer → String
  game_server_address gs = elim gs.ports [
    | some port ∷ _ ↦ gs.address <> ":" <> port
    | _ ↦ gs.address
  ]

  -- `Endpoint`
  unfoldable pub endpoint : String → String → C → Result String
  unfolding strategy_for int_text
  endpoint project workload c = elim (strategy_for project workload c) [
    | err e ↦ err e
    | ok strategy ↦
        if strategy == "agones"
        then (elim (client.get_game_server adapter.namespace workload c) [
          | err e ↦ err (wrapped "failed to get game server: " e "")
          | ok gs ↦ ok (game_server_address gs)
        ])
        else (elim (client.get_service adapter.namespace workload c) [
          | err e ↦ err (wrapped "failed to get service: " e "")
          | ok service ↦ elim service.ports [
            | port ∷ _ ↦ ok (service.cluster_ip <> ":" <> int_text port)
            | [] ↦ ok service.cluster_ip
          ]
        ])
  ]

  -- `EnsureProjectScope`
  abbrev pub ensure_project_scope : String → String → ProjectScope
  ensure_project_scope project slug = record {
    project_id = project;
    project_slug = slug;
    network_name = adapter.namespace;
  }
