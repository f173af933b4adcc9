-- ===== src/Kubernetes/Leftovers.antt =====
-- internal/adapters/out/runtime/kubernetes/kubernetes.go: what removing a workload leaves in the
-- cluster.
use gameserver_daemon.Common.{
  String, subst, Bool, ◌==◌, if◌then◌else◌, true, false, ◌≡◌, ◌≢◌, sym, Option, none,
}
use gameserver_daemon.Errors.{GoError, Result, ok, err}
use gameserver_daemon.Ports.{WorkloadSpec, RunningServer}
use gameserver_daemon.Kubernetes.Cluster.{
  Workload, Service, LiveService, Workloads, Client, Adapter,
}
use gameserver_daemon.Kubernetes.Objects.{selector_labels, build_service}
use gameserver_daemon.Kubernetes.Operations.{deploy, deploy_workload, remove}
use gameserver_daemon.Kubernetes.Scaled.{Handled}
use gameserver_daemon.Kubernetes.Deployed.{
  Creates, Apart, MadeFor, workload_deployed, plain_cases, deploy-Handled,
}

module _ {C : Type 0} (client : Client C) (adapter : Adapter) where
  -- A service of this name exists.
  abbrev pub Taken : String → C → Type 0
  Taken name c = (live : LiveService) × (client.get_service adapter.namespace name c ≡ ok live)

  -- What the documentation of the cluster says of services: one that has been created is there, its
  -- name cannot be given twice, and it stays while workloads are created and deleted.
  pub record ServicesStay (workloads : Workloads C) : Type 0 where
    pub create_service-Taken :
        (s : Service) (c : C)
        → (client.create_service adapter.namespace s c).0 ≡ none
        → Taken s.name (client.create_service adapter.namespace s c).1
    pub create_service_twice :
        (s : Service) (c : C)
        → Taken s.name c
        → (client.create_service adapter.namespace s c).0 ≢ none
    pub create-Taken :
        (n : String) (w : Workload) (c : C)
        → Taken n c
        → Taken n (workloads.create adapter.namespace w c).1
    pub delete-Taken :
        (n m : String) (c : C) → Taken n c → Taken n (workloads.delete adapter.namespace m c).1

  module _ (workloads : Workloads C) (strategy : String) (laws : ServicesStay workloads) where
    deploy_workload-Taken :
        (spec : WorkloadSpec) (c : C) (server : RunningServer)
        → (deploy_workload client adapter workloads strategy spec c).0 ≡ ok server
        → Taken spec.server_id (deploy_workload client adapter workloads strategy spec c).1
    unfolding build_service
    deploy_workload-Taken spec c server h =
        let (made_it, served_it, after) =
          workload_deployed client adapter workloads strategy spec c server h in
        subst (Taken spec.server_id) (sym after) (
          laws.create_service-Taken (build_service spec (selector_labels strategy spec)) _
            served_it)

    Taken-refuses :
        (spec : WorkloadSpec) (c : C) (server : RunningServer)
        → Taken spec.server_id c
        → (deploy_workload client adapter workloads strategy spec c).0 ≢ ok server
    unfolding build_service
    Taken-refuses spec c server taken h =
        let (made_it, served_it, after) =
          workload_deployed client adapter workloads strategy spec c server h in
        laws.create_service_twice (build_service spec (selector_labels strategy spec)) _
          (laws.create-Taken spec.server_id _ c taken) served_it

  module _ (sets : ServicesStay client.stateful_sets)
      (deployments : ServicesStay client.deployments) where
    plain-Taken :
        (spec : WorkloadSpec) (c : C) (server : RunningServer)
        → spec.runtime_hints.kubernetes_strategy ≢ "agones"
        → (deploy client adapter spec c).0 ≡ ok server
        → Taken spec.server_id (deploy client adapter spec c).1
    plain-Taken spec c server plain =
        plain_cases client adapter
          (λ (r : Result RunningServer × C). r.0 ≡ ok server → Taken spec.server_id r.1) spec c
          plain (deploy_workload-Taken client.stateful_sets "statefulset" sets spec c server)
          (deploy_workload-Taken client.deployments "deployment" deployments spec c server)

    plain_refuses :
        (spec : WorkloadSpec) (c : C) (server : RunningServer)
        → spec.runtime_hints.kubernetes_strategy ≢ "agones"
        → Taken spec.server_id c
        → (deploy client adapter spec c).0 ≢ ok server
    plain_refuses spec c server plain taken =
        plain_cases client adapter (λ (r : Result RunningServer × C). r.0 ≢ ok server) spec c plain
          (Taken-refuses client.stateful_sets "statefulset" sets spec c server taken)
          (Taken-refuses client.deployments "deployment" deployments spec c server taken)

    remove-Taken :
        (spec : WorkloadSpec) (project : String) (c : C) (b : Bool)
        → Taken spec.server_id c
        → (if b
            then Handled client adapter client.stateful_sets "statefulset" project spec.server_id c
            else Handled client adapter client.deployments "deployment" project spec.server_id c)
        → Taken spec.server_id (remove client adapter project spec.server_id c).1
    remove-Taken spec project c true taken h =
        subst (λ (r : Option GoError × C). Taken spec.server_id r.1) (sym h.1)
          (sets.delete-Taken spec.server_id spec.server_id c taken)
    remove-Taken spec project c false taken h =
        subst (λ (r : Option GoError × C). Taken spec.server_id r.1) (sym h.1)
          (deployments.delete-Taken spec.server_id spec.server_id c taken)

    -- A workload that has been removed cannot be deployed again: its service stays and keeps the name.
    -- After a deployment as a stateful set or as a deployment that answers a server, and a removal for
    -- its project, no such deployment under the same name answers a server. The cluster finds a created
    -- workload under its name with its labels, an object of one kind does not show among those of
    -- another, a service's name cannot be given twice, and services stay while workloads come and go.
    pub redeploy_refused :
        Creates client client.stateful_sets
        → Creates client client.deployments
        → Apart client
        → (spec again : WorkloadSpec) (project : String) (c : C) (server other : RunningServer)
          (e e' : GoError)
        → (deploy client adapter spec c).0 ≡ ok server
        → spec.runtime_hints.kubernetes_strategy ≢ "agones"
        → MadeFor spec project
        → client.get_game_server adapter.namespace spec.server_id c ≡ err e
        → client.stateful_sets.get adapter.namespace spec.server_id c ≡ err e'
        → again.server_id ≡ spec.server_id
        → again.runtime_hints.kubernetes_strategy ≢ "agones"
        → (deploy client adapter again
            (remove client adapter project spec.server_id (deploy client adapter spec c).1).1).0
          ≢ ok other
    redeploy_refused makes makes' apart spec again project c server other e e' h plain for
          none_named new same plain' =
        plain_refuses again _ other plain' (
          subst
            (λ n.
              Taken n
                (remove client adapter project spec.server_id (deploy client adapter spec c).1).1)
            (sym same)
            (remove-Taken spec project (deploy client adapter spec c).1
              (spec.runtime_hints.kubernetes_strategy == "statefulset")
              (plain-Taken spec c server plain h)
              (deploy-Handled client adapter makes makes' apart spec project c server e e' h plain
                for none_named new)))
