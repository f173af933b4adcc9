-- ===== src/Kubernetes/Deployed.antt =====
-- internal/adapters/out/runtime/kubernetes/kubernetes.go: what a deployment creates is what the other
-- operations find.
use gameserver_daemon.Common.{
  String, subst, Bool, ◌==◌, if◌then◌else◌, true, false, ◌≡◌, ◌≢◌, refl, sym, ap, ◌∙◌, ◌⊎◌, inl,
  inr, Option, none, some, arith, string_dec,
}
use gameserver_daemon.Common.Int.{pos}
use gameserver_daemon.Common.Dict.{get}
use gameserver_daemon.Common.Strings.{trim_space}
use gameserver_daemon.Errors.{GoError, Result, ok, err}
use gameserver_daemon.Labels.{project_id_key, environment_id_key}
use gameserver_daemon.Labels.RoundTrip.{get_laws}
use gameserver_daemon.Ports.{WorkloadSpec, RunningServer}
use gameserver_daemon.Kubernetes.Cluster.{Workload, Service, Workloads, Client, Adapter}
use gameserver_daemon.Kubernetes.Objects.{
  strategy_key, selector_labels, build_workload, build_service,
}
use gameserver_daemon.Kubernetes.Operations.{
  strategy_for, deploy_workload, after_workload, after_service, deploy,
}
use gameserver_daemon.Kubernetes.Scaled.{Handled, stateful_set-Handled, deployment-Handled}
use gameserver_daemon.Kubernetes.Authorized.{Matches, Live, strategy_of_match, strategy_for-Live}

-- What the documentation of the cluster says of creating objects: a workload that has been created is
-- found under its name with its labels, and creating an object shows in the lists of its kind alone.
pub record Creates {C : Type 0} (client : Client C) (workloads : Workloads C) : Type 0 where
  pub get-create :
      (namespace : String) (w : Workload) (c : C)
      → (workloads.create namespace w c).0 ≡ none
      → workloads.get namespace w.name (workloads.create namespace w c).1 ≡ ok w.labels
  pub get-create_service :
      (namespace n : String) (s : Service) (c : C)
      → workloads.get namespace n (client.create_service namespace s c).1
        ≡ workloads.get namespace n c
  pub game_server-create :
      (namespace n : String) (w : Workload) (c : C)
      → client.get_game_server namespace n (workloads.create namespace w c).1
        ≡ client.get_game_server namespace n c
  pub game_server-create_service :
      (namespace n : String) (s : Service) (c : C)
      → client.get_game_server namespace n (client.create_service namespace s c).1
        ≡ client.get_game_server namespace n c

-- Deployments and services do not show among the stateful sets.
pub record Apart {C : Type 0} (client : Client C) : Type 0 where
  pub stateful_set-create :
      (namespace n : String) (w : Workload) (c : C)
      → client.stateful_sets.get namespace n (client.deployments.create namespace w c).1
        ≡ client.stateful_sets.get namespace n c
  pub stateful_set-create_service :
      (namespace n : String) (s : Service) (c : C)
      → client.stateful_sets.get namespace n (client.create_service namespace s c).1
        ≡ client.stateful_sets.get namespace n c

-- The project that a deployment was made for, or its environment, as a text without white space
-- around it.
abbrev pub MadeFor : WorkloadSpec → String → Type 0
MadeFor spec project =
    (trim_space project ≡ project) × ((project ≡ spec.project_id) ⊎ (project ≡ spec.environment_id))

selector_labels-get :
    (strategy : String) (spec : WorkloadSpec)
    → (get (selector_labels strategy spec) strategy_key ≡ strategy)
      × (get (selector_labels strategy spec) project_id_key ≡ spec.project_id)
      × (get (selector_labels strategy spec) environment_id_key ≡ spec.environment_id)
unfolding selector_labels string_dec
selector_labels-get strategy spec = (simp get_laws, simp get_laws, simp get_laws)

selector_labels-Matches :
    (strategy project : String) (spec : WorkloadSpec)
    → MadeFor spec project
    → Matches project (selector_labels strategy spec)
selector_labels-Matches strategy project spec h = ground (
  arith,
  selector_labels-get strategy spec,
  ap trim_space (selector_labels-get strategy spec).1,
  ap trim_space (selector_labels-get strategy spec).2,
)

module _ {C : Type 0} (client : Client C) (adapter : Adapter) where
  -- What a deployment that succeeds has created.
  module _ (workloads : Workloads C) (strategy : String) (spec : WorkloadSpec) (c : C) where
    abbrev made : Option GoError × C
    made =
        workloads.create adapter.namespace
          (build_workload spec (pos 1) (selector_labels strategy spec)) c

    abbrev served : Option GoError × C
    served =
        client.create_service adapter.namespace (build_service spec (selector_labels strategy spec))
          made.1

    serviced :
        (server : RunningServer) (r : Option GoError × C)
        → (after_service client adapter spec r).0 ≡ ok server
        → (r.0 ≡ none) × ((after_service client adapter spec r).1 ≡ r.1)
    serviced server (none, d) h = (refl, refl)
    serviced server (some e, d) h = cc

    created :
        (server : RunningServer) (r : Option GoError × C)
        → (after_workload client adapter strategy spec r).0 ≡ ok server
        → let sent =
            client.create_service adapter.namespace
              (build_service spec (selector_labels strategy spec))
              r.1 in
          (r.0 ≡ none)
          × (sent.0 ≡ none)
          × ((after_workload client adapter strategy spec r).1 ≡ sent.1)
    created server (none, d) h =
        let (a, b) =
          serviced server
            (client.create_service adapter.namespace
              (build_service spec (selector_labels strategy spec)) d)
            h in
        (refl, a, b)
    created server (some e, d) h = cc

    pub workload_deployed :
        (server : RunningServer)
        → (deploy_workload client adapter workloads strategy spec c).0 ≡ ok server
        → (made.0 ≡ none)
          × (served.0 ≡ none)
          × ((deploy_workload client adapter workloads strategy spec c).1 ≡ served.1)
    unfolding deploy_workload
    workload_deployed server h = created server made h

    pub deployed_labels :
        Creates client workloads
        → (server : RunningServer)
        → (deploy_workload client adapter workloads strategy spec c).0 ≡ ok server
        → (workloads.get adapter.namespace spec.server_id
              (deploy_workload client adapter workloads strategy spec c).1
            ≡ ok (selector_labels strategy spec))
          × (client.get_game_server adapter.namespace spec.server_id
                (deploy_workload client adapter workloads strategy spec c).1
              ≡ client.get_game_server adapter.namespace spec.server_id c)
    unfolding build_workload
    deployed_labels laws server h =
        let (made_it, served_it, after) = workload_deployed server h in
        (
          ap (workloads.get adapter.namespace spec.server_id) after
              ∙ laws.get-create_service adapter.namespace spec.server_id _ made.1
              ∙ laws.get-create adapter.namespace
                  (build_workload spec (pos 1) (selector_labels strategy spec)) c made_it,
          ap (client.get_game_server adapter.namespace spec.server_id) after
              ∙ laws.game_server-create_service adapter.namespace spec.server_id _ made.1
              ∙ laws.game_server-create adapter.namespace spec.server_id _ c,
        )

  -- A resource that carries the labels of a strategy is found with this strategy.
  found_with :
      (strategy project : String) (spec : WorkloadSpec) (c : C)
      → MadeFor spec project
      → Live client adapter spec.server_id (selector_labels strategy spec) c
      → strategy_for client adapter project spec.server_id c ≡ ok strategy
  found_with strategy project spec c for live =
      strategy_for-Live client adapter project spec.server_id (selector_labels strategy spec) c live
      ∙ strategy_of_match project spec.server_id (selector_labels strategy spec)
          (selector_labels-Matches strategy project spec for)
      ∙ ap ok (selector_labels-get strategy spec).0

  -- `Deploy` on a strategy that is not Agones.
  deploy_plain :
      (spec : WorkloadSpec) (c : C)
      → spec.runtime_hints.kubernetes_strategy ≢ "agones"
      → deploy client adapter spec c ≡ (
          if spec.runtime_hints.kubernetes_strategy == "statefulset"
          then deploy_workload client adapter client.stateful_sets "statefulset" spec c
          else deploy_workload client adapter client.deployments "deployment" spec c)
  unfolding deploy
  deploy_plain spec c plain = ground arith

  -- What holds of both kinds of workloads holds of `Deploy`.
  pub plain_cases :
      (P : Result RunningServer × C → Type 0) (spec : WorkloadSpec) (c : C)
      → spec.runtime_hints.kubernetes_strategy ≢ "agones"
      → P (deploy_workload client adapter client.stateful_sets "statefulset" spec c)
      → P (deploy_workload client adapter client.deployments "deployment" spec c)
      → P (deploy client adapter spec c)
  plain_cases P spec c plain a b =
      subst P (sym (deploy_plain spec c plain))
        (go (spec.runtime_hints.kubernetes_strategy == "statefulset"))
    where
      go :
          (t : Bool)
          → P (
              if t
              then deploy_workload client adapter client.stateful_sets "statefulset" spec c
              else deploy_workload client adapter client.deployments "deployment" spec c)
      go true = a
      go false = b

  module _ (spec : WorkloadSpec) (project : String) (c : C) (server : RunningServer) (e : GoError)
      (for : MadeFor spec project)
      (none_named : client.get_game_server adapter.namespace spec.server_id c ≡ err e) where
    as_stateful_set :
        Creates client client.stateful_sets
        → (deploy_workload client adapter client.stateful_sets "statefulset" spec c).0 ≡ ok server
        → Handled client adapter client.stateful_sets "statefulset" project spec.server_id
            (deploy_workload client adapter client.stateful_sets "statefulset" spec c).1
    as_stateful_set laws h =
        let (labelled, same) =
          deployed_labels client.stateful_sets "statefulset" spec c laws server h in
        stateful_set-Handled client adapter project spec.server_id _
          (found_with "statefulset" project spec _ for (inr (e, same ∙ none_named, inl labelled)))

    as_deployment :
        Creates client client.deployments
        → Apart client
        → (e' : GoError) → client.stateful_sets.get adapter.namespace spec.server_id c ≡ err e'
        → (deploy_workload client adapter client.deployments "deployment" spec c).0 ≡ ok server
        → Handled client adapter client.deployments "deployment" project spec.server_id
            (deploy_workload client adapter client.deployments "deployment" spec c).1
    as_deployment laws apart e' new h =
        let (labelled, same) =
          deployed_labels client.deployments "deployment" spec c laws server h in
        let (made_it, served_it, after) =
          workload_deployed client.deployments "deployment" spec c server h in
        let still =
          ap (client.stateful_sets.get adapter.namespace spec.server_id) after
          ∙ apart.stateful_set-create_service adapter.namespace spec.server_id _ _
          ∙ apart.stateful_set-create adapter.namespace spec.server_id _ c
          ∙ new in
        deployment-Handled client adapter project spec.server_id _ (
          found_with "deployment" project spec _ for
            (inr (e, same ∙ none_named, inr (e', still, labelled))))

  -- What has been deployed as a stateful set or as a deployment is stopped and removed as that. After
  -- a deployment that answers a server, under a name that no game server and no stateful set had,
  -- stopping for the deployment's project or environment reads the scale of the workload of its own kind
  -- and, where it can be read, sends it back with zero replicas, wrapping errors, and removing
  -- deletes that workload. The cluster finds a created workload under its name with its labels, and
  -- an object of one kind does not show among those of another; the project is written without white
  -- space around it.
  pub deploy-Handled :
      Creates client client.stateful_sets
      → Creates client client.deployments
      → Apart client
      → (spec : WorkloadSpec) (project : String) (c : C) (server : RunningServer) (e e' : GoError)
      → (deploy client adapter spec c).0 ≡ ok server
      → spec.runtime_hints.kubernetes_strategy ≢ "agones"
      → MadeFor spec project
      → client.get_game_server adapter.namespace spec.server_id c ≡ err e
      → client.stateful_sets.get adapter.namespace spec.server_id c ≡ err e'
      → (if spec.runtime_hints.kubernetes_strategy == "statefulset"
          then Handled client adapter client.stateful_sets "statefulset" project spec.server_id
              (deploy client adapter spec c).1
          else Handled client adapter client.deployments "deployment" project spec.server_id
              (deploy client adapter spec c).1)
  deploy-Handled sets deployments apart spec project c server e e' h plain for none_named new =
      go (spec.runtime_hints.kubernetes_strategy == "statefulset") (deploy_plain spec c plain)
    where
      go :
          (b : Bool)
          → deploy client adapter spec c ≡ (
              if b
              then deploy_workload client adapter client.stateful_sets "statefulset" spec c
              else deploy_workload client adapter client.deployments "deployment" spec c)
          → (if b
              then Handled client adapter client.stateful_sets "statefulset" project spec.server_id
                  (deploy client adapter spec c).1
              else Handled client adapter client.deployments "deployment" project spec.server_id
                  (deploy client adapter spec c).1)
      go true same =
          subst
            (λ (r : Result RunningServer × C).
              Handled client adapter client.stateful_sets "statefulset" project spec.server_id r.1)
            (sym same)
            (as_stateful_set spec project c server e for none_named sets
              (sym (ap (λ (r : Result RunningServer × C). r.0) same) ∙ h))
      go false same =
          subst
            (λ (r : Result RunningServer × C).
              Handled client adapter client.deployments "deployment" project spec.server_id r.1)
            (sym same)
            (as_deployment spec project c server e for none_named deployments apart e' new
              (sym (ap (λ (r : Result RunningServer × C). r.0) same) ∙ h))
