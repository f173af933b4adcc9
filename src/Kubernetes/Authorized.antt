-- ===== src/Kubernetes/Authorized.antt =====
-- internal/adapters/out/runtime/kubernetes/kubernetes.go: which resources an operation may touch.
use gameserver_daemon.Common.{String, true, ◌≡◌, ◌≢◌, refl, sym, ◌∙◌, ◌⊎◌, inl, inr, some, arith}
use gameserver_daemon.Common.Dict.{Dict, get}
use gameserver_daemon.Common.Strings.{trim_space}
use gameserver_daemon.Errors.{GoError, is_error, project_mismatch, Result, ok, err}
use gameserver_daemon.Labels.{project_id_key, environment_id_key}
use gameserver_daemon.Kubernetes.Cluster.{LiveGameServer, Client, Adapter}
use gameserver_daemon.Kubernetes.Objects.{strategy_key}
use gameserver_daemon.Kubernetes.Operations.{
  mismatch_error, ensure_project_match, strategy_of, strategy_for, stop, remove, status, endpoint,
}

-- The labels name the project, up to white space around what they name, or no project has been given.
abbrev pub Matches : String → Dict String → Type 0
Matches project labels =
    (project ≡ "")
    ⊎ ((trim_space (get labels project_id_key) ≡ project)
        ⊎ (trim_space (get labels environment_id_key) ≡ project))

strategy_of-Matches :
    (project workload strategy : String) (labels : Dict String)
    → strategy_of project workload labels ≡ ok strategy
    → Matches project labels × (strategy ≡ get labels strategy_key)
unfolding strategy_of ensure_project_match
strategy_of-Matches project workload strategy labels h = (ground arith, ground arith)

pub strategy_of_match :
    (project workload : String) (labels : Dict String)
    → Matches project labels
    → strategy_of project workload labels ≡ ok (get labels strategy_key)
unfolding strategy_of ensure_project_match
strategy_of_match project workload labels h = ground arith

strategy_of_foreign :
    (project workload : String) (labels : Dict String)
    → project ≢ ""
    → trim_space (get labels project_id_key) ≢ project
    → trim_space (get labels environment_id_key) ≢ project
    → strategy_of project workload labels ≡ err (mismatch_error project labels workload)
unfolding strategy_of ensure_project_match
strategy_of_foreign project workload labels given other elsewhere = ground arith

mismatch_error_lem :
    (project workload : String) (labels : Dict String)
    → is_error project_mismatch (mismatch_error project labels workload) ≡ true
unfolding is_error
mismatch_error_lem project workload labels = refl

module _ {C : Type 0} (client : Client C) (adapter : Adapter) where
  -- The labels of the resource that runs the workload: those of the game server of this name, or else
  -- of the stateful set, or else of the deployment.
  abbrev pub Live : String → Dict String → C → Type 0
  Live workload labels c =
      ((gs : LiveGameServer) × (client.get_game_server adapter.namespace workload c ≡ ok gs)
        × (gs.labels ≡ labels))
      ⊎ ((e : GoError) × (client.get_game_server adapter.namespace workload c ≡ err e)
          × ((client.stateful_sets.get adapter.namespace workload c ≡ ok labels)
              ⊎ ((e' : GoError) × (client.stateful_sets.get adapter.namespace workload c ≡ err e')
                  × (client.deployments.get adapter.namespace workload c ≡ ok labels))))

  pub strategy_for-Live :
      (project workload : String) (labels : Dict String) (c : C)
      → Live workload labels c
      → strategy_for client adapter project workload c ≡ strategy_of project workload labels
  unfolding strategy_for
  strategy_for-Live project workload labels c (inl (gs, found, same)) =
      rw (strategy_for, found, sym same) refl
  strategy_for-Live project workload labels c (inr (e, none_here, inl found)) =
      rw (strategy_for, none_here, found) refl
  strategy_for-Live project workload labels c (inr (e, none_here, inr (e', neither, found))) =
      rw (strategy_for, none_here, neither, found) refl

  pub found-Live :
      (project workload strategy : String) (c : C)
      → strategy_for client adapter project workload c ≡ ok strategy
      → (labels : Dict String) × Live workload labels c
        × (strategy_of project workload labels ≡ ok strategy)
  unfolding strategy_for
  found-Live project workload strategy c h =
      first (client.get_game_server adapter.namespace workload c) refl
    where
      second :
          (e : GoError) (r : Result (Dict String)) (q : Result (Dict String))
          → client.get_game_server adapter.namespace workload c ≡ err e
          → client.stateful_sets.get adapter.namespace workload c ≡ r
          → client.deployments.get adapter.namespace workload c ≡ q
          → (labels : Dict String) × Live workload labels c
            × (strategy_of project workload labels ≡ ok strategy)
      second e (ok labels) q k l m = (labels, inr (e, k, inl l), ground arith)
      second e (err e') (ok labels) k l m = (labels, inr (e, k, inr (e', l, m)), ground arith)
      second e (err e') (err e'') k l m = absurd (ground arith)

      first :
          (r : Result LiveGameServer)
          → client.get_game_server adapter.namespace workload c ≡ r
          → (labels : Dict String) × Live workload labels c
            × (strategy_of project workload labels ≡ ok strategy)
      first (ok gs) k = (gs.labels, inl (gs, k, refl), ground arith)
      first (err e) k =
          second e (client.stateful_sets.get adapter.namespace workload c)
            (client.deployments.get adapter.namespace workload c) k refl refl

  -- Where a strategy is found for a project and a workload, it is the one that the label of a live
  -- resource of the workload's name names, and that resource's project label or its environment label
  -- is the project, without the white space around it, unless no project was given.
  pub strategy_for-Matches :
      (project workload strategy : String) (c : C)
      → strategy_for client adapter project workload c ≡ ok strategy
      → (labels : Dict String) × Live workload labels c
        × Matches project labels
        × (strategy ≡ get labels strategy_key)
  strategy_for-Matches project workload strategy c h =
      let (labels, live, found) = found-Live project workload strategy c h in
      let (matching, named) = strategy_of-Matches project workload strategy labels found in
      (labels, live, matching, named)

  -- Where the live resource of a workload belongs neither to the project nor to the environment that
  -- is asked for, stopping and removing it, its status and its endpoint all answer a project mismatch,
  -- and the cluster is left as it is.
  pub foreign_untouched :
      (project workload : String) (labels : Dict String) (c : C)
      → Live workload labels c
      → project ≢ ""
      → trim_space (get labels project_id_key) ≢ project
      → trim_space (get labels environment_id_key) ≢ project
      → (e : GoError) × (is_error project_mismatch e ≡ true)
        × (stop client adapter project workload c ≡ (some e, c))
        × (remove client adapter project workload c ≡ (some e, c))
        × (status client adapter project workload c ≡ err e)
        × (endpoint client adapter project workload c ≡ err e)
  unfolding stop remove status endpoint
  foreign_untouched project workload labels c live given other elsewhere =
      let found =
        strategy_for-Live project workload labels c live
        ∙ strategy_of_foreign project workload labels given other elsewhere in
      (
        mismatch_error project labels workload,
        mismatch_error_lem project workload labels,
        rw (stop, found) refl,
        rw (remove, found) refl,
        rw (status, found) refl,
        rw (endpoint, found) refl,
      )
