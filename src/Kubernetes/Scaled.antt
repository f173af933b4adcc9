-- ===== src/Kubernetes/Scaled.antt =====
-- internal/adapters/out/runtime/kubernetes/kubernetes.go: what stopping and removing call for a workload
-- whose strategy has been found.
use gameserver_daemon.Common.{
  String, ◌<>◌, ◌≡◌, refl, sym, ◌∙◌, subst, ◌⊎◌, inl, inr, Option, none, some, string_dec,
}
use gameserver_daemon.Common.Int.{pos}
use gameserver_daemon.Errors.{GoError, wrapped, Result, ok, err}
use gameserver_daemon.Kubernetes.Cluster.{Scale, Workloads, Client, Adapter}
use gameserver_daemon.Kubernetes.Operations.{
  strategy_for, scale_workload, after_scale, stop, remove, without_value,
}

module _ {C : Type 0} (client : Client C) (adapter : Adapter) where
  -- What an update of a workload's scale comes to: its error is wrapped, and nothing else is called.
  abbrev pub Answered : String → Option GoError × C → Option GoError × C → Type 0
  Answered kind update answer =
      ((update.0 ≡ none) × (answer ≡ (none, update.1)))
      ⊎ ((x : GoError) × (update.0 ≡ some x)
          × (answer ≡ (some (wrapped ("failed to scale " <> kind <> ": ") x ""), update.1)))

  -- Stopping reads the workload's scale and sends it back with the number of replicas set to zero; where
  -- it cannot be read, nothing is sent. Removing deletes the workload.
  abbrev pub Handled : Workloads C → String → String → String → C → Type 0
  Handled workloads kind project id c =
      (((x : GoError) × (workloads.get_scale adapter.namespace id c ≡ err x)
          × (stop client adapter project id c
              ≡ (some (wrapped ("failed to get " <> kind <> " scale: ") x ""), c)))
        ⊎ ((scale : Scale) × (workloads.get_scale adapter.namespace id c ≡ ok scale)
            × Answered kind
                (workloads.update_scale adapter.namespace id (record scale { replicas = pos 0 }) c)
                (stop client adapter project id c)))
      × (remove client adapter project id c ≡ workloads.delete adapter.namespace id c)

  scaled-Answered :
      (kind id : String) (r : Option GoError × C)
      → Answered kind r (without_value (after_scale client adapter kind id (pos 0) r))
  scaled-Answered kind id (none, c) = inl (refl, refl)
  scaled-Answered kind id (some x, c) = inr (x, refl, refl)

  scaled-Handled :
      (workloads : Workloads C) (kind project id : String) (c : C)
      → stop client adapter project id c
        ≡ without_value (scale_workload client adapter workloads kind id (pos 0) c)
      → remove client adapter project id c ≡ workloads.delete adapter.namespace id c
      → Handled workloads kind project id c
  unfolding scale_workload
  scaled-Handled workloads kind project id c stopped removed =
      (go (workloads.get_scale adapter.namespace id c) refl, removed)
    where
      go :
          (r : Result Scale)
          → workloads.get_scale adapter.namespace id c ≡ r
          → ((x : GoError) × (workloads.get_scale adapter.namespace id c ≡ err x)
              × (stop client adapter project id c
                  ≡ (some (wrapped ("failed to get " <> kind <> " scale: ") x ""), c)))
            ⊎ ((scale : Scale) × (workloads.get_scale adapter.namespace id c ≡ ok scale)
                × Answered kind
                    (workloads.update_scale adapter.namespace id
                      (record scale { replicas = pos 0 })
                      c)
                    (stop client adapter project id c))
      go (err x) e = inl (x, e, stopped ∙ rw (scale_workload, e) refl)
      go (ok scale) e = inr (
        scale,
        e,
        subst
            (Answered kind
              (workloads.update_scale adapter.namespace id (record scale { replicas = pos 0 }) c))
            (sym (stopped ∙ rw (scale_workload, e) refl))
            (scaled-Answered kind id
              (workloads.update_scale adapter.namespace id (record scale { replicas = pos 0 }) c)),
      )

  pub stateful_set-Handled :
      (project id : String) (c : C)
      → strategy_for client adapter project id c ≡ ok "statefulset"
      → Handled client.stateful_sets "statefulset" project id c
  unfolding stop remove string_dec
  stateful_set-Handled project id c found =
      scaled-Handled client.stateful_sets "statefulset" project id c (rw (stop, found) refl)
        (rw (remove, found) refl)

  pub deployment-Handled :
      (project id : String) (c : C)
      → strategy_for client adapter project id c ≡ ok "deployment"
      → Handled client.deployments "deployment" project id c
  unfolding stop remove string_dec
  deployment-Handled project id c found =
      scaled-Handled client.deployments "deployment" project id c (rw (stop, found) refl)
        (rw (remove, found) refl)
