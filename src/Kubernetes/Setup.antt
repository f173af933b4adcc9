-- ===== src/Kubernetes/Setup.antt =====
-- internal/adapters/out/runtime/kubernetes/kubernetes.go: how the adapter comes by its two clients.
use gameserver_daemon.Common.{String, ◌==◌, if◌then◌else◌}
use gameserver_daemon.Common.Strings.{has_prefix}
use gameserver_daemon.Errors.{wrapped, Result, ok, err}
use gameserver_daemon.Kubernetes.Cluster.{Adapter}

-- What is used of client-go: configurations `X`, dynamic clients `D` and typed clients `T`.
pub record Connector (X D T : Type 0) : Type 0 where
  pub in_cluster : Result X
  pub with_host : String → X
  pub from_file : String → Result X
  pub new_dynamic : X → Result D
  pub new_typed : X → Result T

abbrev wrap_failed : {A : Type 0} → String → Result A → Result A
wrap_failed before (ok a) = ok a
wrap_failed before (err e) = err (wrapped before e "")

module _ {X D T : Type 0} (connector : Connector X D T) where
  -- `buildConfig`
  unfoldable pub build_config : String → Result X
  unfolding has_prefix
  build_config kubeconfig =
      if kubeconfig == ""
      then wrap_failed "failed to build in-cluster config: " connector.in_cluster
      else if has_prefix kubeconfig "http"
      then ok (connector.with_host kubeconfig)
      else wrap_failed "failed to build kubeconfig: " (connector.from_file kubeconfig)

  abbrev with_typed : D → Adapter → Result T → Result (D × T × Adapter)
  with_typed dynamic adapter (err e) = err (wrapped "failed to create typed client: " e "")
  with_typed dynamic adapter (ok typed) = ok (dynamic, typed, adapter)

  abbrev with_clients : X → Adapter → Result D → Result (D × T × Adapter)
  with_clients config adapter (err e) = err (wrapped "failed to create dynamic client: " e "")
  with_clients config adapter (ok dynamic) = with_typed dynamic adapter (connector.new_typed config)

  -- `New`
  unfoldable pub new : String → String → String → Result (D × T × Adapter)
  unfolding build_config
  new kubeconfig namespace node_id = elim (build_config kubeconfig) [
    | err e ↦ err e
    | ok config ↦
        with_clients config (record { namespace = namespace; node_id = node_id })
          (connector.new_dynamic config)
  ]
