-- ===== src/Docker/Scoped.antt =====
-- internal/adapters/out/runtime/docker/docker.go: which network a workload's container goes to.
use gameserver_daemon.Common.{
  String, ◌≡◌, ◌≢◌, refl, ◌⊎◌, inl, inr, List, Option, none, some, [], ◌∷◌, arith, string_dec,
}
use gameserver_daemon.Common.Dict.{Dict}
use gameserver_daemon.Errors.{GoError, Result, ok, err}
use gameserver_daemon.Labels.{namespace_id_key, project_id_key}
use gameserver_daemon.Ports.{ProjectScope, WorkloadSpec}
use gameserver_daemon.FileApi.Disk.{FileSystem}
use gameserver_daemon.Docker.Engine.{Network, DockerClient, Adapter}
use gameserver_daemon.Docker.Networks.{
  namespace_network_name, project_network_name, namespace_created, project_created,
  ensure_namespace_scope, ensure_project_scope, namespace_labels, project_labels,
}
use gameserver_daemon.Docker.Operations.{scope_for}

module _ {C F : Type 0} (client : DockerClient C) (fs : FileSystem F) (adapter : Adapter) where
  -- How a network is found for a tenant: the first one that the engine lists under the tenant's label,
  -- or, where it lists none, one of a given name.
  abbrev pub Named : String → String → (String → Type 0) → C → ProjectScope → Type 0
  Named key id IsNew c scope =
      ((n : Network) × (ns : List Network) × (client.network_list (key, id) c ≡ ok (n ∷ ns))
        × (scope.network_name ≡ n.name))
      ⊎ ((client.network_list (key, id) c ≡ ok []) × IsNew scope.network_name)

  -- The network of a workload: the node's if it has one, else that of the namespace, else, where no
  -- namespace is named, that of the project, for which the network `bridge` may have to do.
  pub data HasNetwork (spec : WorkloadSpec) (c : C) (scope : ProjectScope) : Type 0 where
    of_node :
        adapter.node_network ≢ ""
        → scope.network_name ≡ adapter.node_network
        → HasNetwork spec c scope
    of_namespace :
        adapter.node_network ≡ ""
        → spec.namespace_id ≢ ""
        → Named namespace_id_key spec.namespace_id
            (λ name. name ≡ namespace_network_name spec.namespace_id)
            c
            scope
        → HasNetwork spec c scope
    of_project :
        adapter.node_network ≡ ""
        → spec.namespace_id ≡ ""
        → Named project_id_key spec.project_id
            (λ name. (name ≡ project_network_name spec.project_id) ⊎ (name ≡ "bridge"))
            c
            scope
        → HasNetwork spec c scope

  namespace_created_lem :
      (id name : String) (labels : Dict String) (r : Option GoError × C) (scope : ProjectScope)
      → (namespace_created client id name labels r).0 ≡ ok scope
      → scope.network_name ≡ name
  unfolding namespace_created
  namespace_created_lem id name labels (none, c) scope h = ground arith
  namespace_created_lem id name labels (some e, c) scope h = ground arith

  project_created_lem :
      (id slug name : String) (labels : Dict String) (r : Option GoError × C) (scope : ProjectScope)
      → (project_created client id slug name labels r).0 ≡ ok scope
      → (scope.network_name ≡ name) ⊎ (scope.network_name ≡ "bridge")
  unfolding project_created
  project_created_lem id slug name labels (none, c) scope h = ground arith
  project_created_lem id slug name labels (some e, c) scope h = ground arith

  ensure_namespace_scope_lem :
      (id : String) (c : C) (scope : ProjectScope)
      → (ensure_namespace_scope client adapter id c).0 ≡ ok scope
      → Named namespace_id_key id (λ name. name ≡ namespace_network_name id) c scope
  unfolding ensure_namespace_scope
  ensure_namespace_scope_lem id c scope h = go (client.network_list (namespace_id_key, id) c) refl
    where
      go :
          (r : Result (List Network))
          → client.network_list (namespace_id_key, id) c ≡ r
          → Named namespace_id_key id (λ name. name ≡ namespace_network_name id) c scope
      go (err e) k = absurd (ground (arith, h, k))
      go (ok []) k = inr (
        k,
        namespace_created_lem id (namespace_network_name id) (namespace_labels client adapter id)
            (client.network_create (namespace_network_name id) (namespace_labels client adapter id)
              c)
            scope (ground (arith, h, k)),
      )
      go (ok (n ∷ ns)) k = inl (n, ns, k, ground (arith, h, k))

  ensure_project_scope_lem :
      (id slug : String) (c : C) (scope : ProjectScope)
      → (ensure_project_scope client adapter id slug c).0 ≡ ok scope
      → Named project_id_key id
          (λ name. (name ≡ project_network_name id) ⊎ (name ≡ "bridge"))
          c
          scope
  unfolding ensure_project_scope
  ensure_project_scope_lem id slug c scope h = go (client.network_list (project_id_key, id) c) refl
    where
      go :
          (r : Result (List Network))
          → client.network_list (project_id_key, id) c ≡ r
          → Named project_id_key id
              (λ name. (name ≡ project_network_name id) ⊎ (name ≡ "bridge"))
              c
              scope
      go (err e) k = absurd (ground (arith, h, k))
      go (ok []) k = inr (
        k,
        project_created_lem id slug (project_network_name id)
            (project_labels client adapter id slug)
            (client.network_create (project_network_name id) (project_labels client adapter id slug)
              c)
            scope (ground (arith, h, k)),
      )
      go (ok (n ∷ ns)) k = inl (n, ns, k, ground (arith, h, k))

  pub scope_for-HasNetwork :
      (spec : WorkloadSpec) (c : C) (scope : ProjectScope)
      → (scope_for client fs adapter spec c).0 ≡ ok scope
      → HasNetwork spec c scope
  unfolding scope_for
  scope_for-HasNetwork spec c scope h = elim (string_dec adapter.node_network "") [
    | no given ↦ of_node given (ground arith)
    | yes absent ↦ elim (string_dec spec.namespace_id "") [
      | no named ↦
          of_namespace absent named
            (ensure_namespace_scope_lem spec.namespace_id c scope (ground arith))
      | yes unnamed ↦
          of_project absent unnamed
            (ensure_project_scope_lem spec.project_id spec.project_slug c scope (ground arith))
    ]
  ]
