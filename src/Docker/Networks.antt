-- ===== src/Docker/Networks.antt =====
-- internal/adapters/out/runtime/docker/docker.go: the networks of namespaces and projects.
use gameserver_daemon.Common.{
  ℕ, ◌+◌, String, ◌<>◌, Bool, true, false, not, ◌&&◌, ◌||◌, ltb, Option, none, some, List, [], ◌∷◌,
  ◌==◌, if◌then◌else◌,
}
use gameserver_daemon.Common.Dict.{Dict, insert}
use gameserver_daemon.Common.Strings.{contains, to_lower, has_prefix}
use gameserver_daemon.Errors.{GoError, failure, wrapped, error_text, Result, ok, err}
use gameserver_daemon.Labels.{
  managed_by_key, managed_by_value, namespace_id_key, project_id_key, environment_id_key,
  node_id_key, project_slug_key, set_if,
}
use gameserver_daemon.Ports.{ProjectScope}
use gameserver_daemon.FileApi.Scope.{short_id}
use gameserver_daemon.Docker.Engine.{Network, DockerClient, Adapter}

-- `namespaceNetworkName`
unfoldable pub namespace_network_name : String → String
namespace_network_name namespace = "kleff_ns_" <> short_id namespace

-- `projectNetworkName`
unfoldable pub project_network_name : String → String
project_network_name project = "kleff_proj_" <> short_id project

-- `isAddressPoolExhaustedError`
unfoldable pub is_address_pool_exhausted : GoError → Bool
unfolding to_lower contains
is_address_pool_exhausted e =
    contains (to_lower (error_text e)) "all predefined address pools have been fully subnetted"
    || contains (to_lower (error_text e)) "non-overlapping ipv4 address pool"

abbrev pub already_exists : GoError → Bool
already_exists e = contains (error_text e) "already exists"

-- The creation has worked, or somebody else was faster.
abbrev pub is_there : Option GoError → Bool
is_there none = true
is_there (some e) = already_exists e

abbrev pub scope_named : String → String → String → ProjectScope
scope_named id slug name = record { project_id = id; project_slug = slug; network_name = name }

module _ {C : Type 0} (client : DockerClient C) where
  -- Whether the removal of a network in `pruneUnusedProjectNetworks` counts.
  abbrev one_if_done : Option GoError × C → ℕ × C
  one_if_done (none, c) = (1, c)
  one_if_done (some e, c) = (0, c)

  -- The network is one of a project, and no container is attached to it.
  unfoldable pub is_unused : Network → C → Bool
  is_unused n c = has_prefix n.name "kleff_proj_" && (elim (client.network_inspect n.id c) [
    | err e ↦ false
    | ok attached ↦ not (ltb 0 attached)
  ])

  unfoldable pub prune_networks : List Network → C → ℕ × C
  unfolding is_unused
  prune_networks [] c = (0, c)
  prune_networks (n ∷ ns) c =
      let (k, c') = if is_unused n c then one_if_done (client.network_remove n.id c) else (0, c) in
      let (m, c'') = prune_networks ns c' in (k + m, c'')

  -- `pruneUnusedProjectNetworks`
  unfoldable pub prune_unused_project_networks : C → Result ℕ × C
  unfolding prune_networks
  prune_unused_project_networks c =
      elim (client.network_list (managed_by_key, managed_by_value) c) [
        | err e ↦ (err (wrapped "failed to list managed networks: " e ""), c)
        | ok ns ↦ let (k, c') = prune_networks ns c in (ok k, c')
      ]

  abbrev pub after_prune : C → C
  after_prune c = (prune_unused_project_networks c).1

  abbrev namespace_retried : String → String → Option GoError × C → Result ProjectScope × C
  namespace_retried id name (none, c) = (ok (scope_named id "" name), c)
  namespace_retried id name (some e, c) = (
    if already_exists e
        then ok (scope_named id "" name)
        else err (wrapped "failed to create namespace network after prune: " e ""),
    c,
  )

  -- What `EnsureNamespaceScope` does after its first try to create the network.
  unfoldable pub namespace_created :
      String → String → Dict String → Option GoError × C → Result ProjectScope × C
  unfolding is_address_pool_exhausted prune_unused_project_networks
  namespace_created id name labels (none, c) = (ok (scope_named id "" name), c)
  namespace_created id name labels (some e, c) =
      if already_exists e
      then (ok (scope_named id "" name), c)
      else if is_address_pool_exhausted e
      then namespace_retried id name (client.network_create name labels (after_prune c))
      else (err (wrapped "failed to create namespace network: " e ""), c)

  -- The last resort is the network `bridge`; the error is that of the first try.
  abbrev project_retried :
      String → String → String → GoError → Option GoError × C → Result ProjectScope × C
  project_retried id slug name e (r, c) = (
    if is_there r
        then ok (scope_named id slug name)
        else (elim (client.network_inspect "bridge" c) [
          | ok n ↦ ok (scope_named id slug "bridge")
          | err e' ↦ err (wrapped "failed to create project network: " e "")
        ]),
    c,
  )

  -- What `EnsureProjectScope` does after its first try.
  unfoldable pub project_created :
      String → String → String → Dict String → Option GoError × C → Result ProjectScope × C
  unfolding is_address_pool_exhausted prune_unused_project_networks
  project_created id slug name labels (none, c) = (ok (scope_named id slug name), c)
  project_created id slug name labels (some e, c) =
      if already_exists e
      then (ok (scope_named id slug name), c)
      else if is_address_pool_exhausted e
      then project_retried id slug name e (client.network_create name labels (after_prune c))
      else (err (wrapped "failed to create project network: " e ""), c)

  module _ (adapter : Adapter) where
    abbrev pub namespace_labels : String → Dict String
    namespace_labels id =
        insert node_id_key adapter.node_id
          (insert namespace_id_key id (insert managed_by_key managed_by_value []))

    abbrev pub project_labels : String → String → Dict String
    project_labels id slug = set_if project_slug_key slug (
        insert node_id_key adapter.node_id (
          insert environment_id_key id
            (insert project_id_key id (insert managed_by_key managed_by_value []))))

    -- `EnsureNamespaceScope`
    unfoldable pub ensure_namespace_scope : String → C → Result ProjectScope × C
    unfolding namespace_created namespace_network_name
    ensure_namespace_scope id c =
        if id == ""
        then (err (failure "namespace id is required"), c)
        else (elim (client.network_list (namespace_id_key, id) c) [
          | err e ↦ (err (wrapped "failed to list namespace networks: " e ""), c)
          | ok (n ∷ ns) ↦ (ok (scope_named id "" n.name), c)
          | ok [] ↦
              namespace_created id (namespace_network_name id) (namespace_labels id)
                (client.network_create (namespace_network_name id) (namespace_labels id) c)
        ])

    -- `EnsureProjectScope`
    unfoldable pub ensure_project_scope : String → String → C → Result ProjectScope × C
    unfolding project_created project_network_name
    ensure_project_scope id slug c =
        if id == ""
        then (err (failure "project id is required"), c)
        else (elim (client.network_list (project_id_key, id) c) [
          | err e ↦ (err (wrapped "failed to list networks: " e ""), c)
          | ok (n ∷ ns) ↦ (ok (scope_named id slug n.name), c)
          | ok [] ↦
              project_created id slug (project_network_name id) (project_labels id slug)
                (client.network_create (project_network_name id) (project_labels id slug) c)
        ])

  abbrev unless_failed : String → (C → Option GoError × C) → Option GoError × C → Option GoError × C
  unless_failed name rest (none, c) = rest c
  unless_failed name rest (some e, c) =
      (some (wrapped ("failed to remove project network " <> name <> ": ") e ""), c)

  -- The loop of `TeardownProjectScope`, which stops at the first error.
  unfoldable pub remove_networks : List Network → C → Option GoError × C
  remove_networks [] c = (none, c)
  remove_networks (n ∷ ns) c =
      unless_failed n.name (remove_networks ns) (client.network_remove n.id c)

  -- `TeardownProjectScope`
  unfoldable pub teardown_project_scope : String → C → Option GoError × C
  unfolding remove_networks
  teardown_project_scope id c =
      if id == ""
      then (some (failure "project id is required"), c)
      else (elim (client.network_list (project_id_key, id) c) [
        | err e ↦ (some (wrapped "failed to list project networks: " e ""), c)
        | ok ns ↦ remove_networks ns c
      ])
