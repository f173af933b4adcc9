-- ===== src/Docker/Shared.antt =====
-- internal/adapters/out/runtime/docker/docker.go: whom a project's network is for, and which networks go.
use gameserver_daemon.Common.{
  String, ◌<>◌, true, false, ◌≡◌, ◌≢◌, refl, sym, ap, ◌∙◌, some, List, [], ◌∷◌, All, arith,
  string_dec,
}
use gameserver_daemon.Common.Dict.{Dict}
use gameserver_daemon.Errors.{GoError, ok}
use gameserver_daemon.Labels.{project_id_key, managed_by_key, managed_by_value}
use gameserver_daemon.FileApi.Scope.{short_id}
use gameserver_daemon.Docker.Engine.{Network, DockerClient, Adapter}
use gameserver_daemon.Docker.Networks.{
  project_network_name, project_labels, already_exists, scope_named, ensure_project_scope,
  project_created, is_unused, prune_networks, prune_unused_project_networks,
}

module _ {C : Type 0} (client : DockerClient C) where
  ensured :
      (adapter : Adapter) (q slug : String) (s : C)
      → q ≢ ""
      → client.network_list (project_id_key, q) s ≡ ok []
      → ensure_project_scope client adapter q slug s
        ≡ project_created client q slug
            (project_network_name q)
            (project_labels client adapter q slug)
            (client.network_create
              (project_network_name q)
              (project_labels client adapter q slug)
              s)
  unfolding ensure_project_scope
  ensured adapter q slug s named none_listed = elim (string_dec q "") [
    | yes p ↦ absurd (named p)
    | no n ↦ ground arith
  ]

  tolerated :
      (id slug name : String) (labels : Dict String) (e : GoError) (s : C)
      → already_exists e ≡ true
      → project_created client id slug name labels (some e, s) ≡ (ok (scope_named id slug name), s)
  unfolding project_created
  tolerated id slug name labels e s known = rw known refl

  -- Two projects whose ids agree in the first twelve characters that are not dashes share a network:
  -- where the engine has none labelled for the second project and says of the name that it already
  -- exists, the second project is given the first one's network.
  pub collision_shares :
      (adapter : Adapter) (p q slug : String) (s s' : C) (e : GoError)
      → q ≢ ""
      → short_id p ≡ short_id q
      → client.network_list (project_id_key, q) s ≡ ok []
      → client.network_create (project_network_name q) (project_labels client adapter q slug) s
        ≡ (some e, s')
      → already_exists e ≡ true
      → ensure_project_scope client adapter q slug s
        ≡ (ok (scope_named q slug (project_network_name p)), s')
  unfolding project_network_name
  collision_shares adapter p q slug s s' e named same none_listed taken known =
      ensured adapter q slug s named none_listed
      ∙ ap
          (project_created client q slug (project_network_name q)
            (project_labels client adapter q slug))
          taken
      ∙ tolerated q slug (project_network_name q) (project_labels client adapter q slug) e s' known
      ∙ ap (λ i. (ok (scope_named q slug ("kleff_proj_" <> i)), s')) (sym same)

  spared :
      (ns : List Network) (s : C)
      → All (λ n. is_unused client n s ≡ false) ns
      → prune_networks client ns s ≡ (0, s)
  unfolding prune_networks
  spared [] s h = refl
  spared (n ∷ ns) s h = rw (h.0, spared ns s h.1) refl

  -- Pruning leaves the engine as it is if every network that the daemon manages has a container attached,
  -- cannot be inspected, or has a name that is not a project network's.
  pub prune_spares :
      (ns : List Network) (s : C)
      → client.network_list (managed_by_key, managed_by_value) s ≡ ok ns
      → All (λ n. is_unused client n s ≡ false) ns
      → prune_unused_project_networks client s ≡ (ok 0, s)
  unfolding prune_unused_project_networks
  prune_spares ns s listing h = rw (listing, prune_unused_project_networks, spared ns s h) refl
