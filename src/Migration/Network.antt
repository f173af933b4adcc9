-- ===== src/Migration/Network.antt =====
-- cmd/kleffctl/main.go: the network of the project that containers are moved to.
use gameserver_daemon.Common.{
  String, ◌≡◌, refl, sym, ◌∙◌, subst, none, List, [], ◌∷◌, arith, string_dec,
}
use gameserver_daemon.Common.Dict.{Dict, get}
use gameserver_daemon.Errors.{Result, ok, err}
use gameserver_daemon.Labels.{project_id_key}
use gameserver_daemon.Labels.RoundTrip.{get_laws}
use gameserver_daemon.Migration.{Engine, project_network}
use gameserver_daemon.Migration.Command.{network_labels, ensure_project_network}

module _ {X C : Type 0} (engine : Engine X C) (clock : C → String) where
  -- A network with the project's label is there, or one has been created that has the label.
  pub data HasNetwork (project : String) (start : C) : C → Type 0 where
    was_there :
        {n : String} {ns : List String}
        → engine.list_networks (project_id_key, project) start ≡ ok (n ∷ ns)
        → HasNetwork project start start
    is_new :
        {labels : Dict String} {c : C}
        → engine.list_networks (project_id_key, project) start ≡ ok []
        → get labels project_id_key ≡ project
        → engine.create_network (project_network project) labels start ≡ (none, c)
        → HasNetwork project start c

  network_labels-project :
      (project slug : String) → get (network_labels project slug) project_id_key ≡ project
  unfolding network_labels string_dec
  network_labels-project project slug = simp get_laws

  pub ensured-HasNetwork :
      (project slug : String) (start c : C)
      → ensure_project_network engine clock (project_network project) project slug start ≡ (none, c)
      → HasNetwork project start c
  unfolding ensure_project_network
  ensured-HasNetwork project slug start c h =
      go (engine.list_networks (project_id_key, project) start) refl
    where
      go :
          (r : Result (List String))
          → engine.list_networks (project_id_key, project) start ≡ r
          → HasNetwork project start c
      go (err e) k = absurd (ground (arith, h, k))
      go (ok []) k =
          is_new k (network_labels-project project slug)
            (sym (rw (k, ensure_project_network) refl) ∙ h)
      go (ok (n ∷ ns)) k =
          let same : start ≡ c = ground (arith, h, k) in
          subst (HasNetwork project start) same (was_there k)
