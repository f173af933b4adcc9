-- ===== src/Kubernetes/Agones.antt =====
-- internal/adapters/out/runtime/kubernetes/kubernetes.go: game servers are up once they are answered.
use gameserver_daemon.Common.{
  String, subst, true, ◌≡◌, refl, sym, ap, ◌∙◌, Option, none, some, arith, string_dec,
}
use gameserver_daemon.Errors.{GoError, Result, ok, err}
use gameserver_daemon.Ports.{WorkloadSpec, RunningServer}
use gameserver_daemon.Kubernetes.Cluster.{LiveGameServer, Client, Adapter, PollsFaithfully}
use gameserver_daemon.Kubernetes.Objects.{server_labels}
use gameserver_daemon.Kubernetes.Operations.{
  is_ready, wait_for_agones_ready, waited, after_game_server, deploy_agones, deploy, start,
  running_as,
}

module _ {C : Type 0} (client : Client C) (adapter : Adapter) where
  -- The game server of this name is live, and its state is "Ready".
  abbrev pub IsReady : String → C → Type 0
  IsReady name c =
      (gs : LiveGameServer) × (client.get_game_server adapter.namespace name c ≡ ok gs)
      × (gs.state ≡ "Ready")

  is_ready-IsReady :
      (name : String) (c : C) → is_ready client adapter name c ≡ true → IsReady name c
  unfolding is_ready
  is_ready-IsReady name c h = go (client.get_game_server adapter.namespace name c) refl
    where
      go :
          (r : Result LiveGameServer)
          → client.get_game_server adapter.namespace name c ≡ r
          → IsReady name c
      go (ok gs) e = (gs, e, ground arith)
      go (err x) e = absurd (ground arith)

  agones_branch :
      (spec : WorkloadSpec) (c : C)
      → spec.runtime_hints.kubernetes_strategy ≡ "agones"
      → (deploy client adapter spec c ≡ deploy_agones client adapter spec c)
        × (start client adapter spec c ≡ deploy_agones client adapter spec c)
  unfolding deploy start string_dec
  agones_branch spec c agones = (rw (deploy, agones) refl, rw (start, agones) refl)

  module _ (faithful : PollsFaithfully client) (spec : WorkloadSpec) (server : RunningServer) where
    waited-IsReady :
        (c : C) (r : Option GoError × C)
        → client.poll (is_ready client adapter spec.server_id) c ≡ r
        → (waited client adapter (server_labels adapter spec) spec.server_id r).0 ≡ ok server
        → (server ≡ running_as (server_labels adapter spec) spec.server_id "Ready")
          × IsReady spec.server_id
              (waited client adapter (server_labels adapter spec) spec.server_id r).1
    waited-IsReady c (none, d) e h = (
      ground arith,
      is_ready-IsReady spec.server_id d (faithful (is_ready client adapter spec.server_id) c d e),
    )
    waited-IsReady c (some x, d) e h = cc

    game_server-IsReady :
        (r : Option GoError × C)
        → (after_game_server client adapter spec r).0 ≡ ok server
        → (server ≡ running_as (server_labels adapter spec) spec.server_id "Ready")
          × IsReady spec.server_id (after_game_server client adapter spec r).1
    unfolding wait_for_agones_ready
    game_server-IsReady (none, c) h =
        waited-IsReady c (client.poll (is_ready client adapter spec.server_id) c) refl h
    game_server-IsReady (some x, c) h = cc

    -- A game server that deploying or starting answers is up: if the call answers a server, it is the
    -- one of the specification's id in state "Ready", with its labels, and the cluster has a game
    -- server of that name in that state. The poll answers no error only when its condition has held.
    pub deploy_agones-IsReady :
        (c : C)
        → spec.runtime_hints.kubernetes_strategy ≡ "agones"
        → (deploy client adapter spec c).0 ≡ ok server
        → (start client adapter spec c ≡ deploy client adapter spec c)
          × (server ≡ running_as (server_labels adapter spec) spec.server_id "Ready")
          × IsReady spec.server_id (deploy client adapter spec c).1
    unfolding deploy_agones
    deploy_agones-IsReady c agones h =
        let (deployed, started) = agones_branch spec c agones in
        let (named, ready) =
          game_server-IsReady _ (sym (ap (λ (r : Result RunningServer × C). r.0) deployed) ∙ h) in
        (
          started ∙ sym deployed,
          named,
          subst (λ (r : Result RunningServer × C). IsReady spec.server_id r.1) (sym deployed) ready,
        )
