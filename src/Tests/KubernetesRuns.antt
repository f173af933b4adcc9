-- ===== src/Tests/KubernetesRuns.antt =====
-- Runs of the Kubernetes adapter on the small cluster.
use gameserver_daemon.Common.{String, ◌≡◌, ◌≢◌, refl, inl, inr, some, [], string_dec, true}
use gameserver_daemon.Common.Dict.{Dict, lookup, insert, get}
use gameserver_daemon.Common.Strings.{trim_space}
use gameserver_daemon.Labels.{set_if, project_id_key, environment_id_key}
use gameserver_daemon.Errors.{GoError, failure, ok, err, is_error, project_mismatch}
use gameserver_daemon.Ports.{WorkloadSpec, RunningServer}
use gameserver_daemon.Kubernetes.Objects.{
  selector_labels, build_workload, build_service, build_game_server, server_labels,
}
use gameserver_daemon.Kubernetes.Operations.{
  deploy, deploy_workload, deploy_agones, stop, remove, start, status, endpoint, running_as,
  wait_for_agones_ready, is_ready,
}
use gameserver_daemon.Kubernetes.Authorized.{foreign_untouched, Live}
use gameserver_daemon.Kubernetes.Scaled.{Handled}
use gameserver_daemon.Kubernetes.Deployed.{deploy-Handled}
use gameserver_daemon.Kubernetes.Leftovers.{redeploy_refused}
use gameserver_daemon.Kubernetes.Agones.{IsReady, deploy_agones-IsReady}
use gameserver_daemon.Tests.Data.{spec, hints}
use gameserver_daemon.Tests.LittleCluster.{
  LittleCluster, little_client, little_adapter, little_sets-Creates, little_deployments-Creates,
  little-Apart, little-ServicesStay, little-PollsFaithfully, looked_up, add,
}

abbrev no_objects : LittleCluster
no_objects = record { game_servers = []; sets = []; deployments = []; services = [] }

abbrev database : WorkloadSpec
database = record spec { runtime_hints = record hints { kubernetes_strategy = "statefulset" } }

abbrev game : WorkloadSpec
game = record spec { runtime_hints = record hints { kubernetes_strategy = "agones" } }

abbrev deployed : LittleCluster
deployed = (deploy little_client little_adapter database no_objects).1

abbrev database_server : RunningServer
database_server = running_as (server_labels little_adapter database) "s1" "Running"

database_deployed : (deploy little_client little_adapter database no_objects).0 ≡ ok database_server
unfolding deploy deploy_workload build_workload build_service add lookup string_dec
database_deployed = refl

not_agones : database.runtime_hints.kubernetes_strategy ≢ "agones"
not_agones = cc

project_trimmed : trim_space "p" ≡ "p"
unfolding trim_space
project_trimmed = refl

no_game_server : looked_up (lookup "s1" no_objects.game_servers) ≡ err (failure "not found")
unfolding looked_up lookup
no_game_server = refl

no_set : looked_up (lookup "s1" no_objects.sets) ≡ err (failure "not found")
unfolding looked_up lookup
no_set = refl

deploy-Handled_example :
    Handled little_client little_adapter little_client.stateful_sets "statefulset" "p" "s1" deployed
unfolding string_dec
deploy-Handled_example =
    deploy-Handled little_client little_adapter little_sets-Creates little_deployments-Creates
      little-Apart database "p" no_objects database_server (failure "not found")
      (failure "not found") database_deployed not_agones (project_trimmed, inl refl) no_game_server
      no_set

redeploy_refused_example :
    (deploy little_client little_adapter database
      (remove little_client little_adapter "p" "s1" deployed).1).0
    ≢ ok database_server
redeploy_refused_example =
    redeploy_refused little_client little_adapter
      (little-ServicesStay little_client.stateful_sets (λ ns n w c. refl) (λ ns n c. refl))
      (little-ServicesStay little_client.deployments (λ ns n w c. refl) (λ ns n c. refl))
      little_sets-Creates little_deployments-Creates little-Apart database database "p" no_objects
      database_server database_server (failure "not found") (failure "not found") database_deployed
      not_agones (project_trimmed, inl refl) no_game_server no_set refl not_agones

-- The labels of the deployed database, and a project that they do not name.
abbrev database_labels : Dict String
database_labels = selector_labels "statefulset" database

database-Live : Live little_client little_adapter "s1" database_labels deployed
unfolding deploy deploy_workload build_workload build_service selector_labels set_if add lookup
    looked_up insert string_dec
database-Live = inr (failure "not found", refl, inl refl)

abbrev other_project : String
other_project = "other"

not_the_project : trim_space (get database_labels project_id_key) ≢ other_project
unfolding selector_labels set_if insert lookup get trim_space string_dec
not_the_project = λ (p : "p" ≡ other_project). cc p

not_the_environment : trim_space (get database_labels environment_id_key) ≢ other_project
unfolding selector_labels set_if insert lookup get trim_space string_dec
not_the_environment = λ (p : "" ≡ other_project). cc p

given : other_project ≢ ""
given = λ (p : other_project ≡ ""). cc p

foreign_untouched_example :
    (e : GoError) × (is_error project_mismatch e ≡ true)
    × (stop little_client little_adapter other_project "s1" deployed ≡ (some e, deployed))
    × (remove little_client little_adapter other_project "s1" deployed ≡ (some e, deployed))
    × (status little_client little_adapter other_project "s1" deployed ≡ err e)
    × (endpoint little_client little_adapter other_project "s1" deployed ≡ err e)
foreign_untouched_example =
    foreign_untouched little_client little_adapter other_project "s1" database_labels deployed
      database-Live given not_the_project not_the_environment

abbrev playing : LittleCluster
playing = (deploy little_client little_adapter game no_objects).1

abbrev game_server : RunningServer
game_server = running_as (server_labels little_adapter game) "s1" "Ready"

game_deployed : (deploy little_client little_adapter game no_objects).0 ≡ ok game_server
unfolding deploy deploy_agones wait_for_agones_ready is_ready build_game_server add lookup looked_up
    insert string_dec
game_deployed = refl

deploy_agones-IsReady_example :
    (start little_client little_adapter game no_objects
      ≡ deploy little_client little_adapter game no_objects)
    × (game_server ≡ running_as (server_labels little_adapter game) "s1" "Ready")
    × IsReady little_client little_adapter "s1" playing
deploy_agones-IsReady_example =
    deploy_agones-IsReady little_client little_adapter little-PollsFaithfully game game_server
      no_objects refl game_deployed
