-- ===== src/Tests/LittleCluster.antt =====
-- A small cluster: four maps by name, in which a game server is ready at once.
use gameserver_daemon.Common.{
  String, ◌≡◌, ◌≢◌, refl, ap, ◌∙◌, Option, none, some, [], arith, if◌then◌else◌,
}
use gameserver_daemon.Common.Int.{pos}
use gameserver_daemon.Common.Dict.{Dict, lookup, insert, erase, lookup-insert}
use gameserver_daemon.Errors.{GoError, failure, Result, ok, err}
use gameserver_daemon.Kubernetes.Cluster.{
  LiveGameServer, LiveService, Workload, Workloads, Client, Adapter, GameServer, PollsFaithfully,
}
use gameserver_daemon.Kubernetes.Deployed.{Creates, Apart}
use gameserver_daemon.Kubernetes.Leftovers.{ServicesStay}

pub record LittleCluster : Type 0 where
  pub game_servers : Dict LiveGameServer
  pub sets : Dict (Dict String)
  pub deployments : Dict (Dict String)
  pub services : Dict LiveService

abbrev missing : GoError
missing = failure "not found"

unfoldable pub looked_up : {V : Type 0} → Option V → Result V
looked_up none = err missing
looked_up (some v) = ok v

unfoldable pub add : {V : Type 0} → String → V → Dict V → Option GoError × Dict V
add n v d = elim (lookup n d) [
  | some _ ↦ (some (failure "already exists"), d)
  | none ↦ (none, insert n v d)
]

unfoldable pub drop : {V : Type 0} → String → Dict V → Option GoError × Dict V
drop n d = elim (lookup n d) [ none ↦ (some missing, d) | some _ ↦ (none, erase n d) ]

add-lookup :
    {V : Type 0} (n : String) (v : V) (d : Dict V)
    → (add n v d).0 ≡ none
    → lookup n (add n v d).1 ≡ some v
unfolding add
add-lookup n v d h = ground (arith, lookup-insert n n v d)

add_twice :
    {V : Type 0} (n : String) (v w : V) (d : Dict V) → lookup n d ≡ some w → (add n v d).0 ≢ none
unfolding add
add_twice n v w d h = ground arith

abbrev little_sets : Workloads LittleCluster
little_sets = record {
  get = λ ns n c. looked_up (lookup n c.sets);
  create = λ ns w c. let (r, d) = add w.name w.labels c.sets in (r, record c { sets = d });
  delete = λ ns n c. let (r, d) = drop n c.sets in (r, record c { sets = d });
  get_scale = λ ns n c. ok (record { version = "1"; replicas = pos 1 });
  update_scale = λ ns n s c. (none, c);
}

abbrev little_deployments : Workloads LittleCluster
little_deployments = record {
  get = λ ns n c. looked_up (lookup n c.deployments);
  create =
      λ ns w c. let (r, d) = add w.name w.labels c.deployments in (r, record c { deployments = d });
  delete = λ ns n c. let (r, d) = drop n c.deployments in (r, record c { deployments = d });
  get_scale = λ ns n c. ok (record { version = "1"; replicas = pos 1 });
  update_scale = λ ns n s c. (none, c);
}

abbrev ready_server : GameServer → LiveGameServer
ready_server g = record { labels = g.labels; state = "Ready"; address = "10.0.0.1"; ports = [] }

abbrev little_service : LiveService
little_service = record { cluster_ip = "10.0.0.2"; ports = [] }

abbrev pub little_client : Client LittleCluster
little_client = record {
  get_game_server = λ ns n c. looked_up (lookup n c.game_servers);
  create_game_server = λ ns g c.
      let (r, d) = add g.name (ready_server g) c.game_servers in (r, record c { game_servers = d });
  delete_game_server =
      λ ns n c. let (r, d) = drop n c.game_servers in (r, record c { game_servers = d });
  stateful_sets = little_sets;
  deployments = little_deployments;
  get_service = λ ns n c. looked_up (lookup n c.services);
  create_service =
      λ ns s c. let (r, d) = add s.name little_service c.services in (r, record c { services = d });
  poll = λ condition c. if condition c then (none, c) else (some (failure "timed out"), c);
}

abbrev pub little_adapter : Adapter
little_adapter = record { namespace = "kleff"; node_id = "n1" }

pub little_sets-Creates : Creates little_client little_client.stateful_sets
unfolding looked_up
little_sets-Creates = record {
  get-create = λ ns w c h. ap looked_up (add-lookup w.name w.labels c.sets h);
  get-create_service = λ ns n s c. refl;
  game_server-create = λ ns n w c. refl;
  game_server-create_service = λ ns n s c. refl;
}

pub little_deployments-Creates : Creates little_client little_client.deployments
unfolding looked_up
little_deployments-Creates = record {
  get-create = λ ns w c h. ap looked_up (add-lookup w.name w.labels c.deployments h);
  get-create_service = λ ns n s c. refl;
  game_server-create = λ ns n w c. refl;
  game_server-create_service = λ ns n s c. refl;
}

pub little-Apart : Apart little_client
little-Apart = record {
  stateful_set-create = λ ns n w c. refl;
  stateful_set-create_service = λ ns n s c. refl;
}

looked_up-some : {V : Type 0} (o : Option V) (v : V) → looked_up o ≡ ok v → o ≡ some v
unfolding looked_up
looked_up-some none v h = cc
looked_up-some (some w) v h = ground arith

pub little-ServicesStay :
    (workloads : Workloads LittleCluster)
    → ((ns n : String) (w : Workload) (c : LittleCluster)
        → (workloads.create ns w c).1.services ≡ c.services)
    → ((ns n : String) (c : LittleCluster) → (workloads.delete ns n c).1.services ≡ c.services)
    → ServicesStay little_client little_adapter workloads
unfolding looked_up
little-ServicesStay workloads creating deleting = record {
  create_service-Taken =
      λ s c h. (little_service, ap looked_up (add-lookup s.name little_service c.services h));
  create_service_twice =
      λ s c taken. add_twice s.name little_service taken.0 c.services (looked_up-some _ _ taken.1);
  create-Taken =
      λ n w c taken. (taken.0, ap (λ d. looked_up (lookup n d)) (creating "kleff" n w c) ∙ taken.1);
  delete-Taken =
      λ n m c taken. (taken.0, ap (λ d. looked_up (lookup n d)) (deleting "kleff" m c) ∙ taken.1);
}

pub little-PollsFaithfully : PollsFaithfully little_client
little-PollsFaithfully condition c c' h = ground arith
