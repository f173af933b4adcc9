-- ===== src/Tests/StartRuns.antt =====
-- A daemon that comes up with Docker and the in-memory queue, and finds one workload.
use gameserver_daemon.Common.{
  ℕ, ◌+◌, String, false, ◌≡◌, refl, none, some, [], ◌∷◌, ◌==◌, if◌then◌else◌, string_dec,
}
use gameserver_daemon.Common.Int.{pos}
use gameserver_daemon.Common.Dict.{insert}
use gameserver_daemon.Common.Strings.{trim_space, trim_suffix, trim_right}
use gameserver_daemon.Errors.{failure, ok}
use gameserver_daemon.Repository.Memory.{save}
use gameserver_daemon.Config.{
  Config, Viper, file_not_found, load, load_flags, after_reading, config_of, validate, set_defaults,
}
use gameserver_daemon.Config.Loaded.{IsComplete}
use gameserver_daemon.Platform.{
  Http, PlatformJson, Client, register_node, after_registration, keep_registration, post,
  new_client, normalize_base_url,
}
use gameserver_daemon.Daemon.Start.{
  docker, Probes, memory, detect_runtime, choose_queue, adopt, restore,
}
use gameserver_daemon.Daemon.Main.{Surroundings, Started, start_up}
use gameserver_daemon.Daemon.Ready.{IsReady, load-start_up}
use gameserver_daemon.Tests.Data.{server}

-- A viper without a state, which knows the required settings.
unfoldable setting : String → String
setting key =
    if key == "queue.backend"
    then "memory"
    else if key == "node.id"
    then "n"
    else if key == "platform.url"
    then "http://h"
    else if key == "shared_secret"
    then "key"
    else ""

abbrev viper : Viper ℕ
viper = record {
  set_default = λ k s v. v;
  sources = λ v. v;
  read_config = λ v. (file_not_found, v);
  bind_flags = λ names v. v;
  get_string = λ k v. setting k;
  get_int = λ k v. pos 0;
  get_bool = λ k v. false;
}

abbrev config : Config
unfolding config_of setting
config = config_of viper 0

loaded : load viper (ok "host") 0 ≡ ok config
unfolding load set_defaults after_reading load_flags config_of validate trim_space setting
    string_dec config
loaded = refl

abbrev probes : Probes ℕ ℕ
probes = record {
  new_kubernetes = λ kubeconfig namespace node. ok 1;
  in_cluster = some (failure "not in a cluster");
  new_docker = λ node storage network. ok 2;
  ping = λ d. none;
}

abbrev around : Surroundings ℕ ℕ ℕ ℕ
around = record {
  probes = probes;
  init_db = λ path. ok 3;
  new_redis = λ c. ok 4;
  discover = λ r. ok (server ∷ []);
}

-- A platform that accepts the registration and counts the requests.
abbrev http : Http ℕ
http = record {
  build = λ url. none;
  send = λ p n. (ok (record { code = 200; digits = "200"; body = "{}" }), n + 1);
}

abbrev json : PlatformJson
json = record {
  registration = λ c. ok "{}";
  status = λ u now. ok "{}";
  log_lines = λ p e ls. ok "{}";
  registered = λ body. ok ("n", "t");
}

abbrev client : Client
client = record {
  base_url = "http://h";
  bootstrap_key = "key";
  node_id = "n";
  file_api_url = "";
  node_token = "t";
}

abbrev started : Started ℕ ℕ ℕ
unfolding config
started = record {
  config = config;
  runtime = docker 2;
  queue = memory;
  servers = ("s1", server) ∷ [];
  platform = client;
}

comes_up : (start_up around http json (load viper (ok "host") 0) 0).0 ≡ ok started
unfolding start_up detect_runtime choose_queue adopt restore register_node after_registration
    keep_registration post new_client normalize_base_url trim_suffix trim_right load set_defaults
    after_reading load_flags config_of validate trim_space setting string_dec config save insert
    started
comes_up = refl

load-start_up_example : IsComplete config × IsReady around http json config started
unfolding started
load-start_up_example = load-start_up around http json viper (ok "host") 0 0 started comes_up
