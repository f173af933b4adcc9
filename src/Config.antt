-- ===== src/Config.antt =====
-- internal/app/config/config.go: the configuration of the daemon.
pub mod Loaded
use gameserver_daemon.Common.{
  String, ◌<>◌, Bool, true, false, ◌||◌, ◌≡◌, ◌≢◌, refl, ap, ◌∙◌, ◌⊎◌, inl, inr, Option, none, some,
  List, [], ◌∷◌, arith, ◌==◌, if◌then◌else◌, string_dec,
}
use gameserver_daemon.Common.Int.{ℤ, pos}
use gameserver_daemon.Common.Strings.{trim_space}
use gameserver_daemon.Errors.{GoError, failure, wrapped, Result, ok, err}

-- `QueueBackend`
abbrev pub queue_memory : String
queue_memory = "memory"

abbrev pub queue_redis : String
queue_redis = "redis"

pub record Config : Type 0 where
  pub kubeconfig : String
  pub kube_namespace : String
  pub cluster_region : String
  pub node_id : String
  pub grpc_port : ℤ
  pub metrics_port : ℤ
  pub metrics_scrape_interval : ℤ
  pub queue_backend : String
  pub database_path : String
  pub redis_url : String
  pub redis_password : String
  pub redis_tls : Bool
  pub platform_url : String
  pub shared_secret : String
  pub storage_path : String
  pub file_api_port : ℤ
  pub file_api_url : String
  pub node_network : String

-- `Validate`
unfoldable pub validate : Config → Option GoError
unfolding trim_space
validate c =
    if c.queue_backend == queue_memory || c.queue_backend == queue_redis
    then if trim_space c.node_id == ""
      then some (failure "node.id is required and cannot be empty")
      else if trim_space c.platform_url == ""
      then some (failure "KLEFF_PLATFORM_URL is required and cannot be empty")
      else if trim_space c.shared_secret == ""
      then some (failure "KLEFF_SHARED_SECRET is required and cannot be empty")
      else none
    else some (
        failure
          ("invalid queue.backend: \"" <> c.queue_backend <> "\" (must be 'memory' or 'redis')"))

pub data Setting : Type 0 where
  text : String → Setting
  number : ℤ → Setting
  switch : Bool → Setting

-- What reading the configuration file comes to.
pub data Reading : Type 0 where
  file_read file_not_found : Reading
  file_broken : GoError → Reading

-- What is used of viper and pflag: `sources` sets the prefix of the environment and the places of the
-- file, `bind_flags` parses the command line with the flags of these names, each with the value so far
-- as its default.
pub record Viper (V : Type 0) : Type 0 where
  pub set_default : String → Setting → V → V
  pub sources : V → V
  pub read_config : V → Reading × V
  pub bind_flags : List String → V → V
  pub get_string : String → V → String
  pub get_int : String → V → ℤ
  pub get_bool : String → V → Bool

-- The defaults, given the name of the host.
abbrev pub defaults : String → List (String × Setting)
defaults hostname =
    ("kubeconfig", text "")
    ∷ ("kube.namespace", text "default")
    ∷ ("cluster.region", text "local")
    ∷ ("node.id", text hostname)
    ∷ ("grpc.port", number (pos 50051))
    ∷ ("metrics.port", number (pos 9090))
    ∷ ("metrics.scrape_interval", number (pos 30))
    ∷ ("queue.backend", text queue_memory)
    ∷ ("database.path", text "./data/kleff.db")
    ∷ ("redis.url", text "redis://localhost:6379/0")
    ∷ ("redis.password", text "")
    ∷ ("redis.tls", switch false)
    ∷ ("platform.url", text "")
    ∷ ("shared_secret", text "")
    ∷ ("storage.path", text "/var/lib/kleffd/servers")
    ∷ ("file_api.port", number (pos 8083))
    ∷ ("file_api.url", text "")
    ∷ ("node.network", text "")
    ∷ []

abbrev pub flag_names : List String
flag_names =
    "kubeconfig" ∷ "kube.namespace" ∷ "cluster.region" ∷ "node.id" ∷ "grpc.port" ∷ "metrics.port"
    ∷ "queue.backend" ∷ []

abbrev pub host_or_unknown : Result String → String
host_or_unknown (ok name) = name
host_or_unknown (err e) = "unknown-node"

module _ {V : Type 0} (viper : Viper V) where
  unfoldable pub set_defaults : List (String × Setting) → V → V
  set_defaults [] v = v
  set_defaults ((key, value) ∷ rest) v = set_defaults rest (viper.set_default key value v)

  unfoldable pub config_of : V → Config
  config_of v = record {
    kubeconfig = viper.get_string "kubeconfig" v;
    kube_namespace = viper.get_string "kube.namespace" v;
    cluster_region = viper.get_string "cluster.region" v;
    node_id = viper.get_string "node.id" v;
    grpc_port = viper.get_int "grpc.port" v;
    metrics_port = viper.get_int "metrics.port" v;
    metrics_scrape_interval = viper.get_int "metrics.scrape_interval" v;
    queue_backend = viper.get_string "queue.backend" v;
    database_path = viper.get_string "database.path" v;
    redis_url = viper.get_string "redis.url" v;
    redis_password = viper.get_string "redis.password" v;
    redis_tls = viper.get_bool "redis.tls" v;
    platform_url = viper.get_string "platform.url" v;
    shared_secret = viper.get_string "shared_secret" v;
    storage_path = viper.get_string "storage.path" v;
    file_api_port = viper.get_int "file_api.port" v;
    file_api_url = viper.get_string "file_api.url" v;
    node_network = viper.get_string "node.network" v;
  }

  abbrev pub checked : Config → Option GoError → Result Config
  checked c (some e) = err (wrapped "configuration validation failed: " e "")
  checked c none = ok c

  unfoldable pub load_flags : V → Result Config
  unfolding config_of validate
  load_flags v = let c = config_of (viper.bind_flags flag_names v) in checked c (validate c)

  unfoldable pub after_reading : Reading × V → Result Config
  unfolding load_flags
  after_reading (file_read, v) = load_flags v
  after_reading (file_not_found, v) = load_flags v
  after_reading (file_broken e, v) = err (wrapped "fatal error config file: " e "")

  -- `Load`, given what `os.Hostname` answers and a new viper.
  unfoldable pub load : Result String → V → Result Config
  unfolding set_defaults after_reading
  load hostname v =
      after_reading
        (viper.read_config (viper.sources (set_defaults (defaults (host_or_unknown hostname)) v)))
