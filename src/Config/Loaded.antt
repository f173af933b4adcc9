-- ===== src/Config/Loaded.antt =====
-- internal/app/config/config.go: what a configuration that has been loaded has.
use gameserver_daemon.Common.{
  String, ◌<>◌, ◌≡◌, ◌≢◌, refl, subst, ap, ◌∙◌, ◌⊎◌, Option, none, some, arith,
}
use gameserver_daemon.Common.Strings.{trim_space}
use gameserver_daemon.Errors.{GoError, Result, ok}
use gameserver_daemon.Config.{
  Config, queue_memory, queue_redis, validate, Viper, Reading, flag_names, file_read,
  file_not_found, file_broken, checked, config_of, load_flags, after_reading, set_defaults,
  defaults, host_or_unknown, load,
}
use gameserver_daemon.FileApi.Handlers.{Response, failed_with, auth}
use gameserver_daemon.FileApi.Handlers.Auth.{auth_decides}

-- One of the two queues is chosen, and the three required texts are not blank.
pub record IsComplete (c : Config) : Type 0 where
  pub queue : (c.queue_backend ≡ queue_memory) ⊎ (c.queue_backend ≡ queue_redis)
  pub node : trim_space c.node_id ≢ ""
  pub platform : trim_space c.platform_url ≢ ""
  pub secret : trim_space c.shared_secret ≢ ""

validate-IsComplete : (c : Config) → validate c ≡ none → IsComplete c
unfolding validate
validate-IsComplete c h = record {
  queue = ground arith;
  node = ground arith;
  platform = ground arith;
  secret = ground arith;
}

module _ {V : Type 0} (viper : Viper V) where
  checked-IsComplete :
      (c c' : Config) (r : Option GoError)
      → validate c ≡ r
      → checked viper c r ≡ ok c'
      → IsComplete c'
  checked-IsComplete c c' none e h = subst IsComplete same (validate-IsComplete c e)
    where
      same : c ≡ c'
      same = cc h
  checked-IsComplete c c' (some x) e h = cc

  load_flags-IsComplete : (v : V) (c : Config) → load_flags viper v ≡ ok c → IsComplete c
  unfolding load_flags
  load_flags-IsComplete v c h =
      checked-IsComplete (config_of viper (viper.bind_flags flag_names v)) c
        (validate (config_of viper (viper.bind_flags flag_names v))) refl h

  read-IsComplete : (r : Reading × V) (c : Config) → after_reading viper r ≡ ok c → IsComplete c
  unfolding load_flags after_reading
  read-IsComplete (file_read, v) c h = load_flags-IsComplete v c h
  read-IsComplete (file_not_found, v) c h = load_flags-IsComplete v c h
  read-IsComplete (file_broken e, v) c h = cc

  pub config-IsComplete :
      (hostname : Result String) (v : V) (c : Config) → load viper hostname v ≡ ok c → IsComplete c
  unfolding load
  config-IsComplete hostname v c h =
      read-IsComplete
        (viper.read_config
          (viper.sources (set_defaults viper (defaults (host_or_unknown hostname)) v)))
        c h

  blank : trim_space "" ≡ ""
  unfolding trim_space
  blank = refl

  given : (secret : String) → trim_space secret ≢ "" → secret ≢ ""
  given secret h e = h (ap trim_space e ∙ blank)

  -- A configuration that has been loaded names one of the two queues, and its node, its platform and
  -- its shared secret are not blank. So the file API that is started with its secret never answers that
  -- the server is misconfigured: a request is passed on, and then its header is `Bearer ` and the
  -- secret or the secret alone, or it is answered with status 401.
  pub load-IsComplete :
      {A : Type 0} (refuse : Response → A) (header : String) (next : A) (hostname : Result String)
      (v : V) (c : Config)
      → load viper hostname v ≡ ok c
      → IsComplete c
        × (((auth refuse c.shared_secret header next ≡ next)
              × ((header ≡ "Bearer " <> c.shared_secret) ⊎ (header ≡ c.shared_secret)))
            ⊎ ((auth refuse c.shared_secret header next ≡ refuse (failed_with 401 "unauthorized"))
                × (header ≢ "Bearer " <> c.shared_secret)))
  load-IsComplete refuse header next hostname v c h =
      let complete = config-IsComplete hostname v c h in
      (
        complete,
        auth_decides refuse c.shared_secret header next (given c.shared_secret complete.secret),
      )
