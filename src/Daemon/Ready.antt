-- ===== src/Daemon/Ready.antt =====
-- cmd/kleffd/main.go: what the daemon has when its loops start.
use gameserver_daemon.Common.{
  String, ◌≡◌, ◌≢◌, refl, sym, subst, ap, ◌∙◌, inl, inr, Option, none, some, List, [],
}
use gameserver_daemon.Errors.{GoError, Result, ok, err}
use gameserver_daemon.Ports.{ServerRecord}
use gameserver_daemon.Repository.Memory.{
  Servers, memory_repository, memory_repository-IsLawful, save, find_by_id,
}
use gameserver_daemon.Config.{Config, Viper, load}
use gameserver_daemon.Config.Loaded.{IsComplete, config-IsComplete}
use gameserver_daemon.Platform.{Client, Http, PlatformJson, register_node}
use gameserver_daemon.Platform.Laws.{Settled, register_node-Settled}
use gameserver_daemon.Daemon.Start.{
  Runtime, detect_runtime, QueueChoice, choose_queue, adopt, last_with, adopt-find_by_id,
}
use gameserver_daemon.Daemon.Chosen.{
  IsDetected, IsChosen, detect_runtime-IsDetected, choose_queue-IsChosen,
}
use gameserver_daemon.Daemon.Main.{
  Surroundings, Started, new_platform, registered, with_queue, with_database, with_runtime,
  start_up,
}

-- What a search in the new store finds: the last of the discovered records with that id.
abbrev pub found_among : String → Result (List ServerRecord) → Result ServerRecord
found_among i (err e) = find_by_id i []
found_among i (ok rs) = last_with memory_repository i rs (find_by_id i [])

saves : (r : ServerRecord) (s : Servers) → (save r s).0 ≡ none
unfolding save
saves r s = refl

adopted :
    (discovered : Result (List ServerRecord)) (i : String)
    → find_by_id i (adopt memory_repository discovered []) ≡ found_among i discovered
adopted (err e) i = adopt-find_by_id memory_repository memory_repository-IsLawful saves (err e) [] i
adopted (ok rs) i = adopt-find_by_id memory_repository memory_repository-IsLawful saves (ok rs) [] i

module _ {K D B Q W : Type 0} (around : Surroundings K D B Q) (http : Http W)
    (json : PlatformJson) where
  -- The parts are the ones that the configuration asks for, the client has a token, and the store has
  -- the workloads that the runtime has discovered.
  pub record IsReady (c : Config) (st : Started K D Q) : Type 0 where
    pub configured : st.config ≡ c
    pub detected : IsDetected around c st.runtime
    pub database : (b : B) × (around.init_db c.database_path ≡ ok b)
    pub chosen : IsChosen around c st.queue
    pub admitted : st.platform.node_token ≢ ""
    pub restored :
        (i : String) → find_by_id i st.servers ≡ found_among i (around.discover st.runtime)

  token_given :
      (c : Config) (w : W)
      → (register_node http json (new_platform around http json c) w).0 ≡ none
      → (register_node http json (new_platform around http json c) w).1.node_token ≢ ""
  token_given c w h = go (register_node-Settled http json (new_platform around http json c) w)
    where
      go :
          Settled
            (new_platform around http json c)
            (register_node http json (new_platform around http json c) w).0
            (register_node http json (new_platform around http json c) w).1
          → (register_node http json (new_platform around http json c) w).1.node_token ≢ ""
      go (inl done) = done.1
      go (inr refused) = absurd (refused.0 h)

  module _ (c : Config) (st : Started K D Q) where
    registered_lem :
        (runtime : Runtime K D) (queue : QueueChoice Q) (r : Option GoError × Client × W)
        → (registered around http json c runtime queue r).0 ≡ ok st
        → (r.0 ≡ none)
          × (st.config ≡ c)
          × (st.runtime ≡ runtime)
          × (st.queue ≡ queue)
          × (st.servers ≡ adopt memory_repository (around.discover runtime) [])
          × (st.platform ≡ r.1)
    registered_lem runtime queue (none, client, w) h = (
      refl,
      sym (ap (λ (x : Started K D Q). x.config) same),
      sym (ap (λ (x : Started K D Q). x.runtime) same),
      sym (ap (λ (x : Started K D Q). x.queue) same),
      sym (ap (λ (x : Started K D Q). x.servers) same),
      sym (ap (λ (x : Started K D Q). x.platform) same),
    )
      where
        built : Started K D Q
        built = record {
          config = c;
          runtime = runtime;
          queue = queue;
          servers = adopt memory_repository (around.discover runtime) [];
          platform = client;
        }

        same : built ≡ st
        same = cc h
    registered_lem runtime queue (some e, client, w) h = cc

    with_queue-IsReady :
        (runtime : Runtime K D) (r : Result (QueueChoice Q)) (w : W)
        → detect_runtime around.probes c ≡ ok runtime
        → ((b : B) × (around.init_db c.database_path ≡ ok b))
        → choose_queue around.new_redis c ≡ r
        → (with_queue around http json c runtime r w).0 ≡ ok st
        → IsReady c st
    with_queue-IsReady runtime (err e) w detected database chosen h = cc
    with_queue-IsReady runtime (ok queue) w detected database chosen h =
        let (done, config, same, queued, servers, platform) =
          registered_lem runtime queue (register_node http json (new_platform around http json c) w)
            h in
        record {
          configured = config;
          detected = detect_runtime-IsDetected around c st.runtime (detected ∙ sym (ap ok same));
          database = database;
          chosen = choose_queue-IsChosen around c st.queue (chosen ∙ sym (ap ok queued));
          admitted =
              subst (λ (p : Client). p.node_token ≢ "") (sym platform) (token_given c w done);
          restored = λ i.
              ap (find_by_id i) servers
              ∙ adopted (around.discover runtime) i
              ∙ sym (ap (λ x. found_among i (around.discover x)) same);
        }

    with_database-IsReady :
        (runtime : Runtime K D) (r : Result B) (w : W)
        → detect_runtime around.probes c ≡ ok runtime
        → around.init_db c.database_path ≡ r
        → (with_database around http json c runtime r w).0 ≡ ok st
        → IsReady c st
    with_database-IsReady runtime (err e) w detected opened h = cc
    with_database-IsReady runtime (ok b) w detected opened h =
        with_queue-IsReady runtime (choose_queue around.new_redis c) w detected (b, opened) refl h

    with_runtime-IsReady :
        (r : Result (Runtime K D)) (w : W)
        → detect_runtime around.probes c ≡ r
        → (with_runtime around http json c r w).0 ≡ ok st
        → IsReady c st
    with_runtime-IsReady (err e) w detected h = cc
    with_runtime-IsReady (ok runtime) w detected h =
        with_database-IsReady runtime (around.init_db c.database_path) w detected refl h

  start_up-IsReady :
      (loaded : Result Config) (w : W) (st : Started K D Q)
      → (start_up around http json loaded w).0 ≡ ok st
      → (c : Config) × (loaded ≡ ok c) × IsReady c st
  unfolding start_up
  start_up-IsReady (err e) w st h = cc
  start_up-IsReady (ok c) w st h =
      (c, refl, with_runtime-IsReady c st (detect_runtime around.probes c) w refl h)

  -- A daemon that comes to its loops has a complete configuration; a runtime, which is the
  -- Kubernetes cluster that is configured, else the one around the daemon, else a Docker engine that
  -- answers; its queue in Redis if the configuration says so, else in memory; an open database, a token of the platform, and in its store, under each id, the last of
  -- the workloads that the runtime has discovered with it. Everything else is an exit.
  pub load-start_up :
      {V : Type 0} (viper : Viper V) (hostname : Result String) (v : V) (w : W) (st : Started K D Q)
      → (start_up around http json (load viper hostname v) w).0 ≡ ok st
      → IsComplete st.config × IsReady st.config st
  load-start_up viper hostname v w st h =
      let (c, loaded, ready) = start_up-IsReady (load viper hostname v) w st h in
      (
        subst IsComplete (sym ready.configured) (config-IsComplete viper hostname v c loaded),
        subst (λ k. IsReady k st) (sym ready.configured) ready,
      )
