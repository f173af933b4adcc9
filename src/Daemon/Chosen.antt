-- ===== src/Daemon/Chosen.antt =====
-- cmd/kleffd/main.go: how the runtime and the queue have come about.
use gameserver_daemon.Common.{
  String, ◌≡◌, ◌≢◌, refl, sym, subst, Option, none, some, arith, string_dec,
}
use gameserver_daemon.Errors.{GoError, Result, ok, err}
use gameserver_daemon.Config.{Config}
use gameserver_daemon.Daemon.Start.{
  Runtime, kubernetes, docker, or_unavailable, pinged, try_docker, detect_runtime, QueueChoice,
  redis, memory, redis_or_exit, choose_queue,
}
use gameserver_daemon.Daemon.Main.{Surroundings}

module _ {K D B Q : Type 0} (around : Surroundings K D B Q) where
  -- How a runtime has come about: a configured cluster is used, else the cluster around the daemon, else
  -- a container engine that answers.
  pub data IsDetected (c : Config) : Runtime K D → Type 0 where
    configured_cluster :
        {k : K}
        → c.kubeconfig ≢ ""
        → around.probes.new_kubernetes c.kubeconfig c.kube_namespace c.node_id ≡ ok k
        → IsDetected c (kubernetes k)
    surrounding_cluster :
        {k : K}
        → c.kubeconfig ≡ ""
        → around.probes.in_cluster ≡ none
        → around.probes.new_kubernetes "" c.kube_namespace c.node_id ≡ ok k
        → IsDetected c (kubernetes k)
    local_engine :
        {d : D} {e : GoError}
        → c.kubeconfig ≡ ""
        → around.probes.in_cluster ≡ some e
        → around.probes.new_docker c.node_id c.storage_path c.node_network ≡ ok d
        → around.probes.ping d ≡ none
        → IsDetected c (docker d)

  -- The queue is in Redis exactly if the configuration says so.
  pub data IsChosen (c : Config) : QueueChoice Q → Type 0 where
    in_redis :
        {q : Q} → c.queue_backend ≡ "redis" → around.new_redis c ≡ ok q → IsChosen c (redis q)
    in_memory : c.queue_backend ≢ "redis" → IsChosen c memory

  module _ (c : Config) where
    available :
        (before : String) (r : Result K) (runtime : Runtime K D)
        → or_unavailable around.probes before r ≡ ok runtime
        → (k : K) × (r ≡ ok k) × (runtime ≡ kubernetes k)
    available before (err e) runtime h = cc
    available before (ok k) runtime h = (k, refl, cc h)

    pinged-none :
        (d : D) (r : Option GoError) (runtime : Runtime K D)
        → pinged around.probes d r ≡ ok runtime
        → (r ≡ none) × (runtime ≡ docker d)
    pinged-none d none runtime h = (refl, cc h)
    pinged-none d (some e) runtime h = cc

    answering :
        (r : Result D) (runtime : Runtime K D)
        → try_docker around.probes r ≡ ok runtime
        → (d : D) × (r ≡ ok d) × (around.probes.ping d ≡ none) × (runtime ≡ docker d)
    answering (err e) runtime h = cc
    answering (ok d) runtime h =
        let (answers, same) = pinged-none d (around.probes.ping d) runtime h in
        (d, refl, answers, same)

    with_kubeconfig :
        (runtime : Runtime K D)
        → c.kubeconfig ≢ ""
        → detect_runtime around.probes c ≡ ok runtime
        → IsDetected c runtime
    unfolding detect_runtime
    with_kubeconfig runtime given h =
        let (k, made, same) =
          available "kubernetes runtime unavailable: "
            (around.probes.new_kubernetes c.kubeconfig c.kube_namespace c.node_id) runtime
            (ground arith) in
        subst (IsDetected c) (sym same) (configured_cluster given made)

    without_kubeconfig :
        (runtime : Runtime K D)
        → c.kubeconfig ≡ ""
        → detect_runtime around.probes c ≡ ok runtime
        → IsDetected c runtime
    unfolding detect_runtime
    without_kubeconfig runtime absent h = go around.probes.in_cluster refl
      where
        go : (o : Option GoError) → around.probes.in_cluster ≡ o → IsDetected c runtime
        go none inside =
            let (k, made, same) =
              available "kubernetes in-cluster runtime unavailable: "
                (around.probes.new_kubernetes "" c.kube_namespace c.node_id) runtime
                (ground arith) in
            subst (IsDetected c) (sym same) (surrounding_cluster absent inside made)
        go (some e) outside =
            let (d, made, answers, same) =
              answering (around.probes.new_docker c.node_id c.storage_path c.node_network) runtime
                (ground arith) in
            subst (IsDetected c) (sym same) (local_engine absent outside made answers)

    pub detect_runtime-IsDetected :
        (runtime : Runtime K D) → detect_runtime around.probes c ≡ ok runtime → IsDetected c runtime
    detect_runtime-IsDetected runtime h = elim (string_dec c.kubeconfig "") [
      | yes absent ↦ without_kubeconfig runtime absent h
      | no given ↦ with_kubeconfig runtime given h
    ]

    opened :
        (r : Result Q) (queue : QueueChoice Q)
        → redis_or_exit r ≡ ok queue
        → (q : Q) × (r ≡ ok q) × (queue ≡ redis q)
    opened (err e) queue h = cc
    opened (ok q) queue h = (q, refl, cc h)

    in_redis-IsChosen :
        (queue : QueueChoice Q)
        → c.queue_backend ≡ "redis"
        → choose_queue around.new_redis c ≡ ok queue
        → IsChosen c queue
    unfolding choose_queue
    in_redis-IsChosen queue asked h =
        let (q, made, same) = opened (around.new_redis c) queue (ground arith) in
        subst (IsChosen c) (sym same) (in_redis asked made)

    in_memory-IsChosen :
        (queue : QueueChoice Q)
        → c.queue_backend ≢ "redis"
        → choose_queue around.new_redis c ≡ ok queue
        → IsChosen c queue
    unfolding choose_queue
    in_memory-IsChosen queue other h =
        let same : memory ≡ queue = ground arith in subst (IsChosen c) same (in_memory other)

    pub choose_queue-IsChosen :
        (queue : QueueChoice Q) → choose_queue around.new_redis c ≡ ok queue → IsChosen c queue
    choose_queue-IsChosen queue h = elim (string_dec c.queue_backend "redis") [
      | yes asked ↦ in_redis-IsChosen queue asked h
      | no other ↦ in_memory-IsChosen queue other h
    ]
