-- ===== src/Daemon/Start.antt =====
-- cmd/kleffd/main.go: what the daemon does before its loops run.
use gameserver_daemon.Common.{
  String, ◌≡◌, refl, ap, ◌∙◌, Option, none, some, List, [], ◌∷◌, ◌==◌, if◌then◌else◌,
}
use gameserver_daemon.Errors.{GoError, wrapped, Result, ok, err}
use gameserver_daemon.Ports.{ServerRecord}
use gameserver_daemon.Ports.Interfaces.{ServerRepository, IsLawful}
use gameserver_daemon.Config.{Config, queue_redis}

-- The runtime that the daemon works with.
pub data Runtime (K D : Type 0) : Type 0 where
  kubernetes : K → Runtime K D
  docker : D → Runtime K D

-- What `detectRuntime` tries: the constructors of the two adapters, the test for a cluster around the
-- daemon, and the ping of Docker's engine.
pub record Probes (K D : Type 0) : Type 0 where
  pub new_kubernetes : String → String → String → Result K
  pub in_cluster : Option GoError
  pub new_docker : String → String → String → Result D
  pub ping : D → Option GoError

module _ {K D : Type 0} (probes : Probes K D) where
  abbrev pub or_unavailable : String → Result K → Result (Runtime K D)
  or_unavailable before (err e) = err (wrapped before e "")
  or_unavailable before (ok k) = ok (kubernetes k)

  abbrev pub pinged : D → Option GoError → Result (Runtime K D)
  pinged d none = ok (docker d)
  pinged d (some e) =
      err (wrapped "no runtime available: kubernetes not detected, docker unreachable: " e "")

  abbrev pub try_docker : Result D → Result (Runtime K D)
  try_docker (err e) =
      err (wrapped "no runtime available: kubernetes not detected, docker client failed: " e "")
  try_docker (ok d) = pinged d (probes.ping d)

  -- `detectRuntime`
  unfoldable pub detect_runtime : Config → Result (Runtime K D)
  detect_runtime c =
      if c.kubeconfig == ""
      then (elim probes.in_cluster [
        | none ↦
            or_unavailable "kubernetes in-cluster runtime unavailable: "
              (probes.new_kubernetes "" c.kube_namespace c.node_id)
        | some e ↦ try_docker (probes.new_docker c.node_id c.storage_path c.node_network)
      ])
      else or_unavailable "kubernetes runtime unavailable: "
          (probes.new_kubernetes c.kubeconfig c.kube_namespace c.node_id)

-- The queue that the daemon works with.
pub data QueueChoice (Q : Type 0) : Type 0 where
  redis : Q → QueueChoice Q
  memory : QueueChoice Q

abbrev pub redis_or_exit : {Q : Type 0} → Result Q → Result (QueueChoice Q)
redis_or_exit (err e) = err e
redis_or_exit (ok q) = ok (redis q)

-- The switch over the queue's backend.
unfoldable pub choose_queue : {Q : Type 0} → (Config → Result Q) → Config → Result (QueueChoice Q)
choose_queue new_redis c =
    if c.queue_backend == queue_redis then redis_or_exit (new_redis c) else ok memory

module _ {S : Type 0} (repo : ServerRepository S) where
  -- The loop over the workloads that the runtime has discovered. A record that cannot be saved is
  -- logged and passed over.
  unfoldable pub restore : List ServerRecord → S → S
  restore [] s = s
  restore (r ∷ rs) s = restore rs (repo.save r s).1

  unfoldable pub adopt : Result (List ServerRecord) → S → S
  unfolding restore
  adopt (err e) s = s
  adopt (ok rs) s = restore rs s

  -- What `restore` leaves under an id: the last record of that id, or what was there.
  unfoldable pub last_with : String → List ServerRecord → Result ServerRecord → Result ServerRecord
  last_with i [] before = before
  last_with i (r ∷ rs) before = last_with i rs (if r.id == i then ok r else before)

  restore-find_by_id :
      IsLawful repo
      → ((r : ServerRecord) (s : S) → (repo.save r s).0 ≡ none)
      → (rs : List ServerRecord) (s : S) (i : String)
      → repo.find_by_id i (restore rs s) ≡ last_with i rs (repo.find_by_id i s)
  unfolding restore last_with
  restore-find_by_id lawful saves [] s i = refl
  restore-find_by_id lawful saves (r ∷ rs) s i =
      restore-find_by_id lawful saves rs (repo.save r s).1 i
      ∙ ap (last_with i rs) (lawful.find-save r s i (saves r s))

  -- After the start the store has, under the id of each workload that the runtime has discovered, the
  -- last record discovered with that id, and under every other id what it had; where discovering fails
  -- it is as it was. The store keeps the promises of a repository, and saving succeeds.
  pub adopt-find_by_id :
      IsLawful repo
      → ((r : ServerRecord) (s : S) → (repo.save r s).0 ≡ none)
      → (discovered : Result (List ServerRecord)) (s : S) (i : String)
      → repo.find_by_id i (adopt discovered s) ≡ (elim discovered [
        | err e ↦ repo.find_by_id i s
        | ok rs ↦ last_with i rs (repo.find_by_id i s)
      ])
  unfolding adopt
  adopt-find_by_id lawful saves (err e) s i = refl
  adopt-find_by_id lawful saves (ok rs) s i = restore-find_by_id lawful saves rs s i
