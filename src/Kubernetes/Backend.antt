-- ===== src/Kubernetes/Backend.antt =====
-- internal/adapters/out/runtime/kubernetes/kubernetes.go: the adapter as a runtime backend of the
-- workers, and the operations that it does not have.
use gameserver_daemon.Common.{none, some, []}
use gameserver_daemon.Errors.{failure, ok}
use gameserver_daemon.Ports.Interfaces.{RuntimeAdapter}
use gameserver_daemon.Kubernetes.Cluster.{Client, Adapter}
use gameserver_daemon.Kubernetes.Operations

module _ {C : Type 0} (client : Client C) (adapter : Adapter) where
  abbrev pub kubernetes_adapter : RuntimeAdapter C
  kubernetes_adapter = record {
    ensure_project_scope =
        λ project slug c. (ok (Operations.ensure_project_scope client adapter project slug), c);
    teardown_project_scope = λ project c. (none, c);
    deploy = Operations.deploy client adapter;
    start = Operations.start client adapter;
    stop = Operations.stop client adapter;
    remove = Operations.remove client adapter;
    status = λ project workload c. (Operations.status client adapter project workload c, c);
    endpoint = λ project workload c. (Operations.endpoint client adapter project workload c, c);
    inject_file = λ project workload storage content url file c.
        (some (failure "mod file injection is not yet supported on Kubernetes"), c);
    remove_file = λ project workload storage content file c.
        (some (failure "mod file removal is not yet supported on Kubernetes"), c);
    discover = λ c. (ok [], c);
  }
