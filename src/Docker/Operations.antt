-- ===== src/Docker/Operations.antt =====
-- internal/adapters/out/runtime/docker/docker.go: the life of a workload's container.
use Prim.Native.String.{compare}
use text.Mathlib.Text.{is_lt}
use gameserver_daemon.Common.{
  String, ◌<>◌, ◌&&◌, Option, none, some, List, [], ◌∷◌, ◌==◌, if◌then◌else◌,
}
use gameserver_daemon.Common.Dict.{Dict, lookup, keys}
use gameserver_daemon.Common.Strings.{to_lower}
use gameserver_daemon.Errors.{
  GoError, failure, wrapped, is_error, project_mismatch, container_not_found, Result, ok, err,
}
use gameserver_daemon.Labels.{no_labels}
use gameserver_daemon.Ports.{ProjectScope, WorkloadSpec, WorkloadHealth, RunningServer}
use gameserver_daemon.FileApi.Disk.{FileSystem}
use gameserver_daemon.Docker.Engine.{DockerClient, Adapter, Host}
use gameserver_daemon.Docker.Networks.{ensure_namespace_scope, ensure_project_scope, scope_named}
use gameserver_daemon.Docker.Containers.{
  labels_of, image_exists_locally, find_container, create_container,
}

-- `sort.Strings`
unfoldable pub place_text : String → List String → List String
place_text x [] = x ∷ []
place_text x (y ∷ ys) = if is_lt (compare y x) then y ∷ place_text x ys else x ∷ y ∷ ys

unfoldable pub sort_texts : List String → List String
unfolding place_text
sort_texts [] = []
sort_texts (x ∷ xs) = place_text x (sort_texts xs)

-- The host port of a port's first binding, if there is one.
abbrev first_binding : Option (List String) → Option String
first_binding (some (p ∷ ps)) = if p == "" then none else some p
first_binding _ = none

-- The loop of `Endpoint` over the sorted ports.
unfoldable pub first_bound : Dict (List String) → List String → Option String
first_bound bindings [] = none
first_bound bindings (k ∷ ks) = elim (first_binding (lookup k bindings)) [
  | some p ↦ some p
  | none ↦ first_bound bindings ks
]

abbrev wrap_failed : String → Option GoError → Option GoError
wrap_failed before none = none
wrap_failed before (some e) = some (wrapped before e "")

abbrev pub no_namespace : GoError
no_namespace = failure "workload spec missing namespace_id"

-- `effectiveID` of `Start`.
abbrev pub effective_id : WorkloadSpec → String
effective_id spec = if spec.namespace_id == "" then spec.project_id else spec.namespace_id

module _ {C F : Type 0} (client : DockerClient C) (fs : FileSystem F) (adapter : Adapter) where
  abbrev with_engine : {A : Type 0} → Host C F → A × C → A × Host C F
  with_engine h (a, c) = (a, record h { engine = c })

  -- The network that the container goes to.
  unfoldable pub scope_for : WorkloadSpec → C → Result ProjectScope × C
  scope_for spec c =
      if adapter.node_network == ""
      then if spec.namespace_id == ""
        then ensure_project_scope client adapter spec.project_id spec.project_slug c
        else ensure_namespace_scope client adapter spec.namespace_id c
      else (ok (scope_named spec.namespace_id "" adapter.node_network), c)

  -- The pull works to its end, or it is refused and the image is there already.
  unfoldable pub pulled : WorkloadSpec → Result (Option GoError) × C → Option GoError × C
  pulled spec (ok none, c) = (none, c)
  pulled spec (ok (some e), c) =
      (some (wrapped ("failed to pull image " <> spec.image <> ": ") e ""), c)
  pulled spec (err e, c) = (
    if image_exists_locally client spec.image c
        then none
        else some (wrapped ("failed to pull image " <> spec.image <> ": ") e ""),
    c,
  )

  abbrev pub running_server : WorkloadSpec → String → RunningServer
  running_server spec id = record {
    labels = record (labels_of adapter spec) { environment_id = "" };
    runtime_ref = id;
    state = "Running";
  }

  abbrev pub start_created :
      WorkloadSpec → String → Host C F → Option GoError × C → Result RunningServer × Host C F
  start_created spec id h (some e, c) =
      (err (wrapped "failed to start container: " e ""), record h { engine = c })
  start_created spec id h (none, c) = (ok (running_server spec id), record h { engine = c })

  abbrev pub deploy_created :
      WorkloadSpec → Result String × Host C F → Result RunningServer × Host C F
  deploy_created spec (err e, h) = (err e, h)
  deploy_created spec (ok id, h) = start_created spec id h (client.container_start id h.engine)

  abbrev pub deploy_pulled :
      WorkloadSpec → ProjectScope → Host C F → Option GoError × C → Result RunningServer × Host C F
  deploy_pulled spec scope h (some e, c) = (err e, record h { engine = c })
  deploy_pulled spec scope h (none, c) =
      deploy_created spec (create_container client adapter fs spec scope (record h { engine = c }))

  abbrev pub deploy_in :
      WorkloadSpec → Host C F → Result ProjectScope × C → Result RunningServer × Host C F
  deploy_in spec h (err e, c) = (err e, record h { engine = c })
  deploy_in spec h (ok scope, c) =
      deploy_pulled spec scope h (pulled spec (client.image_pull spec.image c))

  -- `Deploy`
  unfoldable pub deploy : WorkloadSpec → Host C F → Result RunningServer × Host C F
  unfolding scope_for pulled
  deploy spec h =
      if spec.namespace_id == "" && spec.project_id == ""
      then (err no_namespace, h)
      else deploy_in spec h (scope_for spec h.engine)

  abbrev started : String → Host C F → Option GoError × C → Result RunningServer × Host C F
  started id h (some e, c) =
      (err (wrapped "failed to start container: " e ""), record h { engine = c })
  started id h (none, c) = (
    ok (record { labels = no_labels; runtime_ref = id; state = "Running" }),
    record h { engine = c },
  )

  -- `Start`
  unfoldable pub start : WorkloadSpec → Host C F → Result RunningServer × Host C F
  start spec h =
      if spec.namespace_id == "" && spec.project_id == ""
      then (err no_namespace, h)
      else (elim (find_container client (effective_id spec) spec.server_id h.engine) [
        | ok id ↦ started id h (client.container_start id h.engine)
        | err e ↦
            if is_error project_mismatch e
            then (err e, h)
            else if is_error container_not_found e
            then deploy spec h
            else (err e, h)
      ])

  -- `Stop`
  unfoldable pub stop : String → String → Host C F → Option GoError × Host C F
  stop project workload h = elim (find_container client project workload h.engine) [
    | err e ↦ (some e, h)
    | ok id ↦
        let (r, c) = client.container_stop id h.engine in
        (wrap_failed "failed to stop container: " r, record h { engine = c })
  ]

  -- `Remove`, which does not look at what stopping answers.
  unfoldable pub remove : String → String → Host C F → Option GoError × Host C F
  remove project workload h = elim (find_container client project workload h.engine) [
    | err e ↦ (some e, h)
    | ok id ↦
        let (r, c) = client.container_remove id (client.container_stop id h.engine).1 in
        (wrap_failed "failed to remove container: " r, record h { engine = c })
  ]

  abbrev pub no_health : String → String → WorkloadHealth
  no_health workload state = record {
    workload_id = workload;
    blueprint_id = "";
    state = state;
    cpu_millicores = 0;
    memory_mb = 0;
    network_rx = 0;
    network_tx = 0;
    disk_read = 0;
    disk_write = 0;
  }

  -- `Status`, given `collectStats`, which fills in the measurements, or leaves them at zero.
  unfoldable pub status :
      (String → C → WorkloadHealth → WorkloadHealth)
      → String
      → String
      → Host C F
      → Result WorkloadHealth × Host C F
  unfolding to_lower
  status collect project workload h = elim (find_container client project workload h.engine) [
    | err e ↦ (err e, h)
    | ok id ↦ elim (client.container_inspect id h.engine) [
      | err e ↦ (err (wrapped "failed to inspect container: " e ""), h)
      | ok info ↦
          let health = no_health workload (to_lower info.status) in
          (ok (if info.running then collect id h.engine health else health), h)
    ]
  ]

  -- `Endpoint`
  unfoldable pub endpoint : String → String → Host C F → Result String × Host C F
  unfolding first_bound sort_texts
  endpoint project workload h = elim (find_container client project workload h.engine) [
    | err e ↦ (err e, h)
    | ok id ↦ elim (client.container_inspect id h.engine) [
      | err e ↦ (err (wrapped "failed to inspect container: " e ""), h)
      | ok info ↦ elim (first_bound info.bindings (sort_texts (keys info.bindings))) [
        | some port ↦ (ok ("127.0.0.1:" <> port), h)
        | none ↦ (err (failure ("no exposed ports found for workload " <> workload)), h)
      ]
    ]
  ]
