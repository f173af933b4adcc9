-- ===== src/Docker/Restored.antt =====
-- internal/adapters/out/runtime/docker/docker.go: what a restarted daemon learns from the containers
-- that it has created.
use gameserver_daemon.Common.{
  true, ◌≡◌, ◌≢◌, refl, ap, ◌∙◌, List, [], ◌∷◌, ◌++◌, ◌==◌, if◌then◌else◌, arith, string_dec,
}
use gameserver_daemon.Common.Dict.{get}
use gameserver_daemon.Errors.{ok}
use gameserver_daemon.Labels.{
  WorkloadLabels, from_map, to_map, managed_by_key, managed_by_value, node_id_key, namespace_id_key,
  project_id_key, environment_id_key,
}
use gameserver_daemon.Labels.RoundTrip.{from_map-to_map, get_laws}
use gameserver_daemon.Ports.{ProjectScope, WorkloadSpec, ServerRecord}
use gameserver_daemon.FileApi.Disk.{FileSystem}
use gameserver_daemon.Workers.Provision.{record_of}
use gameserver_daemon.Docker.Engine.{Container, DockerClient, Adapter}
use gameserver_daemon.Docker.Containers.{
  container_config, labels_of, may_use, records_of, record_of_container, discover,
}
use gameserver_daemon.Docker.Operations.{running_server}

to_map-project : (l : WorkloadLabels) → get (to_map l) project_id_key ≡ l.project_id
unfolding to_map string_dec
to_map-project l = simp get_laws

to_map-namespace : (l : WorkloadLabels) → get (to_map l) namespace_id_key ≡ l.namespace_id
unfolding to_map string_dec
to_map-namespace l = simp get_laws

to_map-environment : (l : WorkloadLabels) → get (to_map l) environment_id_key ≡ l.environment_id
unfolding to_map string_dec
to_map-environment l = simp get_laws

module _ {C F : Type 0} (client : DockerClient C) (fs : FileSystem F) (adapter : Adapter) where
  -- A container has been created from a specification.
  abbrev pub IsCreatedFrom : WorkloadSpec → Container → Type 0
  IsCreatedFrom spec c =
      (scope : ProjectScope) × (c.labels ≡ (container_config adapter spec scope).labels)

  labels-to_map :
      (spec : WorkloadSpec) (c : Container)
      → IsCreatedFrom spec c
      → c.labels ≡ to_map (labels_of adapter spec)
  unfolding container_config
  labels-to_map spec c (scope, e) = e

  -- A container that the adapter has created for a workload is accepted for the workload's namespace,
  -- for its project and for its environment.
  pub created-may_use :
      (spec : WorkloadSpec) (c : Container)
      → IsCreatedFrom spec c
      → (may_use spec.namespace_id c ≡ true)
        × (may_use spec.project_id c ≡ true)
        × (may_use spec.environment_id c ≡ true)
  unfolding may_use
  created-may_use spec c made =
      let e = labels-to_map spec c made in
      (
        ground
            (arith, ap (λ m. get m namespace_id_key) e, to_map-namespace (labels_of adapter spec)),
        ground (arith, ap (λ m. get m project_id_key) e, to_map-project (labels_of adapter spec)),
        ground (
          arith,
          ap (λ m. get m environment_id_key) e,
          to_map-environment (labels_of adapter spec),
        ),
      )

  records_of-created :
      (spec : WorkloadSpec) (c : Container) (cs : List Container)
      → c.labels ≡ to_map (labels_of adapter spec)
      → spec.server_id ≢ ""
      → records_of (c ∷ cs) ≡ record_of_container c (labels_of adapter spec) ∷ records_of cs
  unfolding records_of
  records_of-created spec c cs e named =
      let read = ap from_map e ∙ from_map-to_map (labels_of adapter spec) in rw read (ground arith)

  records_of-append :
      (xs ys : List Container) → records_of (xs ++ ys) ≡ records_of xs ++ records_of ys
  unfolding records_of
  records_of-append [] ys = refl
  records_of-append (x ∷ xs) ys = ground (arith, records_of-append xs ys)

  -- After a restart, a workload whose container the adapter has created, wherever the engine lists it,
  -- is back in the list with the record that provisioning has stored for it, but for two fields: the
  -- status is read off the container, and the project is the namespace if there is one.
  pub discover-created :
      (spec : WorkloadSpec) (c : Container) (before after : List Container) (s : C)
      → IsCreatedFrom spec c
      → spec.server_id ≢ ""
      → client.container_list
          ((managed_by_key, managed_by_value) ∷ (node_id_key, adapter.node_id) ∷ [])
          s
        ≡ ok (before ++ c ∷ after)
      → (front : List ServerRecord) × (back : List ServerRecord) × (discover client adapter s
          ≡ ok (
              front
              ++ record (record_of spec (running_server client fs adapter spec c.id)) {
                status = if c.state == "running" then "Running" else "Stopped";
                project_id = if spec.namespace_id == "" then spec.project_id else spec.namespace_id;
              }
                ∷ back))
  unfolding discover
  discover-created spec c before after s made named listing = (
    records_of before,
    records_of after,
    rw (listing, discover)
        (ap ok (
          records_of-append before (c ∷ after)
          ∙ ap (λ rs. records_of before ++ rs)
              (records_of-created spec c after (labels-to_map spec c made) named))),
  )
