-- ===== src/Docker/Deployed.antt =====
-- internal/adapters/out/runtime/docker/docker.go: what a deployment that succeeds has done.
use gameserver_daemon.Common.{String, true, ◌≡◌, ◌≢◌, ◌⊎◌, Option, none, [], ◌∷◌}
use gameserver_daemon.Common.Dict.{get}
use gameserver_daemon.Errors.{GoError, Result, ok, err}
use gameserver_daemon.Labels.{from_map, managed_by_key, managed_by_value}
use gameserver_daemon.Ports.{ProjectScope, WorkloadSpec, RunningServer}
use gameserver_daemon.FileApi.Disk.{FileSystem, Disk}
use gameserver_daemon.Docker.Engine.{ContainerConfig, DockerClient, Adapter, Host}
use gameserver_daemon.Docker.Containers.{image_exists_locally}

module _ {C F : Type 0} (client : DockerClient C) (fs : FileSystem F) (adapter : Adapter)
    (spec : WorkloadSpec) where
  -- A configuration asks for what the specification says: its image and its command, the network, and
  -- labels from which all the ids can be read again, with the one of this daemon.
  pub record IsConfigured (scope : ProjectScope) (k : ContainerConfig) : Type 0 where
    pub image : k.image ≡ spec.image
    pub network : k.network ≡ scope.network_name
    pub command : spec.command ≢ "" → k.cmd ≡ "sh" ∷ "-c" ∷ spec.command ∷ []
    pub no_command : spec.command ≡ "" → k.cmd ≡ []
    pub managed : get k.labels managed_by_key ≡ managed_by_value
    pub labelled : from_map k.labels ≡ record {
      owner_id = spec.owner_id;
      server_id = spec.server_id;
      blueprint_id = spec.blueprint_id;
      node_id = adapter.node_id;
      namespace_id = spec.namespace_id;
      project_id = spec.project_id;
      environment_id = spec.environment_id;
      project_slug = spec.project_slug;
    }

  -- The pull has worked to its end, or the engine has refused it and has the image already.
  abbrev pub HasImage : Result (Option GoError) × C → Type 0
  HasImage r =
      (r.0 ≡ ok none)
      ⊎ ((e : GoError) × (r.0 ≡ err e) × (image_exists_locally client spec.image r.1 ≡ true))

  -- The answer about a container: its id, that it runs, and the labels of the specification without the
  -- environment.
  pub record Announces (id : String) (server : RunningServer) : Type 0 where
    pub names : server.runtime_ref ≡ id
    pub runs : server.state ≡ "Running"
    pub carries : server.labels ≡ record {
      owner_id = spec.owner_id;
      server_id = spec.server_id;
      blueprint_id = spec.blueprint_id;
      node_id = adapter.node_id;
      namespace_id = spec.namespace_id;
      project_id = spec.project_id;
      environment_id = "";
      project_slug = spec.project_slug;
    }

  -- From the engine in state `c`, the image has been pulled, then a container created as the
  -- specification says, then that one started, which is the engine's last state.
  abbrev pub IsUp : ProjectScope → C → RunningServer → Host C F → Type 0
  IsUp scope c server last =
      let image = client.image_pull spec.image c in
      HasImage image
      × ((k : ContainerConfig) × (id : String) × IsConfigured scope k
          × ((client.container_create k image.1).0 ≡ ok id)
          × ((client.container_start id (client.container_create k image.1).1).0 ≡ none)
          × (last.engine ≡ (client.container_start id (client.container_create k image.1).1).1)
          × Announces id server)
