-- ===== src/Docker/Authorized.antt =====
-- internal/adapters/out/runtime/docker/docker.go: which containers an operation may touch.
use gameserver_daemon.Common.{
  String, true, false, ◌≡◌, ◌≢◌, refl, sym, ◌⊎◌, inl, inr, some, List, [], ◌∷◌, All, arith,
  Bool-cases,
}
use gameserver_daemon.Common.Dict.{lookup, get}
use gameserver_daemon.Errors.{
  GoError, sentinel, wrapped, is_error, same_sentinel, project_mismatch, Result, ok, err,
}
use gameserver_daemon.Labels.{
  workload_id_key, server_id_key, managed_by_key, managed_by_value, namespace_id_key,
  project_id_key, environment_id_key,
}
use gameserver_daemon.Ports.{WorkloadHealth, WorkloadSpec}
use gameserver_daemon.FileApi.Disk.{FileSystem}
use gameserver_daemon.Docker.Engine.{Container, DockerClient, Carries, FiltersHold, Host, Adapter}
use gameserver_daemon.Docker.Containers.{
  may_use, mismatch_text, pick_container, listed, find_container,
}
use gameserver_daemon.Docker.Operations.{start, stop, remove, status, endpoint, effective_id}

-- The container runs the workload for this daemon.
abbrev pub Runs : String → Container → Type 0
Runs workload c =
    ((lookup workload_id_key c.labels ≡ some workload)
      ⊎ (lookup server_id_key c.labels ≡ some workload))
    × (lookup managed_by_key c.labels ≡ some managed_by_value)

-- One of its labels names the project, or no project has been named.
abbrev pub Belongs : String → Container → Type 0
Belongs project c =
    (project ≡ "")
    ⊎ ((get c.labels namespace_id_key ≡ project)
        ⊎ ((get c.labels project_id_key ≡ project) ⊎ (get c.labels environment_id_key ≡ project)))

may_use-Belongs : (project : String) (c : Container) → may_use project c ≡ true → Belongs project c
unfolding may_use
may_use-Belongs project c h = ground arith

picked :
    (project workload id : String) (cs : List Container)
    → pick_container project workload cs ≡ ok id
    → (c : Container) × (rest : List Container) × (cs ≡ c ∷ rest)
      × (c.id ≡ id)
      × (may_use project c ≡ true)
unfolding pick_container
picked project workload id [] h = cc
picked project workload id (c ∷ cs) h = (c, cs, refl, ground arith, ground arith)

first-Runs :
    (key workload : String) (c : Container) (cs : List Container)
    → (key ≡ workload_id_key) ⊎ (key ≡ server_id_key)
    → All (Carries ((key, workload) ∷ (managed_by_key, managed_by_value) ∷ [])) (c ∷ cs)
    → Runs workload c
first-Runs key workload c cs (inl e) h = (inl (rw (sym e) h.0.0), h.0.1.0)
first-Runs key workload c cs (inr e) h = (inr (rw (sym e) h.0.0), h.0.1.0)

-- The error of a search whose container belongs to another project.
abbrev pub mismatch : String → GoError
mismatch text = wrapped "" (sentinel project_mismatch) text

module _ {C : Type 0} (client : DockerClient C) where
  -- The engine's answer to the search for a workload: what it lists under the workload's label, or,
  -- where that is nothing, under the older server label; both among this daemon's containers alone.
  abbrev pub Answers : String → C → List Container → Type 0
  Answers workload s cs =
      (client.container_list ((workload_id_key, workload) ∷ (managed_by_key, managed_by_value) ∷ [])
          s
        ≡ ok cs)
      ⊎ ((client.container_list
              ((workload_id_key, workload) ∷ (managed_by_key, managed_by_value) ∷ []) s
            ≡ ok [])
          × (client.container_list
                ((server_id_key, workload) ∷ (managed_by_key, managed_by_value) ∷ []) s
              ≡ ok cs))

  listed-Answers :
      (workload : String) (s : C) (c : Container) (cs : List Container)
      → listed client workload s ≡ ok (c ∷ cs)
      → Answers workload s (c ∷ cs)
  unfolding listed
  listed-Answers workload s c cs h = ground arith

  Answers-listed :
      (workload : String) (s : C) (c : Container) (cs : List Container)
      → Answers workload s (c ∷ cs)
      → listed client workload s ≡ ok (c ∷ cs)
  unfolding listed
  Answers-listed workload s c cs h = ground arith

  Answers-Runs :
      FiltersHold client
      → (workload : String) (s : C) (c : Container) (cs : List Container)
      → Answers workload s (c ∷ cs)
      → Runs workload c
  Answers-Runs faithful workload s c cs (inl e) =
      first-Runs workload_id_key workload c cs (inl refl) (faithful _ s (c ∷ cs) e)
  Answers-Runs faithful workload s c cs (inr (none_by, e)) =
      first-Runs server_id_key workload c cs (inr refl) (faithful _ s (c ∷ cs) e)

  found_listed :
      (project workload id : String) (s : C)
      → find_container client project workload s ≡ ok id
      → (cs : List Container) × (listed client workload s ≡ ok cs)
        × (pick_container project workload cs ≡ ok id)
  unfolding find_container
  found_listed project workload id s h = go (listed client workload s) refl
    where
      failed : (e : GoError) → listed client workload s ≡ err e → ⊥
      failed e k = ground arith

      go :
          (r : Result (List Container))
          → listed client workload s ≡ r
          → (cs : List Container) × (listed client workload s ≡ ok cs)
            × (pick_container project workload cs ≡ ok id)
      go (err e) k = absurd (failed e k)
      go (ok cs) k = (cs, k, ground arith)

  -- A container that is found for a project and a workload is the first one that the engine lists for
  -- the workload: it is one of this daemon that carries the workload's id, and one of its three
  -- tenancy labels is the project, unless no project was given. The engine lists only containers that
  -- have the labels asked for.
  pub find_container-Belongs :
      FiltersHold client
      → (project workload id : String) (s : C) → find_container client project workload s ≡ ok id
      → (c : Container) × (rest : List Container) × Answers workload s (c ∷ rest)
        × (c.id ≡ id)
        × Runs workload c
        × Belongs project c
  find_container-Belongs faithful project workload id s h =
      let (cs, listing, pick) = found_listed project workload id s h in
      let (c, rest, shape, same, allowed) = picked project workload id cs pick in
      let answers = listed-Answers workload s c rest (rw (sym shape) listing) in
      (
        c,
        rest,
        answers,
        same,
        Answers-Runs faithful workload s c rest answers,
        may_use-Belongs project c allowed,
      )

  foreign-may_use :
      (project : String) (c : Container) → (Belongs project c → ⊥) → may_use project c ≡ false
  foreign-may_use project c foreign = elim (Bool-cases (may_use project c)) [
    | inl allowed ↦ absurd (foreign (may_use-Belongs project c allowed))
    | inr other ↦ other
  ]

  foreign_refused :
      (project workload : String) (s : C) (c : Container) (cs : List Container)
      → workload ≢ ""
      → Answers workload s (c ∷ cs)
      → (Belongs project c → ⊥)
      → find_container client project workload s ≡ err (mismatch (mismatch_text project workload c))
  unfolding find_container pick_container
  foreign_refused project workload s c cs named answers foreign =
      ground (arith, Answers-listed workload s c cs answers, foreign-may_use project c foreign)

  mismatch-is_error : (text : String) → is_error project_mismatch (mismatch text) ≡ true
  unfolding is_error same_sentinel
  mismatch-is_error text = refl

  -- Where the first container that the engine lists for a workload belongs to another project, no
  -- operation for the project touches the engine or the disk: stopping, removing, the status, the
  -- endpoint and starting all answer one error, that of a project mismatch. A project and a workload are
  -- named.
  pub refused_untouched :
      {F : Type 0} (fs : FileSystem F) (adapter : Adapter)
      (collect : String → C → WorkloadHealth → WorkloadHealth) (project workload : String)
      (spec : WorkloadSpec) (h : Host C F) (c : Container) (cs : List Container)
      → project ≢ ""
      → workload ≢ ""
      → effective_id spec ≡ project
      → spec.server_id ≡ workload
      → Answers workload h.engine (c ∷ cs)
      → (Belongs project c → ⊥)
      → (text : String) × (stop client fs adapter project workload h ≡ (some (mismatch text), h))
        × (remove client fs adapter project workload h ≡ (some (mismatch text), h))
        × (status client fs adapter collect project workload h ≡ (err (mismatch text), h))
        × (endpoint client fs adapter project workload h ≡ (err (mismatch text), h))
        × (start client fs adapter spec h ≡ (err (mismatch text), h))
  unfolding stop remove status endpoint start
  refused_untouched fs adapter collect project workload spec h c cs given named same own answers
        foreign =
      (
        mismatch_text project workload c,
        rw (missing, stop) refl,
        rw (missing, remove) refl,
        rw (missing, status) refl,
        rw (missing, endpoint) refl,
        unstarted,
      )
    where
      missing :
          find_container client project workload h.engine
          ≡ err (mismatch (mismatch_text project workload c))
      missing = foreign_refused project workload h.engine c cs named answers foreign

      unstarted :
          start client fs adapter spec h ≡ (err (mismatch (mismatch_text project workload c)), h)
      unstarted = ground (arith, missing, mismatch-is_error (mismatch_text project workload c))
