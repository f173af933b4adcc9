-- ===== src/Migration/Moved.antt =====
-- cmd/kleffctl/main.go: what a migration that succeeds has done.
use gameserver_daemon.Common.{
  String, ◌<>◌, true, false, ◌≡◌, refl, ◌∙◌, sym, ap, Option, none, some, arith, ◌==◌,
  if◌then◌else◌, string_dec, [], ◌∷◌,
}
use gameserver_daemon.Common.Dict.{Dict, get, insert}
use gameserver_daemon.Common.Strings.{trim_prefix}
use gameserver_daemon.Errors.{GoError, Result, ok, err}
use gameserver_daemon.Labels.{
  workload_id_key, server_id_key, project_id_key, managed_by_key, managed_by_value,
  project_slug_key, set_if,
}
use gameserver_daemon.Labels.RoundTrip.{get-insert, get_laws}
use gameserver_daemon.FileApi.Scope.{short_id}
use gameserver_daemon.Docker.Networks.{project_network_name}
use gameserver_daemon.Docker.Containers.{may_use}
use gameserver_daemon.Migration.{
  Settings, Inspected, Engine, short_text, project_network, copy_if_missing, migrated_labels,
  new_settings, migrate_container, replaced, after_inspect, after_stop, after_rename, after_create,
  after_start,
}
use gameserver_daemon.Migration.Command.{targets}

-- The tool's name for a project's network is the daemon's.
network_name : (project : String) → project_network project ≡ project_network_name project
unfolding project_network short_text project_network_name short_id
network_name project = refl

get-copy_if_missing :
    (i j k : String) (m : Dict String)
    → get (copy_if_missing j k m) i
      ≡ (if j == i then if get m j == "" then get m k else get m j else get m i)
get-copy_if_missing i j k m = ground (arith, get-insert i j (get m k) m)

-- The labels before the ids are copied.
abbrev stamped : String → String → Dict String → Dict String
stamped project slug m =
    set_if project_slug_key slug
      (insert project_id_key project (insert managed_by_key managed_by_value m))

stamped_project :
    (project slug : String) (m : Dict String)
    → get (stamped project slug m) project_id_key ≡ project
unfolding string_dec
stamped_project project slug m = simp get_laws

stamped_workload :
    (project slug : String) (m : Dict String)
    → get (stamped project slug m) workload_id_key ≡ get m workload_id_key
unfolding string_dec
stamped_workload project slug m = simp get_laws

stamped_server :
    (project slug : String) (m : Dict String)
    → get (stamped project slug m) server_id_key ≡ get m server_id_key
unfolding string_dec
stamped_server project slug m = simp get_laws

copied_other :
    (i j k : String) (m : Dict String) → (j == i) ≡ false → get (copy_if_missing j k m) i ≡ get m i
copied_other i j k m h = ground (arith, get-copy_if_missing i j k m)

copied_same :
    (j k : String) (m : Dict String)
    → get (copy_if_missing j k m) j ≡ (if get m j == "" then get m k else get m j)
copied_same j k m = ground (arith, get-copy_if_missing j j k m)

project_label :
    (project slug : String) (m : Dict String)
    → get (migrated_labels project slug m) project_id_key ≡ project
unfolding migrated_labels string_dec
project_label project slug m =
    copied_other project_id_key server_id_key workload_id_key
      (copy_if_missing workload_id_key server_id_key (stamped project slug m)) refl
    ∙ copied_other project_id_key workload_id_key server_id_key (stamped project slug m) refl
    ∙ stamped_project project slug m

workload_label :
    (project slug : String) (m : Dict String)
    → get (migrated_labels project slug m) workload_id_key
      ≡ (if get m workload_id_key == "" then get m server_id_key else get m workload_id_key)
unfolding migrated_labels string_dec
workload_label project slug m =
    copied_other workload_id_key server_id_key workload_id_key
      (copy_if_missing workload_id_key server_id_key (stamped project slug m)) refl
    ∙ copied_same workload_id_key server_id_key (stamped project slug m)
    ∙ rw (stamped_workload project slug m, stamped_server project slug m) refl

server_label :
    (project slug : String) (m : Dict String)
    → get (migrated_labels project slug m) server_id_key
      ≡ (if get m server_id_key == "" then get m workload_id_key else get m server_id_key)
unfolding migrated_labels string_dec
server_label project slug m =
    copied_same server_id_key workload_id_key
      (copy_if_missing workload_id_key server_id_key (stamped project slug m))
    ∙ rw
        (
          copied_other server_id_key workload_id_key server_id_key (stamped project slug m) refl,
          copied_same workload_id_key server_id_key (stamped project slug m),
          stamped_server project slug m,
          stamped_workload project slug m,
        )
        (ground arith)

-- The labels make a container the project's: the daemon may use it for the project, the tool does
-- not select it again, and of the two ids of the workload each one stands in for the other.
pub record BelongsTo (project : String) (before after : Dict String) : Type 0 where
  pub usable :
      (id state : String)
      → may_use project (record { id = id; state = state; labels = after }) ≡ true
  pub settled : (id : String) → targets (record { id = id; labels = after } ∷ []) ≡ []
  pub workload : get after workload_id_key ≡ (
      if get before workload_id_key == ""
      then get before server_id_key
      else get before workload_id_key)
  pub server : get after server_id_key ≡ (
      if get before server_id_key == ""
      then get before workload_id_key
      else get before server_id_key)

migrated_labels-BelongsTo :
    (project slug : String) (m : Dict String)
    → (project == "") ≡ false
    → BelongsTo project m (migrated_labels project slug m)
unfolding may_use targets
migrated_labels-BelongsTo project slug m named = record {
  usable = λ id state. ground (arith, project_label project slug m);
  settled = λ id. ground (arith, project_label project slug m);
  workload = workload_label project slug m;
  server = server_label project slug m;
}

module _ {X C : Type 0} (engine : Engine X C) where
  -- What the container `id` has become in `d`: a container of the same name, created as `made` and
  -- started, in whose favour the old one has been removed.
  pub record Moved (project id : String) (c d : C) : Type 0 where
    pub old : Inspected X
    pub kept : Settings X
    pub made : Settings X
    pub new : String
    pub before : C
    pub created : C
    pub inspected : engine.inspect id c ≡ ok old
    pub had : old.settings ≡ some kept
    pub creates : engine.create (trim_prefix old.name "/") made before ≡ (ok new, created)
    pub starts : (engine.start new created).0 ≡ none
    pub removes : d ≡ (engine.remove old.id (engine.start new created).1).1
    pub network : made.network ≡ project_network_name project
    pub labels : BelongsTo project kept.labels made.labels
    pub rest : made.rest ≡ kept.rest

  module _ (project slug stamp id : String) (c : C) (named : (project == "") ≡ false) where
    started-Moved :
        (old : Inspected X) (s : Settings X) (new : String) (b m : C) (r : Option GoError × C)
        → engine.inspect id c ≡ ok old
        → old.settings ≡ some s
        → engine.create
            (trim_prefix old.name "/")
            (new_settings engine project slug (project_network project) s)
            b
          ≡ (ok new, m)
        → engine.start new m ≡ r
        → (after_start engine project slug (project_network project) old r).0 ≡ none
        → Moved project id c (after_start engine project slug (project_network project) old r).1
    started-Moved old s new b m (some e, d) inspected had made started h = cc
    started-Moved old s new b m (none, d) inspected had made started h = record {
      old = old;
      kept = s;
      made = new_settings engine project slug (project_network project) s;
      new = new;
      before = b;
      created = m;
      inspected = inspected;
      had = had;
      creates = made;
      starts = ap (λ (x : Option GoError × C). x.0) started;
      removes = ap (λ (x : Option GoError × C). (engine.remove old.id x.1).1) (sym started);
      network = network_name project;
      labels = migrated_labels-BelongsTo project slug s.labels named;
      rest = refl;
    }

    created-Moved :
        (old : Inspected X) (s : Settings X) (b : C) (r : Result String × C)
        → engine.inspect id c ≡ ok old
        → old.settings ≡ some s
        → engine.create
            (trim_prefix old.name "/")
            (new_settings engine project slug (project_network project) s)
            b
          ≡ r
        → (after_create engine project slug
            (project_network project)
            old
            (trim_prefix old.name "/")
            r).0
          ≡ none
        → Moved project id c
            (after_create engine project slug
              (project_network project)
              old
              (trim_prefix old.name "/")
              r).1
    created-Moved old s b (err e, d) inspected had made h = cc
    created-Moved old s b (ok new, d) inspected had made h =
        started-Moved old s new b d (engine.start new d) inspected had made refl h

    renamed-Moved :
        (old : Inspected X) (s : Settings X) (r : Option GoError × C)
        → engine.inspect id c ≡ ok old
        → old.settings ≡ some s
        → (after_rename engine project slug
            (project_network project)
            old
            (trim_prefix old.name "/")
            s
            r).0
          ≡ none
        → Moved project id c
            (after_rename engine project slug
              (project_network project)
              old
              (trim_prefix old.name "/")
              s
              r).1
    renamed-Moved old s (some e, d) inspected had h = cc
    renamed-Moved old s (none, d) inspected had h =
        created-Moved old s d
          (engine.create (trim_prefix old.name "/")
            (new_settings engine project slug (project_network project) s) d)
          inspected had refl h

    stopped-Moved :
        (old : Inspected X) (s : Settings X) (r : Option GoError × C)
        → engine.inspect id c ≡ ok old
        → old.settings ≡ some s
        → (after_stop engine project slug
            (project_network project)
            old
            (trim_prefix old.name "/")
            stamp
            s
            r).0
          ≡ none
        → Moved project id c
            (after_stop engine project slug
              (project_network project)
              old
              (trim_prefix old.name "/")
              stamp
              s
              r).1
    stopped-Moved old s (some e, d) inspected had h = cc
    stopped-Moved old s (none, d) inspected had h =
        renamed-Moved old s
          (engine.rename old.id (trim_prefix old.name "/" <> "-legacy-" <> stamp) d) inspected had h

    replaced-Moved :
        (old : Inspected X) (settings : Option (Settings X))
        → engine.inspect id c ≡ ok old
        → old.settings ≡ settings
        → (replaced engine project slug (project_network project) stamp c old settings).0 ≡ none
        → Moved project id c
            (replaced engine project slug (project_network project) stamp c old settings).1
    replaced-Moved old none inspected had h = cc
    replaced-Moved old (some s) inspected had h =
        stopped-Moved old s (if old.running then engine.stop old.id c else (none, c)) inspected had
          h

    inspected-Moved :
        (r : Result (Inspected X))
        → engine.inspect id c ≡ r
        → (after_inspect engine project slug (project_network project) stamp c r).0 ≡ none
        → Moved project id c
            (after_inspect engine project slug (project_network project) stamp c r).1
    inspected-Moved (err e) inspected h = cc
    inspected-Moved (ok old) inspected h = replaced-Moved old old.settings inspected refl h

    -- If the tool's work on a container answers nil,
    -- and the project has a name, then the container could be inspected, and a new one of its name, with
    -- its settings but for the labels and the network, has been created and started before the old one
    -- was removed. The new one is on the network that the daemon uses for the project, the daemon may
    -- use it for the project, and the tool does not select it again; a workload's id that only one of its
    -- two labels had is in both.
    pub migrate_container-Moved :
        (migrate_container engine project slug (project_network project) stamp id c).0 ≡ none
        → Moved project id c
            (migrate_container engine project slug (project_network project) stamp id c).1
    unfolding migrate_container
    migrate_container-Moved h = inspected-Moved (engine.inspect id c) refl h
