-- ===== src/Migration/Finished.antt =====
-- cmd/kleffctl/main.go: what the command has done when it ends without an error.
use gameserver_daemon.Common.{
  String, Bool, true, false, ◌≡◌, ◌≢◌, arith, string_dec, refl, subst, sym, ap, ◌∙◌, Option, none,
  some, List, [], ◌∷◌, ◌==◌, if◌then◌else◌,
}
use gameserver_daemon.Common.Strings.{trim_space}
use gameserver_daemon.Common.Strings.Laws.{not_blank}
use gameserver_daemon.Common.Dict.{get}
use gameserver_daemon.Labels.{project_id_key}
use gameserver_daemon.Errors.{GoError, Result, ok, err}
use gameserver_daemon.Migration.{Summary, Engine, project_network, migrate_container}
use gameserver_daemon.Migration.Network.{HasNetwork, ensured-HasNetwork}
use gameserver_daemon.Migration.Moved.{Moved, migrate_container-Moved}
use gameserver_daemon.Migration.Command.{
  Flags, targets, migrate_all, after_migration, after_listing, after_network, network_ensured,
  connected, migrate_to_projects,
}

module _ {X C : Type 0} (engine : Engine X C) (clock : C → String) where
  -- The containers have been dealt with one after the other: one with a project has been left alone, and
  -- one without a project has been moved.
  pub data AllMoved (project : String) : List Summary → C → C → Type 0 where
    nothing_left : {c : C} → AllMoved project [] c c
    kept :
        {t : Summary} {ts : List Summary} {c d : C}
        → get t.labels project_id_key ≢ ""
        → AllMoved project ts c d
        → AllMoved project (t ∷ ts) c d
    moved :
        {t : Summary} {ts : List Summary} {c d e : C}
        → get t.labels project_id_key ≡ ""
        → Moved engine project t.id c d
        → AllMoved project ts d e
        → AllMoved project (t ∷ ts) c e

  -- What a run has done, from the state of a new client on: nothing without `--execute`.
  pub record IsFinished (flags : Flags) (start end : C) : Type 0 where
    pub listed : C
    pub containers : List Summary
    pub lists : engine.list_managed listed ≡ ok containers
    pub has_network : flags.execute ≡ true → HasNetwork engine clock flags.project_id start listed
    pub all_moved : flags.execute ≡ true → AllMoved flags.project_id containers listed end
    pub only_looked : flags.execute ≡ false → (listed ≡ start) × (end ≡ start)

  targets-kept :
      (t : Summary) (ts : List Summary)
      → get t.labels project_id_key ≢ ""
      → targets (t ∷ ts) ≡ targets ts
  unfolding targets
  targets-kept t ts h = ground arith

  targets-moved :
      (t : Summary) (ts : List Summary)
      → get t.labels project_id_key ≡ ""
      → targets (t ∷ ts) ≡ t ∷ targets ts
  unfolding targets
  targets-moved t ts h = ground arith

  module _ (flags : Flags) (named : (flags.project_id == "") ≡ false) where
    abbrev one : String → C → Option GoError × C
    one id c =
        migrate_container engine flags.project_id flags.project_slug
          (project_network flags.project_id) (clock c) id c

    then_rest :
        (t : Summary) (ts : List Summary) (c : C) (r : Option GoError × C)
        → get t.labels project_id_key ≡ ""
        → ((d : C)
            → (migrate_all engine clock flags (targets ts) d).0 ≡ none
            → AllMoved flags.project_id ts d (migrate_all engine clock flags (targets ts) d).1)
        → one t.id c ≡ r
        → (after_migration engine clock t (migrate_all engine clock flags (targets ts)) r).0 ≡ none
        → AllMoved flags.project_id
            (t ∷ ts)
            c
            (after_migration engine clock t (migrate_all engine clock flags (targets ts)) r).1
    then_rest t ts c (some x, d) bare rest e h = cc
    then_rest t ts c (none, d) bare rest e h =
        moved bare
          (subst (λ (x : Option GoError × C). Moved engine flags.project_id t.id c x.1) e
            (migrate_container-Moved engine flags.project_id flags.project_slug (clock c) t.id c
              named (ap (λ (x : Option GoError × C). x.0) e)))
          (rest d h)

    unfold_one :
        (t : Summary) (ts : List Summary) (c : C)
        → get t.labels project_id_key ≡ ""
        → migrate_all engine clock flags (targets (t ∷ ts)) c
          ≡ after_migration engine clock t
              (migrate_all engine clock flags (targets ts))
              (one t.id c)
    unfolding migrate_all
    unfold_one t ts c bare =
        ap (λ us. migrate_all engine clock flags us c) (targets-moved t ts bare)

    migrate_all-AllMoved :
        (ss : List Summary) (c : C)
        → (migrate_all engine clock flags (targets ss) c).0 ≡ none
        → AllMoved flags.project_id ss c (migrate_all engine clock flags (targets ss) c).1
    unfolding migrate_all targets
    migrate_all-AllMoved [] c h = nothing_left
    migrate_all-AllMoved (t ∷ ts) c h = elim (string_dec (get t.labels project_id_key) "") [
      | yes bare ↦
          subst (λ (x : Option GoError × C). AllMoved flags.project_id (t ∷ ts) c x.1)
            (sym (unfold_one t ts c bare))
            (then_rest t ts c (one t.id c) bare (migrate_all-AllMoved ts) refl
              (sym (ap (λ (x : Option GoError × C). x.0) (unfold_one t ts c bare)) ∙ h))
      | no other ↦
          subst (λ us. AllMoved flags.project_id (t ∷ ts) c (migrate_all engine clock flags us c).1)
            (sym (targets-kept t ts other))
            (kept other (
              migrate_all-AllMoved ts c (
                sym (ap (λ us. (migrate_all engine clock flags us c).0) (targets-kept t ts other))
                ∙ h)))
    ]

    apply-AllMoved :
        (execute : Bool) (ss : List Summary) (c : C)
        → (if execute then migrate_all engine clock flags (targets ss) c else (none, c)).0 ≡ none
        → execute ≡ true
        → AllMoved flags.project_id ss c
            (if execute then migrate_all engine clock flags (targets ss) c else (none, c)).1
    apply-AllMoved true ss c h e = migrate_all-AllMoved ss c h
    apply-AllMoved false ss c h e = cc

    apply_looks :
        (execute : Bool) (ss : List Summary) (c : C)
        → execute ≡ false
        → (if execute then migrate_all engine clock flags (targets ss) c else (none, c)).1 ≡ c
    apply_looks true ss c e = cc
    apply_looks false ss c e = refl

    executed-HasNetwork :
        (start c : C)
        → network_ensured engine clock flags start ≡ (none, c)
        → flags.execute ≡ true
        → HasNetwork engine clock flags.project_id start c
    executed-HasNetwork start c ensured e =
        ensured-HasNetwork engine clock flags.project_id flags.project_slug start c
          (ground (arith, ensured, e))

    unexecuted :
        (start c : C)
        → network_ensured engine clock flags start ≡ (none, c)
        → flags.execute ≡ false
        → c ≡ start
    unexecuted start c ensured e = ground (arith, ensured, e)

    listed-IsFinished :
        (start c : C) (r : Result (List Summary))
        → network_ensured engine clock flags start ≡ (none, c)
        → engine.list_managed c ≡ r
        → (after_listing engine clock flags r c).0 ≡ none
        → IsFinished flags start (after_listing engine clock flags r c).1
    listed-IsFinished start c (err e) ensured lists h = cc
    listed-IsFinished start c (ok ss) ensured lists h = record {
      listed = c;
      containers = ss;
      lists = lists;
      has_network = executed-HasNetwork start c ensured;
      all_moved = apply-AllMoved flags.execute ss c h;
      only_looked = λ e. (
        unexecuted start c ensured e,
        apply_looks flags.execute ss c e ∙ unexecuted start c ensured e,
      );
    }

    ensured-IsFinished :
        (start : C) (r : Option GoError × C)
        → network_ensured engine clock flags start ≡ r
        → (after_network engine clock flags r).0 ≡ none
        → IsFinished flags start (after_network engine clock flags r).1
    ensured-IsFinished start (some e, c) ensured h = cc
    ensured-IsFinished start (none, c) ensured h =
        listed-IsFinished start c (engine.list_managed c) ensured refl h

  reaches_network :
      (flags : Flags) (connect : Result C) (start c : C)
      → (trim_space flags.project_id == "") ≡ false
      → connect ≡ ok start
      → migrate_to_projects engine clock connect flags c
        ≡ after_network engine clock flags (network_ensured engine clock flags start)
  unfolding migrate_to_projects
  reaches_network flags connect start c named connects = rw (named, connects) refl

  -- A migration that ends without an error has finished. With a project id that is not blank and a
  -- client, if the command answers nil, the daemon's containers have been listed. With `--execute`, a
  -- network with the project's label was there or has been created before, and going through the list,
  -- each container without a project label has been moved, one after the other, to one that belongs to
  -- the project, and no other has been touched; without `--execute` the engine is as it was.
  pub migrate_to_projects-IsFinished :
      (flags : Flags) (connect : Result C) (start c : C)
      → (trim_space flags.project_id == "") ≡ false
      → connect ≡ ok start
      → (migrate_to_projects engine clock connect flags c).0 ≡ none
      → IsFinished flags start (migrate_to_projects engine clock connect flags c).1
  unfolding migrate_to_projects
  migrate_to_projects-IsFinished flags connect start c named connected h =
      let same = reaches_network flags connect start c named connected in
      subst (λ (x : Option GoError × C). IsFinished flags start x.1) (sym same)
        (ensured-IsFinished flags (not_blank flags.project_id named) start
          (network_ensured engine clock flags start) refl
          (ap (λ (x : Option GoError × C). x.0) (sym same) ∙ h))
