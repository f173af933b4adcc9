-- ===== src/Workers/Permanence.antt =====
-- internal/workers/mod_worker.go: which failures of the mod handlers may be tried again.
use gameserver_daemon.Common.{String, Bool, true, false, ◌≡◌, ◌≢◌, refl, Option, none, some, arith}
use gameserver_daemon.Errors.{GoError, permanent, is_error, Result, ok, err}
use gameserver_daemon.Jobs.{Job}
use gameserver_daemon.Ports.{ModInstallSpec}
use gameserver_daemon.Ports.Interfaces.{RuntimeAdapter, World}
use gameserver_daemon.Workers.Mods.{or_data, handle_install, wrap_error}

-- `errors.Is(err, ErrPermanent)`, where nil is no error.
abbrev pub is_permanent : Option GoError → Bool
is_permanent none = false
is_permanent (some e) = is_error permanent e

-- Every text that the installation needs is there.
abbrev pub IsComplete : ModInstallSpec → Type 0
IsComplete spec =
    (spec.server_id ≢ "")
    × (spec.project_id ≢ "")
    × (spec.download_url ≢ "")
    × (spec.file_name ≢ "")
    × (spec.content_type ≢ "")

permanent-wrap_error :
    (before : String) (e : Option GoError) → is_permanent (wrap_error before e) ≡ is_permanent e
unfolding is_error
permanent-wrap_error before none = refl
permanent-wrap_error before (some e) = refl

module _ {R S : Type 0} (runtime : RuntimeAdapter R) where
  -- An installation whose payload does not decode, or lacks a text that it needs, fails for good
  -- and touches nothing.
  pub install_refused :
      (decode : String → Result ModInstallSpec) (job : Job) (w : World R S)
      → ((spec : ModInstallSpec) → decode job.payload ≡ ok spec → IsComplete spec → ⊥)
      → (is_permanent (handle_install runtime decode job w).0 ≡ true)
        × ((handle_install runtime decode job w).1 ≡ w)
  unfolding handle_install is_error
  install_refused decode job w bad = refused (decode job.payload) refl
    where
      refused :
          (r : Result ModInstallSpec)
          → decode job.payload ≡ r
          → (is_permanent (handle_install runtime decode job w).0 ≡ true)
            × ((handle_install runtime decode job w).1 ≡ w)
      refused (err e) read = ground arith
      refused (ok spec) read = ground (arith, bad spec read)

  -- A complete installation is one call of the backend, with `/data` for a missing storage path, and
  -- fails for good exactly if the backend's error is permanent.
  pub install-inject_file :
      (decode : String → Result ModInstallSpec) (job : Job) (spec : ModInstallSpec) (w : World R S)
      → decode job.payload ≡ ok spec
      → IsComplete spec
      → let call =
          runtime.inject_file spec.project_id spec.server_id
            (or_data spec.storage_path)
            spec.content_type
            spec.download_url
            spec.file_name
            w.backend in
        ((handle_install runtime decode job w).1.backend ≡ call.1)
        × (is_permanent (handle_install runtime decode job w).0 ≡ is_permanent call.0)
        × ((handle_install runtime decode job w).1.reports ≡ w.reports)
  unfolding handle_install
  install-inject_file decode job spec w read complete =
      let call =
        runtime.inject_file spec.project_id spec.server_id (or_data spec.storage_path)
          spec.content_type spec.download_url spec.file_name w.backend in
      ground (arith, permanent-wrap_error "inject file: " call.0)
