-- ===== src/Workers/Mods.antt =====
-- internal/workers/mod_worker.go
use gameserver_daemon.Common.{String, ◌||◌, Option, none, some, ◌==◌, if◌then◌else◌}
use gameserver_daemon.Errors.{GoError, sentinel, permanent, wrapped, error_text, Result, ok, err}
use gameserver_daemon.Common.{◌<>◌}
use gameserver_daemon.Jobs.{Job}
use gameserver_daemon.Ports.{ModInstallSpec, ModUninstallSpec}
use gameserver_daemon.Ports.Interfaces.{RuntimeAdapter, World}
use gameserver_daemon.Workers.Reporting.{with_backend}

-- `fmt.Errorf("%w: …", ports.ErrPermanent)`
abbrev pub permanent_failure : String → GoError
permanent_failure message = wrapped "" (sentinel permanent) (": " <> message)

-- The volume's mount point, `/data` if the payload names none.
abbrev pub or_data : String → String
or_data path = if path == "" then "/data" else path

abbrev pub wrap_error : String → Option GoError → Option GoError
wrap_error before none = none
wrap_error before (some e) = some (wrapped before e "")

module _ {R S : Type 0} (runtime : RuntimeAdapter R) where
  pub install : ModInstallSpec → World R S → Option GoError × World R S
  install spec w =
      if spec.server_id == "" || spec.project_id == ""
      then (some (permanent_failure "server_id and project_id are required"), w)
      else if spec.download_url == "" || (spec.file_name == "" || spec.content_type == "")
      then (some (permanent_failure "download_url, file_name, and content_type are required"), w)
      else let (r, b) =
          runtime.inject_file spec.project_id spec.server_id (or_data spec.storage_path)
            spec.content_type spec.download_url spec.file_name w.backend in
        (wrap_error "inject file: " r, with_backend w b)

  -- `HandleInstall`
  unfoldable pub handle_install :
      (String → Result ModInstallSpec) → Job → World R S → Option GoError × World R S
  unfolding install
  handle_install decode job w = elim (decode job.payload) [
    | err e ↦ (some (permanent_failure ("invalid payload: " <> error_text e)), w)
    | ok spec ↦ install spec w
  ]

  pub uninstall : ModUninstallSpec → World R S → Option GoError × World R S
  uninstall spec w =
      if spec.server_id == "" || spec.project_id == ""
      then (some (permanent_failure "server_id and project_id are required"), w)
      else if spec.file_name == "" || spec.content_type == ""
      then (some (permanent_failure "file_name and content_type are required"), w)
      else let (r, b) =
          runtime.remove_file spec.project_id spec.server_id (or_data spec.storage_path)
            spec.content_type spec.file_name w.backend in
        (wrap_error "remove file: " r, with_backend w b)

  -- `HandleUninstall`
  unfoldable pub handle_uninstall :
      (String → Result ModUninstallSpec) → Job → World R S → Option GoError × World R S
  unfolding uninstall
  handle_uninstall decode job w = elim (decode job.payload) [
    | err e ↦ (some (permanent_failure ("invalid payload: " <> error_text e)), w)
    | ok spec ↦ uninstall spec w
  ]
