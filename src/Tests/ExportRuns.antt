-- ===== src/Tests/ExportRuns.antt =====
-- Runs of the export of a directory with a subdirectory and a file.
use gameserver_daemon.Common.{
  ℕ, String, true, false, ◌≡◌, refl, none, some, List, [], ◌∷◌, Option, string_dec,
}
use gameserver_daemon.Errors.{GoError, Result, ok, failure}
use gameserver_daemon.FileApi.Handlers.{success, archived}
use gameserver_daemon.FileApi.Export.{
  Walked, FileRead, Zip, is_skipped, rel_to, add_file, add_files, export_at,
}
use gameserver_daemon.FileApi.Export.Restored.{whole}
use gameserver_daemon.Tests.Data.{files, disk}

abbrev walk : String → ℕ → List Walked
walk path n =
    record { path = "/srv"; is_dir = true; error = none }
    ∷ record { path = "/srv/a"; is_dir = false; error = none }
    ∷ record { path = "/srv/b"; is_dir = true; error = some (failure "permission denied") }
    ∷ []

abbrev open_file : String → ℕ → Result FileRead
open_file path n = ok (whole "x")

abbrev send : Zip → Option GoError
send z = none

-- The walk of a file has the file alone, whose name below itself is ".".
abbrev file_walk : String → ℕ → List Walked
file_walk path n = record { path = path; is_dir = false; error = none } ∷ []

file_as_dot :
    (export_at files file_walk open_file send "/srv/a" disk).0
    ≡ success (archived ((".", "x") ∷ []))
unfolding export_at add_files add_file rel_to is_skipped string_dec
file_as_dot = refl
