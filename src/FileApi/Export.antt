-- ===== src/FileApi/Export.antt =====
-- internal/adapters/in/fileapi/server.go: streaming a directory as a zip archive.
pub mod Confined
pub mod Restored
use gameserver_daemon.Common.{
  String, ◌<>◌, Bool, true, false, ◌||◌, Option, none, some, List, [], ◌∷◌, ◌++◌, ◌==◌,
  if◌then◌else◌,
}
use gameserver_daemon.Common.Strings.{drop_prefix, trim_prefix}
use gameserver_daemon.Errors.{GoError, Result, ok, err}
use gameserver_daemon.FileApi.Disk.{
  FileInfo, Stat, found, not_exist, broken, FileSystem, Disk, look,
}
use gameserver_daemon.FileApi.Handlers.{
  Response, Request, success, archived, failed_with, root_of, with_safe_path,
}

-- One call of the function that `filepath.WalkDir` walks with.
pub record Walked : Type 0 where
  pub path : String
  pub is_dir : Bool
  pub error : Option GoError

-- What reading an open file gives: its text, or that up to where reading breaks off.
pub record FileRead : Type 0 where
  pub text : String
  pub breaks : Option GoError

-- The names and the texts of an archive's entries.
abbrev pub Zip : Type 0
Zip = List (String × String)

-- `filepath.Rel`, of a clean path that is `base` or below it.
unfoldable pub rel_to : String → String → String
unfolding drop_prefix trim_prefix
rel_to base path = if path == base then "." else trim_prefix (drop_prefix path base) "/"

abbrev has_failed : Option GoError → Bool
has_failed none = false
has_failed (some e) = true

-- `err != nil || d.IsDir()`
unfoldable pub is_skipped : Walked → Bool
is_skipped w = has_failed w.error || w.is_dir

-- `walk` has the calls of a walk in their order, `open_file` is `os.Open`, and `send` is what the
-- connection answers once the archive is written so far.
module _ {F : Type 0} (fs : FileSystem F) (walk : String → F → List Walked)
    (open_file : String → F → Result FileRead) (send : Zip → Option GoError) where
  -- `io.Copy`, which has written what it has read even if it fails.
  abbrev pub copied : Zip → String → FileRead → Disk F → Option GoError × Zip × Disk F
  copied z name body d =
      let written = z ++ (name, body.text) ∷ [] in
      elim body.breaks [ some e ↦ (some e, written, d) | none ↦ (send written, written, d) ]

  abbrev pub after_open : Zip → String → Result FileRead × Disk F → Option GoError × Zip × Disk F
  after_open z name (err e, d) = (some e, z ++ (name, "") ∷ [], d)
  after_open z name (ok body, d) = copied z name body d

  abbrev pub after_create :
      Zip → String → String → Option GoError → Disk F → Option GoError × Zip × Disk F
  after_create z name path (some e) d = (some e, z ++ (name, "") ∷ [], d)
  after_create z name path none d = after_open z name (look path open_file d)

  -- The function of the walk.
  unfoldable pub add_file : String → Walked → Zip → Disk F → Option GoError × Zip × Disk F
  unfolding rel_to is_skipped
  add_file target w z d =
      if is_skipped w
      then (none, z, d)
      else after_create z (rel_to target w.path) w.path
          (send (z ++ (rel_to target w.path, "") ∷ [])) d

  -- The walk goes on after nil and ends at an error, which the handler drops.
  abbrev pub goes_on : (Zip → Disk F → Zip × Disk F) → Option GoError × Zip × Disk F → Zip × Disk F
  goes_on next (some e, z, d) = (z, d)
  goes_on next (none, z, d) = next z d

  unfoldable pub add_files : String → List Walked → Zip → Disk F → Zip × Disk F
  unfolding add_file
  add_files target [] z d = (z, d)
  add_files target (w ∷ ws) z d = goes_on (add_files target ws) (add_file target w z d)

  abbrev pub sent : Zip × Disk F → Response × Disk F
  sent (z, d) = (success (archived z), d)

  abbrev pub walked : String → List Walked × Disk F → Response × Disk F
  walked target (ws, d) = sent (add_files target ws [] d)

  abbrev pub exported : String → Stat × Disk F → Response × Disk F
  exported target (found info, d) = walked target (look target walk d)
  exported target (not_exist e, d) = (failed_with 404 "not found", d)
  exported target (broken e, d) = (failed_with 404 "not found", d)

  unfoldable pub export_at : String → Disk F → Response × Disk F
  unfolding add_files
  export_at target d = exported target (look target fs.stat d)

  -- `exportZip`
  unfoldable pub export_zip : String → Request → Disk F → Response × Disk F
  export_zip storage r = with_safe_path (root_of storage r) r.path export_at
