-- ===== src/FileApi/Archive.antt =====
-- internal/adapters/in/fileapi/server.go: unpacking a zip archive into a workload's directory.
pub mod Confined
use Prim.Native.Char.{Char, code}
use gameserver_daemon.Common.{
  ℕ, String, ◌<>◌, Bool, true, false, not, ◌&&◌, Option, none, some, List, [], ◌∷◌, ◌==◌, eqb,
  if◌then◌else◌,
}
use gameserver_daemon.Common.Strings.{has_prefix}
use gameserver_daemon.Common.Paths.{clean, join}
use gameserver_daemon.Errors.{GoError, error_text, Result, ok, err}
use gameserver_daemon.FileApi.Disk.{FileSystem, Disk, change}
use gameserver_daemon.FileApi.Handlers.{
  Response, Request, success, done, failed_with, root_of, with_safe_path,
}

-- What stands up to the last slash, with it.
unfoldable pub up_to_slash : String → String
up_to_slash String.[] = String.[]
up_to_slash (String.◌∷◌ c s) =
    let rest = up_to_slash s in
    if rest == "" then if eqb (code c) b'/' then "/" else "" else String.◌∷◌ c rest

-- `filepath.Dir`
unfoldable pub dir_of : String → String
unfolding up_to_slash
dir_of path = clean (up_to_slash path)

-- An entry of the archive. `Open` may fail, and reading may break off.
pub record ZipEntry : Type 0 where
  pub name : String
  pub is_dir : Bool
  pub opened : Result (Result String)

-- The multipart form: it cannot be parsed, or has files under the field's name, each of which cannot be
-- opened, or is no archive, or has entries.
abbrev pub Form : Type 0
Form = Result (List (Result (Result (List ZipEntry))))

module _ {F : Type 0} (fs : FileSystem F) where
  abbrev server_error : GoError → Response
  server_error e = failed_with 500 (error_text e)

  -- `if err != nil` after a call: answer status 500, or go on.
  abbrev pub or_500 : (Disk F → Response × Disk F) → Option GoError × Disk F → Response × Disk F
  or_500 next (some e, d) = (server_error e, d)
  or_500 next (none, d) = next d

  -- An entry that is a file, once its parent directory has been asked for.
  unfoldable pub write_entry :
      String → Result (Result String) → (Disk F → Response × Disk F) → Disk F → Response × Disk F
  write_entry dest (err e) next d = (server_error e, d)
  write_entry dest (ok body) next d =
      or_500 (λ d'. or_500 next (change dest (fs.write body) d')) (change dest fs.create d)

  abbrev pub made_dir : String → Disk F → Disk F
  made_dir path d = (change path fs.mkdir_all d).1

  -- The body of the loop, with what follows it.
  unfoldable pub unpack_entry :
      String → ZipEntry → (Disk F → Response × Disk F) → Disk F → Response × Disk F
  unfolding write_entry dir_of
  unpack_entry dest_dir f next d =
      let dest = join dest_dir f.name in
      if not (has_prefix dest (dest_dir <> "/")) && not (dest == dest_dir)
      then (failed_with 400 "zip slip detected", d)
      else if f.is_dir
      then next (made_dir dest d)
      else write_entry dest f.opened next (made_dir (dir_of dest) d)

  -- The loop over the entries.
  unfoldable pub unpack : String → List ZipEntry → Disk F → Response × Disk F
  unfolding unpack_entry
  unpack dest_dir [] d = (success done, d)
  unpack dest_dir (f ∷ fs) d = unpack_entry dest_dir f (unpack dest_dir fs) d

  abbrev pub read_archive : String → Result (Result (List ZipEntry)) → Disk F → Response × Disk F
  read_archive dest_dir (err e) d = (server_error e, d)
  read_archive dest_dir (ok (err e)) d = (failed_with 400 ("invalid zip: " <> error_text e), d)
  read_archive dest_dir (ok (ok entries)) d = unpack dest_dir entries d

  abbrev pub read_form : String → Form → Disk F → Response × Disk F
  read_form dest_dir (err e) d = (failed_with 400 ("parse multipart: " <> error_text e), d)
  read_form dest_dir (ok []) d = (failed_with 400 "no file in request", d)
  read_form dest_dir (ok (file ∷ files)) d = read_archive dest_dir file d

  unfoldable pub import_at : Form → String → Disk F → Response × Disk F
  unfolding unpack
  import_at form dest_dir d = or_500 (read_form dest_dir form) (change dest_dir fs.mkdir_all d)

  -- `importZip`
  unfoldable pub import_zip : String → Request → Form → Disk F → Response × Disk F
  import_zip storage r form = with_safe_path (root_of storage r) r.path (import_at form)
