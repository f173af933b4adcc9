-- ===== src/FileApi/Upload.antt =====
-- internal/adapters/in/fileapi/server.go: storing the files of a multipart form.
pub mod Confined
use gameserver_daemon.Common.{
  ℕ, String, ◌<>◌, not, Option, none, some, List, [], ◌∷◌, length, if◌then◌else◌,
}
use gameserver_daemon.Common.Strings.{has_prefix}
use gameserver_daemon.Common.Paths.{base, join}
use gameserver_daemon.Errors.{GoError, error_text, Result, ok, err}
use gameserver_daemon.FileApi.Disk.{FileSystem, Disk, change}
use gameserver_daemon.FileApi.Handlers.{
  Response, Request, success, uploaded, failed_with, root_of, with_safe_path,
}

-- A file of the form. `Open` may fail, and reading may break off.
pub record FilePart : Type 0 where
  pub filename : String
  pub opened : Result (Result String)

-- The form cannot be parsed, or has files under the name "files".
abbrev pub UploadForm : Type 0
UploadForm = Result (List FilePart)

module _ {F : Type 0} (fs : FileSystem F) where
  -- `if err != nil` after a call: answer status 500 with a text in front, or go on.
  abbrev pub or_failed :
      String → (Disk F → Response × Disk F) → Option GoError × Disk F → Response × Disk F
  or_failed before next (some e, d) = (failed_with 500 (before <> error_text e), d)
  or_failed before next (none, d) = next d

  -- A file that has been opened, with what follows it.
  abbrev pub store_body :
      String → String → Result String → (Disk F → Response × Disk F) → Disk F → Response × Disk F
  store_body root dest body next d =
      if not (has_prefix dest root)
      then (failed_with 400 "invalid filename", d)
      else or_failed "create file: "
          (λ d'. or_failed "write file: " next (change dest (fs.write body) d'))
          (change dest fs.create d)

  abbrev pub store_opened :
      String
      → String
      → Result (Result String)
      → (Disk F → Response × Disk F)
      → Disk F
      → Response × Disk F
  store_opened root dest (err e) next d = (failed_with 500 ("open upload: " <> error_text e), d)
  store_opened root dest (ok body) next d = store_body root dest body next d

  -- The body of the loop.
  unfoldable pub store_part :
      String → String → FilePart → (Disk F → Response × Disk F) → Disk F → Response × Disk F
  unfolding base
  store_part root dest_dir part = store_opened root (join dest_dir (base part.filename)) part.opened

  -- The loop over the files, and the answer that counts them.
  unfoldable pub store_parts : String → String → ℕ → List FilePart → Disk F → Response × Disk F
  unfolding store_part
  store_parts root dest_dir count [] d = (success (uploaded count), d)
  store_parts root dest_dir count (part ∷ parts) d =
      store_part root dest_dir part (store_parts root dest_dir count parts) d

  abbrev pub read_upload : String → String → UploadForm → Disk F → Response × Disk F
  read_upload root dest_dir (err e) d = (failed_with 400 ("parse multipart: " <> error_text e), d)
  read_upload root dest_dir (ok []) d = (failed_with 400 "no files in request", d)
  read_upload root dest_dir (ok (part ∷ parts)) d =
      store_parts root dest_dir (length (part ∷ parts)) (part ∷ parts) d

  unfoldable pub upload_at : String → UploadForm → String → Disk F → Response × Disk F
  unfolding store_parts
  upload_at root form dest_dir d =
      or_failed "" (read_upload root dest_dir form) (change dest_dir fs.mkdir_all d)

  -- `upload`
  unfoldable pub upload : String → Request → UploadForm → Disk F → Response × Disk F
  upload storage r form =
      with_safe_path (root_of storage r) r.path (upload_at (root_of storage r) form)
