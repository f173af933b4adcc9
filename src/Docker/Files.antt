-- ===== src/Docker/Files.antt =====
-- internal/adapters/out/runtime/docker/docker.go: files that are put into a workload's storage.
use gameserver_daemon.Common.{
  String, ◌<>◌, Bool, true, false, Option, none, some, [], ◌∷◌, ◌==◌, if◌then◌else◌,
}
use gameserver_daemon.Common.Dict.{Dict, lookup}
use gameserver_daemon.Common.Paths.{join}
use gameserver_daemon.Errors.{GoError, sentinel, failure, wrapped, permanent, Result}
use gameserver_daemon.FileApi.Disk.{Disk, FileSystem, change}
use gameserver_daemon.Docker.Containers.{project_data_dir}
use gameserver_daemon.Docker.Engine.{Adapter}

-- `contentTypeDirs`
abbrev pub content_type_dirs : Dict String
content_type_dirs =
    ("mod", "mods")
    ∷ ("plugin", "plugins")
    ∷ ("datapack", "world/datapacks")
    ∷ ("resourcepack", "resourcepacks")
    ∷ []

-- What `http.DefaultClient` answers to a request: it cannot be built, it fails, or it has a status and a
-- body, which may break off.
pub data Download : Type 0 where
  unbuilt unanswered : GoError → Download
  answered : Bool → String → Result String → Download

-- `os.Remove`, which has an error of its own for a file that does not exist.
pub data Removal : Type 0 where
  gone missing : Removal
  refused : GoError → Removal

abbrev pub unsupported : String → GoError
unsupported content =
    wrapped "" (sentinel permanent) (": unsupported content type \"" <> content <> "\"")

-- `filepath.Join` of three elements, the second and the third of which are not empty.
abbrev pub join_three : String → String → String → String
join_three a b c = join a (b <> ("/" <> c))

abbrev pub content_dir : Adapter → String → String → String → String
content_dir adapter project workload sub =
    join_three adapter.storage_local_path (project_data_dir project workload) sub

-- `filepath.Join` of four elements, the last of which may be empty.
abbrev pub file_path : Adapter → String → String → String → String → String
file_path adapter project workload sub file =
    if file == ""
    then content_dir adapter project workload sub
    else join adapter.storage_local_path
        (project_data_dir project workload <> "/" <> sub <> "/" <> file)

module _ {F : Type 0} (fs : FileSystem F) (fetch : String → Download)
    (remove : String → F → Removal × F) where
  abbrev pub after_write : String → Option GoError × Disk F → Option GoError × Disk F
  after_write dest (none, d) = (none, d)
  after_write dest (some e, d) = (some (wrapped "write file: " e ""), (change dest remove d).1)

  abbrev pub after_create :
      String → Result String → Option GoError × Disk F → Option GoError × Disk F
  after_create dest body (some e, d) = (some (wrapped "create file: " e ""), d)
  after_create dest body (none, d) = after_write dest (change dest (fs.write body) d)

  abbrev pub after_fetch : String → Disk F → Download → Option GoError × Disk F
  after_fetch dest d (unbuilt e) = (some (wrapped "build request: " e ""), d)
  after_fetch dest d (unanswered e) = (some (wrapped "download: " e ""), d)
  after_fetch dest d (answered true status body) = after_create dest body (change dest fs.create d)
  after_fetch dest d (answered false status body) =
      (some (failure ("download: HTTP " <> status)), d)

  -- `downloadFile`
  unfoldable pub download_file : String → String → Disk F → Option GoError × Disk F
  download_file url dest d = after_fetch dest d (fetch url)

  abbrev pub inject_into :
      String → String → String → Option GoError × Disk F → Option GoError × Disk F
  inject_into dir url file (some e, d) = (some (wrapped "create mod directory: " e ""), d)
  inject_into dir url file (none, d) = download_file url (join dir file) d

  -- `InjectFile`. The mount point inside the container plays no part.
  unfoldable pub inject_file :
      Adapter
      → String
      → String
      → String
      → String
      → String
      → String
      → Disk F
      → Option GoError × Disk F
  unfolding download_file
  inject_file adapter project workload storage content url file d =
      elim (lookup content content_type_dirs) [
        | none ↦ (some (unsupported content), d)
        | some sub ↦
            let dir = content_dir adapter project workload sub in
            inject_into dir url file (change dir fs.mkdir_all d)
      ]

  abbrev removed : Removal × Disk F → Option GoError × Disk F
  removed (r, d) = ((elim r [ refused e ↦ some (wrapped "remove file: " e "") | _ ↦ none ]), d)

  -- `RemoveFile`
  unfoldable pub remove_file :
      Adapter → String → String → String → String → String → Disk F → Option GoError × Disk F
  remove_file adapter project workload storage content file d =
      elim (lookup content content_type_dirs) [
        | none ↦ (some (unsupported content), d)
        | some sub ↦
            let path = file_path adapter project workload sub file in removed (change path remove d)
      ]
