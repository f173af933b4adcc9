-- ===== src/FileApi/Handlers.antt =====
-- internal/adapters/in/fileapi/server.go: the handlers on single paths. A request is what its path
-- values and its query say; a response is a status code and what the body says.
pub mod Auth
pub mod Confined
pub mod Root
use gameserver_daemon.Common.{
  ℕ, String, ◌<>◌, Bool, true, false, Option, none, some, List, [], ◌∷◌, ◌++◌, ◌==◌, if◌then◌else◌,
}
use Prim.Native.String.{compare}
use text.Mathlib.Text.{is_lt}
use gameserver_daemon.Common.Strings.{has_prefix, trim_prefix}
use gameserver_daemon.Common.Paths.{join}
use gameserver_daemon.Errors.{GoError, error_text, Result, ok, err}
use gameserver_daemon.FileApi.Disk.{
  FileInfo, Stat, found, not_exist, broken, DirEntry, FileSystem, Disk, look, change, change_two,
}
use gameserver_daemon.FileApi.Scope.{workload_root, safe_path}

pub record FileEntry : Type 0 where
  pub name : String
  pub path : String
  pub is_dir : Bool
  pub bytes : ℕ
  pub mod_time : ℕ

-- `served` is the file that `http.ServeFile` sends, `uploaded` a count of files.
pub data Body : Type 0 where
  done : Body
  message : String → Body
  one_file : FileEntry → Body
  listing : List FileEntry → Body
  served : String → Body
  uploaded : ℕ → Body
  archived : List (String × String) → Body

pub record Response : Type 0 where
  pub code : ℕ
  pub body : Body

abbrev pub success : Body → Response
success b = record { code = 200; body = b }

abbrev pub failed_with : ℕ → String → Response
failed_with code text = record { code = code; body = message text }

pub record Request : Type 0 where
  pub project_id : String
  pub workload_id : String
  pub path : String

-- `resolve`, which has no test of its own.
abbrev pub root_of : String → Request → String
root_of storage r = workload_root storage r.project_id r.workload_id

-- The middleware `auth`, in front of a handler `next`.
unfoldable pub auth {ℓ} : {A : Type ℓ} → (Response → A) → String → String → A → A
auth refuse secret header next =
    if secret == ""
    then refuse (failed_with 500 "server misconfigured: no shared secret")
    else if trim_prefix header "Bearer " == secret
    then next
    else refuse (failed_with 401 "unauthorized")

-- The order of a listing: directories first, then by name.
unfoldable pub comes_before : DirEntry → DirEntry → Bool
comes_before a b =
    if a.is_dir
    then if b.is_dir then is_lt (compare a.name b.name) else true
    else if b.is_dir
    then false
    else is_lt (compare a.name b.name)

-- Sorting by that order. The names of a directory differ, so the method does not matter.
unfoldable pub place : DirEntry → List DirEntry → List DirEntry
unfolding comes_before
place e [] = e ∷ []
place e (x ∷ xs) = if comes_before x e then x ∷ place e xs else e ∷ x ∷ xs

unfoldable pub sort_entries : List DirEntry → List DirEntry
unfolding place
sort_entries [] = []
sort_entries (e ∷ es) = place e (sort_entries es)

-- The loop over the entries; an entry without `Info` is left out.
abbrev entry_path : String → String → String
entry_path rel name = let p = join rel name in if has_prefix p "/" then p else "/" <> p

pub items : String → List DirEntry → List FileEntry
items rel [] = []
items rel (e ∷ es) = elim e.info [
  | err _ ↦ items rel es
  | ok info ↦
      record {
        name = e.name;
        path = entry_path rel e.name;
        is_dir = e.is_dir;
        bytes = info.bytes;
        mod_time = info.mod_time;
      }
      ∷ items rel es
]

-- The first lines of the handlers: an unsafe path is refused with status 400.
unfoldable pub with_safe_path {ℓ} :
    {D : Type ℓ} → String → String → (String → D → Response × D) → D → Response × D
with_safe_path root rel act d = elim (safe_path root rel) [
  | err e ↦ (failed_with 400 (error_text e), d)
  | ok target ↦ act target d
]

-- The answer of a call that either works or fails with status 500.
abbrev pub done_or_500 {ℓ} : {A : Type ℓ} → Option GoError × A → Response × A
done_or_500 (none, a) = (success done, a)
done_or_500 (some e, a) = (failed_with 500 (error_text e), a)

module _ {F : Type 0} (fs : FileSystem F) (storage : String) where
  abbrev pub entries_listed : String → Result (List DirEntry) × Disk F → Response × Disk F
  entries_listed rel (err e, d) = (failed_with 500 (error_text e), d)
  entries_listed rel (ok es, d) = (success (listing (items rel (sort_entries es))), d)

  abbrev pub after_stat : String → String → String → Stat × Disk F → Response × Disk F
  after_stat root rel target (not_exist e, d) =
      (if target == root then success (listing []) else failed_with 404 "not found", d)
  after_stat root rel target (broken e, d) = (failed_with 500 (error_text e), d)
  after_stat root rel target (found info, d) =
      if info.is_dir then entries_listed rel (look target fs.read_dir d) else (
        success (
            one_file (record {
              name = info.name;
              path = rel;
              is_dir = false;
              bytes = info.bytes;
              mod_time = info.mod_time;
            })),
        d,
      )

  unfoldable pub list_at : String → String → String → Disk F → Response × Disk F
  unfolding items sort_entries
  list_at root rel target d = after_stat root rel target (look target fs.stat d)

  -- `listOrStat`
  unfoldable pub list_or_stat : Request → Disk F → Response × Disk F
  list_or_stat r = with_safe_path (root_of storage r) r.path (list_at (root_of storage r) r.path)

  abbrev pub sent_file : String → Stat × Disk F → Response × Disk F
  sent_file target (found info, d) =
      (if info.is_dir then failed_with 400 "path is a directory" else success (served target), d)
  sent_file target (_, d) = (failed_with 404 "not found", d)

  unfoldable pub download_at : String → Disk F → Response × Disk F
  download_at target d = sent_file target (look target fs.stat d)

  unfoldable pub download : Request → Disk F → Response × Disk F
  download r = with_safe_path (root_of storage r) r.path download_at

  unfoldable pub mkdir_at : String → Disk F → Response × Disk F
  mkdir_at target d = done_or_500 (change target fs.mkdir_all d)

  unfoldable pub mkdir : Request → Disk F → Response × Disk F
  mkdir r = with_safe_path (root_of storage r) r.path mkdir_at

  unfoldable pub delete_at : String → Disk F → Response × Disk F
  delete_at target d = done_or_500 (change target fs.remove_all d)

  unfoldable pub delete : Request → Disk F → Response × Disk F
  delete r d =
      if r.path == ""
      then (failed_with 400 "cannot delete workload root", d)
      else if r.path == "/"
      then (failed_with 400 "cannot delete workload root", d)
      else with_safe_path (root_of storage r) r.path delete_at d

  unfoldable pub rename_to : String → Result String → Disk F → Response × Disk F
  rename_to src (err e) d = (failed_with 400 "invalid to path", d)
  rename_to src (ok dst) d = done_or_500 (change_two src dst fs.rename d)

  -- `rename`, whose body is decoded by Go's JSON package: the two paths, or its error.
  unfoldable pub rename : Request → Result (String × String) → Disk F → Response × Disk F
  unfolding rename_to
  rename r (err e) d = (failed_with 400 ("decode body: " <> error_text e), d)
  rename r (ok (from, to)) d = elim (safe_path (root_of storage r) from) [
    | err e ↦ (failed_with 400 "invalid from path", d)
    | ok src ↦ rename_to src (safe_path (root_of storage r) to) d
  ]
