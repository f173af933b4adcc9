-- ===== src/FileApi/Server.antt =====
-- internal/adapters/in/fileapi/server.go: the server, from a request to its handler.
pub mod Guarded
use gameserver_daemon.Common.{
  String, Bool, true, false, not, ◌&&◌, ◌||◌, Option, none, some, List, [], ◌∷◌, ◌==◌,
  if◌then◌else◌,
}
use gameserver_daemon.Errors.{GoError, Result}
use gameserver_daemon.FileApi.Disk.{FileSystem, Disk}
use gameserver_daemon.FileApi.Handlers.{
  Response, Request, auth, list_or_stat, download, mkdir, delete, rename,
}
use gameserver_daemon.FileApi.Archive.{Form, import_zip}
use gameserver_daemon.FileApi.Upload.{UploadForm, upload}
use gameserver_daemon.FileApi.Export.{Walked, FileRead, Zip, export_zip}

-- The patterns that are registered, without the part that they share.
pub data Route : Type 0 where
  listing downloading exporting uploading renaming making importing deleting : Route

-- A request: `segments` are those of its path, each one decoded, and what each handler would read of its
-- body.
pub record HttpRequest : Type 0 where
  pub method : String
  pub segments : List String
  pub query_path : String
  pub authorization : String
  pub rename_body : Result (String × String)
  pub upload_form : UploadForm
  pub import_form : Form

-- A pattern for GET takes HEAD as well.
abbrev reads : String → Bool
reads method = method == "GET" || method == "HEAD"

abbrev get_route : String → Option Route
get_route name =
    if name == "download"
    then some downloading
    else if name == "export"
    then some exporting
    else none

abbrev post_route : String → Option Route
post_route name =
    if name == "upload"
    then some uploading
    else if name == "rename"
    then some renaming
    else if name == "mkdir"
    then some making
    else if name == "import"
    then some importing
    else none

-- What follows `files` in the path.
unfoldable pub route_of : String → List String → Option Route
route_of method [] =
    if reads method then some listing else if method == "DELETE" then some deleting else none
route_of method (name ∷ []) =
    if reads method then get_route name else if method == "POST" then post_route name else none
route_of method (name ∷ more ∷ names) = none

abbrev request_for : String → String → HttpRequest → Request
request_for project workload q = record {
  project_id = project;
  workload_id = workload;
  path = q.query_path;
}

abbrev with_route : Request → Option Route → Option (Request × Route)
with_route r none = none
with_route r (some route) = some (r, route)

-- `/v1/{projectID}/{workloadID}/files…`. A wildcard stands for one segment that is not empty.
abbrev located : HttpRequest → List String → Option (Request × Route)
located q (version ∷ project ∷ workload ∷ files ∷ names) =
    if version == "v1" && (files == "files" && (not (project == "") && not (workload == "")))
    then with_route (request_for project workload q) (route_of q.method names)
    else none
located q _ = none

-- The choice of the `ServeMux`, and what `resolve` makes of the request.
unfoldable pub matched : HttpRequest → Option (Request × Route)
unfolding route_of
matched q = located q q.segments

-- `unrouted` is the multiplexer's own answer where no pattern matches.
module _ {F : Type 0} (fs : FileSystem F) (walk : String → F → List Walked)
    (open_file : String → F → Result FileRead) (send : Zip → Option GoError)
    (unrouted : HttpRequest → Response) (storage secret : String) where
  unfoldable pub handle : Route → HttpRequest → Request → Disk F → Response × Disk F
  handle listing q r = list_or_stat fs storage r
  handle downloading q r = download fs storage r
  handle exporting q r = export_zip fs walk open_file send storage r
  handle uploading q r = upload fs storage r q.upload_form
  handle renaming q r = rename fs storage r q.rename_body
  handle making q r = mkdir fs storage r
  handle importing q r = import_zip fs storage r q.import_form
  handle deleting q r = delete fs storage r

  abbrev pub dispatched : HttpRequest → Option (Request × Route) → Disk F → Response × Disk F
  dispatched q none d = (unrouted q, d)
  dispatched q (some (r, route)) d = handle route q r d

  -- The handler that `NewServer` builds: the middleware before the multiplexer.
  unfoldable pub serve : HttpRequest → Disk F → Response × Disk F
  unfolding matched handle
  serve q = auth (λ answer d. (answer, d)) secret q.authorization (dispatched q (matched q))
