-- ===== src/Tests/ServerRuns.antt =====
-- A run of the file API's server on a request that uploads a file whose name climbs out.
use gameserver_daemon.Common.{ℕ, String, true, Option, none, List, [], ◌∷◌}
use gameserver_daemon.Errors.{GoError, Result, ok, err, failure}
use gameserver_daemon.FileApi.Handlers.{Response, Request, failed_with}
use gameserver_daemon.FileApi.Export.{Walked, FileRead, Zip}
use gameserver_daemon.FileApi.Server.{HttpRequest}
use gameserver_daemon.FileApi.Server.Guarded.{Guarded}

abbrev posted : HttpRequest
posted = record {
  method = "POST";
  segments = "v1" ∷ "p" ∷ "s1" ∷ "files" ∷ "upload" ∷ [];
  query_path = "world";
  authorization = "Bearer key";
  rename_body = err (failure "EOF");
  upload_form = ok (record { filename = "../../a.txt"; opened = ok (ok "x") } ∷ []);
  import_form = err (failure "EOF");
}

abbrev walk : String → ℕ → List Walked
walk path n = record { path = path; is_dir = true; error = none } ∷ []

abbrev open_file : String → ℕ → Result FileRead
open_file path n = err (failure "is a directory")

abbrev send : Zip → Option GoError
send z = none

abbrev unrouted : HttpRequest → Response
unrouted q = failed_with 404 "404 page not found"

abbrev uploads : Request
uploads = record { project_id = "p"; workload_id = "s1"; path = "world" }
