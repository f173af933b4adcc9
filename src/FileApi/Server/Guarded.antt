-- ===== src/FileApi/Server/Guarded.antt =====
-- internal/adapters/in/fileapi/server.go: what any request can do.
use gameserver_daemon.Common.{String, ◌<>◌, ◌≡◌, ◌≢◌, ◌⊎◌, Option, some, List}
use gameserver_daemon.Errors.{GoError, Result}
use gameserver_daemon.FileApi.Disk.{FileSystem, Disk}
use gameserver_daemon.FileApi.Disk.Hands.{Hands}
use gameserver_daemon.FileApi.Scope.Confined.{IsInside}
use gameserver_daemon.FileApi.Handlers.{Response, Request, failed_with, root_of}
use gameserver_daemon.FileApi.Archive.Confined.{MayTouch}
use gameserver_daemon.FileApi.Export.{Walked, FileRead, Zip}
use gameserver_daemon.FileApi.Server.{Route, importing, HttpRequest, matched}

-- The request carries the secret.
abbrev pub Carries : String → HttpRequest → Type 0
Carries secret q = (q.authorization ≡ "Bearer " <> secret) ⊎ (q.authorization ≡ secret)

-- What the handler of a route may hand to the file system: what is inside the workload's directory, and
-- where an archive is unpacked also the parent directories of such paths.
abbrev pub Allowed : Route → String → String → Type 0
Allowed importing root = MayTouch root
Allowed _ root = IsInside root

module _ {F : Type 0} (fs : FileSystem F) (walk : String → F → List Walked)
    (open_file : String → F → Result FileRead) (send : Zip → Option GoError)
    (unrouted : HttpRequest → Response) (storage secret : String) where
  -- What a request comes to: it is refused and nothing happens, or it carries the secret and then no pattern
  -- matches, or a handler's file system calls stay where they may.
  pub data Guarded (q : HttpRequest) (d : Disk F) (answer : Response × Disk F) : Type 0 where
    refused :
        answer ≡ (failed_with 401 "unauthorized", d)
        → q.authorization ≢ "Bearer " <> secret
        → Guarded q d answer
    not_found : answer ≡ (unrouted q, d) → Carries secret q → Guarded q d answer
    handled :
        (r : Request) (route : Route)
        → matched q ≡ some (r, route)
        → Carries secret q
        → Hands (Allowed route (root_of storage r)) d answer.1
        → Guarded q d answer
