-- ===== src/Tests/FileRuns.antt =====
-- Runs of the file API.
use gameserver_daemon.Common.{true, ◌≡◌, refl, string_dec}
use gameserver_daemon.Common.Strings.{has_prefix, drop_prefix}
use gameserver_daemon.Common.Paths.{is_abs, join}
use gameserver_daemon.Errors.{ok}
use gameserver_daemon.FileApi.Scope.{safe_path}
use gameserver_daemon.FileApi.Disk.{change}
use gameserver_daemon.FileApi.Handlers.{root_of, delete, done_or_500}
use gameserver_daemon.FileApi.Handlers.Root.{delete_dot}
use gameserver_daemon.Tests.Data.{files, disk, request}

storage-abs : is_abs "/srv/data" ≡ true
unfolding is_abs has_prefix
storage-abs = refl

inner : safe_path "/srv/data" "/a/../b" ≡ ok "/srv/data/b"
unfolding safe_path string_dec has_prefix join drop_prefix
inner = refl

delete_dot_example :
    delete files "/srv/data" (record request { path = "." }) disk
    ≡ done_or_500 (change (root_of "/srv/data" request) files.remove_all disk)
delete_dot_example =
    delete_dot files "/srv/data" (record request { path = "." }) disk storage-abs refl
