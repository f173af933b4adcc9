-- ===== src/FileApi/Handlers/Root.antt =====
-- internal/adapters/in/fileapi/server.go: the guard on the workload's own directory.
use gameserver_daemon.Common.{String, true, ◌≡◌, ◌≢◌, refl, sym, ap, ◌∙◌, arith, string_dec}
use gameserver_daemon.Common.Strings.{drop_prefix}
use gameserver_daemon.Common.Paths.{clean, join, is_abs}
use gameserver_daemon.Common.Paths.Laws.{join-IsRooted, IsRooted}
use gameserver_daemon.Common.Paths.Dot.{join-dot}
use gameserver_daemon.Errors.{ok}
use gameserver_daemon.FileApi.Disk.{FileSystem, Disk, change}
use gameserver_daemon.FileApi.Scope.{workload_root, safe_path, make_relative}
use gameserver_daemon.FileApi.Handlers.Confined.{delete_accepted}
use gameserver_daemon.FileApi.Handlers.{
  Request, Response, root_of, delete, delete_at, with_safe_path, done_or_500,
}

dot_relative : make_relative (clean ".") ≡ "."
unfolding clean string_dec drop_prefix
dot_relative = refl

safe_path-dot : (root : String) → IsRooted root → safe_path root "." ≡ ok root
unfolding safe_path
safe_path-dot root h = ground (arith, ap (join root) dot_relative ∙ join-dot root h)

module _ {F : Type 0} (fs : FileSystem F) (storage : String) where
  root-IsRooted : (r : Request) → is_abs storage ≡ true → IsRooted (root_of storage r)
  unfolding workload_root
  root-IsRooted r abs = join-IsRooted storage _ abs

  not_guarded : (r : Request) → r.path ≡ "." → (r.path ≢ "") × (r.path ≢ "/")
  unfolding is_abs
  not_guarded r e = (λ f. cc (sym e ∙ f), λ f. cc (ap is_abs (sym e ∙ f)))

  at_root :
      (root : String) (act : String → Disk F → Response × Disk F) (d : Disk F)
      → safe_path root "." ≡ ok root
      → with_safe_path root "." act d ≡ act root d
  unfolding with_safe_path
  at_root root act d h = rw (h, with_safe_path) refl

  -- A request to delete `.` passes both tests on the path and removes the workload's directory with
  -- all that is in it. The storage path is absolute.
  pub delete_dot :
      (r : Request) (d : Disk F)
      → is_abs storage ≡ true
      → r.path ≡ "."
      → delete fs storage r d ≡ done_or_500 (change (root_of storage r) fs.remove_all d)
  unfolding delete_at
  delete_dot r d abs e =
      delete_accepted fs storage abs r d (not_guarded r e).0 (not_guarded r e).1
      ∙ ap (λ p. with_safe_path (root_of storage r) p (delete_at fs storage) d) e
      ∙ at_root (root_of storage r) (delete_at fs storage) d
          (safe_path-dot (root_of storage r) (root-IsRooted r abs))
