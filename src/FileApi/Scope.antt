-- ===== src/FileApi/Scope.antt =====
-- internal/adapters/in/fileapi/server.go: which paths a request may reach.
pub mod Confined
pub mod Components
use gameserver_daemon.Common.{
  ℕ, String, ◌<>◌, Bool, true, false, not, ◌&&◌, ◌≡◌, refl, ltb, ◌==◌, if◌then◌else◌, string_dec,
}
use gameserver_daemon.Common.Strings.{has_prefix, drop_prefix, remove_char, take_text, size}
use gameserver_daemon.Common.Paths.{clean, join, is_abs}
use gameserver_daemon.Errors.{GoError, failure, Result, ok, err}

-- `shortID`
unfoldable pub short_id : String → String
unfolding remove_char take_text size
short_id s = let t = remove_char b'-' s in if ltb 12 (size t) then take_text 12 t else t

-- `workloadRoot`
unfoldable pub workload_root : String → String → String → String
unfolding short_id join
workload_root storage project workload =
    join storage ("kleff_proj_" <> (short_id project <> ("_" <> workload)))

-- `rel[1:]` of a rooted path.
abbrev pub make_relative : String → String
make_relative rel = if is_abs rel then drop_prefix rel "/" else rel

-- `safePath`
unfoldable pub safe_path : String → String → Result String
safe_path root rel =
    if rel == ""
    then ok root
    else if rel == "/"
    then ok root
    else let abs = join root (make_relative (clean rel)) in
      if not (has_prefix abs (root <> "/")) && not (abs == root)
      then err (failure "path traversal detected")
      else ok abs

safe_path_tests :
    (safe_path "/srv/w" "world/../mods" ≡ ok "/srv/w/mods")
    × (safe_path "/srv/w" "/../x" ≡ ok "/srv/w/x")
    × (safe_path "/srv/w" "../w2/x" ≡ err (failure "path traversal detected"))
    × (workload_root "/srv" "0123-4567-89ab-cdef" "w1" ≡ "/srv/kleff_proj_0123456789ab_w1")
unfolding safe_path workload_root string_dec drop_prefix
safe_path_tests = (refl, refl, refl, refl)
