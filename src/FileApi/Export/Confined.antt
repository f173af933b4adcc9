-- ===== src/FileApi/Export/Confined.antt =====
-- internal/adapters/in/fileapi/server.go: an export opens nothing outside the workload's directory.
use gameserver_daemon.Common.{
  String, true, ◌≡◌, refl, sym, subst, Option, none, some, List, [], ◌∷◌, All, All-map, Bool-cases,
  inl, inr, arith,
}
use gameserver_daemon.Common.Paths.{is_abs}
use gameserver_daemon.Errors.{GoError, Result, ok, err}
use gameserver_daemon.FileApi.Disk.{Stat, found, not_exist, broken, FileSystem, Disk, touch}
use gameserver_daemon.FileApi.Disk.Hands.{Hands, no_call, one_look, Hands-trans}
use gameserver_daemon.FileApi.Scope.{safe_path}
use gameserver_daemon.FileApi.Scope.Confined.{IsInside, safe_path-IsInside}
use gameserver_daemon.FileApi.Handlers.{Request, root_of, with_safe_path}
use gameserver_daemon.FileApi.Handlers.Confined.{root-abs}
use gameserver_daemon.FileApi.Archive.Confined.{IsInside-trans}
use gameserver_daemon.FileApi.Export.{
  Walked, FileRead, Zip, is_skipped, rel_to, copied, after_open, after_create, add_file, goes_on,
  add_files, exported, export_at, export_zip,
}

-- A walk meets its root and what is below it.
abbrev pub WalksBelow : {F : Type 0} → (String → F → List Walked) → Type 0
WalksBelow {F} walk =
    (target : String) (s : F) → All (λ (w : Walked). IsInside target w.path) (walk target s)

module _ {F : Type 0} (fs : FileSystem F) (walk : String → F → List Walked)
    (open_file : String → F → Result FileRead) (send : Zip → Option GoError) where
  copied-disk :
      (z : Zip) (name : String) (body : FileRead) (d : Disk F)
      → (copied fs walk open_file send z name body d).2 ≡ d
  copied-disk z name body d = ground arith

  after_open-disk :
      (z : Zip) (name : String) (r : Result FileRead) (d : Disk F)
      → (after_open fs walk open_file send z name (r, d)).2 ≡ d
  after_open-disk z name (err e) d = refl
  after_open-disk z name (ok body) d = copied-disk z name body d

  module _ (P : String → Type 0) where
    after_create-Hands :
        (z : Zip) (name path : String) (r : Option GoError) (d : Disk F)
        → P path
        → Hands P d (after_create fs walk open_file send z name path r d).2
    after_create-Hands z name path (some e) d h = no_call P d
    after_create-Hands z name path none d h =
        subst (Hands P d) (sym (after_open-disk z name (open_file path d.state) (touch path d)))
          (one_look P path d h)

    add_file-Hands :
        (target : String) (w : Walked) (z : Zip) (d : Disk F)
        → P w.path
        → Hands P d (add_file fs walk open_file send target w z d).2
    unfolding add_file
    add_file-Hands target w z d h = elim (Bool-cases (is_skipped w)) [
      | inl skip ↦ rw skip (no_call P d)
      | inr plain ↦ rw plain (after_create-Hands z (rel_to target w.path) w.path _ d h)
    ]

    goes_on-Hands :
        (next : Zip → Disk F → Zip × Disk F) (d : Disk F) (r : Option GoError × Zip × Disk F)
        → Hands P d r.2
        → ((z : Zip) (e : Disk F) → Hands P e (next z e).1)
        → Hands P d (goes_on fs walk open_file send next r).1
    goes_on-Hands next d (some x, z, e) h k = h
    goes_on-Hands next d (none, z, e) h k = Hands-trans P d e (next z e).1 h (k z e)

    add_files-Hands :
        (target : String) (ws : List Walked) (z : Zip) (d : Disk F)
        → All (λ (w : Walked). P w.path) ws
        → Hands P d (add_files fs walk open_file send target ws z d).1
    unfolding add_files
    add_files-Hands target [] z d h = no_call P d
    add_files-Hands target (w ∷ ws) z d h =
        goes_on-Hands (add_files fs walk open_file send target ws) d
          (add_file fs walk open_file send target w z d) (add_file-Hands target w z d h.0)
          (λ y e. add_files-Hands target ws y e h.1)

    exported-Hands :
        (target : String) (r : Stat) (d : Disk F)
        → P target
        → All (λ (w : Walked). P w.path) (walk target d.state)
        → Hands P d (exported fs walk open_file send target (r, d)).1
    exported-Hands target (found info) d p h =
        Hands-trans P d (touch target d)
          (add_files fs walk open_file send target (walk target d.state) [] (touch target d)).1
          (one_look P target d p)
          (add_files-Hands target (walk target d.state) [] (touch target d) h)
    exported-Hands target (not_exist e) d p h = no_call P d
    exported-Hands target (broken e) d p h = no_call P d

    export_at-Hands :
        (target : String) (d : Disk F)
        → P target
        → All (λ (w : Walked). P w.path) (walk target d.state)
        → Hands P d (export_at fs walk open_file send target d).1
    unfolding export_at
    export_at-Hands target d h k =
        Hands-trans P d (touch target d)
          (exported fs walk open_file send target (fs.stat target d.state, touch target d)).1
          (one_look P target d h)
          (exported-Hands target (fs.stat target d.state) (touch target d) h k)

-- Exporting hands to the file system only paths inside the workload's directory, whatever the request's
-- path is and wherever the export stops. The storage path is absolute, and a walk meets its root and
-- what is below it.
pub export_zip-StaysInside :
    {F : Type 0} (fs : FileSystem F) (walk : String → F → List Walked)
    (open_file : String → F → Result FileRead) (send : Zip → Option GoError) (storage : String)
    (r : Request) (d : Disk F)
    → is_abs storage ≡ true
    → WalksBelow walk
    → Hands (IsInside (root_of storage r)) d (export_zip fs walk open_file send storage r d).1
unfolding export_zip with_safe_path
export_zip-StaysInside {F} fs walk open_file send storage r d abs below =
    go (safe_path (root_of storage r) r.path) refl
  where
    go :
        (t : Result String)
        → safe_path (root_of storage r) r.path ≡ t
        → Hands (IsInside (root_of storage r)) d (export_zip fs walk open_file send storage r d).1
    go (err e) k = rw (k, export_zip, with_safe_path) (no_call (IsInside (root_of storage r)) d)
    go (ok target) k =
        let inside =
          safe_path-IsInside (root_of storage r) r.path target (root-abs fs storage abs r) k in
        rw (k, export_zip, with_safe_path)
          (export_at-Hands fs walk open_file send (IsInside (root_of storage r)) target d inside (
            All-map _ (λ (w : Walked). IsInside (root_of storage r) w.path) (walk target d.state)
              (λ (w : Walked) i. IsInside-trans (root_of storage r) target w.path inside i)
              (below target d.state)))
