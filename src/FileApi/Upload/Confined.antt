-- ===== src/FileApi/Upload/Confined.antt =====
-- internal/adapters/in/fileapi/server.go: the files of a form are stored inside the workload's
-- directory.
use gameserver_daemon.Common.{
  ℕ, String, true, ◌≡◌, ◌≢◌, refl, sym, subst, inl, inr, All, Option, none, some, List, [], ◌∷◌,
  Bool-cases,
}
use gameserver_daemon.Common.Strings.{has_prefix}
use gameserver_daemon.Common.Paths.{base, join, is_abs, under}
use gameserver_daemon.Common.Paths.Laws.{IsEntry, IsRooted, join-IsRooted}
use gameserver_daemon.Errors.{GoError, Result, ok, err}
use gameserver_daemon.FileApi.Disk.{FileSystem, Disk, change}
use gameserver_daemon.FileApi.Disk.Hands.{Hands, no_call, one_call, Hands-trans}
use gameserver_daemon.FileApi.Scope.{safe_path, workload_root}
use gameserver_daemon.FileApi.Scope.Confined.{IsInside, safe_path-IsInside}
use gameserver_daemon.FileApi.Scope.Components.{dest-IsInside}
use gameserver_daemon.FileApi.Handlers.Confined.{root-abs}
use gameserver_daemon.FileApi.Handlers.{Response, Request, root_of, with_safe_path}
use gameserver_daemon.FileApi.Upload.{
  FilePart, UploadForm, or_failed, store_body, store_opened, store_part, store_parts, read_upload,
  upload_at, upload,
}

module _ {F : Type 0} (fs : FileSystem F) (P : String → Type 0) where
  or_failed-Hands :
      (before : String) (d : Disk F) (next : Disk F → Response × Disk F)
      (r : Option GoError × Disk F)
      → Hands P d r.1
      → ((d' : Disk F) → Hands P d' (next d').1)
      → Hands P d (or_failed fs before next r).1
  or_failed-Hands before d next (some e, d') h k = h
  or_failed-Hands before d next (none, d') h k = Hands-trans P d d' (next d').1 h (k d')

  store_body-Hands :
      (root dest : String) (body : Result String) (next : Disk F → Response × Disk F) (d : Disk F)
      → (has_prefix dest root ≡ true → P dest)
      → ((d' : Disk F) → Hands P d' (next d').1)
      → Hands P d (store_body fs root dest body next d).1
  store_body-Hands root dest body next d allowed k = elim (Bool-cases (has_prefix dest root)) [
    | inr outside ↦ rw outside (no_call P d)
    | inl fits ↦ rw fits (
        or_failed-Hands "create file: " d _ (change dest fs.create d)
          (one_call P dest fs.create d (allowed fits))
          (λ d'.
            or_failed-Hands "write file: " d' next (change dest (fs.write body) d')
              (one_call P dest (fs.write body) d' (allowed fits)) k))
  ]

  store_opened-Hands :
      (root dest : String) (opened : Result (Result String)) (next : Disk F → Response × Disk F)
      (d : Disk F)
      → (has_prefix dest root ≡ true → P dest)
      → ((d' : Disk F) → Hands P d' (next d').1)
      → Hands P d (store_opened fs root dest opened next d).1
  store_opened-Hands root dest (err e) next d allowed k = no_call P d
  store_opened-Hands root dest (ok body) next d allowed k =
      store_body-Hands root dest body next d allowed k

module _ {F : Type 0} (fs : FileSystem F) (c : String) (cs : List String) (h : All IsEntry (c ∷ cs))
    (dir : String) (inside : IsInside (under (c ∷ cs)) dir) where
  store_parts-Hands :
      (count : ℕ) (parts : List FilePart) (d : Disk F)
      → Hands (IsInside (under (c ∷ cs))) d (store_parts fs (under (c ∷ cs)) dir count parts d).1
  unfolding store_parts store_part
  store_parts-Hands count [] d = no_call (IsInside (under (c ∷ cs))) d
  store_parts-Hands count (part ∷ parts) d =
      store_opened-Hands fs (IsInside (under (c ∷ cs))) (under (c ∷ cs))
        (join dir (base part.filename)) part.opened
        (store_parts fs (under (c ∷ cs)) dir count parts) d
        (dest-IsInside c cs h dir part.filename inside) (store_parts-Hands count parts)

  read_upload-Hands :
      (form : UploadForm) (d : Disk F)
      → Hands (IsInside (under (c ∷ cs))) d (read_upload fs (under (c ∷ cs)) dir form d).1
  read_upload-Hands (err e) d = no_call (IsInside (under (c ∷ cs))) d
  read_upload-Hands (ok []) d = no_call (IsInside (under (c ∷ cs))) d
  read_upload-Hands (ok (part ∷ parts)) d = store_parts-Hands _ (part ∷ parts) d

  upload_at-Hands :
      (form : UploadForm) (d : Disk F)
      → Hands (IsInside (under (c ∷ cs))) d (upload_at fs (under (c ∷ cs)) form dir d).1
  unfolding upload_at
  upload_at-Hands form d =
      or_failed-Hands fs (IsInside (under (c ∷ cs))) "" d (read_upload fs (under (c ∷ cs)) dir form)
        (change dir fs.mkdir_all d) (one_call (IsInside (under (c ∷ cs))) dir fs.mkdir_all d inside)
        (read_upload-Hands form)

upload_at-StaysInside :
    {F : Type 0} (fs : FileSystem F) (root dir : String) (form : UploadForm) (d : Disk F)
    → IsRooted root
    → root ≢ "/"
    → IsInside root dir
    → Hands (IsInside root) d (upload_at fs root form dir d).1
upload_at-StaysInside fs root dir form d (inl slash) named inside = absurd (named slash)
upload_at-StaysInside fs root dir form d (inr (c, cs, e, h, hs)) named inside =
    subst (λ r. Hands (IsInside r) d (upload_at fs r form dir d).1) (sym e)
      (upload_at-Hands fs c cs (h, hs) dir (subst (λ r. IsInside r dir) e inside) form d)

-- Storing the files of a form hands to the file system only paths inside the workload's directory,
-- whatever the request's path and the names of the files are and wherever the storing stops. The
-- storage path is absolute, and the workload's directory is not the root of the file system.
pub upload-StaysInside :
    {F : Type 0} (fs : FileSystem F) (storage : String) (r : Request) (form : UploadForm)
    (d : Disk F)
    → is_abs storage ≡ true
    → root_of storage r ≢ "/"
    → Hands (IsInside (root_of storage r)) d (upload fs storage r form d).1
unfolding upload with_safe_path workload_root
upload-StaysInside fs storage r form d abs named = go (safe_path (root_of storage r) r.path) refl
  where
    rooted : is_abs (root_of storage r) ≡ true
    rooted = root-abs fs storage abs r

    go :
        (t : Result String)
        → safe_path (root_of storage r) r.path ≡ t
        → Hands (IsInside (root_of storage r)) d (upload fs storage r form d).1
    go (err e) k = rw (k, upload, with_safe_path) (no_call (IsInside (root_of storage r)) d)
    go (ok dir) k =
        rw (k, upload, with_safe_path)
          (upload_at-StaysInside fs (root_of storage r) dir form d (join-IsRooted storage _ abs)
            named (safe_path-IsInside (root_of storage r) r.path dir rooted k))
