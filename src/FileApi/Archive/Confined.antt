-- ===== src/FileApi/Archive/Confined.antt =====
-- internal/adapters/in/fileapi/server.go: an archive is unpacked inside the workload's directory.
use gameserver_daemon.Common.{
  String, ◌<>◌, Bool, true, false, not, ◌&&◌, ◌≡◌, refl, sym, ap, ◌∙◌, subst, ◌⊎◌, inl, inr, All,
  All-append, Option, none, some, List, [], ◌∷◌, ◌==◌, if◌then◌else◌, arith, Bool-cases,
}
use text.Mathlib.TextLemmas.{append_assoc}
use gameserver_daemon.Common.Strings.{has_prefix}
use gameserver_daemon.Common.Paths.{join, is_abs, split}
use gameserver_daemon.Common.Paths.Laws.{IsPlain}
use gameserver_daemon.Common.Paths.Below.{split-slash}
use gameserver_daemon.Errors.{GoError, Result, ok, err}
use gameserver_daemon.FileApi.Disk.{FileSystem, Disk, change}
use gameserver_daemon.FileApi.Disk.Hands.{Hands, no_call, one_call, Hands-trans}
use gameserver_daemon.FileApi.Scope.{safe_path}
use gameserver_daemon.FileApi.Scope.Confined.{
  IsInside, joined-IsInside, safe_path-IsInside, IsInside-abs,
}
use gameserver_daemon.FileApi.Handlers.{Response, Request, root_of, with_safe_path}
use gameserver_daemon.FileApi.Handlers.Confined.{root-abs}
use gameserver_daemon.FileApi.Archive.{
  dir_of, ZipEntry, Form, or_500, write_entry, made_dir, unpack_entry, unpack, read_form, import_at,
  import_zip,
}

-- A directory inside a directory inside a root is inside the root.
pub IsInside-trans : (root dir p : String) → IsInside root dir → IsInside dir p → IsInside root p
IsInside-trans root dir p (inl e) h = subst (λ r. IsInside r p) e h
IsInside-trans root dir p (inr h) (inl e) = subst (IsInside root) (sym e) (inr h)
IsInside-trans root dir p (inr (t, e, plain)) (inr (u, k, more)) = inr (
  t <> ("/" <> u),
  k
      ∙ ap (λ r. (r <> "/") <> u) e
      ∙ append_assoc ((root <> "/") <> t) "/" u
      ∙ append_assoc (root <> "/") t ("/" <> u),
  subst (All IsPlain) (sym (split-slash t u)) (All-append IsPlain (split t) (split u) plain more),
)

-- A path inside the directory, or the parent directory of one, which is asked for before a file is
-- created in it.
abbrev pub MayTouch : String → String → Type 0
MayTouch root p = IsInside root p ⊎ ((q : String) × IsInside root q × (p ≡ dir_of q))

not_refused :
    (dest dir : String)
    → (not (has_prefix dest (dir <> "/")) && not (dest == dir)) ≡ false
    → (dest ≡ dir) ⊎ (has_prefix dest (dir <> "/") ≡ true)
not_refused dest dir h = ground arith

entry-IsInside :
    (root dir name : String)
    → is_abs dir ≡ true
    → IsInside root dir
    → (not (has_prefix (join dir name) (dir <> "/")) && not (join dir name == dir)) ≡ false
    → IsInside root (join dir name)
entry-IsInside root dir name abs inside h = go (not_refused (join dir name) dir h)
  where
    go :
        (join dir name ≡ dir) ⊎ (has_prefix (join dir name) (dir <> "/") ≡ true)
        → IsInside root (join dir name)
    go (inl same) = subst (IsInside root) (sym same) inside
    go (inr prefix) =
        IsInside-trans root dir (join dir name) inside
          (joined-IsInside dir name (join dir name) abs prefix refl)

module _ {F : Type 0} (fs : FileSystem F) (P : String → Type 0) where
  or_500-Hands :
      (d : Disk F) (next : Disk F → Response × Disk F) (r : Option GoError × Disk F)
      → Hands P d r.1
      → ((d' : Disk F) → Hands P d' (next d').1)
      → Hands P d (or_500 fs next r).1
  or_500-Hands d next (some e, d') h k = h
  or_500-Hands d next (none, d') h k = Hands-trans P d d' (next d').1 h (k d')

  write_entry-Hands :
      (dest : String) (body : Result (Result String)) (next : Disk F → Response × Disk F)
      (d : Disk F)
      → P dest
      → ((d' : Disk F) → Hands P d' (next d').1)
      → Hands P d (write_entry fs dest body next d).1
  unfolding write_entry
  write_entry-Hands dest (err e) next d p k = no_call P d
  write_entry-Hands dest (ok body) next d p k =
      or_500-Hands d _ (change dest fs.create d) (one_call P dest fs.create d p) (λ d'.
        or_500-Hands d' next (change dest (fs.write body) d') (one_call P dest (fs.write body) d' p)
          k)

module _ {F : Type 0} (fs : FileSystem F) (root dir : String) (abs : is_abs dir ≡ true)
    (inside : IsInside root dir) where
  placed-Hands :
      (dest : String) (f : ZipEntry) (next : Disk F → Response × Disk F) (d : Disk F)
      → ((d' : Disk F) → Hands (MayTouch root) d' (next d').1)
      → IsInside root dest
      → (b : Bool)
      → Hands
          (MayTouch root)
          d
          (if b
            then next (made_dir fs dest d)
            else write_entry fs dest f.opened next (made_dir fs (dir_of dest) d)).1
  placed-Hands dest f next d k h true =
      Hands-trans (MayTouch root) d (made_dir fs dest d) (next (made_dir fs dest d)).1
        (one_call (MayTouch root) dest fs.mkdir_all d (inl h)) (k (made_dir fs dest d))
  placed-Hands dest f next d k h false =
      let parent = made_dir fs (dir_of dest) d in
      Hands-trans (MayTouch root) d parent (write_entry fs dest f.opened next parent).1
        (one_call (MayTouch root) (dir_of dest) fs.mkdir_all d (inr (dest, h, refl)))
        (write_entry-Hands fs (MayTouch root) dest f.opened next parent (inl h) k)

  unpack_entry-Hands :
      (f : ZipEntry) (next : Disk F → Response × Disk F) (d : Disk F)
      → ((d' : Disk F) → Hands (MayTouch root) d' (next d').1)
      → Hands (MayTouch root) d (unpack_entry fs dir f next d).1
  unfolding unpack_entry
  unpack_entry-Hands f next d k =
      elim (Bool-cases
        (not (has_prefix (join dir f.name) (dir <> "/")) && not (join dir f.name == dir))) [
          | inl slip ↦ rw slip (no_call (MayTouch root) d)
          | inr fits ↦ rw fits (
              placed-Hands (join dir f.name) f next d k
                (entry-IsInside root dir f.name abs inside fits) f.is_dir)
        ]

  unpack-Hands :
      (entries : List ZipEntry) (d : Disk F) → Hands (MayTouch root) d (unpack fs dir entries d).1
  unfolding unpack
  unpack-Hands [] d = no_call (MayTouch root) d
  unpack-Hands (f ∷ rest) d = unpack_entry-Hands f (unpack fs dir rest) d (unpack-Hands rest)

  read_form-Hands : (form : Form) (d : Disk F) → Hands (MayTouch root) d (read_form fs dir form d).1
  read_form-Hands (err e) d = no_call (MayTouch root) d
  read_form-Hands (ok []) d = no_call (MayTouch root) d
  read_form-Hands (ok (err e ∷ files)) d = no_call (MayTouch root) d
  read_form-Hands (ok (ok (err e) ∷ files)) d = no_call (MayTouch root) d
  read_form-Hands (ok (ok (ok entries) ∷ files)) d = unpack-Hands entries d

  import_at-Hands : (form : Form) (d : Disk F) → Hands (MayTouch root) d (import_at fs form dir d).1
  unfolding import_at
  import_at-Hands form d =
      or_500-Hands fs (MayTouch root) d (read_form fs dir form) (change dir fs.mkdir_all d)
        (one_call (MayTouch root) dir fs.mkdir_all d (inl inside)) (read_form-Hands form)

-- Unpacking an archive hands to the file system only paths inside the workload's directory, and parent
-- directories of such paths, whatever names the entries of the archive have and wherever the unpacking
-- stops. The storage path is absolute.
pub import_zip-StaysInside :
    {F : Type 0} (fs : FileSystem F) (storage : String) (r : Request) (form : Form) (d : Disk F)
    → is_abs storage ≡ true
    → Hands (MayTouch (root_of storage r)) d (import_zip fs storage r form d).1
unfolding import_zip with_safe_path
import_zip-StaysInside fs storage r form d abs = go (safe_path (root_of storage r) r.path) refl
  where
    rooted : is_abs (root_of storage r) ≡ true
    rooted = root-abs fs storage abs r

    go :
        (t : Result String)
        → safe_path (root_of storage r) r.path ≡ t
        → Hands (MayTouch (root_of storage r)) d (import_zip fs storage r form d).1
    go (err e) h = rw (h, import_zip, with_safe_path) (no_call (MayTouch (root_of storage r)) d)
    go (ok dir) h =
        let inside = safe_path-IsInside (root_of storage r) r.path dir rooted h in
        rw (h, import_zip, with_safe_path)
          (import_at-Hands fs (root_of storage r) dir
            (IsInside-abs (root_of storage r) dir rooted inside) inside form d)
