-- ===== src/FileApi/Handlers/Confined.antt =====
-- internal/adapters/in/fileapi/server.go: what the handlers on single paths may touch.
use gameserver_daemon.Common.{
  String, true, ◌≡◌, ◌≢◌, refl, sym, ap, ◌∙◌, ◌⊎◌, inl, inr, All, List, [], ◌++◌, Option, none,
  some, arith, string_dec, subst, Bool-cases,
}
use mathlib.Core.List.{append-nil}
use gameserver_daemon.Common.Paths.{is_abs}
use gameserver_daemon.Common.Paths.Laws.{join-IsRooted, rooted-abs}
use gameserver_daemon.Errors.{GoError, Result, ok, err}
use gameserver_daemon.FileApi.Disk.{
  Stat, found, not_exist, broken, DirEntry, FileSystem, Disk, touch, change, change_two,
}
use gameserver_daemon.FileApi.Disk.Hands.{Hands, no_call, one_call, one_look, Hands-trans}
use gameserver_daemon.FileApi.Scope.{workload_root, safe_path}
use gameserver_daemon.FileApi.Scope.Confined.{IsInside, safe_path-IsInside}
use gameserver_daemon.FileApi.Handlers.{
  Request, Response, root_of, list_or_stat, list_at, download, mkdir, delete, with_safe_path,
  download_at, mkdir_at, delete_at, rename, rename_to, done_or_500, entries_listed, after_stat,
  sent_file,
}

-- What has been handed to the file system since `d`, all of it inside `root`.
abbrev pub StaysInside : {F : Type 0} → String → Disk F → Disk F → Type 0
StaysInside root d d' = (ps : List String) × (d'.touched ≡ d.touched ++ ps) × All (IsInside root) ps

-- The handlers under one name.
pub data Operation : Type 0 where
  list_files download_file make_directory delete_path : Operation
  rename_path : Result (String × String) → Operation

abbrev pub run :
    {F : Type 0} → FileSystem F → String → Operation → Request → Disk F → Response × Disk F
run fs storage list_files r = list_or_stat fs storage r
run fs storage download_file r = download fs storage r
run fs storage make_directory r = mkdir fs storage r
run fs storage delete_path r = delete fs storage r
run fs storage (rename_path body) r = rename fs storage r body

done_or_500-state : {D : Type 0} (x : Option GoError × D) → (done_or_500 x).1 ≡ x.1
done_or_500-state (none, a) = refl
done_or_500-state (some e, a) = refl

done_or_500-Hands :
    {F : Type 0} (P : String → Type 0) (d : Disk F) (x : Option GoError × Disk F)
    → Hands P d x.1
    → Hands P d (done_or_500 x).1
done_or_500-Hands P d x h = subst (Hands P d) (sym (done_or_500-state x)) h

unchanged-StaysInside :
    {F : Type 0} (root : String) (d d' : Disk F) → d' ≡ d → StaysInside root d d'
unchanged-StaysInside {F} root d d' e =
    ([], ap (λ (x : Disk F). x.touched) e ∙ sym (append-nil d.touched), tt)

module _ {F : Type 0} (root rel : String) (act : String → Disk F → Response × Disk F) where
  -- A handler that stays inside where its target does, on the path of a request.
  with_safe_path-StaysInside :
      is_abs root ≡ true
      → ((p : String) (d : Disk F) → IsInside root p → StaysInside root d (act p d).1)
      → (d : Disk F) → StaysInside root d (with_safe_path root rel act d).1
  unfolding with_safe_path
  with_safe_path-StaysInside abs only d = go (safe_path root rel) refl
    where
      go :
          (t : Result String)
          → safe_path root rel ≡ t
          → StaysInside root d (with_safe_path root rel act d).1
      go (err e) h = ([], rw (h, with_safe_path, append-nil), tt)
      go (ok target) h =
          rw (h, with_safe_path) (only target d (safe_path-IsInside root rel target abs h))

module _ {F : Type 0} (fs : FileSystem F) (storage : String) (abs : is_abs storage ≡ true) where
  pub root-abs : (r : Request) → is_abs (root_of storage r) ≡ true
  unfolding workload_root
  root-abs r = rooted-abs _ (join-IsRooted storage _ abs)

  module _ (P : String → Type 0) where
    entries_listed-disk :
        (rel : String) (r : Result (List DirEntry)) (d : Disk F)
        → (entries_listed fs storage rel (r, d)).1 ≡ d
    entries_listed-disk rel (err e) d = refl
    entries_listed-disk rel (ok es) d = refl

    after_stat-Hands :
        (root rel target : String) (r : Stat) (d : Disk F)
        → P target
        → Hands P d (after_stat fs storage root rel target (r, d)).1
    after_stat-Hands root rel target (not_exist e) d h = no_call P d
    after_stat-Hands root rel target (broken e) d h = no_call P d
    after_stat-Hands root rel target (found info) d h = elim (Bool-cases info.is_dir) [
      | inl dir ↦ rw dir (
          subst (Hands P d)
            (sym (entries_listed-disk rel (fs.read_dir target d.state) (touch target d)))
            (one_look P target d h))
      | inr plain ↦ rw plain (no_call P d)
    ]

    list_at-Hands :
        (root rel target : String) (d : Disk F)
        → P target
        → Hands P d (list_at fs storage root rel target d).1
    unfolding list_at
    list_at-Hands root rel target d h =
        Hands-trans P d (touch target d)
          (after_stat fs storage root rel target (fs.stat target d.state, touch target d)).1
          (one_look P target d h)
          (after_stat-Hands root rel target (fs.stat target d.state) (touch target d) h)

    sent_file-disk :
        (target : String) (r : Stat) (d : Disk F) → (sent_file fs storage target (r, d)).1 ≡ d
    sent_file-disk target (found info) d = refl
    sent_file-disk target (not_exist e) d = refl
    sent_file-disk target (broken e) d = refl

    download_at-Hands :
        (target : String) (d : Disk F) → P target → Hands P d (download_at fs storage target d).1
    unfolding download_at
    download_at-Hands target d h =
        subst (Hands P d) (sym (sent_file-disk target (fs.stat target d.state) (touch target d)))
          (one_look P target d h)

    delete_at-Hands : (p : String) (d : Disk F) → P p → Hands P d (delete_at fs storage p d).1
    unfolding delete_at
    delete_at-Hands p d h =
        done_or_500-Hands P d (change p fs.remove_all d) (one_call P p fs.remove_all d h)

    mkdir_at-Hands : (p : String) (d : Disk F) → P p → Hands P d (mkdir_at fs storage p d).1
    unfolding mkdir_at
    mkdir_at-Hands p d h =
        done_or_500-Hands P d (change p fs.mkdir_all d) (one_call P p fs.mkdir_all d h)

    change_two-Hands :
        (p q : String) (d : Disk F)
        → P p
        → P q
        → Hands P d (done_or_500 (change_two p q fs.rename d)).1
    change_two-Hands p q d h k = done_or_500-Hands P d (change_two p q fs.rename d) (
        Hands-trans P d (touch p d) (change_two p q fs.rename d).1 (one_look P p d h)
          (one_call P q (fs.rename p) (touch p d) k))

  pub delete_refused :
      (r : Request) (d : Disk F) → (r.path ≡ "") ⊎ (r.path ≡ "/") → (delete fs storage r d).1 ≡ d
  unfolding delete
  delete_refused r d h = ground arith

  pub delete_accepted :
      (r : Request) (d : Disk F)
      → r.path ≢ ""
      → r.path ≢ "/"
      → delete fs storage r d ≡ with_safe_path (root_of storage r) r.path (delete_at fs storage) d
  unfolding delete
  delete_accepted r d h k = ground arith

  delete-StaysInside :
      (r : Request) (d : Disk F) → StaysInside (root_of storage r) d (delete fs storage r d).1
  delete-StaysInside r d = elim (string_dec r.path "") [
    | yes e ↦ unchanged-StaysInside _ d _ (delete_refused r d (inl e))
    | no n ↦ elim (string_dec r.path "/") [
      | yes e ↦ unchanged-StaysInside _ d _ (delete_refused r d (inr e))
      | no m ↦ rw (delete_accepted r d n m) (
          with_safe_path-StaysInside (root_of storage r) r.path (delete_at fs storage) (root-abs r)
            (delete_at-Hands (IsInside (root_of storage r))) d)
    ]
  ]

  rename_to-StaysInside :
      (root src to : String) (t : Result String) (d : Disk F)
      → is_abs root ≡ true
      → IsInside root src
      → safe_path root to ≡ t
      → StaysInside root d (rename_to fs storage src t d).1
  unfolding rename_to
  rename_to-StaysInside root src to (err e) d a h k = unchanged-StaysInside root d d refl
  rename_to-StaysInside root src to (ok dst) d a h k =
      change_two-Hands (IsInside root) src dst d h (safe_path-IsInside root to dst a k)

  rename-StaysInside :
      (r : Request) (body : Result (String × String)) (d : Disk F)
      → StaysInside (root_of storage r) d (rename fs storage r body d).1
  unfolding rename
  rename-StaysInside r (err e) d = unchanged-StaysInside _ d d refl
  rename-StaysInside r (ok (from, to)) d = go (safe_path (root_of storage r) from) refl
    where
      go :
          (t : Result String)
          → safe_path (root_of storage r) from ≡ t
          → StaysInside (root_of storage r) d (rename fs storage r (ok (from, to)) d).1
      go (err e) h =
          unchanged-StaysInside (root_of storage r) d (rename fs storage r (ok (from, to)) d).1
            (rw (h, rename))
      go (ok src) h =
          rw (h, rename)
            (rename_to-StaysInside (root_of storage r) src to _ d (root-abs r)
              (safe_path-IsInside (root_of storage r) from src (root-abs r) h) refl)

  -- Whatever a request asks for, the handlers for listing, downloading, making a directory, deleting
  -- and renaming hand to the file system only paths inside the workload's directory. The storage
  -- path is absolute.
  pub handlers-StaysInside :
      (op : Operation) (r : Request) (d : Disk F)
      → StaysInside (root_of storage r) d (run fs storage op r d).1
  unfolding list_or_stat download mkdir
  handlers-StaysInside list_files r d =
      with_safe_path-StaysInside (root_of storage r) r.path
        (list_at fs storage (root_of storage r) r.path) (root-abs r)
        (list_at-Hands (IsInside (root_of storage r)) (root_of storage r) r.path) d
  handlers-StaysInside download_file r d =
      with_safe_path-StaysInside (root_of storage r) r.path (download_at fs storage) (root-abs r)
        (download_at-Hands (IsInside (root_of storage r))) d
  handlers-StaysInside make_directory r d =
      with_safe_path-StaysInside (root_of storage r) r.path (mkdir_at fs storage) (root-abs r)
        (mkdir_at-Hands (IsInside (root_of storage r))) d
  handlers-StaysInside delete_path r d = delete-StaysInside r d
  handlers-StaysInside (rename_path body) r d = rename-StaysInside r body d
