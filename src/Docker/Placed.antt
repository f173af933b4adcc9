-- ===== src/Docker/Placed.antt =====
-- internal/adapters/out/runtime/docker/docker.go: where injected files go.
use gameserver_daemon.Common.{
  String, ◌<>◌, true, false, ◌≡◌, refl, sym, ap, ◌∙◌, subst, inl, inr, ◌⊎◌, Option, none, some,
  List, [], ◌∷◌, ◌++◌, All, All-append, All-map, arith,
}
use text.Mathlib.TextLemmas.{append_assoc}
use gameserver_daemon.Common.Dict.{Dict, lookup}
use gameserver_daemon.Common.Paths.{join, split}
use gameserver_daemon.Common.Paths.Laws.{IsEntry, IsPlain}
use gameserver_daemon.Common.Paths.Below.{IsBelow, join-IsBelow, split-slash}
use gameserver_daemon.Errors.{GoError, Result}
use gameserver_daemon.FileApi.Disk.{FileSystem, Disk, change}
use gameserver_daemon.FileApi.Disk.Hands.{Hands, no_call, Hands-trans}
use gameserver_daemon.FileApi.Scope.{workload_root}
use gameserver_daemon.FileApi.Scope.Confined.{IsInside}
use gameserver_daemon.FileApi.Handlers.Confined.{StaysInside}
use gameserver_daemon.Docker.Engine.{Adapter}
use gameserver_daemon.Docker.Containers.{project_data_dir}
use gameserver_daemon.Docker.Files.{
  Download, unbuilt, unanswered, answered, Removal, content_type_dirs, content_dir, download_file,
  inject_file, inject_into, after_write, after_create, after_fetch,
}

one_of_both :
    (k v j w : String) (d : Dict String)
    → lookup k ((j, w) ∷ d) ≡ some v
    → (w ≡ v) ⊎ (lookup k d ≡ some v)
unfolding lookup
one_of_both k v j w d e = ground arith

lookup-All :
    (P : String → Type 0) (k v : String) (d : Dict String)
    → All (λ e. P e.1) d
    → lookup k d ≡ some v
    → P v
unfolding lookup
lookup-All P k v [] h e = cc
lookup-All P k v ((j, w) ∷ d) h e = elim (one_of_both k v j w d e) [
  | inl same ↦ subst P same h.0
  | inr later ↦ lookup-All P k v d h.1 later
]

content_dirs-IsEntry : All (λ (e : String × String). All IsEntry (split e.1)) content_type_dirs
unfolding split
content_dirs-IsEntry = (
  ((refl, ((λ e. cc), (λ e. cc), (λ e. cc))), tt),
  (
    ((refl, ((λ e. cc), (λ e. cc), (λ e. cc))), tt),
    (
      ((refl, ((λ e. cc), (λ e. cc), (λ e. cc))), ((refl, ((λ e. cc), (λ e. cc), (λ e. cc))), tt)),
      (((refl, ((λ e. cc), (λ e. cc), (λ e. cc))), tt), tt),
    ),
  ),
)

-- The directory of a content type, in a workload's directory.
module _ (adapter : Adapter) (project workload : String)
    (below : IsBelow adapter.storage_local_path)
    (own : IsEntry (project_data_dir project workload)) where
  abbrev root : String
  root = workload_root adapter.storage_local_path project workload

  root-joined : root ≡ adapter.storage_local_path <> ("/" <> project_data_dir project workload)
  unfolding workload_root project_data_dir
  root-joined =
      (join-IsBelow adapter.storage_local_path (project_data_dir project workload) below
        (subst (All IsEntry) (sym own.0) (own, tt))).0

  dir_parts :
      (sub : String)
      → All IsEntry (split sub)
      → All IsEntry (split (project_data_dir project workload <> ("/" <> sub)))
  dir_parts sub inner =
      subst (All IsEntry)
        (sym
          (split-slash (project_data_dir project workload) sub ∙ ap (λ xs. xs ++ split sub) own.0))
        (own, inner)

  abbrev dir : String → String
  dir sub = content_dir adapter project workload sub

  dir-joined :
      (sub : String)
      → All IsEntry (split sub)
      → (dir sub ≡ root <> ("/" <> sub)) × IsBelow (dir sub)
  dir-joined sub inner =
      let (e, b) =
        join-IsBelow adapter.storage_local_path (project_data_dir project workload <> ("/" <> sub))
          below (dir_parts sub inner) in
      (
        e
            ∙ sym (
                ap (λ r. r <> ("/" <> sub)) root-joined
                ∙ append_assoc adapter.storage_local_path ("/" <> project_data_dir project workload)
                    ("/" <> sub)
                ∙ ap (λ t. adapter.storage_local_path <> t)
                    (append_assoc "/" (project_data_dir project workload) ("/" <> sub))),
        b,
      )

  plain : (xs : List String) → All IsEntry xs → All IsPlain xs
  plain xs = All-map IsEntry IsPlain xs (λ a e. e.1)

  dir-IsInside : (sub : String) → All IsEntry (split sub) → IsInside root (dir sub)
  dir-IsInside sub inner =
      inr (sub, (dir-joined sub inner).0 ∙ sym (append_assoc root "/" sub), plain (split sub) inner)

  file-IsInside :
      (sub file : String)
      → All IsEntry (split sub)
      → IsEntry file
      → IsInside root (join (dir sub) file)
  file-IsInside sub file inner single =
      let (e, b) = dir-joined sub inner in
      let last = subst (All IsEntry) (sym single.0) (single, tt) in
      inr (
        sub <> ("/" <> file),
        (join-IsBelow (dir sub) file b last).0
            ∙ ap (λ r. r <> ("/" <> file)) e
            ∙ append_assoc root ("/" <> sub) ("/" <> file)
            ∙ ap (λ t. root <> t) (append_assoc "/" sub ("/" <> file))
            ∙ sym (append_assoc root "/" (sub <> ("/" <> file))),
        plain (split (sub <> ("/" <> file))) (
            subst (All IsEntry) (sym (split-slash sub file))
              (All-append IsEntry (split sub) (split file) inner last)),
      )

module _ {F : Type 0} (fs : FileSystem F) (fetch : String → Download)
    (remove : String → F → Removal × F) (P : String → Type 0) where
  written-Hands :
      (dest : String) (d : Disk F) (r : Option GoError × Disk F)
      → P dest
      → Hands P d r.1
      → Hands P d (after_write fs fetch remove dest r).1
  written-Hands dest d (none, d') p h = h
  written-Hands dest d (some e, d') p h =
      Hands-trans P d d' (change dest remove d').1 h (dest ∷ [], refl, (p, tt))

  created-Hands :
      (dest : String) (body : Result String) (d : Disk F) (r : Option GoError × Disk F)
      → P dest
      → Hands P d r.1
      → Hands P d (after_create fs fetch remove dest body r).1
  created-Hands dest body d (some e, d') p h = h
  created-Hands dest body d (none, d') p h =
      written-Hands dest d (change dest (fs.write body) d') p
        (Hands-trans P d d' (change dest (fs.write body) d').1 h (dest ∷ [], refl, (p, tt)))

  fetched-Hands :
      (dest : String) (d : Disk F) (r : Download)
      → P dest
      → Hands P d (after_fetch fs fetch remove dest d r).1
  fetched-Hands dest d (unbuilt e) p = no_call P d
  fetched-Hands dest d (unanswered e) p = no_call P d
  fetched-Hands dest d (answered true status body) p =
      created-Hands dest body d (change dest fs.create d) p (dest ∷ [], refl, (p, tt))
  fetched-Hands dest d (answered false status body) p = no_call P d

  download_file-Hands :
      (url dest : String) (d : Disk F)
      → P dest
      → Hands P d (download_file fs fetch remove url dest d).1
  unfolding download_file
  download_file-Hands url dest d p = fetched-Hands dest d (fetch url) p

  injected-Hands :
      (dir url file : String) (d : Disk F) (r : Option GoError × Disk F)
      → P (join dir file)
      → Hands P d r.1
      → Hands P d (inject_into fs fetch remove dir url file r).1
  injected-Hands dir url file d (some e, d') p h = h
  injected-Hands dir url file d (none, d') p h =
      Hands-trans P d d' (download_file fs fetch remove url (join dir file) d').1 h
        (download_file-Hands url (join dir file) d' p)

-- Injecting a file whose name is a single plain entry hands to the file system only paths inside the
-- workload's directory of the file API, whatever the content type and whatever the download answers. The
-- storage path is a cleaned, absolute path below the root, and the workload's directory name is a single
-- plain entry.
pub inject_file-StaysInside :
    {F : Type 0} (fs : FileSystem F) (fetch : String → Download) (remove : String → F → Removal × F)
    (adapter : Adapter) (project workload storage content url file : String) (d : Disk F)
    → IsBelow adapter.storage_local_path
    → IsEntry (project_data_dir project workload)
    → IsEntry file
    → StaysInside
        (workload_root adapter.storage_local_path project workload)
        d
        (inject_file fs fetch remove adapter project workload storage content url file d).1
unfolding inject_file
inject_file-StaysInside fs fetch remove adapter project workload storage content url file d below
      own single =
    go (lookup content content_type_dirs) refl
  where
    root : String
    root = workload_root adapter.storage_local_path project workload

    go :
        (o : Option String)
        → lookup content content_type_dirs ≡ o
        → Hands
            (IsInside root)
            d
            (inject_file fs fetch remove adapter project workload storage content url file d).1
    go none h = rw (h, inject_file) (no_call (IsInside root) d)
    go (some sub) h =
        let inner =
          lookup-All (λ v. All IsEntry (split v)) content sub content_type_dirs content_dirs-IsEntry
            h in
        let dir = content_dir adapter project workload sub in
        rw (h, inject_file)
          (injected-Hands fs fetch remove (IsInside root) dir url file d (change dir fs.mkdir_all d)
            (file-IsInside adapter project workload below own sub file inner single)
            (dir ∷ [], refl, (dir-IsInside adapter project workload below own sub inner, tt)))
