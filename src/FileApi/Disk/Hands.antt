-- ===== src/FileApi/Disk/Hands.antt =====
-- The paths that a part of the program hands to the file system.
use gameserver_daemon.Common.{
  String, ◌≡◌, refl, sym, ap, ◌∙◌, Option, List, [], ◌∷◌, ◌++◌, All, All-append, All-map,
}
use mathlib.Core.List.{append-nil, append_assoc}
use gameserver_daemon.FileApi.Disk.{Disk, touch, change}
use gameserver_daemon.Errors.{GoError}

-- What a call has handed to the file system, all of it with a property.
abbrev pub Hands : {F : Type 0} → (String → Type 0) → Disk F → Disk F → Type 0
Hands P d d' = (ps : List String) × (d'.touched ≡ d.touched ++ ps) × All P ps

pub no_call : {F : Type 0} (P : String → Type 0) (d : Disk F) → Hands P d d
no_call P d = ([], sym (append-nil d.touched), tt)

-- A call that changes the file system.
pub one_call :
    {F : Type 0} (P : String → Type 0) (p : String) (call : String → F → Option GoError × F)
    (d : Disk F)
    → P p
    → Hands P d (change p call d).1
one_call P p call d h = (p ∷ [], refl, (h, tt))

-- A call that reads it.
pub one_look :
    {F : Type 0} (P : String → Type 0) (p : String) (d : Disk F) → P p → Hands P d (touch p d)
one_look P p d h = (p ∷ [], refl, (h, tt))

pub Hands-trans :
    {F : Type 0} (P : String → Type 0) (a b c : Disk F) → Hands P a b → Hands P b c → Hands P a c
Hands-trans P a b c (ps, e, h) (qs, k, i) =
    (ps ++ qs, k ∙ ap (λ xs. xs ++ qs) e ∙ append_assoc a.touched ps qs, All-append P ps qs h i)

pub Hands-map :
    {F : Type 0} (P Q : String → Type 0) (a b : Disk F)
    → ((p : String) → P p → Q p)
    → Hands P a b
    → Hands Q a b
Hands-map P Q a b f (ps, e, h) = (ps, e, All-map P Q ps f h)
