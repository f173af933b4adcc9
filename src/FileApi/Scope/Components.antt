-- ===== src/FileApi/Scope/Components.antt =====
-- internal/adapters/in/fileapi/server.go: paths inside a workload's directory, by their components.
use gameserver_daemon.Common.{
  ◌+◌, ◌≤◌, String, ◌<>◌, true, ◌≡◌, ◌≢◌, refl, sym, ap, ◌∙◌, subst, ◌⊎◌, inl, inr, All, All-append,
  All-map, All-middle, All-remove, List, [], ◌∷◌, ◌++◌, arith,
}
use mathlib.Core.List.{
  reverse, reverse-append, reverse-reverse, append-nil, append_assoc as list_append_assoc,
}
use text.Mathlib.TextLemmas.{append_assoc, cons-append, nil-append}
use gameserver_daemon.Common.Strings.{has_prefix, drop_prefix, size}
use gameserver_daemon.Common.Strings.Laws.{has_prefix-append}
use gameserver_daemon.Common.Paths.{base, join, split, under, render}
use gameserver_daemon.Common.Paths.Laws.{IsPlain, IsEntry, NoSlash, split-NoSlash, split-under_from}
use gameserver_daemon.Common.Paths.Dot.{drawn_backwards}
use gameserver_daemon.Common.Paths.Below.{under-append, under-split, slash-append}
use gameserver_daemon.Common.Paths.Component.{JoinedTo, base-JoinedTo, snoc_cases}
use gameserver_daemon.FileApi.Scope.Confined.{IsInside}

size-append : (a b : String) → size (a <> b) ≡ size a + size b
unfolding size
size-append String.[] b = rw nil-append (omega arith)
size-append (String.◌∷◌ c a) b = rw cons-append (omega (arith, size-append a b))

size_of_prefix : (s p : String) → has_prefix s p ≡ true → size p ≤ size s
size_of_prefix s p h =
    omega (arith, ap size (has_prefix-append s p h), size-append p (drop_prefix s p))

size_not_empty : (s : String) → s ≢ "" → 1 ≤ size s
unfolding size
size_not_empty String.[] h = absurd (h refl)
size_not_empty (String.◌∷◌ c s) h = omega arith

snoc-injective : (xs ys : List String) (x y : String) → xs ++ x ∷ [] ≡ ys ++ y ∷ [] → xs ≡ ys
snoc-injective xs ys x y h = sym (reverse-reverse xs) ∙ ap reverse same ∙ reverse-reverse ys
  where
    turned : x ∷ reverse xs ≡ y ∷ reverse ys
    turned = sym (reverse-append xs (x ∷ [])) ∙ ap reverse h ∙ reverse-append ys (y ∷ [])

    same : reverse xs ≡ reverse ys
    same = cc turned

under-cons : (t : String) (ts : List String) → under (t ∷ ts) ≡ "/" <> (t <> under ts)
unfolding under
under-cons t ts = sym (slash-append (t <> under ts))

size-under_one : (y : String) → y ≢ "" → 2 ≤ size (under (y ∷ []))
size-under_one y h = omega (
  arith,
  ap size (under-cons y []),
  size-append "/" (y <> under []),
  size-append y (under []),
  size_not_empty y h,
  size_not_empty "/" (λ (e : "/" ≡ ""). cc e),
)

size_of_root : size "/" ≡ 1
unfolding size
size_of_root = refl

-- A path of entries is longer than its parent directory.
parent_is_shorter :
    (ys : List String) (y : String)
    → IsEntry y
    → size (render true (reverse ys)) + 1 ≤ size (under (ys ++ y ∷ []))
unfolding render
parent_is_shorter [] y h = omega (arith, size_of_root, size-under_one y h.1.0)
parent_is_shorter (z ∷ ys) y h = omega (
  arith,
  ap size (drawn_backwards z ys),
  ap size (under-append (z ∷ ys) (y ∷ [])),
  size-append (under (z ∷ ys)) (under (y ∷ [])),
  size-under_one y h.1.0,
)

entries : (xs : List String) → All IsPlain xs → All NoSlash xs → All IsEntry xs
entries [] h k = tt
entries (x ∷ xs) h k = ((k.0, h.0), entries xs h.1 k.1)

module _ (c : String) (cs : List String) (h : All IsEntry (c ∷ cs)) where
  -- What lies below the directory, by its components.
  under-IsInside :
      (ts : List String) → All IsEntry ts → IsInside (under (c ∷ cs)) (under ((c ∷ cs) ++ ts))
  under-IsInside [] k = inl (ap under (append-nil (c ∷ cs)))
  under-IsInside (t ∷ ts) k = inr (
    t <> under ts,
    under-append (c ∷ cs) (t ∷ ts)
        ∙ ap (λ x. under (c ∷ cs) <> x) (under-cons t ts)
        ∙ sym (append_assoc (under (c ∷ cs)) "/" (t <> under ts)),
    subst (All IsPlain)
        (sym (split-under_from t ts k.0.0 (All-map IsEntry NoSlash ts (λ a e. e.0) k.1)))
        (All-map IsEntry IsPlain (t ∷ ts) (λ a e. e.1) k),
  )

  inside_components :
      (p : String)
      → IsInside (under (c ∷ cs)) p
      → (ts : List String) × All IsEntry ts × (p ≡ under ((c ∷ cs) ++ ts))
  inside_components p (inl e) = ([], tt, e ∙ sym (ap under (append-nil (c ∷ cs))))
  inside_components p (inr (t, e, plain)) = (
    split t,
    entries (split t) plain (split-NoSlash t),
    e
        ∙ append_assoc (under (c ∷ cs)) "/" t
        ∙ ap (λ x. under (c ∷ cs) <> x) (slash-append t ∙ sym (under-split t))
        ∙ sym (under-append (c ∷ cs) (split t)),
  )

  -- The parent directory of a path inside the directory, if its name begins with the directory's, is
  -- inside as well: it is not the directory's own parent, whose name is shorter.
  parent-IsInside :
      (ts ys : List String) (y p : String)
      → All IsEntry ts
      → (c ∷ cs) ++ ts ≡ ys ++ y ∷ []
      → p ≡ render true (reverse ys)
      → has_prefix p (under (c ∷ cs)) ≡ true
      → IsInside (under (c ∷ cs)) p
  parent-IsInside ts ys y p k shape made prefix = go (snoc_cases ts)
    where
      own : ts ≡ [] → c ∷ cs ≡ ys ++ y ∷ []
      own e = sym (append-nil (c ∷ cs)) ∙ sym (ap (λ xs. (c ∷ cs) ++ xs) e) ∙ shape

      too_short : ts ≡ [] → ⊥
      too_short e = omega (
        arith,
        size_of_prefix p (under (c ∷ cs)) prefix,
        ap size made,
        ap (λ xs. size (under xs)) (own e),
        parent_is_shorter ys y (All-middle IsEntry ys y [] (subst (All IsEntry) (own e) h)),
      )

      go :
          (ts ≡ []) ⊎ ((us : List String) × (u : String) × (ts ≡ us ++ u ∷ []))
          → IsInside (under (c ∷ cs)) p
      go (inl e) = absurd (too_short e)
      go (inr (us, u, e)) =
          let same =
            snoc-injective ((c ∷ cs) ++ us) ys u y (
              list_append_assoc (c ∷ cs) us (u ∷ []) ∙ sym (ap (λ xs. (c ∷ cs) ++ xs) e) ∙ shape) in
          let rest =
            subst (All IsEntry) (append-nil us)
              (All-remove IsEntry us u [] (subst (All IsEntry) e k)) in
          subst (IsInside (under (c ∷ cs)))
            (sym (
              made ∙ sym (ap (λ xs. render true (reverse xs)) same) ∙ drawn_backwards c (cs ++ us)))
            (under-IsInside us rest)

-- A stored file lies inside the workload's directory.
pub dest-IsInside :
    (c : String) (cs : List String) (h : All IsEntry (c ∷ cs)) (dir name : String)
    → IsInside (under (c ∷ cs)) dir
    → has_prefix (join dir (base name)) (under (c ∷ cs)) ≡ true
    → IsInside (under (c ∷ cs)) (join dir (base name))
dest-IsInside c cs h dir name inside prefix =
    let (ts, k, path) = inside_components c cs h dir inside in
    go ts k path (
      subst (λ d. JoinedTo ((c ∷ cs) ++ ts) (join d (base name))) (sym path)
        (base-JoinedTo c (cs ++ ts) (h.0, All-append IsEntry cs ts h.1 k) name))
  where
    go :
        (ts : List String)
        → All IsEntry ts
        → dir ≡ under ((c ∷ cs) ++ ts)
        → JoinedTo ((c ∷ cs) ++ ts) (join dir (base name))
        → IsInside (under (c ∷ cs)) (join dir (base name))
    go ts k path (inl same) =
        subst (IsInside (under (c ∷ cs))) (sym same) (under-IsInside c cs h ts k)
    go ts k path (inr (inl (y, entry, longer))) =
        subst (IsInside (under (c ∷ cs)))
          (sym (longer ∙ ap under (list_append_assoc (c ∷ cs) ts (y ∷ []))))
          (under-IsInside c cs h (ts ++ y ∷ []) (All-append IsEntry ts (y ∷ []) k (entry, tt)))
    go ts k path (inr (inr (ys, y, shape, parent))) =
        parent-IsInside c cs h ts ys y (join dir (base name)) k shape parent prefix
