-- ===== src/FileApi/Scope/Confined.antt =====
-- internal/adapters/in/fileapi/server.go: an accepted path stays inside the workload's directory.
use gameserver_daemon.Common.{
  String, ◌<>◌, true, ◌≡◌, refl, sym, ap, ◌∙◌, subst, ◌⊎◌, ◌≢◌, inl, inr, All, All-map,
  All-append_right, List, [], ◌∷◌, ◌++◌, arith,
}
use text.Mathlib.TextLemmas.{append_assoc, cons-append, nil-append}
use gameserver_daemon.Common.Strings.{has_prefix, drop_prefix}
use gameserver_daemon.Common.Strings.Laws.{has_prefix-append, has_prefix_longer}
use gameserver_daemon.Common.Paths.{clean, join, is_abs, split}
use gameserver_daemon.Common.Paths.Laws.{
  IsPlain, IsEntry, NoSlash, IsRooted, split-append, split-under, split_of_abs, split-ne-nil,
  join-IsRooted,
}
use gameserver_daemon.Errors.{ok}
use gameserver_daemon.FileApi.Scope.{safe_path, make_relative}

-- The directory itself, or a path below it all of whose components are plain names.
abbrev pub IsInside : String → String → Type 0
IsInside root p = (p ≡ root) ⊎ ((t : String) × (p ≡ (root <> "/") <> t) × All IsPlain (split t))

accepted :
    (root rel p : String)
    → safe_path root rel ≡ ok p
    → (p ≡ root)
      ⊎ ((has_prefix p (root <> "/") ≡ true) × (p ≡ join root (make_relative (clean rel))))
unfolding safe_path
accepted root rel p h = ground arith

two_components : (xs ys : List String) (x : String) → xs ≢ [] → ys ≢ [] → xs ++ ys ≢ x ∷ []
two_components [] ys x h k e = h refl
two_components (y ∷ []) [] x h k e = k refl
two_components (y ∷ []) (z ∷ ys) x h k e = cc
two_components (y ∷ w ∷ xs) ys x h k e = cc

-- What stands behind the directory and a slash, in a rooted path that begins with them.
below_root :
    (root p t : String)
    → is_abs root ≡ true
    → IsRooted p
    → p ≡ (root <> "/") <> t
    → All IsPlain (split t)
unfolding split
below_root root p t abs rooted e = components (split_of_abs root abs) rooted
  where
    parts : split p ≡ split root ++ split t
    parts = ap split e ∙ rw (append_assoc, cons-append, nil-append) (split-append root t)

    tail_of : (rs xs : List String) → split root ≡ "" ∷ rs → split p ≡ "" ∷ xs → rs ++ split t ≡ xs
    tail_of rs xs shape whole = cc (sym whole ∙ parts ∙ ap (λ r. r ++ split t) shape)

    components :
        (rs : List String) × (split root ≡ "" ∷ rs) × (rs ≢ []) → IsRooted p → All IsPlain (split t)
    components (rs, shape, more) (inl slash) = absurd (
        two_components rs (split t) "" more (split-ne-nil t)
          (tail_of rs ("" ∷ []) shape (ap split slash)))
    components (rs, shape, more) (inr (c, cs, path, h, hs)) =
        All-append_right IsPlain rs (split t) (
          subst (All IsPlain)
            (sym (
              tail_of rs (c ∷ cs) shape (
                ap split path ∙ split-under c cs h.0 (All-map IsEntry NoSlash cs (λ a k. k.0) hs))))
            (h.1, All-map IsEntry IsPlain cs (λ a k. k.1) hs))

-- A path that is joined to a directory and has it, and a slash, in front.
pub joined-IsInside :
    (root x p : String)
    → is_abs root ≡ true
    → has_prefix p (root <> "/") ≡ true
    → p ≡ join root x
    → IsInside root p
joined-IsInside root x p abs prefix made =
    let split_off = has_prefix-append p (root <> "/") prefix in
    inr (
      drop_prefix p (root <> "/"),
      split_off,
      below_root root p _ abs (subst IsRooted (sym made) (join-IsRooted root x abs)) split_off,
    )

-- A path that `safePath` accepts is the workload's directory itself, or lies below it: behind the
-- directory and a slash it has only plain names, no `..`, whatever the request asks for. The
-- directory is an absolute path.
pub safe_path-IsInside :
    (root rel p : String) → is_abs root ≡ true → safe_path root rel ≡ ok p → IsInside root p
safe_path-IsInside root rel p abs h = inside (accepted root rel p h)
  where
    inside :
        (p ≡ root)
          ⊎ ((has_prefix p (root <> "/") ≡ true) × (p ≡ join root (make_relative (clean rel))))
        → IsInside root p
    inside (inl same) = inl same
    inside (inr (prefix, made)) = joined-IsInside root (make_relative (clean rel)) p abs prefix made

pub IsInside-abs : (root p : String) → is_abs root ≡ true → IsInside root p → is_abs p ≡ true
unfolding is_abs
IsInside-abs root p abs (inl e) = ap (λ r. has_prefix r "/") e ∙ abs
IsInside-abs root p abs (inr (t, e, plain)) =
    ap (λ r. has_prefix r "/") e
    ∙ has_prefix_longer (root <> "/") t "/" (has_prefix_longer root "/" "/" abs)
