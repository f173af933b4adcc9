-- ===== src/Common/Paths/Laws.antt =====
-- Go's `path/filepath`: the components of a cleaned, rooted path.
use Prim.Native.Char.{Char, code}
use Prim.Native.String.{String, ◌++◌ as ◌<>◌}
use text.Mathlib.TextLemmas.{nil-append, cons-append, append-nil}
use mathlib.Core.Path.{◌≡◌, refl, sym, ap, ◌∙◌, subst}
use mathlib.Core.Logic.{◌≢◌, ◌⊎◌, inl, inr}
use mathlib.Core.Bool.{true, false}
use mathlib.Core.List.{List, [], ◌∷◌, ◌++◌, reverse, reverse-cons}
use native.Mathlib.Omega.{arith}
use gameserver_daemon.Common.Tests.{eqb, Bool-cases}
use gameserver_daemon.Common.Lists.{All, All-reverse}
use gameserver_daemon.Common.Strings.{has_prefix}
use gameserver_daemon.Common.Strings.Laws.{has_prefix_longer}
use gameserver_daemon.Common.Paths.{
  push_char, split, push, resolve, under, render, is_abs, clean, join,
}

-- A text without a slash is its own only component.
abbrev pub NoSlash : String → Type 0
NoSlash c = split c ≡ c ∷ []

-- A component that names an entry of a directory.
abbrev pub IsPlain : String → Type 0
IsPlain c = (c ≢ "") × (c ≢ ".") × (c ≢ "..")

abbrev pub IsEntry : String → Type 0
IsEntry c = NoSlash c × IsPlain c

push_char-NoSlash :
    (c : Char) (xs : List String)
    → eqb (code c) b'/' ≡ false
    → All NoSlash xs
    → All NoSlash (push_char c xs)
unfolding split
push_char-NoSlash c [] other h = (rw other, tt)
push_char-NoSlash c (x ∷ xs) other h = (rw (other, h.0), h.1)

-- The components of a text have no slash.
pub split-NoSlash : (s : String) → All NoSlash (split s)
unfolding split
split-NoSlash String.[] = (refl, tt)
split-NoSlash (String.◌∷◌ c s) = elim (Bool-cases (eqb (code c) b'/')) [
  | inl slash ↦ rw slash (refl, split-NoSlash s)
  | inr other ↦ rw other (push_char-NoSlash c (split s) other (split-NoSlash s))
]

push_char-ne-nil : (c : Char) (xs : List String) → push_char c xs ≢ []
push_char-ne-nil c [] e = cc
push_char-ne-nil c (x ∷ xs) e = cc

pub split-ne-nil : (s : String) → split s ≢ []
unfolding split
split-ne-nil String.[] e = cc
split-ne-nil (String.◌∷◌ c s) e = ground (arith, push_char-ne-nil c (split s))

push_char-append :
    (c : Char) (xs ys : List String) → xs ≢ [] → push_char c (xs ++ ys) ≡ push_char c xs ++ ys
push_char-append c [] ys h = absurd (h refl)
push_char-append c (x ∷ xs) ys h = refl

-- A slash between two texts separates their components.
pub split-append : (a t : String) → split (a <> String.◌∷◌ "/" t) ≡ split a ++ split t
unfolding split
split-append String.[] t = rw nil-append
split-append (String.◌∷◌ c a) t =
    rw cons-append
      (ground (arith, split-append a t, push_char-append c (split a) (split t) (split-ne-nil a)))

pub split-under_from :
    (c : String) (cs : List String) → NoSlash c → All NoSlash cs → split (c <> under cs) ≡ c ∷ cs
unfolding under
split-under_from c [] h hs = rw append-nil h
split-under_from c (d ∷ cs) h hs =
    split-append c (d <> under cs) ∙ rw (h, split-under_from d cs hs.0 hs.1)

pub split-under :
    (c : String) (cs : List String)
    → NoSlash c
    → All NoSlash cs
    → split (under (c ∷ cs)) ≡ "" ∷ c ∷ cs
unfolding split under
split-under c cs h hs = ap (λ xs. "" ∷ xs) (split-under_from c cs h hs)

push-IsEntry :
    (stack : List String) (c : String)
    → All IsEntry stack
    → NoSlash c
    → All IsEntry (push true stack c)
unfolding push
push-IsEntry [] c h n = ground arith
push-IsEntry (x ∷ stack) c h n = ground arith

resolve-IsEntry :
    (stack cs : List String)
    → All IsEntry stack
    → All NoSlash cs
    → All IsEntry (resolve true stack cs)
unfolding resolve
resolve-IsEntry stack [] h hs = h
resolve-IsEntry stack (c ∷ cs) h hs =
    resolve-IsEntry (push true stack c) cs (push-IsEntry stack c h hs.0) hs.1

pub snoc-ne-nil : (xs : List String) (x : String) → xs ++ x ∷ [] ≢ []
snoc-ne-nil [] x e = cc
snoc-ne-nil (y ∷ xs) x e = cc

-- The root, or a path of entries below it.
abbrev pub IsRooted : String → Type 0
IsRooted p =
    (p ≡ "/")
    ⊎ ((c : String) × (cs : List String) × (p ≡ under (c ∷ cs)) × IsEntry c × All IsEntry cs)

render-IsRooted : (stack : List String) → All IsEntry stack → IsRooted (render true stack)
unfolding render
render-IsRooted [] h = inl refl
render-IsRooted (x ∷ stack) h =
    entries (reverse (x ∷ stack)) refl (All-reverse IsEntry (x ∷ stack) h)
  where
    entries :
        (ys : List String)
        → reverse (x ∷ stack) ≡ ys
        → All IsEntry ys
        → IsRooted (under (reverse (x ∷ stack)))
    entries [] e hs = absurd (snoc-ne-nil (reverse stack) x (sym (reverse-cons x stack) ∙ e))
    entries (c ∷ cs) e hs = inr (c, cs, ap under e, hs.0, hs.1)

not_empty_of_abs : (path : String) → is_abs path ≡ true → path ≢ ""
unfolding is_abs
not_empty_of_abs path rooted e = cc (sym rooted ∙ ap is_abs e)

-- A cleaned rooted path is the root or a path of entries: no empty component, no `.` and no `..` is
-- left.
pub clean-IsRooted : (path : String) → is_abs path ≡ true → IsRooted (clean path)
unfolding clean
clean-IsRooted path rooted =
    subst IsRooted (sym computed)
      (render-IsRooted _ (resolve-IsEntry [] (split path) tt (split-NoSlash path)))
  where
    computed : clean path ≡ render true (resolve true [] (split path))
    computed = ground (arith, not_empty_of_abs path rooted)

longer_abs : (a b : String) → is_abs a ≡ true → is_abs (a <> ("/" <> b)) ≡ true
unfolding is_abs
longer_abs a b rooted = has_prefix_longer a ("/" <> b) "/" rooted

join_cleaned : (a b : String) → is_abs a ≡ true → join a b ≡ clean (a <> ("/" <> b))
unfolding join
join_cleaned a b rooted = ground (arith, not_empty_of_abs a rooted)

clean_of_abs : (p : String) → is_abs p ≡ true → clean p ≡ render true (resolve true [] (split p))
unfolding clean
clean_of_abs p rooted = ground (arith, not_empty_of_abs p rooted)

pub join_of_abs :
    (a b : String)
    → is_abs a ≡ true
    → join a b ≡ render true (resolve true [] (split (a <> ("/" <> b))))
join_of_abs a b rooted = join_cleaned a b rooted ∙ clean_of_abs _ (longer_abs a b rooted)

pub join-IsRooted : (a b : String) → is_abs a ≡ true → IsRooted (join a b)
join-IsRooted a b rooted =
    subst IsRooted (sym (join_cleaned a b rooted))
      (clean-IsRooted (a <> ("/" <> b)) (longer_abs a b rooted))

-- The components of a rooted path begin with an empty one.
pub split_of_abs :
    (p : String) → is_abs p ≡ true → (rs : List String) × (split p ≡ "" ∷ rs) × (rs ≢ [])
unfolding split is_abs has_prefix
split_of_abs String.[] h = cc
split_of_abs (String.◌∷◌ c s) h = (split s, ground arith, split-ne-nil s)

pub rooted-abs : (p : String) → IsRooted p → is_abs p ≡ true
unfolding is_abs has_prefix under
rooted-abs p (inl e) = rw e
rooted-abs p (inr (c, cs, e, h, hs)) = rw e
