-- ===== src/Common/Paths/Dot.antt =====
-- Go's `path/filepath`: joining `.` to a cleaned path.
use Prim.Native.String.{String, ◌++◌ as ◌<>◌}
use mathlib.Core.Path.{◌≡◌, refl, sym, ap, ◌∙◌}
use mathlib.Core.Logic.{◌≢◌, inl, inr}
use mathlib.Core.Bool.{true}
use gameserver_daemon.Common.Strings.{drop_prefix}
use mathlib.Core.List.{
  List, [], ◌∷◌, ◌++◌, reverse, reverse-cons, reverse-reverse, append-nil,
  append_assoc as list_append_assoc,
}
use native.Mathlib.Omega.{arith}
use gameserver_daemon.Common.Tests.{string_dec}
use gameserver_daemon.Common.Lists.{All, All-map}
use gameserver_daemon.Common.Paths.{split, push, resolve, under, render, join}
use gameserver_daemon.Common.Paths.Laws.{
  NoSlash, IsPlain, IsEntry, IsRooted, split-append, split-under, rooted-abs, join_of_abs,
  snoc-ne-nil,
}

push-IsPlain : (stack : List String) (c : String) → IsPlain c → push true stack c ≡ c ∷ stack
unfolding push
push-IsPlain stack c (a, b, d) = ground arith

pub resolve-append :
    (stack xs ys : List String)
    → resolve true stack (xs ++ ys) ≡ resolve true (resolve true stack xs) ys
unfolding resolve
resolve-append stack [] ys = refl
resolve-append stack (x ∷ xs) ys = resolve-append (push true stack x) xs ys

pub resolve-IsPlain :
    (stack cs : List String) → All IsPlain cs → resolve true stack cs ≡ reverse cs ++ stack
unfolding resolve
resolve-IsPlain stack [] h = refl
resolve-IsPlain stack (c ∷ cs) h =
    ap (λ st. resolve true st cs) (push-IsPlain stack c h.0)
    ∙ resolve-IsPlain (c ∷ stack) cs h.1
    ∙ sym
        (ap (λ xs. xs ++ stack) (reverse-cons c cs) ∙ list_append_assoc (reverse cs) (c ∷ []) stack)

render_not_empty : (xs : List String) → xs ≢ [] → render true xs ≡ under (reverse xs)
unfolding render
render_not_empty [] h = absurd (h refl)
render_not_empty (x ∷ xs) h = refl

pub drawn_backwards :
    (c : String) (cs : List String) → render true (reverse (c ∷ cs)) ≡ under (c ∷ cs)
drawn_backwards c cs =
    render_not_empty (reverse (c ∷ cs))
      (λ e. snoc-ne-nil (reverse cs) c (sym (reverse-cons c cs) ∙ e))
    ∙ ap under (reverse-reverse (c ∷ cs))

slash_dot : join "/" "." ≡ "/"
unfolding join string_dec drop_prefix
slash_dot = refl

-- A rooted path is its own join with `.`.
pub join-dot : (root : String) → IsRooted root → join root "." ≡ root
unfolding string_dec split resolve
join-dot root (inl e) = ap (λ r. join r ".") e ∙ slash_dot ∙ sym e
join-dot root (inr (c, cs, e, h, hs)) =
    joined ∙ ap (render true) (ap (resolve true []) entries ∙ resolved) ∙ drawn ∙ sym e
  where
    entries : split (root <> "/.") ≡ ("" ∷ c ∷ cs) ++ "." ∷ []
    entries =
        split-append root "."
        ∙ ap (λ xs. xs ++ "." ∷ [])
            (ap split e ∙ split-under c cs h.0 (All-map IsEntry NoSlash cs (λ a k. k.0) hs))

    resolved : resolve true [] (("" ∷ c ∷ cs) ++ "." ∷ []) ≡ reverse (c ∷ cs)
    resolved =
        resolve-append [] ("" ∷ c ∷ cs) ("." ∷ [])
        ∙ resolve-IsPlain [] (c ∷ cs) (h.1, All-map IsEntry IsPlain cs (λ a k. k.1) hs)
        ∙ append-nil (reverse (c ∷ cs))

    joined : join root "." ≡ render true (resolve true [] (split (root <> "/.")))
    joined = join_of_abs root "." (rooted-abs root (inr (c, cs, e, h, hs)))

    drawn : render true (reverse (c ∷ cs)) ≡ under (c ∷ cs)
    drawn = drawn_backwards c cs
