-- ===== src/Common/Paths/Component.antt =====
-- Go's `path/filepath`: joining the last component of a path to a cleaned, rooted path.
use Prim.Native.String.{String, ◌++◌ as ◌<>◌}
use mathlib.Core.Path.{◌≡◌, refl, sym, ap, subst, ◌∙◌}
use mathlib.Core.Logic.{◌⊎◌, inl, inr}
use mathlib.Core.Bool.{Bool, true, false}
use mathlib.Core.List.{List, [], ◌∷◌, ◌++◌, reverse, reverse-append, append-nil}
use native.Mathlib.Omega.{arith}
use gameserver_daemon.Common.Tests.{string_dec, ◌==◌, if◌then◌else◌}
use gameserver_daemon.Common.Lists.{All, All-map, All-middle}
use gameserver_daemon.Common.Strings.{trim_right}
use gameserver_daemon.Common.Paths.{
  split, pop, push, resolve, under, render, join, last_of, base_of, base,
}
use gameserver_daemon.Common.Paths.Laws.{
  NoSlash, IsPlain, IsEntry, split-NoSlash, split-under, rooted-abs, join_of_abs,
}
use gameserver_daemon.Common.Paths.Dot.{resolve-append, resolve-IsPlain, drawn_backwards}
use gameserver_daemon.Common.Paths.Below.{split-slash, skip_empty}

last_of-NoSlash : (xs : List String) → All NoSlash xs → NoSlash (last_of xs)
unfolding split
last_of-NoSlash [] h = refl
last_of-NoSlash (x ∷ []) h = h.0
last_of-NoSlash (x ∷ y ∷ xs) h = last_of-NoSlash (y ∷ xs) h.1

base_of-NoSlash : (t : String) → NoSlash (base_of t) ⊎ (base_of t ≡ "/")
base_of-NoSlash t = elim (string_dec t "") [
  | yes e ↦ inr (ground arith)
  | no n ↦ inl (ground (arith, last_of-NoSlash (split t) (split-NoSlash t)))
]

either : (b : Bool) (x y : String) → ((if b then x else y) ≡ x) ⊎ ((if b then x else y) ≡ y)
either true x y = inl refl
either false x y = inr refl

-- The base of a path has no slash, or is the root.
pub base-NoSlash : (path : String) → NoSlash (base path) ⊎ (base path ≡ "/")
unfolding base
base-NoSlash path = go (either (path == "") "." (base_of (trim_right path 47)))
  where
    go :
        (base path ≡ ".") ⊎ (base path ≡ base_of (trim_right path 47))
        → NoSlash (base path) ⊎ (base path ≡ "/")
    go (inl e) = inl (subst NoSlash (sym e) refl)
    go (inr e) = subst (λ b. NoSlash b ⊎ (b ≡ "/")) (sym e) (base_of-NoSlash (trim_right path 47))

-- One more component on a path of entries.
module _ (e : String) (es : List String) (h : All IsEntry (e ∷ es)) where
  plain : All IsPlain (e ∷ es)
  plain = All-map IsEntry IsPlain (e ∷ es) (λ a k. k.1) h

  joined_parts :
      (b : String)
      → join (under (e ∷ es)) b ≡ render true (resolve true (reverse (e ∷ es)) (split b))
  joined_parts b =
      join_of_abs (under (e ∷ es)) b (rooted-abs (under (e ∷ es)) (inr (e, es, refl, h.0, h.1)))
      ∙ ap (λ xs. render true (resolve true [] xs)) parts
      ∙ ap (render true) (
          skip_empty ((e ∷ es) ++ split b)
          ∙ resolve-append [] (e ∷ es) (split b)
          ∙ ap (λ st. resolve true st (split b))
              (resolve-IsPlain [] (e ∷ es) plain ∙ append-nil (reverse (e ∷ es))))
    where
      parts : split (under (e ∷ es) <> ("/" <> b)) ≡ "" ∷ (e ∷ es) ++ split b
      parts =
          split-slash (under (e ∷ es)) b
          ∙ ap (λ xs. xs ++ split b)
              (split-under e es h.0.0 (All-map IsEntry NoSlash es (λ a k. k.0) h.1))

  join_root : join (under (e ∷ es)) "/" ≡ under (e ∷ es)
  unfolding split resolve push string_dec
  join_root = joined_parts "/" ∙ drawn_backwards e es

  join_component :
      (b : String)
      → NoSlash b
      → join (under (e ∷ es)) b ≡ render true (push true (reverse (e ∷ es)) b)
  unfolding resolve
  join_component b flat =
      joined_parts b ∙ ap (λ xs. render true (resolve true (reverse (e ∷ es)) xs)) flat

-- What becomes of a path of entries when a component without a slash is joined to it: it stays, has one
-- entry more, or loses its last one.
abbrev pub JoinedTo : List String → String → Type 0
JoinedTo xs p =
    (p ≡ under xs)
    ⊎ (((y : String) × IsEntry y × (p ≡ under (xs ++ y ∷ [])))
        ⊎ ((ys : List String) × (y : String) × (xs ≡ ys ++ y ∷ [])
            × (p ≡ render true (reverse ys))))

pub snoc_cases :
    (xs : List String) → (xs ≡ []) ⊎ ((ys : List String) × (y : String) × (xs ≡ ys ++ y ∷ []))
snoc_cases [] = inl refl
snoc_cases (x ∷ xs) = elim (snoc_cases xs) [
  | inl e ↦ inr ([], x, ap (λ zs. x ∷ zs) e)
  | inr (ys, y, e) ↦ inr (x ∷ ys, y, ap (λ zs. x ∷ zs) e)
]

push_cases :
    (stack : List String) (b : String)
    → (push true stack b ≡ stack)
      ⊎ ((IsPlain b × (push true stack b ≡ b ∷ stack)) ⊎ (push true stack b ≡ pop true stack))
unfolding push
push_cases stack b = ground arith

pop-entry : (stack : List String) (y : String) → IsEntry y → pop true (y ∷ stack) ≡ stack
pop-entry stack y h = ground arith

module _ (e : String) (es : List String) (h : All IsEntry (e ∷ es)) where
  popped :
      (ys : List String) (y : String)
      → e ∷ es ≡ ys ++ y ∷ []
      → render true (pop true (reverse (e ∷ es))) ≡ render true (reverse ys)
  popped ys y shape = ap (render true) (
      ap (λ xs. pop true (reverse xs)) shape
      ∙ ap (pop true) (reverse-append ys (y ∷ []))
      ∙ pop-entry (reverse ys) y (All-middle IsEntry ys y [] (subst (All IsEntry) shape h)))

  extended : (y : String) → render true (y ∷ reverse (e ∷ es)) ≡ under ((e ∷ es) ++ y ∷ [])
  extended y =
      ap (render true) (sym (reverse-append (e ∷ es) (y ∷ []))) ∙ drawn_backwards e (es ++ y ∷ [])

  component-JoinedTo : (b : String) → NoSlash b → JoinedTo (e ∷ es) (join (under (e ∷ es)) b)
  component-JoinedTo b flat = go (push_cases (reverse (e ∷ es)) b)
    where
      joined :
          (st : List String)
          → push true (reverse (e ∷ es)) b ≡ st
          → join (under (e ∷ es)) b ≡ render true st
      joined st k = join_component e es h b flat ∙ ap (render true) k

      go :
          (push true (reverse (e ∷ es)) b ≡ reverse (e ∷ es))
            ⊎ ((IsPlain b × (push true (reverse (e ∷ es)) b ≡ b ∷ reverse (e ∷ es)))
                ⊎ (push true (reverse (e ∷ es)) b ≡ pop true (reverse (e ∷ es))))
          → JoinedTo (e ∷ es) (join (under (e ∷ es)) b)
      go (inl k) = inl (joined _ k ∙ drawn_backwards e es)
      go (inr (inl (ok, k))) = inr (inl (b, (flat, ok), joined _ k ∙ extended b))
      go (inr (inr k)) = elim (snoc_cases (e ∷ es)) [
        | inl none_there ↦ absurd (cc none_there)
        | inr (ys, y, shape) ↦ inr (inr (ys, y, shape, joined _ k ∙ popped ys y shape))
      ]

  -- Joining the base of any path.
  pub base-JoinedTo : (path : String) → JoinedTo (e ∷ es) (join (under (e ∷ es)) (base path))
  base-JoinedTo path = go (base-NoSlash path)
    where
      go :
          NoSlash (base path) ⊎ (base path ≡ "/")
          → JoinedTo (e ∷ es) (join (under (e ∷ es)) (base path))
      go (inl flat) = component-JoinedTo (base path) flat
      go (inr root) = inl (ap (join (under (e ∷ es))) root ∙ join_root e es h)
