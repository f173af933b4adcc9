-- ===== src/Common/Paths/Below.antt =====
-- Go's `path/filepath`: joining entries to a cleaned, rooted path.
use Prim.Native.Char.{Char, code}
use Prim.Native.String.{String, ◌++◌ as ◌<>◌}
use text.Mathlib.TextLemmas.{append_assoc, cons-append, nil-append}
use text.Mathlib.TextEquality.{Char-path}
use mathlib.Core.Path.{◌≡◌, refl, sym, ap, ◌∙◌}
use mathlib.Core.Logic.{◌≢◌, inl, inr}
use mathlib.Core.Bool.{true}
use mathlib.Core.List.{List, [], ◌∷◌, ◌++◌, reverse, append-nil}
use native.Mathlib.Omega.{arith}
use gameserver_daemon.Common.Tests.{string_dec, eqb, Bool-cases}
use gameserver_daemon.Common.Lists.{All, All-map, All-append}
use gameserver_daemon.Common.Paths.{push_char, split, push, resolve, under, render, join}
use gameserver_daemon.Common.Paths.Laws.{
  NoSlash, IsPlain, IsEntry, split-append, split-under, split-ne-nil, rooted-abs, join_of_abs,
}
use gameserver_daemon.Common.Paths.Dot.{resolve-IsPlain, drawn_backwards}

pub under-append : (xs ys : List String) → under (xs ++ ys) ≡ under xs <> under ys
unfolding under
under-append [] ys = rw nil-append refl
under-append (x ∷ xs) ys =
    ap (λ t. String.◌∷◌ "/" (x <> t)) (under-append xs ys)
    ∙ ap (String.◌∷◌ "/") (sym (append_assoc x (under xs) (under ys)))
    ∙ sym (cons-append "/" (x <> under xs) (under ys))

under-push_char :
    (c : Char) (xs : List String) (t : String)
    → xs ≢ []
    → under xs ≡ String.◌∷◌ "/" t
    → under (push_char c xs) ≡ String.◌∷◌ "/" (String.◌∷◌ c t)
unfolding under
under-push_char c [] t h e = absurd (h refl)
under-push_char c (x ∷ xs) t h e = cc (cons-append c x (under xs))

-- Drawing the components of a text gives the text behind a slash.
pub under-split : (s : String) → under (split s) ≡ String.◌∷◌ "/" s
unfolding under split
under-split String.[] = refl
under-split (String.◌∷◌ c s) = elim (Bool-cases (eqb (code c) b'/')) [
  | inl slash ↦
      rw slash (cc (Char-path c "/" (ground arith), under-split s, nil-append (under (split s))))
  | inr other ↦ rw other (under-push_char c (split s) s (split-ne-nil s) (under-split s))
]

pub slash-append : (x : String) → "/" <> x ≡ String.◌∷◌ "/" x
slash-append x = cons-append "/" "" x ∙ ap (String.◌∷◌ "/") (nil-append x)

pub skip_empty : (zs : List String) → resolve true [] ("" ∷ zs) ≡ resolve true [] zs
unfolding resolve push string_dec
skip_empty zs = refl

pub split-slash : (a x : String) → split (a <> ("/" <> x)) ≡ split a ++ split x
split-slash a x = ap (λ t. split (a <> t)) (slash-append x) ∙ split-append a x

-- A path of entries, joined with a text whose components are entries, is the two with a slash between
-- them.
pub join-entries :
    (c : String) (cs : List String) (x : String)
    → All IsEntry (c ∷ cs)
    → All IsEntry (split x)
    → join (under (c ∷ cs)) x ≡ under (c ∷ cs) <> ("/" <> x)
join-entries c cs x h k =
    join_of_abs (under (c ∷ cs)) x (rooted-abs (under (c ∷ cs)) (inr (c, cs, refl, h.0, h.1)))
    ∙ ap (λ xs. render true (resolve true [] xs)) parts
    ∙ resolved
    ∙ under-append (c ∷ cs) (split x)
    ∙ ap (λ t. under (c ∷ cs) <> t) (under-split x ∙ sym (slash-append x))
  where
    plain : (xs : List String) → All IsEntry xs → All IsPlain xs
    plain xs = All-map IsEntry IsPlain xs (λ a e. e.1)

    parts : split (under (c ∷ cs) <> ("/" <> x)) ≡ "" ∷ (c ∷ cs) ++ split x
    parts =
        split-slash (under (c ∷ cs)) x
        ∙ ap (λ xs. xs ++ split x)
            (split-under c cs h.0.0 (All-map IsEntry NoSlash cs (λ a e. e.0) h.1))

    resolved :
        render true (resolve true [] ("" ∷ (c ∷ cs) ++ split x)) ≡ under ((c ∷ cs) ++ split x)
    resolved =
        ap (render true) (
          skip_empty ((c ∷ cs) ++ split x)
          ∙ resolve-IsPlain [] ((c ∷ cs) ++ split x)
              (All-append IsPlain (c ∷ cs) (split x) (plain (c ∷ cs) h) (plain (split x) k))
          ∙ append-nil (reverse ((c ∷ cs) ++ split x)))
        ∙ drawn_backwards c (cs ++ split x)

-- A rooted path of entries, at least one.
abbrev pub IsBelow : String → Type 0
IsBelow root =
    (c : String) × (cs : List String) × (root ≡ under (c ∷ cs)) × IsEntry c × All IsEntry cs

pub join-IsBelow :
    (root x : String)
    → IsBelow root
    → All IsEntry (split x)
    → (join root x ≡ root <> ("/" <> x)) × IsBelow (join root x)
join-IsBelow root x (c, cs, e, h, hs) k =
    (joined, (c, cs ++ split x, drawn, h, All-append IsEntry cs (split x) hs k))
  where
    joined : join root x ≡ root <> ("/" <> x)
    joined = rw e (join-entries c cs x (h, hs) k)

    drawn : join root x ≡ under (c ∷ cs ++ split x)
    drawn =
        joined
        ∙ rw e (ap (λ t. under (c ∷ cs) <> t) (slash-append x ∙ sym (under-split x)))
        ∙ sym (under-append (c ∷ cs) (split x))
