-- ===== src/Common/Strings/Laws.antt =====
-- Go's `strings`: what a prefix test and a test for blanks say.
use Prim.Native.String.{String, ◌++◌ as ◌<>◌}
use Prim.Native.Char.{Char}
use text.Mathlib.TextLemmas.{nil-append, cons-append}
use text.Mathlib.TextEquality.{Char-path}
use mathlib.Core.Path.{◌≡◌, refl}
use mathlib.Core.Bool.{true, false}
use native.Mathlib.Omega.{arith}
use gameserver_daemon.Common.Strings.{has_prefix, drop_prefix, trim_space}
use gameserver_daemon.Common.Tests.{◌==◌, string_dec}

-- A text with a prefix is the prefix and what stands behind it.
pub has_prefix-append : (s p : String) → has_prefix s p ≡ true → s ≡ p <> drop_prefix s p
unfolding has_prefix drop_prefix
has_prefix-append s String.[] h = rw nil-append
has_prefix-append String.[] (String.◌∷◌ d p) h = cc
has_prefix-append (String.◌∷◌ c s) (String.◌∷◌ d p) h =
    rw cons-append (cc (Char-path c d (ground arith), has_prefix-append s p (ground arith)))

-- A prefix of a text is one of a longer text.
pub has_prefix_longer : (s t p : String) → has_prefix s p ≡ true → has_prefix (s <> t) p ≡ true
unfolding has_prefix
has_prefix_longer s t String.[] h = refl
has_prefix_longer String.[] t (String.◌∷◌ d p) h = cc
has_prefix_longer (String.◌∷◌ c s) t (String.◌∷◌ d p) h =
    rw cons-append (ground (arith, has_prefix_longer s t p))

blank_nil : (trim_space "" == "") ≡ true
unfolding trim_space string_dec
blank_nil = refl

pub cons_is_text : (c : Char) (s : String) → ¬ String.◌∷◌ c s ≡ ""
cons_is_text c s = λ e. cc e

-- A text that is not blank is not empty.
pub not_blank : (s : String) → (trim_space s == "") ≡ false → (s == "") ≡ false
not_blank String.[] h = absurd (ground (arith, blank_nil))
not_blank (String.◌∷◌ c s) h = ground (arith, cons_is_text c s)
