-- ===== src/Common/Paths.antt =====
-- What the program uses of Go's `path/filepath` on Unix: `Clean`, `Join`, `IsAbs` and `Base`, by
-- their documented rules over the components of a path.
pub mod Below
pub mod Component
pub mod Dot
pub mod Laws
use Prim.Native.Char.{Char, code}
use Prim.Native.String.{String, ◌++◌ as ◌<>◌}
use mathlib.Core.Path.{◌≡◌, refl}
use mathlib.Core.Bool.{Bool, true, false, ◌||◌}
use mathlib.Core.List.{List, [], ◌∷◌, reverse}
use gameserver_daemon.Common.Tests.{eqb, ◌==◌, if◌then◌else◌, string_dec}
use gameserver_daemon.Common.Strings.{has_prefix, drop_prefix, trim_right}

abbrev pub push_char : Char → List String → List String
push_char c [] = String.◌∷◌ c String.[] ∷ []
push_char c (x ∷ xs) = String.◌∷◌ c x ∷ xs

-- The components between the slashes, `strings.Split(s, "/")`.
unfoldable pub split : String → List String
split String.[] = "" ∷ []
split (String.◌∷◌ c s) =
    let rest = split s in if eqb (code c) b'/' then "" ∷ rest else push_char c rest

-- A rooted path drops a `..` at its root; a relative one keeps it.
abbrev pub pop : Bool → List String → List String
pop rooted [] = if rooted then [] else ".." ∷ []
pop rooted (x ∷ stack) = if x == ".." then ".." ∷ x ∷ stack else stack

-- One component, onto the components so far, the last one first.
unfoldable pub push : Bool → List String → String → List String
push rooted stack c =
    if c == "" || c == "." then stack else if c == ".." then pop rooted stack else c ∷ stack

unfoldable pub resolve : Bool → List String → List String → List String
unfolding push
resolve rooted stack [] = stack
resolve rooted stack (c ∷ cs) = resolve rooted (push rooted stack c) cs

-- `/c1/c2/…`
unfoldable pub under : List String → String
under [] = ""
under (c ∷ cs) = String.◌∷◌ "/" (c <> under cs)

-- The last component first.
unfoldable pub render : Bool → List String → String
unfolding under
render true [] = "/"
render true (c ∷ cs) = under (reverse (c ∷ cs))
render false [] = "."
render false (c ∷ cs) = drop_prefix (under (reverse (c ∷ cs))) "/"

unfoldable pub is_abs : String → Bool
unfolding has_prefix
is_abs path = has_prefix path "/"

-- `filepath.Clean`
unfoldable pub clean : String → String
unfolding is_abs split resolve render
clean path =
    if path == "" then "." else render (is_abs path) (resolve (is_abs path) [] (split path))

-- `filepath.Join` of two elements. The empty ones in front are left out.
unfoldable pub join : String → String → String
unfolding clean
join a b = if a == "" then if b == "" then "" else clean b else clean (a <> ("/" <> b))

abbrev last_of : List String → String
last_of [] = ""
last_of (x ∷ []) = x
last_of (x ∷ y ∷ xs) = last_of (y ∷ xs)

abbrev base_of : String → String
base_of trimmed = if trimmed == "" then "/" else last_of (split trimmed)

-- `filepath.Base`
unfoldable pub base : String → String
unfolding split trim_right
base path = if path == "" then "." else base_of (trim_right path b'/')

clean_tests :
    (clean "/a//b/./c/../d" ≡ "/a/b/d")
    × (clean "/../../x" ≡ "/x")
    × (clean "../a/../.." ≡ "../..")
    × (clean "a/.." ≡ ".")
    × (clean "" ≡ ".")
    × (join "/srv/w" "../../etc/passwd" ≡ "/etc/passwd")
    × (join "" "a/b/" ≡ "a/b")
    × (base "/a/b.txt/" ≡ "b.txt")
    × (base "///" ≡ "/")
    × (base "../.." ≡ "..")
unfolding join string_dec drop_prefix base
clean_tests = (refl, refl, refl, refl, refl, refl, refl, refl, refl, refl)
