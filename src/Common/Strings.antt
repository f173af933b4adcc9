-- ===== src/Common/Strings.antt =====
-- What the program uses of Go's `strings` package, by recursion on the text.
pub mod Laws
use Prim.Native.Nat.{ℕ, zero, suc, ◌-◌}
use Prim.Native.Char.{Char, code, nul}
use Prim.Native.String.{String, [], ◌∷◌}
use mathlib.Core.Path.{◌≡◌, refl}
use mathlib.Core.Bool.{Bool, true, false, ◌&&◌, ◌||◌}
use gameserver_daemon.Common.Tests.{leb, eqb, if◌then◌else◌}

abbrev pub nth_char : ℕ → String → Char
nth_char i [] = nul
nth_char zero (c ∷ s) = c
nth_char (suc i) (c ∷ s) = nth_char i s

abbrev lower_char : Char → Char
lower_char c =
    if leb b'A' (code c) && leb (code c) b'Z'
    then nth_char (code c - b'A') "abcdefghijklmnopqrstuvwxyz"
    else c

abbrev upper_char : Char → Char
upper_char c =
    if leb b'a' (code c) && leb (code c) b'z'
    then nth_char (code c - b'a') "ABCDEFGHIJKLMNOPQRSTUVWXYZ"
    else c

-- `strings.ToLower` and `strings.ToUpper` on ASCII.
unfoldable pub to_lower : String → String
to_lower [] = []
to_lower (c ∷ s) = lower_char c ∷ to_lower s

unfoldable pub to_upper : String → String
to_upper [] = []
to_upper (c ∷ s) = upper_char c ∷ to_upper s

-- `strings.HasPrefix(s, p)`
unfoldable pub has_prefix : String → String → Bool
has_prefix s [] = true
has_prefix [] (d ∷ p) = false
has_prefix (c ∷ s) (d ∷ p) = eqb (code c) (code d) && has_prefix s p

-- What stands behind the prefix `p`, if `s` has it.
unfoldable pub drop_prefix : String → String → String
drop_prefix s [] = s
drop_prefix [] (d ∷ p) = []
drop_prefix (c ∷ s) (d ∷ p) = drop_prefix s p

-- `strings.TrimPrefix(s, p)`
unfoldable pub trim_prefix : String → String → String
unfolding has_prefix drop_prefix
trim_prefix s p = if has_prefix s p then drop_prefix s p else s

reverse_onto : String → String → String
reverse_onto [] acc = acc
reverse_onto (c ∷ s) acc = reverse_onto s (c ∷ acc)

unfoldable pub reverse_text : String → String
unfolding reverse_onto
reverse_text s = reverse_onto s []

-- `strings.TrimSuffix(s, p)`
unfoldable pub trim_suffix : String → String → String
unfolding trim_prefix reverse_text
trim_suffix s p = reverse_text (trim_prefix (reverse_text s) (reverse_text p))

-- Drops the leading characters that pass the test.
unfoldable pub drop_while : (ℕ → Bool) → String → String
drop_while test [] = []
drop_while test (c ∷ s) = let rest = drop_while test s in if test (code c) then rest else c ∷ s

-- `strings.TrimRight(s, cutset)` for a cutset of one character.
unfoldable pub trim_right : String → ℕ → String
unfolding reverse_text drop_while
trim_right s c = reverse_text (drop_while (eqb c) (reverse_text s))

-- ASCII white space, as `strings.TrimSpace` has it.
abbrev is_space : ℕ → Bool
is_space c = eqb c 32 || (leb 9 c && leb c 13)

-- `strings.TrimSpace`
unfoldable pub trim_space : String → String
unfolding reverse_text drop_while
trim_space s = reverse_text (drop_while is_space (reverse_text (drop_while is_space s)))

-- `strings.ReplaceAll(s, "-", "")`, for any one character.
unfoldable pub remove_char : ℕ → String → String
remove_char x [] = []
remove_char x (c ∷ s) = let rest = remove_char x s in if eqb (code c) x then rest else c ∷ rest

-- `s[:n]`, where the text has that many characters.
unfoldable pub take_text : ℕ → String → String
take_text zero s = []
take_text (suc n) [] = []
take_text (suc n) (c ∷ s) = c ∷ take_text n s

-- `len(s)`
unfoldable pub size : String → ℕ
size [] = 0
size (c ∷ s) = suc (size s)

-- `strings.Contains(s, p)`
unfoldable pub contains : String → String → Bool
unfolding has_prefix
contains [] p = has_prefix [] p
contains (c ∷ s) p = has_prefix (c ∷ s) p || contains s p

strings_tests :
    (to_lower "Running-7" ≡ "running-7")
    × (to_upper "tcp" ≡ "TCP")
    × (trim_prefix "Bearer abc" "Bearer " ≡ "abc")
    × (trim_suffix "http://h/api/v1" "/api/v1" ≡ "http://h")
    × (trim_right "http://h//" b'/' ≡ "http://h")
    × (trim_space " a b " ≡ "a b")
    × (remove_char b'-' "a-b-c" ≡ "abc")
    × (contains "address already exists" "already" ≡ true)
unfolding to_lower to_upper trim_prefix trim_suffix trim_right trim_space remove_char contains
strings_tests = (refl, refl, refl, refl, refl, refl, refl, refl)
