-- ===== src/Common/Numerals.antt =====
-- What the program prints of numbers, and Go's conversion to a 32-bit integer.
use Prim.Native.Nat.{ℕ, zero, suc, ◌-◌, ◌/◌, ◌%◌, ◌^◌, ◌<◌}
use Prim.Native.String.{String, [], ◌∷◌, ◌++◌}
use mathlib.Core.Path.{◌≡◌, refl}
use mathlib.Core.Bool.{true, false}
use native.Mathlib.Omega.{arith}
use gameserver_daemon.Common.Tests.{ltb, if◌then◌else◌}
use gameserver_daemon.Common.Int.{ℤ, pos, negsuc}
use gameserver_daemon.Common.Strings.{nth_char}

-- At most `fuel` digits, the last ones.
digits_in : ℕ → ℕ → String
digits_in zero n = []
digits_in (suc fuel) n = elim (ltb n 10) [
  | true ↦ nth_char n "0123456789" ∷ []
  | false ↦ digits_in fuel (n / 10) ++ (nth_char (n % 10) "0123456789" ∷ [])
]

-- `%d` on a number that is not negative. It has at most `n + 1` digits.
unfoldable pub decimal : ℕ → String
unfolding digits_in
decimal n = digits_in (suc n) n

-- `%d`
unfoldable pub int_text : ℤ → String
unfolding decimal
int_text (pos n) = decimal n
int_text (negsuc n) = "-" ++ decimal (suc n)

-- A number of 32 bits, read as a signed one.
abbrev signed_32 : ℕ → ℤ
signed_32 m = if ltb m (2 ^ 31) then pos m else negsuc (2 ^ 32 - 1 - m)

-- `int32(n)`, which keeps the last 32 bits.
unfoldable pub to_int32 : ℤ → ℤ
to_int32 (pos n) = signed_32 (n % 2 ^ 32)
to_int32 (negsuc n) = signed_32 (2 ^ 32 - 1 - n % 2 ^ 32)

-- A number that 32 bits can hold.
abbrev pub FitsInt32 : ℤ → Type 0
FitsInt32 (pos n) = n < 2 ^ 31
FitsInt32 (negsuc n) = n < 2 ^ 31

signed_32-Fits : (m : ℕ) → m < 2 ^ 32 → FitsInt32 (signed_32 m)
signed_32-Fits m h = ground arith

pub to_int32-Fits : (z : ℤ) → FitsInt32 (to_int32 z)
unfolding to_int32
to_int32-Fits (pos n) = signed_32-Fits (n % 2 ^ 32) (omega arith)
to_int32-Fits (negsuc n) = signed_32-Fits (2 ^ 32 - 1 - n % 2 ^ 32) (omega arith)

pub to_int32_same : (z : ℤ) → FitsInt32 z → to_int32 z ≡ z
unfolding to_int32
to_int32_same (pos n) h = ground arith
to_int32_same (negsuc n) h = ground arith

numerals_tests :
    (decimal 25565 ≡ "25565")
    × (int_text (negsuc 4) ≡ "-5")
    × (to_int32 (pos 4294967297) ≡ pos 1)
    × (to_int32 (pos 3000000000) ≡ negsuc 1294967295)
unfolding decimal int_text to_int32
numerals_tests = (refl, refl, refl, refl)
