-- ===== src/Base/Strings.antt =====
-- C strings as lists of bytes without the terminating NUL, and the libc calls on them.
use Prim.Native.Nat.{ℕ, zero, suc, ◌+◌, ◌/◌, ◌%◌, ◌<◌}
use Prim.Native.Char.{code}
use Prim.Native.String.{String}
use mathlib.Core.Path.{◌≡◌, refl}
use mathlib.Core.Bool.{Bool, true, false, ◌&&◌}
use mathlib.Core.List.{List, [], ◌∷◌}
use native.Mathlib.Omega.{arith}
use systems_programming.Base.Tests.{◌==◌, leb, if◌then◌else◌}

-- A `char *` up to its NUL.
abbrev pub CStr : Type 0
CStr = List ℕ

abbrev pub codes : String → CStr
codes String.[] = []
codes (String.◌∷◌ c s) = code c ∷ codes s

abbrev pub NoNul : List ℕ → Type 0
NoNul [] = Unit
NoNul (c ∷ rest) = (0 < c) × NoNul rest

-- `strcmp(a, b) == 0`
unfoldable pub str_eq : CStr → CStr → Bool
str_eq [] [] = true
str_eq [] (b ∷ t) = false
str_eq (a ∷ s) [] = false
str_eq (a ∷ s) (b ∷ t) = (a == b) && str_eq s t

pub str_eq→eq : (s t : CStr) → str_eq s t ≡ true → s ≡ t
unfolding str_eq
str_eq→eq [] [] h = refl
str_eq→eq [] (b ∷ t) h = ground arith
str_eq→eq (a ∷ s) [] h = ground arith
str_eq→eq (a ∷ s) (b ∷ t) h = ground (arith, str_eq→eq s t)

pub str_eq_refl : (s : CStr) → str_eq s s ≡ true
unfolding str_eq
str_eq_refl [] = refl
str_eq_refl (a ∷ s) = ground (arith, str_eq_refl s)

-- `%d` of a number that is not negative: the digits, each put in front of `acc`. The fuel `n + 1`
-- suffices, since a number loses a digit in each round.
unfoldable pub decimal_from : ℕ → ℕ → CStr → CStr
decimal_from zero n acc = acc
decimal_from (suc f) n acc =
    let more = decimal_from f (n / 10) ((b'0' + n % 10) ∷ acc) in
    if leb n 9 then (b'0' + n) ∷ acc else more

unfoldable pub decimal : ℕ → CStr
unfolding decimal_from
decimal n = decimal_from (n + 1) n []
