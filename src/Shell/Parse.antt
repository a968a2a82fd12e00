-- ===== src/Shell/Parse.antt =====
-- `parseline` and `isnum` of tsh.c. The line is a list of bytes; the copy in `array`, in which the
-- source writes NULs, is the list that is still to be read, and `argv` is the list of what it holds.
pub mod Split
pub mod RoundTrip
pub mod Digits
use systems_programming.Base.{
  ℕ, zero, suc, ◌+◌, ◌-◌, ◌*◌, ◌==◌, ltb, leb, if◌then◌else◌, Bool, true, false, ◌&&◌, Option, none,
  some, List, [], ◌∷◌, ◌++◌, length, CStr,
}

-- How code of the shell ends: with a value, in undefined behaviour (a NULL pointer, an index out of
-- range), or in `exit`.
pub data Result {ℓ} (A : Type ℓ) : Type ℓ where
  ok : A → Result A
  fault : Result A
  exit : ℕ → Result A

infixl 5 ◌>>=◌
abbrev pub ◌>>=◌ {ℓ κ} : {A : Type ℓ} {B : Type κ} → Result A → (A → Result B) → Result B
ok a >>= f = f a
fault >>= f = fault
exit c >>= f = exit c

abbrev pub maxargs : ℕ
maxargs = 128

-- `buf[strlen(buf) - 1] = ' '`: the last byte of a line that has one.
unfoldable pub blank_last : CStr → Option CStr
blank_last [] = none
blank_last (c ∷ []) = some (b' ' ∷ [])
blank_last (c ∷ d ∷ s) = elim (blank_last (d ∷ s)) [ none ↦ none | some t ↦ some (c ∷ t) ]

-- `while (*buf && (*buf == ' ')) buf++`
unfoldable pub skip_spaces : CStr → CStr
skip_spaces [] = []
skip_spaces (c ∷ s) = let rest = skip_spaces s in if c == b' ' then rest else c ∷ s

-- `delim = strchr(buf, d); *delim = '\0'`: the text before the delimiter and the text after it.
unfoldable pub split_at : ℕ → CStr → Option (CStr × CStr)
split_at d [] = none
split_at d (c ∷ s) =
    if c == d
    then some ([], s)
    else elim (split_at d s) [ none ↦ none | some (word, rest) ↦ some (c ∷ word, rest) ]

-- The two places that look for the end of an argument: a quoted one ends at a quote.
unfoldable pub next_arg : CStr → Option (CStr × CStr)
next_arg [] = split_at b' ' []
next_arg (c ∷ s) = if c == b'\'' then split_at b'\'' s else split_at b' ' (c ∷ s)

-- The loop `while (delim)`. Every round takes a byte, so the length of the text is fuel enough.
unfoldable pub args_from : ℕ → CStr → List CStr
args_from zero buf = []
args_from (suc fuel) buf = elim (next_arg buf) [
  | none ↦ []
  | some (word, rest) ↦ word ∷ args_from fuel (skip_spaces rest)
]

-- `*argv[argc - 1] == '&'`, and the arguments before it.
unfoldable pub strip_amp : List CStr → Bool × List CStr
strip_amp [] = (true, [])
strip_amp ([] ∷ []) = (false, [] ∷ [])
strip_amp ((c ∷ s) ∷ []) = if c == b'&' then (true, []) else (false, (c ∷ s) ∷ [])
strip_amp (a ∷ b ∷ rest) = let (bg, args) = strip_amp (b ∷ rest) in (bg, a ∷ args)

-- `parseline`: whether the job is for the background, and the arguments before the NULL of `argv`.
-- A line of no bytes and a line of `MAXARGS` arguments or more are written out of range.
unfoldable pub parseline : CStr → Result (Bool × List CStr)
parseline cmdline = elim (blank_last cmdline) [
  | none ↦ fault
  | some buf ↦
      let argv : List CStr = args_from (suc (length buf)) (skip_spaces buf) in
      if ltb (length argv) maxargs then ok (strip_amp argv) else fault
]

unfoldable pub is_digit : ℕ → Bool
is_digit c = leb b'0' c && leb c b'9'

-- `isnum`
unfoldable pub isnum : CStr → Bool
unfolding is_digit
isnum [] = true
isnum (c ∷ s) = is_digit c && isnum s

-- `atoi` on a text of digits, for values that an `int` holds.
atoi_from : ℕ → CStr → ℕ
atoi_from n [] = n
atoi_from n (c ∷ s) = atoi_from (n * 10 + (c - b'0')) s

unfoldable pub atoi : CStr → ℕ
unfolding atoi_from
atoi s = atoi_from 0 s
