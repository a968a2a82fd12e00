-- ===== src/Shell/Parse/Split.antt =====
-- The loop of `parseline` in tsh.c: it ends, and finds the arguments that the line is made of.
use systems_programming.Base.{
  ℕ, zero, suc, ◌≤◌, ◌<◌, ◌≡◌, none, some, List, [], ◌∷◌, length, arith, CStr, Option-cases, ◌==◌,
  Bool-cases, inl, inr,
}
use systems_programming.Shell.Parse.{split_at, skip_spaces, next_arg, args_from}

-- The arguments of a text: those that its delimiters cut off, up to the first place with none.
pub data Args : CStr → List CStr → Type 0 where
  finish : {buf : CStr} → next_arg buf ≡ none → Args buf []
  argument :
      {buf rest word : CStr} {words : List CStr}
      → next_arg buf ≡ some (word, rest)
      → Args (skip_spaces rest) words
      → Args buf (word ∷ words)

pub skip_spaces-le : (s : CStr) → length (skip_spaces s) ≤ length s
unfolding skip_spaces
skip_spaces-le [] = omega arith
skip_spaces-le (c ∷ s) = ground (arith, skip_spaces-le s)

split_at-lt :
    (d : ℕ) (s word rest : CStr) → split_at d s ≡ some (word, rest) → length rest < length s
unfolding split_at
split_at-lt d [] word rest h = absurd (ground arith)
split_at-lt d (c ∷ s) word rest h = elim (Bool-cases (c == d)) [
  | inl e ↦ ground arith
  | inr e ↦ elim (Option-cases (split_at d s)) [
    | inl q ↦ absurd (ground arith)
    | inr (p, q) ↦ ground (arith, split_at-lt d s p.0 p.1)
  ]
]

next_arg-lt : (s word rest : CStr) → next_arg s ≡ some (word, rest) → length rest < length s
unfolding next_arg
next_arg-lt [] word rest h = split_at-lt b' ' [] word rest h
next_arg-lt (c ∷ s) word rest h = elim (Bool-cases (c == b'\'')) [
  | inl e ↦ ground (arith, split_at-lt b'\'' s word rest)
  | inr e ↦ ground (arith, split_at-lt b' ' (c ∷ s) word rest)
]

-- With more fuel than bytes the loop has ended by itself, with the arguments of the text.
pub args_from-Args : (fuel : ℕ) (buf : CStr) → length buf < fuel → Args buf (args_from fuel buf)
unfolding args_from
args_from-Args zero buf h = absurd (omega arith)
args_from-Args (suc fuel) buf h = elim (Option-cases (next_arg buf)) [
  | inl e ↦ rw (e, args_from) (finish e)
  | inr ((word, rest), e) ↦
      rw (e, args_from)
        (argument e (
          args_from-Args fuel (skip_spaces rest)
            (omega (arith, next_arg-lt buf word rest e, skip_spaces-le rest))))
]
