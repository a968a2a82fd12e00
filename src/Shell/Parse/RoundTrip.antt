-- ===== src/Shell/Parse/RoundTrip.antt =====
-- `parseline` of tsh.c on the lines that a user means: words, bare or in quotes, with one space
-- between them and a newline at the end.
use mathlib.Core.List.{append_assoc}
use systems_programming.Base.{
  ℕ, zero, suc, ◌≤◌, ◌<◌, ◌≡◌, ◌≢◌, refl, some, List, [], ◌∷◌, ◌++◌, length, arith, CStr,
  if◌then◌else◌, length-append, map, ltb, ap, ◌∙◌, Bool, true, false, ◌==◌, Bool-cases, inl, inr,
}
use systems_programming.Shell.Parse.{
  ok, fault, blank_last, split_at, skip_spaces, next_arg, args_from, strip_amp, parseline, maxargs,
}

pub data Word : Type 0 where
  bare : CStr → Word
  quoted : CStr → Word

-- The argument that a word stands for, and how it is typed.
abbrev pub value : Word → CStr
value (bare w) = w
value (quoted w) = w

abbrev pub typed : Word → CStr
typed (bare w) = w
typed (quoted w) = b'\'' ∷ (w ++ (b'\'' ∷ []))

abbrev pub Without : ℕ → CStr → Type 0
Without d [] = Unit
Without d (c ∷ s) = (c ≢ d) × Without d s

-- A bare word is not empty, has no space and does not begin with a quote; a quoted one has no quote.
abbrev pub IsWord : Word → Type 0
IsWord (bare []) = ⊥
IsWord (bare (c ∷ s)) = (c ≢ b'\'') × Without b' ' (c ∷ s)
IsWord (quoted w) = Without b'\'' w

abbrev pub AreWords : List Word → Type 0
AreWords [] = Unit
AreWords (w ∷ ws) = IsWord w × AreWords ws

-- The words with a byte behind each: a space, and `last` behind the last one.
abbrev pub line : ℕ → Word → List Word → CStr
line last w [] = typed w ++ (last ∷ [])
line last w (v ∷ ws) = typed w ++ (b' ' ∷ line last v ws)

blank_last-cons : (c : ℕ) (t u : CStr) → blank_last t ≡ some u → blank_last (c ∷ t) ≡ some (c ∷ u)
unfolding blank_last
blank_last-cons c [] u h = absurd (ground arith)
blank_last-cons c (d ∷ t) u h = ground arith

pub blank_last-append : (s t u : CStr) → blank_last t ≡ some u → blank_last (s ++ t) ≡ some (s ++ u)
blank_last-append [] t u h = h
blank_last-append (c ∷ s) t u h = blank_last-cons c (s ++ t) (s ++ u) (blank_last-append s t u h)

blank_last-line :
    (last : ℕ) (w : Word) (ws : List Word) → blank_last (line last w ws) ≡ some (line b' ' w ws)
unfolding blank_last
blank_last-line last w [] = blank_last-append (typed w) (last ∷ []) (b' ' ∷ []) refl
blank_last-line last w (v ∷ ws) =
    blank_last-append (typed w) (b' ' ∷ line last v ws) (b' ' ∷ line b' ' v ws)
      (blank_last-cons b' ' (line last v ws) (line b' ' v ws) (blank_last-line last v ws))

split_at-append :
    (d : ℕ) (w rest : CStr) → Without d w → split_at d (w ++ (d ∷ rest)) ≡ some (w, rest)
unfolding split_at
split_at-append d [] rest h = ground arith
split_at-append d (c ∷ w) rest h = ground (arith, split_at-append d w rest)

-- The end of a word in a line: what follows its last byte, and the space behind it, if any.
next_arg-typed :
    (w : Word) (rest : CStr)
    → IsWord w
    → (tail : CStr) × (next_arg (typed w ++ (b' ' ∷ rest)) ≡ some (value w, tail))
      × (skip_spaces tail ≡ skip_spaces rest)
unfolding next_arg skip_spaces
next_arg-typed (bare []) rest h = absurd h
next_arg-typed (bare (c ∷ s)) rest h =
    (rest, ground (arith, split_at-append b' ' (c ∷ s) rest h.1), refl)
next_arg-typed (quoted w) rest h =
    (b' ' ∷ rest, rw append_assoc (split_at-append b'\'' w (b' ' ∷ rest) h), refl)

skip_spaces-line :
    (w : Word) (ws : List Word) (last : ℕ)
    → IsWord w
    → skip_spaces (line last w ws) ≡ line last w ws
unfolding skip_spaces
skip_spaces-line (bare []) ws last h = absurd h
skip_spaces-line (bare (c ∷ s)) [] last h = ground arith
skip_spaces-line (bare (c ∷ s)) (v ∷ ws) last h = ground arith
skip_spaces-line (quoted w) [] last h = refl
skip_spaces-line (quoted w) (v ∷ ws) last h = refl

pub args_from-nil : (fuel : ℕ) → args_from fuel [] ≡ []
unfolding args_from next_arg split_at
args_from-nil zero = refl
args_from-nil (suc fuel) = refl

args_from-step :
    (fuel : ℕ) (w : Word) (rest : CStr)
    → IsWord w
    → args_from (suc fuel) (typed w ++ (b' ' ∷ rest)) ≡ value w ∷ args_from fuel (skip_spaces rest)
unfolding args_from
args_from-step fuel w rest h =
    let (tail, found, skipped) = next_arg-typed w rest h in
    rw (found, args_from) (ap (λ t. value w ∷ args_from fuel t) skipped)

skip_spaces-nil : skip_spaces [] ≡ []
unfolding skip_spaces
skip_spaces-nil = refl

line_pos : (last : ℕ) (w : Word) (ws : List Word) → 0 < length (line last w ws)
line_pos last w [] = omega (arith, length-append (typed w) (last ∷ []))
line_pos last w (v ∷ ws) = omega (arith, length-append (typed w) (b' ' ∷ line last v ws))

args_from-line :
    (fuel : ℕ) (w : Word) (ws : List Word)
    → AreWords (w ∷ ws)
    → length (line b' ' w ws) ≤ fuel
    → args_from fuel (line b' ' w ws) ≡ map value (w ∷ ws)
args_from-line zero w ws h le = absurd (omega (arith, line_pos b' ' w ws))
args_from-line (suc fuel) w [] h le =
    args_from-step fuel w [] h.0
    ∙ ap (λ t. value w ∷ t) (ap (args_from fuel) skip_spaces-nil ∙ args_from-nil fuel)
args_from-line (suc fuel) w (v ∷ ws) h le =
    args_from-step fuel w (line b' ' v ws) h.0
    ∙ ap (λ t. value w ∷ t)
        (ap (args_from fuel) (skip_spaces-line v ws b' ' h.1.0)
          ∙ args_from-line fuel v ws h.1
              (omega (arith, le, length-append (typed w) (b' ' ∷ line b' ' v ws))))

length-map-value : (ws : List Word) → length (map value ws) ≡ length ws
length-map-value [] = refl
length-map-value (w ∷ ws) = ap suc (length-map-value ws)

pub parseline_lem :
    (cmdline buf : CStr) (argv : List CStr)
    → blank_last cmdline ≡ some buf
    → args_from (suc (length buf)) (skip_spaces buf) ≡ argv
    → parseline cmdline ≡ (if ltb (length argv) maxargs then ok (strip_amp argv) else fault)
unfolding parseline
parseline_lem cmdline buf argv e q = rw (e, parseline) (rw q)

-- Does a word begin with the mark of a background job?
pub asks_background : CStr → Bool
asks_background [] = false
asks_background (c ∷ s) = c == b'&'

strip_amp-snoc :
    (init : List CStr) (x : CStr)
    → strip_amp (init ++ (x ∷ []))
      ≡ (if asks_background x then (true, init) else (false, init ++ (x ∷ [])))
unfolding strip_amp asks_background
strip_amp-snoc [] [] = refl
strip_amp-snoc [] (c ∷ s) = refl
strip_amp-snoc (a ∷ []) x = elim (Bool-cases (asks_background x)) [
  | inl e ↦ rw (strip_amp-snoc [] x, e)
  | inr e ↦ rw (strip_amp-snoc [] x, e)
]
strip_amp-snoc (a ∷ b ∷ init) x = elim (Bool-cases (asks_background x)) [
  | inl e ↦ rw (strip_amp-snoc (b ∷ init) x, e)
  | inr e ↦ rw (strip_amp-snoc (b ∷ init) x, e)
]

-- A line of fewer than `MAXARGS` words, the last of them `x`. If `x` begins with `&`, the line asks
-- for the background and gives the words before `x`; otherwise it gives all its words. A line of
-- more words writes past `argv`.
pub parseline-line :
    (last : ℕ) (w : Word) (ws : List Word) (init : List CStr) (x : CStr)
    → AreWords (w ∷ ws)
    → map value (w ∷ ws) ≡ init ++ (x ∷ [])
    → parseline (line last w ws) ≡ (
        if ltb (length (w ∷ ws)) maxargs
        then if asks_background x then ok (true, init) else ok (false, init ++ (x ∷ []))
        else fault)
parseline-line last w ws init x h split =
    let parsed : parseline (line last w ws)
        ≡ (if ltb (length (w ∷ ws)) maxargs then ok (strip_amp (map value (w ∷ ws))) else fault) =
      rw (← length-map-value (w ∷ ws)) (
        parseline_lem (line last w ws) (line b' ' w ws) (map value (w ∷ ws))
          (blank_last-line last w ws)
          (ap (args_from (suc (length (line b' ' w ws)))) (skip_spaces-line w ws b' ' h.0)
            ∙ args_from-line (suc (length (line b' ' w ws))) w ws h (omega arith))) in
    parsed ∙ elim (Bool-cases (asks_background x)) [
      | inl e ↦ rw (split, strip_amp-snoc init x, e)
      | inr e ↦ rw (split, strip_amp-snoc init x, e)
    ]
