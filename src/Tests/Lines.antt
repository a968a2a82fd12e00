-- ===== src/Tests/Lines.antt =====
-- Command lines for the shell.
use systems_programming.Base.{
  ℕ, ◌≡◌, refl, List, [], ◌∷◌, length, arith, CStr, codes, if◌then◌else◌, ltb, Bool, true, false,
  ◌++◌, not, ◌&&◌, ◌==◌,
}
use systems_programming.Shell.Parse.{ok, fault, parseline, maxargs}
use systems_programming.Shell.Parse.RoundTrip.{
  Word, bare, quoted, AreWords, Without, line, asks_background, parseline-line,
}

lacks : ℕ → CStr → Bool
lacks d [] = true
lacks d (c ∷ s) = not (c == d) && lacks d s

Without-of : (d : ℕ) (s : CStr) → lacks d s ≡ true → Without d s
unfolding lacks
Without-of d [] h = tt
Without-of d (c ∷ s) h = (λ e. ground arith, Without-of d s (ground arith))

abbrev words : List Word
words = quoted (codes "a b") ∷ bare (codes "&") ∷ []

are_words : AreWords (bare (codes "echo") ∷ words)
unfolding lacks
are_words = (
  (λ e. absurd (ground arith), Without-of b' ' (codes "echo") refl),
  (
    Without-of b'\'' (codes "a b") refl,
    ((λ e. absurd (ground arith), Without-of b' ' (codes "&") refl), tt),
  ),
)

abbrev before_last : List CStr
before_last = codes "echo" ∷ codes "a b" ∷ []

parseline-line_example : parseline (line 10 (bare (codes "echo")) words) ≡ (
    if ltb (length (bare (codes "echo") ∷ words)) maxargs
    then if asks_background (codes "&")
      then ok (true, before_last)
      else ok (false, before_last ++ (codes "&" ∷ []))
    else fault)
parseline-line_example =
    parseline-line 10 (bare (codes "echo")) words before_last (codes "&") are_words refl
