-- ===== src/Strings/Words.antt =====
-- The first word of a text in memory, and what all the functions of hw4/strings/strings.c make of a text.
use mathlib.Core.List.{append-nil}
use systems_programming.Base.{
  NoNul, ℕ, zero, suc, ◌+◌, ◌^◌, ◌≤◌, ◌<◌, ◌≡◌, refl, ap, ◌∙◌, Option, none, some, [], ◌∷◌, ◌++◌,
  length, take, drop, replicate, CStr, codes, arith, str_eq,
}
use systems_programming.Proxy.Parse.{strtok, elem, cut, skip}
use systems_programming.Proxy.Parse.Headers.{IsToken, NoneOf, strtok-append, strtok-skip}
use systems_programming.Strings.{
  Block, stored, hello_world, is_hello_world, copy_string, first_token, get_substring,
  get_first_word,
}
use systems_programming.Strings.Copies.{
  holding, string_at-holding, strcmp-holding, copy_string-holding, get_substring-holding,
}

-- A word that ends the text, or is followed by a space and more.
abbrev pub followed : Option CStr → CStr
followed none = []
followed (some rest) = b' ' ∷ rest

cut-whole : (delim w : CStr) → NoneOf delim w → cut delim w ≡ (w, [])
unfolding cut
cut-whole delim [] h = refl
cut-whole delim (c ∷ w) (h, hs) = rw (h, cut-whole delim w hs) refl

strtok-followed :
    (w : CStr) (more : Option CStr)
    → IsToken (codes " ") w
    → (rest : CStr) × (strtok (codes " ") (w ++ followed more) ≡ some (w, rest))
unfolding strtok skip elem
strtok-followed w (some rest) h = (rest, strtok-append (codes " ") w b' ' rest h refl)
strtok-followed [] none h = absurd h
strtok-followed (c ∷ w) none h =
    ([], rw (append-nil w) (rw (h.0, strtok) (ap some (cut-whole (codes " ") (c ∷ w) h))))

strtok-spaces :
    (k : ℕ) (s : CStr) → strtok (codes " ") (replicate k b' ' ++ s) ≡ strtok (codes " ") s
unfolding elem
strtok-spaces zero s = refl
strtok-spaces (suc k) s =
    strtok-skip (codes " ") b' ' (replicate k b' ' ++ s) refl ∙ strtok-spaces k s

first_token-text :
    (k : ℕ) (w : CStr) (more : Option CStr)
    → IsToken (codes " ") w
    → first_token (codes " ") (replicate k b' ' ++ (w ++ followed more)) ≡ some w
unfolding first_token
first_token-text k w more token =
    let (rest, found) = strtok-followed w more token in
    rw (strtok-spaces k (w ++ followed more), first_token) (rw found refl)

get_first_word-holding :
    (k : ℕ) (w : CStr) (more : Option CStr) (behind : Block)
    → NoNul (replicate k b' ' ++ (w ++ followed more))
    → IsToken (codes " ") w
    → get_first_word (holding (replicate k b' ' ++ (w ++ followed more)) behind) ≡ some (some w)
unfolding get_first_word
get_first_word-holding k w more behind h token =
    rw (copy_string-holding (replicate k b' ' ++ (w ++ followed more)) behind h, get_first_word)
      (rw (string_at-holding (replicate k b' ' ++ (w ++ followed more)) [] h)
        (ap some (first_token-text k w more token)))

-- For an array with a text whose first word may stand behind spaces: the text is compared with "Hello
-- World!" as a whole, the copy is the text with its NUL, a substring within the text is its bytes with a
-- NUL, and the first word is found. None of this leaves an array or needs a byte that was never written.
pub text_answers :
    (k : ℕ) (w : CStr) (more : Option CStr) (behind : Block) (begin n : ℕ)
    → NoNul (replicate k b' ' ++ (w ++ followed more))
    → IsToken (codes " ") w
    → begin + n ≤ length (replicate k b' ' ++ (w ++ followed more))
    → n + 1 < 2 ^ 32
    → let s = replicate k b' ' ++ (w ++ followed more) in
      let str = holding s behind in
      (is_hello_world str ≡ some (str_eq s hello_world))
      × (copy_string str ≡ some (stored s))
      × (get_substring str begin n ≡ some (stored (take n (drop begin s))))
      × (get_first_word str ≡ some (some w))
unfolding is_hello_world
text_answers k w more behind begin n h token le small =
    let s = replicate k b' ' ++ (w ++ followed more) in
    (
      strcmp-holding s behind hello_world h (omega arith),
      copy_string-holding s behind h,
      get_substring-holding s behind begin n le small,
      get_first_word-holding k w more behind h token,
    )
