-- ===== src/Strings.antt =====
-- hw4/strings/strings.c. A pointer is the list of the bytes from there to the end of its array, and `none`
-- is a byte that was never written. A result `none` is undefined behaviour: an access behind the end of
-- an array, or one that depends on such a byte.
pub mod Copies
pub mod Words
use systems_programming.Base.{
  ◌>>=◌, str_eq, ℕ, zero, suc, ◌+◌, ◌%◌, ◌^◌, ◌==◌, ltb, leb, if◌then◌else◌, Bool, true, false, not,
  ◌&&◌, Option, none, some, List, [], ◌∷◌, ◌++◌, map, length, take, drop, set, replicate, CStr,
  codes,
}
use systems_programming.Proxy.Parse.{strtok}

abbrev pub Block : Type 0
Block = List (Option ℕ)

-- The calls of the standard library, as far as the file uses them. `strlen` with the bytes that it passes:
unfoldable pub string_at : Block → Option CStr
string_at [] = none
string_at (none ∷ block) = none
string_at (some c ∷ block) =
    let rest : Option CStr = string_at block in
    if c == 0 then some [] else elim rest [ none ↦ none | some s ↦ some (c ∷ s) ]

abbrev pub malloc : ℕ → Block
malloc n = replicate n none

-- A string in memory, with its NUL.
abbrev pub stored : CStr → Block
stored s = map some s ++ (some 0 ∷ [])

unfoldable pub memcpy : Block → Block → ℕ → Option Block
memcpy target source n =
    if leb n (length target) && leb n (length source)
    then some (take n source ++ drop n target)
    else none

unfoldable pub strcpy : Block → Block → Option Block
unfolding memcpy
strcpy target source = do s ← string_at source; memcpy target (stored s) (length s + 1)

-- `strcmp(block, s) == 0`, which stops at the first difference.
unfoldable pub strcmp : Block → CStr → Option Bool
strcmp [] s = none
strcmp (none ∷ block) s = none
strcmp (some c ∷ block) [] = some (c == 0)
strcmp (some c ∷ block) (d ∷ s) =
    let rest : Option Bool = strcmp block s in if c == d then rest else some false

abbrev pub hello_world : CStr
hello_world = codes "Hello World!"

unfoldable pub is_hello_world : Block → Option Bool
is_hello_world str = strcmp str hello_world

unfoldable pub fill_hello_world : Block → Option Block
fill_hello_world str = strcpy str (stored hello_world)

unfoldable pub copy_string : Block → Option Block
copy_string str = do s ← string_at str; strcpy (malloc (length s + 1)) str

unfoldable pub copy_array : Block → ℕ → Option Block
copy_array array size = memcpy (malloc (size + 1)) array size

-- `p + n`, which may stand just behind an array.
unfoldable pub advance : Block → ℕ → Option Block
advance p n = if leb n (length p) then some (drop n p) else none

-- `p[n] = 0`
unfoldable pub terminate : Block → ℕ → Option Block
terminate p n = if ltb n (length p) then some (set p n (some 0)) else none

-- `length + 1` is computed in an `unsigned int`.
unfoldable pub get_substring : Block → ℕ → ℕ → Option Block
get_substring str begin n = do
  source ← advance str begin
  substr ← memcpy (malloc ((n + 1) % 2 ^ 32)) source n
  terminate substr n

-- The first string of `strtok`, `none` for NULL.
unfoldable pub first_token : CStr → CStr → Option CStr
first_token delim s = elim (strtok delim s) [ none ↦ none | some (word, rest) ↦ some word ]

unfoldable pub get_first_word : Block → Option (Option CStr)
get_first_word str = do str2 ← copy_string str; s ← string_at str2; some (first_token (codes " ") s)

-- `memcmp(a, b, n) == 0`
unfoldable pub memcmp : Block → Block → ℕ → Option Bool
memcmp a b zero = some true
memcmp (some x ∷ a) (some y ∷ b) (suc n) =
    let rest : Option Bool = memcmp a b n in if x == y then rest else some false
memcmp _ _ (suc n) = none

abbrev sentence : CStr
sentence = codes "The quick brown fox jumped over the lazy dog"

abbrev bytes : Block
bytes = map some (4 ∷ 8 ∷ 15 ∷ 16 ∷ 23 ∷ 42 ∷ 0 ∷ 1 ∷ 2 ∷ 3 ∷ [])

-- Whether the test with this number passes.
unfoldable pub test : ℕ → Option Bool
test num =
    if num == 1
    then (do
      h1 ← is_hello_world (stored hello_world)
      h2 ← is_hello_world (stored (codes "Hello Worl!"))
      some (h1 && not h2))
    else if num == 2
    then (fill_hello_world (stored sentence) >>= λ str. strcmp str hello_world)
    else if num == 3
    then (copy_string (stored sentence) >>= λ cpy. strcmp cpy sentence)
    else if num == 4
    then (copy_array bytes (length bytes) >>= λ cpy. memcmp bytes cpy (length bytes))
    else if num == 5
    then (get_substring (stored hello_world) 3 7 >>= λ word. strcmp word (codes "lo Worl"))
    else (get_first_word (stored sentence) >>= λ word. word >>= λ w. some (str_eq w (codes "The")))

-- What `main` comes to: an exit with 1, or a test that has run.
pub data Outcome : Type 0 where
  refused : Outcome
  tested : Option Bool → Outcome

unfoldable pub main : (argc num : ℕ) → Outcome
main argc num =
    if ltb argc 2 then refused else if ltb 0 num && leb num 6 then tested (test num) else refused
