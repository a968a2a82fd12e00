-- ===== src/Strings/Copies.antt =====
-- What the functions of hw4/strings/strings.c do with a string in memory.
use mathlib.Core.List.{append-nil}
use systems_programming.Base.{
  NoNul, ℕ, zero, suc, ◌+◌, ◌%◌, ◌^◌, ◌==◌, ◌≤◌, ◌<◌, ◌≡◌, refl, ap, ap₂, length-take, ◌∙◌, ltb,
  leb, true, false, none, some, [], ◌∷◌, ◌++◌, map, length, take, drop, set, CStr, arith, str_eq,
  length-append, length-replicate, length-drop, subst, take-length, Bool-cases, inl, inr,
}
use systems_programming.Strings.{
  Block, string_at, malloc, stored, memcpy, strcpy, strcmp, hello_world, fill_hello_world,
  copy_string, copy_array, terminate, advance, get_substring,
}

-- An array that holds a string, with what stands behind its NUL.
abbrev pub holding : CStr → Block → Block
holding s behind = map some s ++ (some 0 ∷ behind)

pub string_at-holding :
    (s : CStr) (behind : Block) → NoNul s → string_at (holding s behind) ≡ some s
unfolding string_at
string_at-holding [] behind h = refl
string_at-holding (c ∷ s) behind (pos, h) =
    let visible : (c == 0) ≡ false = ground arith in rw (visible, string_at-holding s behind h) refl

pub strcmp-holding :
    (s : CStr) (behind : Block) (t : CStr)
    → NoNul s
    → NoNul t
    → strcmp (holding s behind) t ≡ some (str_eq s t)
unfolding strcmp str_eq
strcmp-holding [] behind [] h k = refl
strcmp-holding [] behind (d ∷ t) h (pos, k) =
    let differ : (0 == d) ≡ false = ground arith in rw differ refl
strcmp-holding (c ∷ s) behind [] (pos, h) k =
    let differ : (c == 0) ≡ false = ground arith in rw differ refl
strcmp-holding (c ∷ s) behind (d ∷ t) (pos, h) (pos', k) = elim (Bool-cases (c == d)) [
  | inl e ↦ rw e (strcmp-holding s behind t h k)
  | inr e ↦ rw e refl
]

length-stored : (s : CStr) → length (stored s) ≡ length s + 1
length-stored [] = refl
length-stored (c ∷ s) = omega (arith, length-stored s)

take_all : (xs : Block) (n : ℕ) → length xs ≡ n → take n xs ≡ xs
take_all xs n e = subst (λ t. take t xs ≡ xs) e (take-length xs)

length-malloc : (n : ℕ) → length (malloc n) ≡ n
length-malloc n = length-replicate n none

drop_none : (n : ℕ) → drop n (malloc n) ≡ []
drop_none zero = refl
drop_none (suc n) = drop_none n

memcpy-fits :
    (target source : Block) (n : ℕ)
    → n ≤ length target
    → n ≤ length source
    → memcpy target source n ≡ some (take n source ++ drop n target)
unfolding memcpy
memcpy-fits target source n t s =
    let t' : leb n (length target) ≡ true = ground arith in
    let s' : leb n (length source) ≡ true = ground arith in rw (t', s') refl

strcpy-holding :
    (target : Block) (s : CStr) (behind : Block)
    → NoNul s
    → length s < length target
    → strcpy target (holding s behind) ≡ some (stored s ++ drop (length s + 1) target)
unfolding strcpy
strcpy-holding target s behind h fits =
    rw (string_at-holding s behind h, strcpy)
      (memcpy-fits target (stored s) (length s + 1) (omega arith) (omega (arith, length-stored s))
        ∙ ap (λ t. some (t ++ drop (length s + 1) target))
            (take_all (stored s) (length s + 1) (length-stored s)))

pub copy_string-holding :
    (s : CStr) (behind : Block) → NoNul s → copy_string (holding s behind) ≡ some (stored s)
unfolding copy_string
copy_string-holding s behind h =
    rw (string_at-holding s behind h, copy_string)
      (strcpy-holding (malloc (length s + 1)) s behind h
          (omega (arith, length-malloc (length s + 1)))
        ∙ ap (λ t. some (stored s ++ t)) (drop_none (length s + 1))
        ∙ ap some (append-nil (stored s)))

-- The bytes of a substring, in memory and in the string.
take-drop-holding :
    (s : CStr) (behind : Block) (begin n : ℕ)
    → begin + n ≤ length s
    → take n (drop begin (holding s behind)) ≡ map some (take n (drop begin s))
take-drop-holding [] behind zero zero le = refl
take-drop-holding [] behind zero (suc n) le = absurd (omega arith)
take-drop-holding [] behind (suc begin) n le = absurd (omega arith)
take-drop-holding (c ∷ s) behind zero zero le = refl
take-drop-holding (c ∷ s) behind zero (suc n) le =
    ap (λ t. some c ∷ t) (take-drop-holding s behind zero n (omega arith))
take-drop-holding (c ∷ s) behind (suc begin) n le = take-drop-holding s behind begin n (omega arith)

length-map : (s : CStr) → length (map some s) ≡ length s
length-map [] = refl
length-map (c ∷ s) = ap suc (length-map s)

drop-malloc : (n : ℕ) → drop n (malloc (n + 1)) ≡ none ∷ []
drop-malloc zero = refl
drop-malloc (suc n) = let e : suc n + 1 ≡ suc (n + 1) = omega arith in rw e (drop-malloc n)

terminate-end :
    (xs : Block) (n : ℕ)
    → length xs ≡ n
    → terminate (xs ++ (none ∷ [])) n ≡ some (xs ++ (some 0 ∷ []))
unfolding terminate
terminate-end xs n e =
    let within : ltb n (length (xs ++ (none ∷ []))) ≡ true =
      ground (arith, length-append xs (none ∷ [])) in
    rw within (
      ap some
        (subst (λ t. set (xs ++ (none ∷ [])) t (some 0) ≡ xs ++ (some 0 ∷ [])) e (set-end xs)))
  where
    set-end : (xs : Block) → set (xs ++ (none ∷ [])) (length xs) (some 0) ≡ xs ++ (some 0 ∷ [])
    set-end [] = refl
    set-end (x ∷ xs) = ap (λ t. x ∷ t) (set-end xs)

length-holding : (s : CStr) (behind : Block) → length s < length (holding s behind)
length-holding s behind = omega (arith, length-append (map some s) (some 0 ∷ behind), length-map s)

advance-fits : (p : Block) (n : ℕ) → n ≤ length p → advance p n ≡ some (drop n p)
unfolding advance
advance-fits p n le = let inside : leb n (length p) ≡ true = ground arith in rw inside refl

pub get_substring-holding :
    (s : CStr) (behind : Block) (begin n : ℕ)
    → begin + n ≤ length s
    → n + 1 < 2 ^ 32
    → get_substring (holding s behind) begin n ≡ some (stored (take n (drop begin s)))
unfolding get_substring
get_substring-holding s behind begin n le small =
    let exact : (n + 1) % 2 ^ 32 ≡ n + 1 = omega arith in
    let long = length-holding s behind in
    let source = drop begin (holding s behind) in
    let copied : memcpy (malloc (n + 1)) source n
        ≡ some (map some (take n (drop begin s)) ++ (none ∷ [])) =
      memcpy-fits (malloc (n + 1)) source n (omega (arith, length-malloc (n + 1)))
        (omega (arith, long, length-drop begin (holding s behind)))
      ∙ ap₂ (λ a b. some (a ++ b)) (take-drop-holding s behind begin n le) (drop-malloc n) in
    let inside : advance (holding s behind) begin ≡ some source =
      advance-fits (holding s behind) begin (omega (arith, long)) in
    let size : length (map some (take n (drop begin s))) ≡ n =
      length-map (take n (drop begin s))
      ∙ omega (arith, length-take n (drop begin s), length-drop begin s) in
    rw (exact, get_substring)
      (rw inside (rw copied (terminate-end (map some (take n (drop begin s))) n size)))

copy_array-all : (array : Block) → copy_array array (length array) ≡ some (array ++ (none ∷ []))
unfolding copy_array
copy_array-all array =
    memcpy-fits (malloc (length array + 1)) array (length array)
      (omega (arith, length-malloc (length array + 1))) (omega arith)
    ∙ ap₂ (λ a b. some (a ++ b)) (take-length array) (drop-malloc (length array))

fill_hello_world-fits :
    (target : Block)
    → 12 < length target
    → fill_hello_world target ≡ some (stored hello_world ++ drop 13 target)
unfolding fill_hello_world
fill_hello_world-fits target fits = strcpy-holding target hello_world [] (omega arith) (omega arith)
