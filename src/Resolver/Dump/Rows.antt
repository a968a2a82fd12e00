-- ===== src/Resolver/Dump/Rows.antt =====
-- What `print_bytes` of resolver.c prints, row by row.
use systems_programming.Base.{
  ℕ, zero, suc, ◌+◌, ◌-◌, ◌*◌, ◌/◌, ◌%◌, ◌<◌, ◌≡◌, ◌==◌, refl, leb, ltb, true, false, List, [], ◌∷◌,
  ◌++◌, length, drop, drop-add, CStr, codes, arith, ap, ◌∙◌, Bool-cases, inl, inr,
}
use mathlib.Core.List.{append_assoc}
use systems_programming.Resolver.Dump.{
  hex, byteslen_adjusted, chars_from, before, byte_at, listing_from, print_bytes,
}
use systems_programming.Resolver.Dump.Cells.{
  cell, char, chars, row_and, rows, byte_at-cell, chars_from-chars, before-middle, before-within,
  step,
}

-- What stands before the first byte of row `k`: the characters of the row before it.
abbrev ending : List ℕ → ℕ → CStr → CStr
ending bytes zero rest = rest
ending bytes (suc k) rest = chars (drop (8 * k) bytes) rest

abbrev header : ℕ → CStr → CStr
header i rest = codes "\n" ++ (hex i ++ (codes ": " ++ rest))

push : (a b x r : CStr) → b ++ x ≡ r → (a ++ b) ++ x ≡ a ++ r
push a b x r e = append_assoc a b x ∙ ap (λ t. a ++ t) e

chars-append : (row x : CStr) → chars row [] ++ x ≡ chars row x
chars-append row x = push (char row 0) _ x _ (
    push (char row 1) _ x _ (
      push (char row 2) _ x _ (
        push (char row 3) _ x _ (
          push (char row 4) _ x _
            (push (char row 5) _ x _ (push (char row 6) _ x _ (push (char row 7) [] x x refl)))))))

before-first :
    (bytes : List ℕ) (adjusted k i : ℕ) (rest : CStr)
    → i ≡ 8 * k
    → i < adjusted
    → before bytes adjusted i ++ rest ≡ ending bytes k (header i rest)
unfolding before
before-first bytes adjusted zero i rest e lt =
    let row : (i % 8 == 0) ≡ true = ground arith in
    let start : ltb 0 i ≡ false = ground arith in
    let more : ltb i adjusted ≡ true = ground arith in
    rw (row, before)
      (rw start (rw more (ap (λ t. b'\n' ∷ t) (append_assoc (hex i) (codes ": ") rest))))
before-first bytes adjusted (suc k) i rest e lt =
    let row : (i % 8 == 0) ≡ true = ground arith in
    let later : ltb 0 i ≡ true = ground arith in
    let more : ltb i adjusted ≡ true = ground arith in
    rw (row, before)
      (rw later (
        rw more (
          push (chars_from bytes adjusted (i - 8) 8) _ rest _
            (ap (λ t. b'\n' ∷ t) (append_assoc (hex i) (codes ": ") rest))
          ∙ ap (λ t. t ++ header i rest)
              (chars_from-chars bytes adjusted k (i - 8) (omega arith) (omega arith))
          ∙ chars-append (drop (8 * k) bytes) (header i rest))))

before_end :
    (bytes : List ℕ) (adjusted k i : ℕ) (rest : CStr)
    → i ≡ 8 * k
    → i ≡ adjusted
    → before bytes adjusted i ++ rest ≡ ending bytes k rest
unfolding before
before_end bytes adjusted zero i rest e q =
    let row : (i % 8 == 0) ≡ true = ground arith in
    let start : ltb 0 i ≡ false = ground arith in
    let no_more : ltb i adjusted ≡ false = ground arith in
    rw (row, before) (rw start (rw no_more refl))
before_end bytes adjusted (suc k) i rest e q =
    let row : (i % 8 == 0) ≡ true = ground arith in
    let later : ltb 0 i ≡ true = ground arith in
    let no_more : ltb i adjusted ≡ false = ground arith in
    rw (row, before)
      (rw later (
        rw no_more (
          push (chars_from bytes adjusted (i - 8) 8) [] rest rest refl
          ∙ ap (λ t. t ++ rest)
              (chars_from-chars bytes adjusted k (i - 8) (omega arith) (omega arith))
          ∙ chars-append (drop (8 * k) bytes) rest)))

byte_at_end : (bytes : List ℕ) (adjusted i : ℕ) → i ≡ adjusted → byte_at bytes adjusted i ≡ []
unfolding byte_at
byte_at_end bytes adjusted i e =
    let over : leb adjusted i ≡ true = ground arith in rw (over, byte_at) refl

listing_from_end : (bytes : List ℕ) (adjusted i : ℕ) → listing_from bytes adjusted i 0 ≡ []
unfolding listing_from
listing_from_end bytes adjusted i = refl

-- The rows from `k` on.
listing_from-rows :
    (bytes : List ℕ) (adjusted m k i n : ℕ)
    → i ≡ 8 * k
    → n ≡ 8 * m + 1
    → 8 * (k + m) ≡ adjusted
    → listing_from bytes adjusted i n ≡ ending bytes k (rows m i (drop (8 * k) bytes))
listing_from-rows bytes adjusted zero k i n e q a =
    ap (listing_from bytes adjusted i) one
    ∙ step bytes adjusted i 0 _ [] [] refl (byte_at_end bytes adjusted i (omega arith))
        (listing_from_end bytes adjusted (suc i))
    ∙ before_end bytes adjusted k i [] e (omega arith)
  where
    one : n ≡ 1
    one = omega arith
listing_from-rows bytes adjusted (suc m) k i n e q a =
    ap (listing_from bytes adjusted i) nine
    ∙ step bytes adjusted i _ _ _ _ refl
        (byte_at-cell bytes adjusted k 0 i (omega arith) (omega arith))
        (gap_free 1 (suc i) _ _ (omega arith, omega arith, omega arith)
          (gap_free 2 (suc (suc i)) _ _ (omega arith, omega arith, omega arith)
            (gap_free 3 (suc (suc (suc i))) _ _ (omega arith, omega arith, omega arith)
              (step bytes adjusted (suc (suc (suc (suc i)))) _ _ _ _
                (before-middle bytes adjusted _ (ground arith) (ground arith))
                (byte_at-cell bytes adjusted k 4 _ (omega arith) (omega arith))
                (gap_free 5 (suc (suc (suc (suc (suc i))))) _ _
                  (omega arith, omega arith, omega arith)
                  (gap_free 6 (suc (suc (suc (suc (suc (suc i)))))) _ _
                    (omega arith, omega arith, omega arith)
                    (gap_free 7 (suc (suc (suc (suc (suc (suc (suc i))))))) _ _
                      (omega arith, omega arith, omega arith)
                      (listing_from-rows bytes adjusted m (suc k)
                        (suc (suc (suc (suc (suc (suc (suc (suc i)))))))) (8 * m + 1) (omega arith)
                        refl (omega arith)))))))))
    ∙ before-first bytes adjusted k i _ e (omega arith)
    ∙ (λ x. ending bytes k (row_and i (drop (8 * k) bytes) (rows m (eight x) (further x))))
  where
    nine : n ≡ suc (suc (suc (suc (suc (suc (suc (suc (8 * m + 1))))))))
    nine = omega arith

    eight : suc (suc (suc (suc (suc (suc (suc (suc i))))))) ≡ i + 8
    eight = omega arith

    further : drop (8 * suc k) bytes ≡ drop 8 (drop (8 * k) bytes)
    further =
        let z : 8 * suc k ≡ 8 * k + 8 = omega arith in
        ap (λ d. drop d bytes) z ∙ drop-add (8 * k) 8 bytes

    gap_free :
        (t j c : ℕ) (r : CStr)
        → (t < 8) × (j ≡ i + t) × (0 < t % 4)
        → listing_from bytes adjusted (suc j) c ≡ r
        → listing_from bytes adjusted j (suc c) ≡ cell (drop (8 * k) bytes) t ++ r
    gap_free t j c r h s =
        step bytes adjusted j c [] _ r (before-within bytes adjusted j (ground (arith, h.1, h.2)))
          (byte_at-cell bytes adjusted k t j (omega (arith, h.1)) (omega (arith, h.0, h.1))) s

byteslen_adjusted_lem : (n : ℕ) → byteslen_adjusted n ≡ 8 * ((n + 7) / 8)
unfolding byteslen_adjusted
byteslen_adjusted_lem n = elim (Bool-cases (n % 8 == 0)) [
  | inl e ↦ rw (e, byteslen_adjusted) (ground arith)
  | inr e ↦ rw (e, byteslen_adjusted) (ground arith)
]

-- `print_bytes` prints a row for each eight bytes, the last one filled up with blanks, and a newline:
-- its two loops over single bytes agree with the listing row by row.
pub print_bytes-rows :
    (bytes : List ℕ) → print_bytes bytes ≡ rows ((length bytes + 7) / 8) 0 bytes ++ codes "\n"
unfolding print_bytes
print_bytes-rows bytes =
    ap (λ t. t ++ codes "\n")
      (listing_from-rows bytes (byteslen_adjusted (length bytes)) ((length bytes + 7) / 8) 0 0 _
        refl (omega (arith, whole)) (omega (arith, whole)))
  where
    whole : byteslen_adjusted (length bytes) ≡ 8 * ((length bytes + 7) / 8)
    whole = byteslen_adjusted_lem (length bytes)
