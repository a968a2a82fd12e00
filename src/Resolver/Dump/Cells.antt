-- ===== src/Resolver/Dump/Cells.antt =====
-- The single bytes that `print_bytes` of resolver.c prints, and the listing by rows.
use systems_programming.Base.{
  ℕ, zero, suc, ◌+◌, ◌*◌, ◌%◌, ◌≤◌, ◌<◌, ◌≡◌, ◌==◌, refl, leb, if◌then◌else◌, true, false, none,
  some, List, [], ◌++◌, length, get_elem?, get_elem?-drop, get_elem?-outside, get_elem?-total, drop,
  CStr, codes, arith, ap, ◌∙◌, Bool-cases, inl, inr,
}
use systems_programming.Resolver.Dump.{
  hex, shown, char_at, chars_from, before, byte_at, listing_from,
}

-- A byte of a row, in hexadecimal and as a character; blanks behind the last one.
abbrev pub cell : List ℕ → ℕ → CStr
cell row t = elim (get_elem? row t) [ none ↦ codes "   " | some c ↦ hex c ++ codes " " ]

abbrev pub char : List ℕ → ℕ → CStr
char row t = elim (get_elem? row t) [ none ↦ codes "  " | some c ↦ shown c ]

abbrev pub chars : List ℕ → CStr → CStr
chars row rest =
    char row 0
    ++ (char row 1
        ++ (char row 2
            ++ (char row 3
                ++ (char row 4 ++ (char row 5 ++ (char row 6 ++ (char row 7 ++ rest)))))))

-- A row: its offset, two groups of four bytes, and its eight characters.
abbrev pub row_and : ℕ → List ℕ → CStr → CStr
row_and offset row rest =
    codes "\n"
    ++ (hex offset
        ++ (codes ": "
            ++ (cell row 0
                ++ (cell row 1
                    ++ (cell row 2
                        ++ (cell row 3
                            ++ (codes " "
                                ++ (cell row 4
                                    ++ (cell row 5
                                        ++ (cell row 6 ++ (cell row 7 ++ chars row rest)))))))))))

-- `n` rows of eight bytes each.
abbrev pub rows : ℕ → ℕ → List ℕ → CStr
rows zero offset bytes = []
rows (suc n) offset bytes = row_and offset bytes (rows n (offset + 8) (drop 8 bytes))

-- A test on the length in front of an access is a test on what the access finds.
guarded :
    (bytes : List ℕ) (i : ℕ) (blank : CStr) (f : ℕ → CStr)
    → (if leb (length bytes) i
        then blank
        else elim (get_elem? bytes i) [ none ↦ [] | some c ↦ f c ])
      ≡ elim (get_elem? bytes i) [ none ↦ blank | some c ↦ f c ]
guarded bytes i blank f = elim (Bool-cases (leb (length bytes) i)) [
  | inl q ↦ rw q (rw (get_elem?-outside bytes i (ground arith)) refl)
  | inr q ↦ let (c, g) = get_elem?-total bytes i (ground arith) in rw q (rw g refl)
]

module _ (bytes : List ℕ) (adjusted k : ℕ) where
  there : (t i : ℕ) → i ≡ 8 * k + t → get_elem? bytes i ≡ get_elem? (drop (8 * k) bytes) t
  there t i e = ap (get_elem? bytes) e ∙ get_elem?-drop bytes (8 * k) t

  pub byte_at-cell :
      (t i : ℕ)
      → i ≡ 8 * k + t
      → i < adjusted
      → byte_at bytes adjusted i ≡ cell (drop (8 * k) bytes) t
  unfolding byte_at
  byte_at-cell t i e lt =
      let inside : leb adjusted i ≡ false = ground arith in
      rw (inside, byte_at)
        (guarded bytes i (codes "   ") (λ c. hex c ++ codes " ")
          ∙ ap (λ o. elim o [ none ↦ codes "   " | some c ↦ hex c ++ codes " " ]) (there t i e))

  char_at-char :
      (t i : ℕ)
      → i ≡ 8 * k + t
      → i < adjusted
      → char_at bytes adjusted i ≡ char (drop (8 * k) bytes) t
  unfolding char_at
  char_at-char t i e lt =
      let inside : leb adjusted i ≡ false = ground arith in
      rw (inside, char_at)
        (guarded bytes i (codes "  ") shown
          ∙ ap (λ o. elim o [ none ↦ codes "  " | some c ↦ shown c ]) (there t i e))

  pub chars_from-chars :
      (i : ℕ)
      → i ≡ 8 * k
      → i + 8 ≤ adjusted
      → chars_from bytes adjusted i 8 ≡ chars (drop (8 * k) bytes) []
  unfolding chars_from
  chars_from-chars i e le = λ x.
      one 0 i (omega arith, omega arith) x
      ++ (one 1 (suc i) (omega arith, omega arith) x
          ++ (one 2 (suc (suc i)) (omega arith, omega arith) x
              ++ (one 3 (suc (suc (suc i))) (omega arith, omega arith) x
                  ++ (one 4 (suc (suc (suc (suc i)))) (omega arith, omega arith) x
                      ++ (one 5 (suc (suc (suc (suc (suc i))))) (omega arith, omega arith) x
                          ++ (one 6 (suc (suc (suc (suc (suc (suc i)))))) (omega arith, omega arith)
                                x
                              ++ (one 7 (suc (suc (suc (suc (suc (suc (suc i)))))))
                                    (omega arith, omega arith) x
                                  ++ [])))))))
    where
      one :
          (t j : ℕ) → (t < 8) × (j ≡ i + t) → char_at bytes adjusted j ≡ char (drop (8 * k) bytes) t
      one t j h = char_at-char t j (omega (arith, h.1)) (omega (arith, h.0, h.1))

module _ (bytes : List ℕ) (adjusted : ℕ) where
  pub before-middle :
      (i : ℕ) → (i % 8 == 0) ≡ false → (i % 4 == 0) ≡ true → before bytes adjusted i ≡ codes " "
  unfolding before
  before-middle i e q = rw (e, before) (rw q refl)

  pub before-within : (i : ℕ) → (i % 4 == 0) ≡ false → before bytes adjusted i ≡ []
  unfolding before
  before-within i q = let e : (i % 8 == 0) ≡ false = ground arith in rw (e, before) (rw q refl)

  pub step :
      (i n : ℕ) (l c r : CStr)
      → before bytes adjusted i ≡ l
      → byte_at bytes adjusted i ≡ c
      → listing_from bytes adjusted (suc i) n ≡ r
      → listing_from bytes adjusted i (suc n) ≡ l ++ (c ++ r)
  unfolding listing_from
  step i n l c r p q s = λ j. p j ++ (q j ++ s j)
