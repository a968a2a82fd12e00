-- ===== src/Shell/Parse/Digits.antt =====
-- Numbers as the user types them for `bg` and `fg` in tsh.c: `isnum` and `atoi` on `%d`.
use systems_programming.Base.{
  ℕ, zero, suc, ◌+◌, ◌/◌, ◌%◌, ◌<◌, ◌≡◌, refl, true, [], ◌∷◌, arith, CStr, ap, ◌∙◌, decimal,
  decimal_from, leb, Bool-cases, inl, inr,
}
use systems_programming.Shell.Parse.{isnum, atoi, atoi_from}

atoi-decimal_from :
    (f n : ℕ) (acc : CStr) → n < f → atoi_from 0 (decimal_from f n acc) ≡ atoi_from n acc
unfolding decimal_from atoi_from
atoi-decimal_from zero n acc h = absurd (omega arith)
atoi-decimal_from (suc f) n acc h = elim (Bool-cases (leb n 9)) [
  | inl e ↦ rw e (ap (λ k. atoi_from k acc) (omega arith))
  | inr e ↦ rw e (
      atoi-decimal_from f (n / 10) ((b'0' + n % 10) ∷ acc) (ground arith)
      ∙ ap (λ k. atoi_from k acc) (omega arith))
]

isnum-decimal_from : (f n : ℕ) (acc : CStr) → isnum acc ≡ true → isnum (decimal_from f n acc) ≡ true
unfolding decimal_from isnum
isnum-decimal_from zero n acc h = h
isnum-decimal_from (suc f) n acc h =
    ground (arith, isnum-decimal_from f (n / 10) ((b'0' + n % 10) ∷ acc))

-- What `%d` prints is a number to `isnum`, and `atoi` reads it back.
pub atoi-decimal : (n : ℕ) → (isnum (decimal n) ≡ true) × (atoi (decimal n) ≡ n)
unfolding decimal atoi isnum
atoi-decimal n =
    (isnum-decimal_from (n + 1) n [] refl, atoi-decimal_from (n + 1) n [] (omega arith))
