-- ===== src/Tests/Points.antt =====
-- A picture of one row and two columns, with whole numbers for `double`.
use systems_programming.Base.{
  ℕ, suc, zero, ◌+◌, ◌-◌, ◌*◌, ◌/◌, ◌<◌, ◌≤◌, ◌≡◌, refl, ◌⊎◌, inl, inr, ltb, true, false, some,
  List, [], ◌∷◌, arith,
}
use systems_programming.Mandelbrot.{Double, Args, maxiter, yres, count, main}
use systems_programming.Mandelbrot.Orbit.{point, stays, count-orbit}
use systems_programming.Mandelbrot.Schedule.{Visits}
use systems_programming.Mandelbrot.Pixels.{Says, rows_of, main-Says}

abbrev whole : Double
whole = record {
  F = ℕ;
  of_int = λ n. n;
  to_int = λ n. n;
  add = λ a b. a + b;
  sub = λ a b. a - b;
  mul = λ a b. a * b;
  div = λ a b. a / b;
  below = λ a b. ltb a b;
}

abbrev window : Args whole
window = record { xmin = 0; xmax = 2; ymin = 0; ymax = 1; iterations = 300; xres = 2 }

one_row : yres whole window ≡ 1
unfolding yres
one_row = refl

abbrev order : List (ℕ × ℕ)
order = (0, 1) ∷ (0, 0) ∷ []

visited : (j i : ℕ) → j < 1 → i < 2 → Visits order j i
visited zero zero jt it = inr (inl (refl, refl))
visited zero (suc zero) jt it = inl (refl, refl)
visited zero (suc (suc i)) jt it = absurd (omega arith)
visited (suc j) i jt it = absurd (omega arith)

main-Says_example :
    (bytes : List ℕ) × (main whole window 0 order ≡ some bytes)
    × Says bytes (rows_of 300 (count whole window) 2 0 1)
unfolding yres maxiter
main-Says_example = main-Says whole window order (omega arith) visited

count-orbit_example :
    (e : ℕ) × (count whole window 0 1 ≡ e + 1)
    × (e + 1 ≤ maxiter whole window)
    × ((m : ℕ) → m < e → stays whole (point whole window 0 1).0 (point whole window 0 1).1 m ≡ true)
    × ((e + 1 ≡ maxiter whole window)
        ⊎ (stays whole (point whole window 0 1).0 (point whole window 0 1).1 e ≡ false))
unfolding maxiter
count-orbit_example = count-orbit whole window 0 1 (omega arith)

-- The orbit of (1, 1) leaves the circle with its third point.
count_outside : count whole window 0 1 ≡ 3
unfolding count maxiter
count_outside = refl
