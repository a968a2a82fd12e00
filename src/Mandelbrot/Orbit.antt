-- ===== src/Mandelbrot/Orbit.antt =====
-- The count of a point in hw7/mandelbrot.c, against the orbit of the point.
use systems_programming.Base.{
  ℕ, zero, suc, ◌+◌, ◌-◌, ◌<◌, ◌≤◌, ◌≡◌, refl, sym, ap, ◌∙◌, ◌⊎◌, inl, inr, arith, Bool, true,
  false, Bool-cases, subst, ℕ_discrete,
}
use systems_programming.Mandelbrot.{Double, iterate, Args, maxiter, yres, count}

module _ (d : Double) where
  open d use {F, of_int, to_int, add, sub, mul, div, below}

  -- The points z, z² + c, ... of the orbit of c = x + iy, from 0 on.
  abbrev pub orbit : F → F → ℕ → F × F
  orbit x y zero = (of_int 0, of_int 0)
  orbit x y (suc n) =
      let (u, v) = orbit x y n in
      (add (sub (mul u u) (mul v v)) x, add (mul (mul (of_int 2) u) v) y)

  abbrev pub stays : F → F → ℕ → Bool
  stays x y n = let (u, v) = orbit x y n in below (add (mul u u) (mul v v)) (of_int 4)

  stays_next :
      (x y : F) (n : ℕ)
      → ((m : ℕ) → m < n → stays x y m ≡ true)
      → stays x y n ≡ true
      → (m : ℕ) → m < suc n
      → stays x y m ≡ true
  stays_next x y n before more m h = elim (ℕ_discrete m n) [
    | yes e ↦ subst (λ t. stays x y t ≡ true) (sym e) more
    | no ne ↦ before m (omega arith)
  ]

  -- From the point `n` of the orbit on, where all the points before stay within the circle of radius 2.
  iterate-orbit :
      (x y : F) (rounds n : ℕ)
      → ((m : ℕ) → m < n → stays x y m ≡ true)
      → (e : ℕ) × (e ≤ rounds)
        × (iterate d x y rounds
              (n + 1)
              (orbit x y n).0
              (orbit x y n).1
              (mul (orbit x y n).0 (orbit x y n).0)
              (mul (orbit x y n).1 (orbit x y n).1)
            ≡ n + e + 1)
        × ((m : ℕ) → m < n + e → stays x y m ≡ true)
        × ((e ≡ rounds) ⊎ (stays x y (n + e) ≡ false))
  unfolding iterate
  iterate-orbit x y zero n before =
      (0, omega arith, omega arith, λ m h. before m (omega arith), inl refl)
  iterate-orbit x y (suc rounds) n before = elim (Bool-cases (stays x y n)) [
    | inr out ↦
        let same : n + 0 ≡ n = omega arith in
        (0, omega arith, rw out (omega arith), (λ m h. before m (omega arith)), inr (rw same out))
    | inl more ↦
        let (e, le, ends, after, last) =
          iterate-orbit x y rounds (suc n) (stays_next x y n before more) in
        let shift : n + 1 + 1 ≡ suc n + 1 = omega arith in
        let sum : suc n + e ≡ n + suc e = omega arith in
        (
          suc e,
          omega arith,
          rw more (rw shift (ends ∙ omega arith)),
          (λ m h. after m (omega arith)),
          rw (← sum) (elim last [ inl full ↦ inl (ap suc full) | inr out ↦ inr out ]),
        )
  ]

  iterate_lem :
      (x y : F) (rounds : ℕ)
      → (e : ℕ) × (e ≤ rounds)
        × (iterate d x y rounds 1
              (of_int 0)
              (of_int 0)
              (mul (of_int 0) (of_int 0))
              (mul (of_int 0) (of_int 0))
            ≡ e + 1)
        × ((m : ℕ) → m < e → stays x y m ≡ true)
        × ((e ≡ rounds) ⊎ (stays x y e ≡ false))
  iterate_lem x y rounds =
      let (e, le, ends, before, last) = iterate-orbit x y rounds 0 (λ m h. absurd (omega arith)) in
      let none_before : 0 + e ≡ e = omega arith in
      (
        e,
        le,
        ends ∙ ap (λ t. t + 1) none_before,
        (λ m h. before m (omega arith)),
        elim last [
          | inl full ↦ inl full
          | inr out ↦ inr (subst (λ t. stays x y t ≡ false) none_before out)
        ],
      )

  -- The column and the row of a point in the plane.
  abbrev pub point : Args d → ℕ → ℕ → F × F
  point a j i = (
    add a.xmin (mul (of_int i) (div (sub a.xmax a.xmin) (of_int a.xres))),
    sub a.ymax (mul (of_int j) (div (sub a.ymax a.ymin) (of_int (yres d a)))),
  )

  -- For at least one round: the count of a point is one more than the number of the first points of
  -- its orbit that stay within the circle of radius 2, or `maxiter` if that many do.
  pub count-orbit :
      (a : Args d) (j i : ℕ)
      → 0 < maxiter d a
      → (e : ℕ) × (count d a j i ≡ e + 1)
        × (e + 1 ≤ maxiter d a)
        × ((m : ℕ) → m < e → stays (point a j i).0 (point a j i).1 m ≡ true)
        × ((e + 1 ≡ maxiter d a) ⊎ (stays (point a j i).0 (point a j i).1 e ≡ false))
  unfolding count
  count-orbit a j i pos =
      let (e, le, ends, before, last) =
        iterate_lem (point a j i).0 (point a j i).1 (maxiter d a - 1) in
      (e, ends, omega arith, before, elim last [ inl full ↦ inl (omega arith) | inr out ↦ inr out ])
