-- ===== src/Mandelbrot.antt =====
-- hw7/mandelbrot.c: the counts of the points, stored by parallel threads, and the picture in the file.
-- The floating-point numbers and their operations are a parameter.
pub mod Orbit
pub mod Schedule
pub mod Pixels
use systems_programming.Base.{
  ℕ, zero, suc, ◌+◌, ◌-◌, ◌/◌, ◌%◌, ltb, leb, ◌==◌, if◌then◌else◌, Bool, Option, none, some, List,
  [], ◌∷◌, ◌++◌, length, get_elem?, set, replicate,
}

-- `double`: what the program computes with. `of_int` and `to_int` are the conversions of C.
pub record Double : Type 1 where
  pub F : Type 0
  pub of_int : ℕ → F
  pub to_int : F → ℕ
  pub add : F → F → F
  pub sub : F → F → F
  pub mul : F → F → F
  pub div : F → F → F
  pub below : F → F → Bool

-- The rows of `pic`, of which some may not be allocated.
abbrev pub Pic : Type 0
Pic = List (Option (List ℕ))

-- The loop that allocates the rows starts at whatever `r` holds.
unfoldable pub allocate : ℕ → ℕ → ℕ → Pic
allocate r yres xres =
    replicate (if ltb yres r then yres else r) none
    ++ replicate (yres - r) (some (replicate xres 0))

-- `pic[j][i]`, read and written; `none` outside is undefined behaviour.
unfoldable pub pixel : Pic → ℕ → ℕ → Option ℕ
pixel pic j i = elim (get_elem? pic j) [
  | none ↦ none
  | some none ↦ none
  | some (some row) ↦ get_elem? row i
]

unfoldable pub store : Pic → ℕ → ℕ → ℕ → Option Pic
store pic j i k = elim (get_elem? pic j) [
  | none ↦ none
  | some none ↦ none
  | some (some row) ↦ if ltb i (length row) then some (set pic j (some (set row i k))) else none
]

-- The stores of all threads in the order in which they happen, each at a row and a column.
unfoldable pub run_stores : (ℕ → ℕ → ℕ) → List (ℕ × ℕ) → Pic → Option Pic
run_stores count [] pic = some pic
run_stores count ((j, i) ∷ order) pic = elim (store pic j i (count j i)) [
  | none ↦ none
  | some pic' ↦ run_stores count order pic'
]

-- The six bytes of a point: three times the count, high byte first.
unfoldable pub color : ℕ → ℕ → List ℕ
color maxiter k =
    let hi : ℕ = k / 256 % 256 in
    let lo : ℕ = k % 256 in
    if leb maxiter k then 0 ∷ 0 ∷ 0 ∷ 0 ∷ 0 ∷ 0 ∷ [] else hi ∷ lo ∷ hi ∷ lo ∷ hi ∷ lo ∷ []

-- The two loops that write the file: `rounds` columns from `i` on, and rows from `j` on.
unfoldable pub write_row : ℕ → Pic → ℕ → ℕ → ℕ → Option (List ℕ)
write_row maxiter pic j i zero = some []
write_row maxiter pic j i (suc rounds) = elim (pixel pic j i) [
  | none ↦ none
  | some k ↦ elim (write_row maxiter pic j (i + 1) rounds) [
    | none ↦ none
    | some rest ↦ some (color maxiter k ++ rest)
  ]
]

unfoldable pub write_rows : ℕ → Pic → ℕ → ℕ → ℕ → Option (List ℕ)
write_rows maxiter pic xres j zero = some []
write_rows maxiter pic xres j (suc rounds) = elim (write_row maxiter pic j 0 xres) [
  | none ↦ none
  | some row ↦ elim (write_rows maxiter pic xres (j + 1) rounds) [
    | none ↦ none
    | some rest ↦ some (row ++ rest)
  ]
]

module _ (d : Double) where
  open d use {F, of_int, to_int, add, sub, mul, div, below}

  -- The loop over the orbit of a point, with the rounds that `k < maxiter` leaves.
  unfoldable pub iterate : F → F → ℕ → ℕ → F → F → F → F → ℕ
  iterate x y zero k u v u2 v2 = k
  iterate x y (suc rounds) k u v u2 v2 =
      let v' : F = add (mul (mul (of_int 2) u) v) y in
      let u' : F = add (sub u2 v2) x in
      let rest : ℕ = iterate x y rounds (k + 1) u' v' (mul u' u') (mul v' v') in
      if below (add u2 v2) (of_int 4) then rest else k

  -- The arguments of the program.
  pub record Args : Type 0 where
    pub xmin : F
    pub xmax : F
    pub ymin : F
    pub ymax : F
    pub iterations : ℕ
    pub xres : ℕ

  -- A `uint16_t`.
  unfoldable pub maxiter : Args → ℕ
  maxiter a = a.iterations % 65536

  unfoldable pub yres : Args → ℕ
  yres a = to_int (div (mul (of_int a.xres) (sub a.ymax a.ymin)) (sub a.xmax a.xmin))

  -- What a thread computes for row `j` and column `i`.
  unfoldable pub count : Args → ℕ → ℕ → ℕ
  unfolding iterate yres
  count a j i =
      let dx : F = div (sub a.xmax a.xmin) (of_int a.xres) in
      let dy : F = div (sub a.ymax a.ymin) (of_int (yres a)) in
      let zero_of : F = of_int 0 in
      iterate (add a.xmin (mul (of_int i) dx)) (sub a.ymax (mul (of_int j) dy)) (maxiter a - 1) 1
        zero_of zero_of (mul zero_of zero_of) (mul zero_of zero_of)

  -- The points in the file, on what `r` held before its loop and on the order of the stores.
  unfoldable pub main : Args → ℕ → List (ℕ × ℕ) → Option (List ℕ)
  main a r order = elim (run_stores (count a) order (allocate r (yres a) a.xres)) [
    | none ↦ none
    | some pic ↦ write_rows (maxiter a) pic a.xres 0 (yres a)
  ]
