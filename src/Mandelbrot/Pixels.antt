-- ===== src/Mandelbrot/Pixels.antt =====
-- What the file of hw7/mandelbrot.c says of the counts.
use mathlib.Core.List.{append_assoc}
use systems_programming.Base.{
  ℕ, zero, suc, ◌+◌, ◌*◌, ◌/◌, ◌%◌, ◌<◌, ◌≤◌, ◌≡◌, refl, ap, ◌∙◌, inl, inr, some, List, [], ◌∷◌,
  ◌++◌, arith, length, length-append, leb, if◌then◌else◌, false, Bool-cases,
}
use systems_programming.Mandelbrot.{
  Pic, allocate, color, write_row, write_rows, Double, Args, maxiter, yres, count, main,
}
use systems_programming.Mandelbrot.Schedule.{
  Visits, Within, Counted, run_stores-Counted, allocate-IsPic,
}

-- Red, green and blue of a point.
abbrev pub Rgb : Type 0
Rgb = ℕ × ℕ × ℕ

-- The points that bytes stand for, by the format of a file with numbers of two bytes.
abbrev pub samples : List ℕ → List Rgb
samples (r ∷ r' ∷ g ∷ g' ∷ b ∷ b' ∷ rest) =
    (r * 256 + r', g * 256 + g', b * 256 + b') ∷ samples rest
samples _ = []

-- Black within the set, and a grey outside.
abbrev pub shade : ℕ → ℕ → Rgb
shade most k = if leb most k then (0, 0, 0) else (k, k, k)

module _ (most : ℕ) (counts : ℕ → ℕ → ℕ) where
  -- The shades of `rounds` columns from `i` on, and of rows from `j` on.
  abbrev pub row_of : ℕ → ℕ → ℕ → List Rgb
  row_of j i zero = []
  row_of j i (suc rounds) = shade most (counts j i) ∷ row_of j (i + 1) rounds

  abbrev pub rows_of : ℕ → ℕ → ℕ → List Rgb
  rows_of xres j zero = []
  rows_of xres j (suc rounds) = row_of j 0 xres ++ rows_of xres (j + 1) rounds

-- Bytes that say `shades`, in front of any others.
pub record Says (bytes : List ℕ) (shades : List Rgb) : Type 0 where
  pub six : length bytes ≡ 6 * length shades
  pub reads : (rest : List ℕ) → samples (bytes ++ rest) ≡ shades ++ samples rest

two_bytes : (k : ℕ) → k < 65536 → k / 256 % 256 * 256 + k % 256 ≡ k
two_bytes k h = omega arith

below : (most k : ℕ) → leb most k ≡ false → k < most
below most k e = ground arith

color-Says : (most k : ℕ) → most ≤ 65535 → Says (color most k) (shade most k ∷ [])
unfolding color
color-Says most k small = elim (Bool-cases (leb most k)) [
  | inl inner ↦ rw inner (record { six = refl; reads = λ rest. refl })
  | inr outer ↦ rw outer (record {
    six = refl;
    reads = λ rest.
        ap (λ t. (t, t, t) ∷ samples rest) (two_bytes k (omega (arith, below most k outer)));
  })
]

append-Says : (a b : List ℕ) (s t : List Rgb) → Says a s → Says b t → Says (a ++ b) (s ++ t)
append-Says a b s t h k = record {
  six = omega (arith, h.six, k.six, length-append a b, length-append s t);
  reads = λ rest.
      rw (append_assoc a b rest, append_assoc s t (samples rest))
        (h.reads (b ++ rest) ∙ ap (λ u. s ++ u) (k.reads rest));
}

module _ (most : ℕ) (counts : ℕ → ℕ → ℕ) (pic : Pic) (height width : ℕ) (small : most ≤ 65535)
    (right : Counted counts pic height width) where
  write_row-Says :
      (rounds j i : ℕ)
      → j < height
      → i + rounds ≤ width
      → (bytes : List ℕ) × (write_row most pic j i rounds ≡ some bytes)
        × Says bytes (row_of most counts j i rounds)
  unfolding write_row
  write_row-Says zero j i jt le = ([], refl, record { six = refl; reads = λ rest. refl })
  write_row-Says (suc rounds) j i jt le =
      let (bytes, wrote, says) = write_row-Says rounds j (i + 1) jt (omega arith) in
      (
        color most (counts j i) ++ bytes,
        rw (right j i jt (omega arith), write_row) (rw wrote refl),
        append-Says (color most (counts j i)) bytes (shade most (counts j i) ∷ [])
            (row_of most counts j (i + 1) rounds) (color-Says most (counts j i) small) says,
      )

  write_rows-Says :
      (rounds j : ℕ)
      → j + rounds ≤ height
      → (bytes : List ℕ) × (write_rows most pic width j rounds ≡ some bytes)
        × Says bytes (rows_of most counts width j rounds)
  unfolding write_rows
  write_rows-Says zero j le = ([], refl, record { six = refl; reads = λ rest. refl })
  write_rows-Says (suc rounds) j le =
      let (row, wrote_row, says_row) = write_row-Says width j 0 (omega arith) (omega arith) in
      let (bytes, wrote, says) = write_rows-Says rounds (j + 1) (omega arith) in
      (
        row ++ bytes,
        rw (wrote_row, write_rows) (rw wrote refl),
        append-Says row bytes (row_of most counts j 0 width)
            (rows_of most counts width (j + 1) rounds) says_row says,
      )

-- If `r` holds 0: in whatever order the threads store, as long as each
-- point is stored, the file says the counts row by row, with 0 for those that reach `maxiter`.
pub main-Says :
    (d : Double) (a : Args d) (order : List (ℕ × ℕ))
    → Within order (yres d a) a.xres
    → ((j i : ℕ) → j < yres d a → i < a.xres → Visits order j i)
    → (bytes : List ℕ) × (main d a 0 order ≡ some bytes)
      × Says bytes (rows_of (maxiter d a) (count d a) a.xres 0 (yres d a))
unfolding main maxiter
main-Says d a order within all =
    let (pic, ran, is_pic, counted) =
      run_stores-Counted (count d a) order (allocate 0 (yres d a) a.xres) (yres d a) a.xres
        (allocate-IsPic (yres d a) a.xres) within (λ j i jt it. inr (all j i jt it)) in
    let (bytes, wrote, says) =
      write_rows-Says (maxiter d a) (count d a) pic (yres d a) a.xres (omega arith) counted
        (yres d a) 0 (omega arith) in
    (bytes, rw (ran, main) wrote, says)
