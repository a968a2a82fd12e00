-- ===== src/Mandelbrot/Schedule.antt =====
-- The order in which the threads of hw7/mandelbrot.c store their counts does not matter.
use systems_programming.Base.{
  ℕ, ◌-◌, ◌<◌, ◌≡◌, ◌≢◌, refl, sym, ◌∙◌, ap, ◌⊎◌, inl, inr, some, List, [], ◌∷◌, arith, length,
  get_elem?, set, replicate, length-set, length-replicate, get_elem?-set_self, get_elem?-replicate,
  if◌then◌else◌, get_elem?-set_ne, ltb, true, ℕ_discrete, subst,
}
use systems_programming.Mandelbrot.{Pic, allocate, pixel, store, run_stores}

-- All rows are allocated.
pub record IsPic (pic : Pic) (yres xres : ℕ) : Type 0 where
  pub rows : length pic ≡ yres
  pub row :
      (j : ℕ)
      → j < yres
      → (cells : List ℕ) × (get_elem? pic j ≡ some (some cells)) × (length cells ≡ xres)

-- The order has a store at row `j` and column `i`.
abbrev pub Visits : List (ℕ × ℕ) → ℕ → ℕ → Type 0
Visits [] j i = ⊥
Visits ((j', i') ∷ order) j i = ((j' ≡ j) × (i' ≡ i)) ⊎ Visits order j i

abbrev pub Within : List (ℕ × ℕ) → ℕ → ℕ → Type 0
Within [] yres xres = Unit
Within ((j, i) ∷ order) yres xres = (j < yres) × (i < xres) × Within order yres xres

pixel-row :
    (pic : Pic) (j i : ℕ) (row : List ℕ)
    → get_elem? pic j ≡ some (some row)
    → pixel pic j i ≡ get_elem? row i
unfolding pixel
pixel-row pic j i row e = rw (e, pixel) refl

pixel-same : (p q : Pic) (j i : ℕ) → get_elem? p j ≡ get_elem? q j → pixel p j i ≡ pixel q j i
unfolding pixel
pixel-same p q j i e = rw (e, pixel) refl

module _ (pic : Pic) (yres xres j i k : ℕ) (h : IsPic pic yres xres) (cells : List ℕ)
    (there : get_elem? pic j ≡ some (some cells)) (size : length cells ≡ xres) (jt : j < yres)
    (it : i < xres) where
  abbrev stored : Pic
  stored = set pic j (some (set cells i k))

  new_row : get_elem? stored j ≡ some (some (set cells i k))
  new_row = get_elem?-set_self pic j (some (set cells i k)) (omega (arith, h.rows))

  store-stored : store pic j i k ≡ some stored
  unfolding store
  store-stored =
      let fits : ltb i (length cells) ≡ true = ground arith in rw (there, store) (rw fits refl)

  stored-IsPic : IsPic stored yres xres
  stored-IsPic = record {
    rows = length-set pic j (some (set cells i k)) ∙ h.rows;
    row = λ j' lt. elim (ℕ_discrete j j') [
      | yes e ↦ (
        set cells i k,
        subst (λ t. get_elem? stored t ≡ some (some (set cells i k))) e new_row,
        length-set cells i k ∙ size,
      )
      | no ne ↦
          let (row, old, fits) = h.row j' lt in
          (row, get_elem?-set_ne pic j j' (some (set cells i k)) ne ∙ old, fits)
    ];
  }

  pixel-stored : pixel stored j i ≡ some k
  pixel-stored =
      pixel-row stored j i (set cells i k) new_row
      ∙ get_elem?-set_self cells i k (omega (arith, size))

  pixel-stored_ne : (j' i' : ℕ) → ¬ ((j ≡ j') × (i ≡ i')) → pixel stored j' i' ≡ pixel pic j' i'
  pixel-stored_ne j' i' other = elim (ℕ_discrete j j') [
    | yes e ↦
        let ne : i ≢ i' = λ q. other (e, q) in
        subst (λ t. pixel stored t i' ≡ pixel pic t i') e
          (pixel-row stored j i' (set cells i k) new_row
            ∙ get_elem?-set_ne cells i i' k ne
            ∙ sym (pixel-row pic j i' cells there))
    | no ne ↦ pixel-same stored pic j' i' (get_elem?-set_ne pic j j' (some (set cells i k)) ne)
  ]

  pixel-stored_at :
      (count : ℕ → ℕ → ℕ) (j' i' : ℕ)
      → k ≡ count j i
      → j ≡ j'
      → i ≡ i'
      → pixel stored j' i' ≡ some (count j' i')
  pixel-stored_at count j' i' right ej ei =
      subst (λ t. pixel stored t i' ≡ some (count t i')) ej
        (subst (λ t. pixel stored j t ≡ some (count j t)) ei (pixel-stored ∙ ap some right))

  -- What is still to be done behind the store.
  after_store :
      (count : ℕ → ℕ → ℕ) (order : List (ℕ × ℕ)) (j' i' : ℕ)
      → k ≡ count j i
      → (pixel pic j' i' ≡ some (count j' i')) ⊎ Visits ((j, i) ∷ order) j' i'
      → (pixel stored j' i' ≡ some (count j' i')) ⊎ Visits order j' i'
  after_store count order j' i' right (inr (inr later)) = inr later
  after_store count order j' i' right (inr (inl (ej, ei))) =
      inl (pixel-stored_at count j' i' right ej ei)
  after_store count order j' i' right (inl old) = elim (ℕ_discrete j j') [
    | no ne ↦ inl (pixel-stored_ne j' i' (λ both. ne both.0) ∙ old)
    | yes ej ↦ elim (ℕ_discrete i i') [
      | no ne ↦ inl (pixel-stored_ne j' i' (λ both. ne both.1) ∙ old)
      | yes ei ↦ inl (pixel-stored_at count j' i' right ej ei)
    ]
  ]

-- All points of a picture have their counts.
abbrev pub Counted : (ℕ → ℕ → ℕ) → Pic → ℕ → ℕ → Type 0
Counted count pic yres xres = (j i : ℕ) → j < yres → i < xres → pixel pic j i ≡ some (count j i)

-- Stores that reach every point that has not its count yet, in any order.
pub run_stores-Counted :
    (count : ℕ → ℕ → ℕ) (order : List (ℕ × ℕ)) (pic : Pic) (yres xres : ℕ)
    → IsPic pic yres xres
    → Within order yres xres
    → ((j i : ℕ) → j < yres → i < xres → (pixel pic j i ≡ some (count j i)) ⊎ Visits order j i)
    → (pic' : Pic) × (run_stores count order pic ≡ some pic')
      × IsPic pic' yres xres
      × Counted count pic' yres xres
unfolding run_stores
run_stores-Counted count [] pic yres xres h within all =
    (pic, refl, h, λ j i jt it. elim (all j i jt it) [ inl e ↦ e | inr v ↦ absurd v ])
run_stores-Counted count ((j, i) ∷ order) pic yres xres h (jt, it, within) all =
    let (cells, there, size) = h.row j jt in
    let pic₁ : Pic = set pic j (some (set cells i (count j i))) in
    let (pic', ran, h', counted) =
      run_stores-Counted count order pic₁ yres xres
        (stored-IsPic pic yres xres j i (count j i) h cells there size jt it) within
        (λ j' i' jt' it'.
          after_store pic yres xres j i (count j i) h cells there size jt it count order j' i' refl
            (all j' i' jt' it')) in
    (
      pic',
      rw (store-stored pic yres xres j i (count j i) h cells there size jt it, run_stores) ran,
      h',
      counted,
    )

pub allocate-IsPic : (yres xres : ℕ) → IsPic (allocate 0 yres xres) yres xres
unfolding allocate
allocate-IsPic yres xres =
    let nothing : (if ltb yres 0 then yres else 0) ≡ 0 = ground arith in
    let all : yres - 0 ≡ yres = omega arith in
    rw (nothing, all)
      (record {
        rows = length-replicate yres (some (replicate xres 0));
        row = λ j lt. (
          replicate xres 0,
          get_elem?-replicate yres (some (replicate xres 0)) j lt,
          length-replicate xres 0,
        );
      })
