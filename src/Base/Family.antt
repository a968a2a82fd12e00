-- ===== src/Base/Family.antt =====
-- Families `ℕ → A` indexed by thread: an update at one index, weighted sums over the first `k`.
use Prim.Native.Nat.{ℕ, zero, suc, ◌+◌, ◌*◌, ◌≤◌, ◌<◌}
use mathlib.Core.Path.{◌≡◌, refl}
use mathlib.Core.Logic.{◌≢◌, ite, if_pos, if_neg}
use mathlib.Core.List.{List, [], ◌∷◌, ◌++◌}
use native.Mathlib.Decide.{dec_lt, ℕ_discrete}
use native.Mathlib.Nat.{mul-suc}
use native.Mathlib.Omega.{arith}

abbrev pub update {ℓ} : {A : Type ℓ} → (ℕ → A) → ℕ → A → ℕ → A
update c t x u = ite (ℕ_discrete t u) x (c u)

module _ {ℓ} {A : Type ℓ} (c : ℕ → A) (t : ℕ) (x : A) where
  pub update_self : (u : ℕ) → t ≡ u → update c t x u ≡ x
  update_self u e = if_pos (ℕ_discrete t u) e x (c u)

  pub update_other : (u : ℕ) → t ≢ u → update c t x u ≡ c u
  update_other u ne = if_neg (ℕ_discrete t u) ne x (c u)

module _ {ℓ} {A : Type ℓ} (weigh : A → ℕ) where
  unfoldable pub tally : ℕ → (ℕ → A) → ℕ
  tally zero c = 0
  tally (suc k) c = tally k c + weigh (c k)

  tally-update_of_le :
      (k : ℕ) (c : ℕ → A) (t : ℕ) (x : A) → k ≤ t → tally k (update c t x) ≡ tally k c
  unfolding tally
  tally-update_of_le zero c t x p = refl
  tally-update_of_le (suc k) c t x p = ground (arith, tally-update_of_le k c t x)

  pub tally-update :
      (k : ℕ) (c : ℕ → A) (t : ℕ) (x : A)
      → t < k
      → tally k (update c t x) + weigh (c t) ≡ tally k c + weigh x
  unfolding tally
  tally-update zero c t x p = absurd (omega arith)
  tally-update (suc k) c t x p = elim (dec_lt t k) [
    | yes inner ↦ ground (arith, tally-update k c t x inner)
    | no outer ↦ ground (arith, tally-update_of_le k c t x)
  ]

  pub weight-le-tally : (k : ℕ) (c : ℕ → A) (t : ℕ) → t < k → weigh (c t) ≤ tally k c
  unfolding tally
  weight-le-tally zero c t p = absurd (omega arith)
  weight-le-tally (suc k) c t p = elim (ℕ_discrete t k) [
    | yes e ↦ ground arith
    | no ne ↦ omega (arith, weight-le-tally k c t (omega arith))
  ]

  -- Two distinct members both count.
  pub weights-le-tally :
      (k : ℕ) (c : ℕ → A) (t u : ℕ) → t < k → u < k → t ≢ u → weigh (c t) + weigh (c u) ≤ tally k c
  unfolding tally
  weights-le-tally zero c t u hi hj ne = absurd (omega arith)
  weights-le-tally (suc k) c t u hi hj ne = elim (ℕ_discrete t k) [
    | yes e ↦ ground (arith, weight-le-tally k c u)
    | no p ↦ elim (ℕ_discrete u k) [
      | yes e ↦ ground (arith, weight-le-tally k c t)
      | no q ↦ omega (arith, weights-le-tally k c t u (omega arith) (omega arith) ne)
    ]
  ]

  pub tally-eq-zero : (k : ℕ) (c : ℕ → A) → ((t : ℕ) → t < k → weigh (c t) ≡ 0) → tally k c ≡ 0
  unfolding tally
  tally-eq-zero zero c p = refl
  tally-eq-zero (suc k) c p =
      omega (arith, p k (omega arith), tally-eq-zero k c (λ t q. p t (omega arith)))

  -- A sum that is not zero has a member that counts.
  pub tally-pos : (k : ℕ) (c : ℕ → A) → 0 < tally k c → (t : ℕ) × (t < k) × (0 < weigh (c t))
  unfolding tally
  tally-pos zero c p = absurd (omega arith)
  tally-pos (suc k) c p = elim (dec_lt 0 (weigh (c k))) [
    | yes own ↦ (k, omega arith, own)
    | no rest ↦ let (t, lt, pos) = tally-pos k c (omega arith) in (t, omega arith, pos)
  ]

  -- The same over a list.
  unfoldable pub total : List A → ℕ
  total [] = 0
  total (x ∷ xs) = weigh x + total xs

  pub total-append : (xs ys : List A) → total (xs ++ ys) ≡ total xs + total ys
  unfolding total
  total-append [] ys = omega arith
  total-append (x ∷ xs) ys = omega (arith, total-append xs ys)

  pub total-nil : total [] ≡ 0
  unfolding total
  total-nil = refl

  pub total-single : (x : A) → total (x ∷ []) ≡ weigh x
  unfolding total
  total-single x = omega arith

module _ {ℓ} {A : Type ℓ} (weigh : A → ℕ) (most : ℕ) where
  -- A sum of members that are bounded.
  pub tally-le :
      (k : ℕ) (c : ℕ → A) → ((t : ℕ) → t < k → weigh (c t) ≤ most) → tally weigh k c ≤ most * k
  unfolding tally
  tally-le zero c p = omega arith
  tally-le (suc k) c p =
      omega (arith, mul-suc most k, p k (omega arith), tally-le k c (λ t q. p t (omega arith)))

  -- With one member set apart.
  pub tally-le_others :
      (k : ℕ) (c : ℕ → A) (t : ℕ)
      → ((u : ℕ) → u < k → weigh (c u) ≤ most)
      → t < k
      → tally weigh k c + most ≤ most * k + weigh (c t)
  unfolding tally
  tally-le_others zero c t p q = absurd (omega arith)
  tally-le_others (suc k) c t p q = elim (ℕ_discrete t k) [
    | yes e ↦
        let same : weigh (c t) ≡ weigh (c k) = rw e refl in
        omega (arith, mul-suc most k, tally-le k c (λ u r. p u (omega arith)))
    | no ne ↦ omega (
      arith,
      mul-suc most k,
      p k (omega arith),
      tally-le_others k c t (λ u r. p u (omega arith)) (omega arith),
    )
  ]
