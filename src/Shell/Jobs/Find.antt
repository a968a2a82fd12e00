-- ===== src/Shell/Jobs/Find.antt =====
-- The loops over the job list: what an index or a NULL from them means.
use systems_programming.Base.{
  ℕ, zero, suc, ◌≤◌, ◌<◌, ◌≡◌, ◌≢◌, refl, Bool, true, false, none, some, List, [], ◌∷◌, set, length,
  arith, ap, ltb, if◌then◌else◌, ◌==◌, ℕ_discrete,
}
use systems_programming.Shell.Jobs.{Job, job_at, find_first, maxjid_from, maxjid}

-- The index is the first whose entry passes.
pub record FoundAt (test : Job → Bool) (js : List Job) (i : ℕ) : Type 0 where
  pub within : i < length js
  pub passes : test (job_at js i) ≡ true
  pub first : (k : ℕ) → k < i → test (job_at js k) ≡ false

FoundAt-suc :
    {test : Job → Bool} {js : List Job} {i : ℕ} (j : Job)
    → test j ≡ false
    → FoundAt test js i
    → FoundAt test (j ∷ js) (suc i)
FoundAt-suc {test} {js} {i} j fails f = record {
  within = omega (arith, f.within);
  passes = f.passes;
  first = before;
}
  where
    before : (k : ℕ) → k < suc i → test (job_at (j ∷ js) k) ≡ false
    before zero lt = fails
    before (suc k) lt = f.first k (omega arith)

pub find_first-some :
    (test : Job → Bool) (js : List Job) (i : ℕ) → find_first test js ≡ some i → FoundAt test js i
unfolding find_first
find_first-some test [] i h = absurd (ground arith)
find_first-some test (j ∷ js) zero h = record {
  within = omega arith;
  passes = ground arith;
  first = λ k lt. absurd (omega arith);
}
find_first-some test (j ∷ js) (suc i) h =
    FoundAt-suc j (ground arith) (find_first-some test js i (ground arith))

-- NULL means that no entry passes.
pub find_first-none :
    (test : Job → Bool) (js : List Job)
    → find_first test js ≡ none
    → (k : ℕ) → k < length js
    → test (job_at js k) ≡ false
unfolding find_first
find_first-none test [] h k lt = absurd (omega arith)
find_first-none test (j ∷ js) h zero lt = ground arith
find_first-none test (j ∷ js) h (suc k) lt = find_first-none test js (ground arith) k (omega arith)

pub find_first-eq-none :
    (test : Job → Bool) (js : List Job)
    → ((k : ℕ) → k < length js → test (job_at js k) ≡ false)
    → find_first test js ≡ none
unfolding find_first
find_first-eq-none test [] h = refl
find_first-eq-none test (j ∷ js) h =
    ground (arith, h 0, find_first-eq-none test js (λ k lt. h (suc k) (omega arith)))

-- An entry that passes, with none before it, is the one that is found.
pub find_first-eq-some :
    (test : Job → Bool) (js : List Job) (i : ℕ) → FoundAt test js i → find_first test js ≡ some i
unfolding find_first
find_first-eq-some test [] i f = absurd (omega (arith, f.within))
find_first-eq-some test (j ∷ js) zero f = ground (arith, f.passes)
find_first-eq-some test (j ∷ js) (suc i) f = ground (
  arith,
  f.first 0,
  find_first-eq-some test js i (record {
    within = omega (arith, f.within);
    passes = f.passes;
    first = λ k lt. f.first (suc k) (omega arith);
  }),
)

pub job_at-set_self : (js : List Job) (i : ℕ) (j : Job) → i < length js → job_at (set js i j) i ≡ j
job_at-set_self [] i j h = absurd (omega arith)
job_at-set_self (x ∷ js) zero j h = refl
job_at-set_self (x ∷ js) (suc i) j h = job_at-set_self js i j (omega arith)

pub job_at-set_ne :
    (js : List Job) (i k : ℕ) (j : Job) → i ≢ k → job_at (set js i j) k ≡ job_at js k
job_at-set_ne [] i k j h = refl
job_at-set_ne (x ∷ js) zero zero j h = absurd (h refl)
job_at-set_ne (x ∷ js) zero (suc k) j h = refl
job_at-set_ne (x ∷ js) (suc i) zero j h = refl
job_at-set_ne (x ∷ js) (suc i) (suc k) j h = job_at-set_ne js i k j (λ e. h (ap suc e))

pub job_at-set :
    (js : List Job) (i k : ℕ) (j : Job)
    → i < length js
    → job_at (set js i j) k ≡ (if i == k then j else job_at js k)
job_at-set js i k j h = elim (ℕ_discrete i k) [
  | yes e ↦ ground (arith, job_at-set_self js i j h)
  | no ne ↦ ground (arith, job_at-set_ne js i k j ne)
]

maxjid_from-ge : (m : ℕ) (js : List Job) → m ≤ maxjid_from m js
unfolding maxjid_from
maxjid_from-ge m [] = omega arith
maxjid_from-ge m (j ∷ js) = ground (arith, maxjid_from-ge m js, maxjid_from-ge j.jid js)

maxjid_from-bound :
    (m : ℕ) (js : List Job) (i : ℕ) → i < length js → (job_at js i).jid ≤ maxjid_from m js
unfolding maxjid_from
maxjid_from-bound m [] i h = absurd (omega arith)
maxjid_from-bound m (j ∷ js) zero h = ground (arith, maxjid_from-ge m js, maxjid_from-ge j.jid js)
maxjid_from-bound m (j ∷ js) (suc i) h =
    maxjid_from-bound (if ltb m j.jid then j.jid else m) js i (omega arith)

-- No entry has a number above `maxjid`.
pub jid-le-maxjid : (js : List Job) (i : ℕ) → i < length js → (job_at js i).jid ≤ maxjid js
unfolding maxjid
jid-le-maxjid js i h = maxjid_from-bound 0 js i h
