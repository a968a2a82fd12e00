-- ===== src/Cache/Threads/Search.antt =====
-- The search of `cache_find_object` among other threads, against the search of a thread that is alone.
use systems_programming.Base.{
  ℕ, suc, ◌+◌, ◌%◌, ◌<◌, ◌≡◌, ◌≢◌, ◌==◌, refl, ◌⊎◌, inl, inr, sym, ap, ◌∙◌, true, false, Option,
  none, some, arith, get_elem?, if◌then◌else◌, CStr, str_eq, ℕ_discrete, subst,
}
use systems_programming.Base.Family.{update_self, update_other}
use systems_programming.Sbuf.{Outcome, done, undefined}
use systems_programming.Cache.{CacheObject, Cache, find_from}
use systems_programming.Cache.Threads.{
  Pc, insert_store, find_unlock, find_loop, find_crashed, leave_wait, leave_count, Move,
  store_object, unlock_find, loop_end, loop_found, loop_next, loop_null, loop_outside, lock_leave,
  System, Step, pick, Reach, later,
}
use systems_programming.Cache.Threads.Exclusion.{reading, writing, writer_alone}

-- What the search reads is the same.
pub record SameArray (m m' : Cache) : Type 0 where
  pub buf : m'.buf ≡ m.buf
  pub n : m'.n ≡ m.n
  pub front : m'.front ≡ m.front
  pub rear : m'.rear ≡ m.rear

SameArray-refl : (m : Cache) → SameArray m m
SameArray-refl m = record { buf = refl; n = refl; front = refl; rear = refl }

SameArray-trans : {a b c : Cache} → SameArray a b → SameArray b c → SameArray a c
SameArray-trans h k = record {
  buf = k.buf ∙ h.buf;
  n = k.n ∙ h.n;
  front = k.front ∙ h.front;
  rear = k.rear ∙ h.rear;
}

-- A move that is not a store.
Move-SameArray : {m m' : Cache} {p p' : Pc} → Move m p m' p' → writing p ≡ 0 → SameArray m m'
Move-SameArray {m} (store_object {object} a b) w = absurd (omega arith)
Move-SameArray {m} _ w = record { buf = refl; n = refl; front = refl; rear = refl }

-- Further steps, in all of which thread `i` is among the readers.
pub data Within (k i : ℕ) (s : System) : System → Type 0 where
  stay : Within k i s s
  step : {t u : System} → Within k i s t → Step k t u → reading (u.pc i) ≡ 1 → Within k i s u

-- One round of the search, by its outcome.
module _ (m : Cache) (url : CStr) (index : ℕ) where
  find_end : (fuel : ℕ) → index ≡ m.rear → find_from (suc fuel) m url index ≡ some (done none)
  unfolding find_from
  find_end fuel e = let test : (index == m.rear) ≡ true = ground arith in rw test refl

  module _ (fuel : ℕ) (more : index ≢ m.rear) where
    not_end : (index == m.rear) ≡ false
    not_end = ground arith

    find_outside : get_elem? m.buf index ≡ none → find_from (suc fuel) m url index ≡ some undefined
    unfolding find_from
    find_outside e = rw not_end (rw e refl)

    find_null :
        (object : CacheObject)
        → get_elem? m.buf index ≡ some object
        → object.url ≡ none
        → find_from (suc fuel) m url index ≡ some undefined
    unfolding find_from
    find_null object e null = rw not_end (rw e (rw null refl))

    find_compared :
        (object : CacheObject) (u : CStr)
        → get_elem? m.buf index ≡ some object
        → object.url ≡ some u
        → find_from (suc fuel) m url index ≡ (
            if str_eq u url
            then some (done (some index))
            else find_from fuel m url ((index + 1) % m.n))
    unfolding find_from
    find_compared object u e there = rw not_end (rw e (rw there refl))

module _ (m₀ : Cache) (url : CStr) where
  -- Where a thread stands, against the search on `m₀` from `front` on.
  abbrev Agrees : Pc → Type 0
  Agrees (find_unlock url') = url' ≡ url
  Agrees (find_loop url' index) =
      (url' ≡ url)
      × (r : ℕ) × ((fuel : ℕ) → find_from (r + fuel) m₀ url m₀.front ≡ find_from fuel m₀ url index)
  Agrees find_crashed = (fuel : ℕ) × (find_from fuel m₀ url m₀.front ≡ some undefined)
  Agrees (leave_wait found) = (fuel : ℕ) × (find_from fuel m₀ url m₀.front ≡ some (done found))
  Agrees (leave_count found) = (fuel : ℕ) × (find_from fuel m₀ url m₀.front ≡ some (done found))
  Agrees _ = Unit

  Move-Agrees :
      {m m' : Cache} {p p' : Pc}
      → Move m p m' p'
      → SameArray m₀ m
      → reading p ≡ 1
      → reading p' ≡ 1
      → Agrees p
      → Agrees p'
  Move-Agrees unlock_find a h h' g = (
    g,
    0,
    λ fuel.
        ap (λ t. find_from t m₀ url m₀.front) (omega arith)
        ∙ ap (find_from fuel m₀ url) (sym a.front),
  )
  Move-Agrees (loop_end {index} e) a h h' (same, r, f) =
      (r + 1, f 1 ∙ find_end m₀ url index 0 (e ∙ a.rear))
  Move-Agrees (loop_found {url = url'} {index} {object} {u} e b c q) a h h' (same, r, f) =
      let equal : str_eq u url ≡ true = ap (str_eq u) (sym same) ∙ q in
      (
        r + 1,
        f 1
            ∙ find_compared m₀ url index 0 (λ t. e (t ∙ sym a.rear)) object u
                (ap (λ t. get_elem? t index) (sym a.buf) ∙ b) c
            ∙ ap
                (λ t.
                  if t then some (done (some index)) else find_from 0 m₀ url ((index + 1) % m₀.n))
                equal,
      )
  Move-Agrees (loop_next {url = url'} {index} {object} {u} e b c q) a h h' (same, r, f) =
      let other : str_eq u url ≡ false = ap (str_eq u) (sym same) ∙ q in
      (
        same,
        r + 1,
        λ fuel.
            ap (λ t. find_from t m₀ url m₀.front) (omega arith)
            ∙ f (suc fuel)
            ∙ find_compared m₀ url index fuel (λ t. e (t ∙ sym a.rear)) object u
                (ap (λ t. get_elem? t index) (sym a.buf) ∙ b) c
            ∙ ap
                (λ t.
                  if t
                  then some (done (some index))
                  else find_from fuel m₀ url ((index + 1) % m₀.n))
                other
            ∙ ap (λ t. find_from fuel m₀ url ((index + 1) % t)) (sym a.n),
      )
  Move-Agrees (loop_null {index} {object} e b c) a h h' (same, r, f) = (
    r + 1,
    f 1
        ∙ find_null m₀ url index 0 (λ q. e (q ∙ sym a.rear)) object
            (ap (λ t. get_elem? t index) (sym a.buf) ∙ b) c,
  )
  Move-Agrees (loop_outside {index} e b) a h h' (same, r, f) = (
    r + 1,
    f 1
        ∙ find_outside m₀ url index 0 (λ q. e (q ∙ sym a.rear))
            (ap (λ t. get_elem? t index) (sym a.buf) ∙ b),
  )
  Move-Agrees (lock_leave lt) a h h' g = g
  Move-Agrees _ a h h' g = absurd (omega arith)

writing_cases : (p : Pc) → (writing p ≡ 0) ⊎ (writing p ≡ 1)
writing_cases (insert_store object) = inr refl
writing_cases p = ground arith

-- While thread `i` reads, no thread is about to store.
not_writing :
    {k n : ℕ} {t : System} (i j : ℕ)
    → Reach k n t
    → i < k
    → j < k
    → reading (t.pc i) ≡ 1
    → writing (t.pc j) ≡ 0
not_writing {t} i j r it jt h = elim (writing_cases (t.pc j)) [
  | inl e ↦ e
  | inr w ↦ absurd (omega (arith, (writer_alone r j i jt it w).0))
]

Step-Agrees :
    {k n : ℕ} {t u : System} (m₀ : Cache) (url : CStr) (i : ℕ)
    → Step k t u
    → Reach k n t
    → i < k
    → SameArray m₀ t.mem
    → reading (t.pc i) ≡ 1
    → reading (u.pc i) ≡ 1
    → Agrees m₀ url (t.pc i)
    → SameArray m₀ u.mem × Agrees m₀ url (u.pc i)
Step-Agrees {t} m₀ url i (pick j {p = p} jt mv) r it a h h' g = (
  SameArray-trans a (Move-SameArray mv (not_writing i j r it jt h)),
  elim (ℕ_discrete j i) [
    | yes e ↦ rw (update_self t.pc j p i e) (
        Move-Agrees m₀ url mv a (ap (λ l. reading (t.pc l)) e ∙ h)
          (rw (update_self t.pc j p i e) at h') (subst (λ l. Agrees m₀ url (t.pc l)) (sym e) g))
    | no ne ↦ rw (update_other t.pc j p i ne) g
  ],
)

-- How the search of a thread has come out, where it is behind its loop.
abbrev pub came_out : Pc → Option (Outcome (Option ℕ))
came_out find_crashed = some undefined
came_out (leave_wait found) = some (done found)
came_out _ = none

came_out-Agrees :
    (m : Cache) (url : CStr) (p : Pc) (result : Outcome (Option ℕ))
    → came_out p ≡ some result
    → Agrees m url p
    → (fuel : ℕ) × (find_from fuel m url m.front ≡ some result)
came_out-Agrees m url find_crashed result e (fuel, g) = (fuel, g ∙ e)
came_out-Agrees m url (leave_wait found) result e (fuel, g) = (fuel, g ∙ e)
came_out-Agrees m url _ result e g = cc

module _ {k n i : ℕ} {url : CStr} {s : System} where
  along :
      {t : System}
      → Within k i s t
      → Reach k n s
      → i < k
      → s.pc i ≡ find_unlock url
      → Reach k n t × SameArray s.mem t.mem × (reading (t.pc i) ≡ 1) × Agrees s.mem url (t.pc i)
  along stay r it begins =
      (r, SameArray-refl s.mem, ap reading begins, subst (Agrees s.mem url) (sym begins) refl)
  along (step w st h) r it begins =
      let (rt, a, before, g) = along w r it begins in
      let (a', g') = Step-Agrees s.mem url i st rt it a before h g in (later rt st, a', h, g')

  -- From a state that threads reach from `cache_init`, where thread `i` has just been counted as a reader:
  -- whatever the others do meanwhile, the array stays as it is while `i` reads, and its search comes
  -- out as a search alone on it: both find the same, or both leave the array or meet a NULL url.
  pub search_alone :
      {t : System} (result : Outcome (Option ℕ))
      → Reach k n s
      → i < k
      → s.pc i ≡ find_unlock url
      → Within k i s t
      → came_out (t.pc i) ≡ some result
      → SameArray s.mem t.mem × ((fuel : ℕ) × (find_from fuel s.mem url s.mem.front ≡ some result))
  search_alone {t} result r it begins w ends =
      let (rt, a, before, g) = along w r it begins in
      (a, came_out-Agrees s.mem url (t.pc i) result ends g)
