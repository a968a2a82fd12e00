-- ===== src/Cache/Threads/Sizes.antt =====
-- The sum of the sizes in the cache under any number of threads. `cache_insert` tests it before it
-- locks, so that several threads may have passed the test when they store.
use systems_programming.Base.{
  ℕ, ◌+◌, ◌*◌, ◌≤◌, ◌<◌, ◌≡◌, refl, ◌⊎◌, inl, inr, List, [], ◌∷◌, ◌++◌, arith, ℕ_discrete,
}
use mathlib.Core.Logic.{if_pos, if_neg}
use systems_programming.Base.Family.{tally, tally-update, tally-eq-zero, tally-le_others}
use systems_programming.Cache.{CacheObject, Cache, cache_init, max_object_size, max_cache_size}
use systems_programming.Cache.Laws.{total_size}
use systems_programming.Cache.Threads.{
  Pc, idle, insert_wait, insert_store, insert_size, Move, call_insert, lock_insert, store_object,
  add_size, stored, System, Step, pick, Reach, start, later,
}
use systems_programming.Cache.Threads.Exclusion.{writing}

-- The size of an object that is stored and not yet added up.
abbrev pub adding : Pc → ℕ
adding (insert_size o) = o.size
adding _ = 0

-- The size of an object that has passed the tests and is not yet added up.
abbrev pub planned : Pc → ℕ
planned (insert_wait o) = o.size
planned (insert_store o) = o.size
planned (insert_size o) = o.size
planned _ = 0

-- The sum of the sizes of what is stored, and the limit with one object more for each other thread.
record Sums (k : ℕ) (s : System) : Type 0 where
  each : (j : ℕ) → j < k → planned (s.pc j) ≤ max_object_size
  whole : s.mem.size + tally adding k s.pc ≡ total_size s.puts
  limit : s.mem.size + tally planned k s.pc + max_object_size ≤ max_cache_size + max_object_size * k

Move-planned :
    {m m' : Cache} {p p' : Pc}
    → Move m p m' p'
    → planned p ≤ max_object_size
    → planned p' ≤ max_object_size
Move-planned (call_insert o h q) b = h
Move-planned (lock_insert h) b = b
Move-planned (store_object h q) b = b
Move-planned mv b = ground arith

-- How a move changes the sum of the sizes.
Move-whole :
    {m m' : Cache} {p p' : Pc} (mv : Move m p m' p')
    → m'.size + adding p' ≡ m.size + adding p + total_size (stored mv)
Move-whole (store_object h q) = omega arith
Move-whole add_size = omega arith
Move-whole mv = ground arith

-- Only a call that passes the tests plans more than before.
Move-limit :
    {m m' : Cache} {p p' : Pc}
    → Move m p m' p'
    → (m'.size + planned p' ≤ m.size + planned p)
      ⊎ ((m'.size ≡ m.size) × (planned p ≡ 0) × (planned p' + m.size ≤ max_cache_size))
Move-limit (call_insert o h q) = inr (refl, refl, q)
Move-limit add_size = inl (omega arith)
Move-limit mv = inl (ground arith)

total_size-joined :
    (os ps : List CacheObject) → total_size (os ++ ps) ≡ total_size os + total_size ps
total_size-joined [] ps = omega arith
total_size-joined (o ∷ os) ps = omega (arith, total_size-joined os ps)

Step-each :
    {k : ℕ} {s t : System}
    → Step k s t
    → ((j : ℕ) → j < k → planned (s.pc j) ≤ max_object_size)
    → (j : ℕ) → j < k
    → planned (t.pc j) ≤ max_object_size
Step-each {k} {s} (pick i {p} lt mv) old j h = elim (ℕ_discrete i j) [
  | yes e ↦ rw (if_pos (ℕ_discrete i j) e p (s.pc j)) (Move-planned mv (old i lt))
  | no ne ↦ rw (if_neg (ℕ_discrete i j) ne p (s.pc j)) (old j h)
]

Step-Sums : {k : ℕ} {s t : System} → Step k s t → Sums k s → Sums k t
Step-Sums {k} {s} (pick i {m} {p} lt mv) v = record {
  each = Step-each {s = s} (pick i lt mv) v.each;
  whole = omega (
    arith,
    v.whole,
    Move-whole mv,
    tally-update adding k s.pc i p lt,
    total_size-joined s.puts (stored mv),
  );
  limit = elim (Move-limit mv) [
    | inl le ↦ omega (arith, v.limit, tally-update planned k s.pc i p lt)
    | inr (same, free, fits) ↦ omega (
      arith,
      tally-update planned k s.pc i p lt,
      tally-le_others planned max_object_size k s.pc i v.each lt,
    )
  ];
}

Reach-Sums : {k n : ℕ} {s : System} → Reach k n s → 0 < k → Sums k s
unfolding cache_init
Reach-Sums {k} start pos = record {
  each = λ j h. omega arith;
  whole = omega (arith, tally-eq-zero adding k (λ _. idle) (λ _ _. refl));
  limit = omega (arith, tally-eq-zero planned k (λ _. idle) (λ _ _. refl));
}
Reach-Sums (later r st) pos = Step-Sums st (Reach-Sums r pos)

-- In a state that `k` threads reach from `cache_init`: `size` is at most `MAX_CACHE_SIZE` and one
-- object of `MAX_OBJECT_SIZE` for each thread but one; and while no thread is between the locks of
-- `cache_insert`, it is the sum of the sizes of all the objects that were stored.
pub size_bound :
    {k n : ℕ} {s : System}
    → Reach k n s
    → 0 < k
    → (s.mem.size + max_object_size ≤ max_cache_size + max_object_size * k)
      × (((i : ℕ) → i < k → writing (s.pc i) ≡ 0) → s.mem.size ≡ total_size s.puts)
size_bound {k} {s = s} r pos = (
  omega (arith, (Reach-Sums r pos).limit),
  λ quiet. omega (
    arith,
    (Reach-Sums r pos).whole,
    tally-eq-zero adding k s.pc (λ i h. none_of (s.pc i) (quiet i h)),
  ),
)
  where
    none_of : (p : Pc) → writing p ≡ 0 → adding p ≡ 0
    none_of (insert_size o) h = absurd (omega arith)
    none_of p h = ground arith
