-- ===== src/Cache/Threads/Progress.antt =====
-- The threads of the cache do not wait for one another for ever.
use systems_programming.Base.{
  ℕ, ◌+◌, ◌%◌, ◌≤◌, ◌<◌, ◌≡◌, refl, Bool, true, false, ◌⊎◌, inl, inr, arith, get_elem?, length,
  dec_lt, ℕ_discrete, Bool-cases, Option-cases, str_eq, CStr,
}
use systems_programming.Base.Family.{tally, tally-pos, weight-le-tally}
use systems_programming.Sbuf.{int_max}
use systems_programming.Cache.{Cache, cache_init}
use systems_programming.Cache.Threads.{
  Pc, idle, insert_wait, insert_store, insert_size, insert_post, insert_crashed, find_wait,
  find_count, find_first, find_unlock, find_loop, find_crashed, leave_wait, leave_count, leave_last,
  leave_unlock, Move, pick, start, later, store_object, store_outside, add_size, unlock_insert,
  count_reader, first_reader, later_reader, unlock_find, loop_end, loop_found, loop_next, loop_null,
  loop_outside, lock_leave, uncount_reader, last_reader, not_last_reader, unlock_leave, System,
  Reach,
}
use systems_programming.Cache.Threads.Exclusion.{holding, entering, leaving, writing, Reach-Counts}

-- Not between the first `sem_wait` of a call and its last `sem_post`, and not past an undefined access.
abbrev pub outside : Pc → Bool
outside idle = true
outside (insert_wait _) = true
outside (find_wait _) = true
outside _ = false

abbrev pub IsAlive : Pc → Type 0
IsAlive insert_crashed = ⊥
IsAlive find_crashed = ⊥
IsAlive _ = Unit

-- A thread that stands at `p` can take a step.
abbrev pub Enabled : Cache → Pc → Type 0
Enabled m p = (m' : Cache) × (p' : Pc) × Move m p m' p'

writer-Enabled : (m : Cache) (p : Pc) → m.rear ≤ int_max → IsAlive p → 0 < writing p → Enabled m p
writer-Enabled m (insert_store o) le live h = elim (dec_lt m.rear int_max) [
  | no q ↦ (_, _, store_outside (inl (omega arith)))
  | yes q ↦ elim (dec_lt ((m.rear + 1) % m.n) (length m.buf)) [
    | yes inside ↦ (_, _, store_object q inside)
    | no beyond ↦ (_, _, store_outside (inr (omega arith)))
  ]
]
writer-Enabled m (insert_size o) le live h = (_, _, add_size)
writer-Enabled m insert_post le live h = (_, _, unlock_insert)
writer-Enabled m insert_crashed le live h = absurd live
writer-Enabled m p le live h = absurd (omega arith)

-- A round of the loop always leads on.
round-Enabled : (m : Cache) (url : CStr) (index : ℕ) → Enabled m (find_loop url index)
round-Enabled m url index = elim (ℕ_discrete index m.rear) [
  | yes e ↦ (_, _, loop_end e)
  | no ne ↦ elim (Option-cases (get_elem? m.buf index)) [
    | inl gone ↦ (_, _, loop_outside ne gone)
    | inr (object, e) ↦ elim (Option-cases object.url) [
      | inl null ↦ (_, _, loop_null ne e null)
      | inr (u, q) ↦ elim (Bool-cases (str_eq u url)) [
        | inl same ↦ (_, _, loop_found ne e q same)
        | inr other ↦ (_, _, loop_next ne e q other)
      ]
    ]
  ]
]

-- One that has the mutex goes on, unless it is the first reader and must wait for a writer.
holder-Enabled :
    (m : Cache) (p : Pc)
    → 0 < holding p + entering p + leaving p
    → (Enabled m p) ⊎ ((entering p ≡ 1) × (m.readers ≡ 1) × (m.rw_lock ≡ 0))
holder-Enabled m (find_count u) h = inl (_, _, count_reader)
holder-Enabled m (find_first u) h = elim (ℕ_discrete m.readers 1) [
  | no ne ↦ inl (_, _, later_reader ne)
  | yes e ↦ elim (dec_lt 0 m.rw_lock) [
    | yes free ↦ inl (_, _, first_reader e free)
    | no q ↦ inr (refl, e, omega arith)
  ]
]
holder-Enabled m (find_unlock u) h = inl (_, _, unlock_find)
holder-Enabled m (leave_count f) h = inl (_, _, uncount_reader)
holder-Enabled m (leave_last f) h = elim (ℕ_discrete m.readers 0) [
  | yes e ↦ inl (_, _, last_reader e)
  | no ne ↦ inl (_, _, not_last_reader ne)
]
holder-Enabled m (leave_unlock f) h = inl (_, _, unlock_leave)
holder-Enabled m p h = absurd (omega arith)

-- With the mutex free and no writer, every thread inside a call goes on.
reader-Enabled :
    (m : Cache) (p : Pc)
    → 0 < m.mutex
    → writing p ≡ 0
    → holding p + entering p + leaving p ≡ 0
    → IsAlive p
    → outside p ≡ false
    → Enabled m p
reader-Enabled m (find_loop u i) free w h live e = round-Enabled m u i
reader-Enabled m (leave_wait f) free w h live e = (_, _, lock_leave free)
reader-Enabled m find_crashed free w h live e = absurd live
reader-Enabled m idle free w h live e = cc
reader-Enabled m p free w h live e = absurd (ground arith)

Reach-rear : {k n : ℕ} {s : System} → Reach k n s → s.mem.rear ≤ int_max
unfolding cache_init
Reach-rear start = omega arith
Reach-rear (later r (pick i lt mv)) = Move-rear mv (Reach-rear r)
  where
    Move-rear : {m m' : Cache} {p p' : Pc} → Move m p m' p' → m.rear ≤ int_max → m'.rear ≤ int_max
    Move-rear (store_object h q) b = omega arith
    Move-rear mv b = ground arith

-- Stands inside a call.
inside : Pc → ℕ
inside p = holding p + entering p + leaving p + writing p

inside-outside : (p : Pc) → 0 < inside p → outside p ≡ false
unfolding inside
inside-outside idle h = absurd (omega arith)
inside-outside p h = ground arith

module _ {k n : ℕ} {s : System} (r : Reach k n s) (live : (j : ℕ) → j < k → IsAlive (s.pc j)) where
  -- A thread that has the mutex goes on, if there is no writer.
  locked-Enabled :
      (j : ℕ)
      → j < k
      → tally writing k s.pc ≡ 0
      → 0 < holding (s.pc j) + entering (s.pc j) + leaving (s.pc j)
      → Enabled s.mem (s.pc j)
  locked-Enabled j lt no_writer h = elim (holder-Enabled s.mem (s.pc j) h) [
    | inl go ↦ go
    | inr (first, one, held) ↦ absurd (
        ground (
          arith,
          weight-le-tally entering k s.pc j lt,
          (Reach-Counts r).owner,
          (Reach-Counts r).lock,
        ))
  ]

  -- Somebody has the mutex while it is taken.
  holder :
      0 < tally holding k s.pc + tally entering k s.pc + tally leaving k s.pc
      → (j : ℕ) × (j < k) × (0 < holding (s.pc j) + entering (s.pc j) + leaving (s.pc j))
  holder h = elim (dec_lt 0 (tally holding k s.pc)) [
    | yes a ↦ let (j, jt, q) = tally-pos holding k s.pc a in (j, jt, omega arith)
    | no a ↦ elim (dec_lt 0 (tally entering k s.pc)) [
      | yes b ↦ let (j, jt, q) = tally-pos entering k s.pc b in (j, jt, omega arith)
      | no b ↦ let (j, jt, q) = tally-pos leaving k s.pc (omega arith) in (j, jt, omega arith)
    ]
  ]

  -- In a state that threads reach from `cache_init`, with none of them past an undefined access:
  -- while some call is past its first `sem_wait`, some such call can go on.
  pub cache_progress :
      (i : ℕ)
      → i < k
      → outside (s.pc i) ≡ false
      → (j : ℕ) × (j < k) × (outside (s.pc j) ≡ false) × Enabled s.mem (s.pc j)
  unfolding inside
  cache_progress i lt e = elim (dec_lt 0 (tally writing k s.pc)) [
    | yes w ↦
        let (j, jt, h) = tally-pos writing k s.pc w in
        (
          j,
          jt,
          inside-outside (s.pc j) (omega arith),
          writer-Enabled s.mem (s.pc j) (Reach-rear r) (live j jt) h,
        )
    | no w ↦ elim (dec_lt 0 s.mem.mutex) [
      | yes free ↦ (
        i,
        lt,
        e,
        reader-Enabled s.mem (s.pc i) free (omega (arith, weight-le-tally writing k s.pc i lt))
            (omega (
              arith,
              (Reach-Counts r).lock,
              weight-le-tally holding k s.pc i lt,
              weight-le-tally entering k s.pc i lt,
              weight-le-tally leaving k s.pc i lt,
            ))
            (live i lt) e,
      )
      | no taken ↦
          let (j, jt, h) = holder (omega (arith, (Reach-Counts r).lock)) in
          (j, jt, inside-outside (s.pc j) (omega arith), locked-Enabled j jt (omega arith) h)
    ]
  ]
