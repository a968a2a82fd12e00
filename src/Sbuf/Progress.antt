-- ===== src/Sbuf/Progress.antt =====
-- No deadlock between the threads of a `Sbuf`, and the calls of `Sbuf` as sequences of steps.
use systems_programming.Base.{
  ℕ, ◌+◌, ◌%◌, ◌≤◌, ◌<◌, ◌≡◌, ◌≢◌, refl, ◌⊎◌, inl, inr, some, false, arith, length, get_elem?,
  get_elem?-total, dec_lt,
}
use systems_programming.Base.Family.{tally, tally-pos, weight-le-tally}
use systems_programming.Sbuf.{Sbuf, int_max, done, blocked, sbuf_insert}
use systems_programming.Sbuf.Threads.{
  Pc, idle, put_slots, put_mutex, put_write, put_unlock, put_items, get_mutex, get_read, get_unlock,
  get_slots, overflow, Move, wait_slots, lock_put, write, write_overflow, unlock_put, post_items,
  lock_get, read, unlock_get, post_slots, System, Reach,
}
use systems_programming.Sbuf.Counts.{locking, claiming}
use systems_programming.Sbuf.Invariant.{Reach-Inv}
use systems_programming.Sbuf.Fifo.{outside, no_overflow}

-- A thread that stands at `p` can take a step.
abbrev pub Enabled {ℓ} : {A : Type ℓ} → Sbuf A → Pc A → Type ℓ
Enabled {A} m p = (m' : Sbuf A) × (p' : Pc A) × Move m p m' p'

module _ {ℓ} {A : Type ℓ} {m : Sbuf A} (in_range : m.rear ≤ int_max) where
  -- A thread inside the section of the mutex is never stuck there.
  holder-Enabled :
      (p : Pc A)
      → (p ≡ get_read → (item : A) × (get_elem? m.buf ((m.front + 1) % m.n) ≡ some item))
      → (p ≡ get_read → m.front < int_max)
      → p ≢ overflow
      → 0 < locking p
      → Enabled m p
  holder-Enabled (put_write item) full lt ne h = elim (dec_lt m.rear int_max) [
    | yes q ↦ (_, _, write q)
    | no q ↦ (_, _, write_overflow (omega arith))
  ]
  holder-Enabled put_unlock full lt ne h = (_, _, unlock_put)
  holder-Enabled get_read full lt ne h = let (item, e) = full refl in (_, _, read (lt refl) e)
  holder-Enabled (get_unlock item) full lt ne h = (_, _, unlock_get)
  holder-Enabled overflow full lt ne h = absurd (ne refl)
  holder-Enabled p full lt ne h = absurd (omega arith)

  -- With the mutex free, a thread between two semaphores of a call can go on.
  inside-Enabled : (p : Pc A) → 0 < m.mutex → locking p ≡ 0 → outside p ≡ false → Enabled m p
  inside-Enabled (put_mutex item) free h e = (_, _, lock_put free)
  inside-Enabled put_items free h e = (_, _, post_items)
  inside-Enabled get_mutex free h e = (_, _, lock_get free)
  inside-Enabled (get_slots item) free h e = (_, _, post_slots)
  inside-Enabled idle free h e = absurd (ground arith)
  inside-Enabled p free h e = absurd (ground arith)

locking-outside {ℓ} : {A : Type ℓ} (p : Pc A) → 0 < locking p → outside p ≡ false
locking-outside idle h = absurd (omega arith)
locking-outside p h = ground arith

module _ {ℓ} {A : Type ℓ} {k : ℕ} {z : A} {n : ℕ} {s : System A} (some_slot : 0 < n)
    (r : Reach k z n s) (few : length s.puts < int_max) where
  reader_item : (j : ℕ) → j < k → s.pc j ≡ get_read → (s.mem.front < s.mem.rear)
  reader_item j lt e =
      ground (arith, weight-le-tally claiming k s.pc j lt, (Reach-Inv some_slot r).counts.queued)

  reader_value :
      (j : ℕ)
      → j < k
      → s.pc j ≡ get_read
      → (item : A) × (get_elem? s.mem.buf ((s.mem.front + 1) % s.mem.n) ≡ some item)
  reader_value j lt e =
      get_elem?-total s.mem.buf ((s.mem.front + 1) % s.mem.n)
        (omega (arith, (Reach-Inv some_slot r).ring.size, (Reach-Inv some_slot r).ring.some_room))

  locked-Enabled : (j : ℕ) → j < k → 0 < locking (s.pc j) → Enabled s.mem (s.pc j)
  locked-Enabled j lt h =
      holder-Enabled (Reach-Inv some_slot r).ring.in_range (s.pc j) (reader_value j lt)
        (λ e. omega (arith, reader_item j lt e, (Reach-Inv some_slot r).ring.in_range))
        (no_overflow some_slot r few j) h

  -- No deadlock, in a state that threads reach from `sbuf_init` on at least one slot, with fewer
  -- items put in than the largest `int`: while some call is past its first `sem_wait`, some such
  -- call can go on.
  pub progress :
      (i : ℕ)
      → i < k
      → outside (s.pc i) ≡ false
      → (j : ℕ) × (j < k) × (outside (s.pc j) ≡ false) × Enabled s.mem (s.pc j)
  progress i lt e = elim (dec_lt 0 (tally locking k s.pc)) [
    | yes held ↦
        let (j, jt, h) = tally-pos locking k s.pc held in
        (j, jt, locking-outside (s.pc j) h, locked-Enabled j jt h)
    | no free ↦ (
      i,
      lt,
      e,
      inside-Enabled (Reach-Inv some_slot r).ring.in_range (s.pc i)
          (omega (arith, (Reach-Inv some_slot r).counts.lock))
          (omega (arith, weight-le-tally locking k s.pc i lt)) e,
    )
  ]

module _ {ℓ} {A : Type ℓ} where
  -- Steps of one thread with no other between them.
  pub data Run (m : Sbuf A) (p : Pc A) : Sbuf A → Pc A → Type ℓ where
    stop : Run m p m p
    step : {m₁ m₂ : Sbuf A} {p₁ p₂ : Pc A} → Run m p m₁ p₁ → Move m₁ p₁ m₂ p₂ → Run m p m₂ p₂

  -- With the mutex free and `rear` below the largest `int`: with no slot `sbuf_insert` blocks, and
  -- otherwise it returns, and its result is where the steps of its thread lead.
  pub sbuf_insert-Run :
      (m : Sbuf A) (item : A)
      → 0 < m.mutex
      → m.rear < int_max
      → ((m.slots ≡ 0) × (sbuf_insert m item ≡ blocked))
        ⊎ ((m' : Sbuf A) × (sbuf_insert m item ≡ done m') × Run m (put_slots item) m' idle)
  unfolding sbuf_insert
  sbuf_insert-Run m item free small = elim (dec_lt 0 m.slots) [
    | yes h ↦ inr (
      _,
      ground arith,
      step (step (step (step (step stop (wait_slots h)) (lock_put free)) (write small)) unlock_put)
          post_items,
    )
    | no h ↦ inl (omega arith, ground arith)
  ]
