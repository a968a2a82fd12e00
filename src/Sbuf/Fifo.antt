-- ===== src/Sbuf/Fifo.antt =====
-- What the threads of `Sbuf` may rely on: one at a time inside, first in first out, no item lost,
-- a wait only at a full or an empty buffer, and no deadlock.
use systems_programming.Base.{
  ℕ, ◌+◌, ◌≤◌, ◌<◌, ◌≡◌, ◌≢◌, refl, Bool, true, false, arith, length, take, ◌∙◌, sym, ℕ_discrete,
}
use mathlib.Core.Logic.{if_pos, if_neg}
use systems_programming.Base.Family.{tally, tally-eq-zero, weights-le-tally}
use systems_programming.Sbuf.{Sbuf, int_max, sbuf_init}
use systems_programming.Sbuf.Threads.{
  Pc, idle, put_slots, get_items, overflow, Move, call_insert, write, write_overflow, read_overflow,
  System, Step, pick, Reach, start, later,
}
use systems_programming.Sbuf.Counts.{locking, reserving, announcing, claiming, freeing}
use systems_programming.Sbuf.Invariant.{Inv, Reach-Inv}

module _ {ℓ} {A : Type ℓ} where
  -- Not between the first `sem_wait` of a call and its last `sem_post`.
  abbrev pub outside : Pc A → Bool
  outside idle = true
  outside (put_slots _) = true
  outside get_items = true
  outside _ = false

  Move-n : {m m' : Sbuf A} {p p' : Pc A} → Move m p m' p' → m'.n ≡ m.n
  Move-n (call_insert _) = refl
  Move-n _ = refl

module _ {ℓ} {A : Type ℓ} {m : Sbuf A} where
  -- A thread gets past `++` on the largest `int` only with `rear` there.
  Move-overflow :
      {p p' : Pc A} {m' : Sbuf A}
      → Move m p m' p'
      → m.front ≤ m.rear
      → m.rear ≤ int_max
      → p' ≡ overflow
      → (m'.rear ≡ int_max)
  Move-overflow (write_overflow h) le b e = h
  Move-overflow (read_overflow h) le b e = omega arith
  Move-overflow (write h) le b e = ground arith
  Move-overflow mv le b e = absurd (ground arith)

  Move-rear : {p p' : Pc A} {m' : Sbuf A} → Move m p m' p' → m.rear ≡ int_max → m'.rear ≡ int_max
  Move-rear (write h) e = absurd (omega arith)
  Move-rear _ e = e

front-le-rear {ℓ} : {A : Type ℓ} {k : ℕ} {s : System A} → Inv k s → s.mem.front ≤ s.mem.rear
front-le-rear v = omega (arith, v.counts.queued)

Step-overflow {ℓ} :
    {A : Type ℓ} {k : ℕ} {s t : System A}
    → Step k s t
    → Inv k s
    → ((j : ℕ) → s.pc j ≡ overflow → s.mem.rear ≡ int_max)
    → (j : ℕ) → t.pc j ≡ overflow
    → t.mem.rear ≡ int_max
Step-overflow {s} (pick i {p} lt mv) v old j e = elim (ℕ_discrete i j) [
  | yes q ↦
      Move-overflow mv (front-le-rear v) v.ring.in_range
        (sym (if_pos (ℕ_discrete i j) q p (s.pc j)) ∙ e)
  | no q ↦ Move-rear mv (old j (sym (if_neg (ℕ_discrete i j) q p (s.pc j)) ∙ e))
]

outside-total {ℓ} :
    {A : Type ℓ} (k : ℕ) (w : Pc A → ℕ) (pc : ℕ → Pc A)
    → ((p : Pc A) → outside p ≡ true → w p ≡ 0)
    → ((i : ℕ) → i < k → outside (pc i) ≡ true)
    → tally w k pc ≡ 0
outside-total k w pc none_of quiet = tally-eq-zero w k pc (λ i lt. none_of (pc i) (quiet i lt))

module _ {ℓ} {A : Type ℓ} {k : ℕ} {z : A} {n : ℕ} where
  Reach-n : {s : System A} → Reach k z n s → s.mem.n ≡ n
  unfolding sbuf_init
  Reach-n start = refl
  Reach-n (later r (pick i lt mv)) = Move-n mv ∙ Reach-n r

  Reach-overflow :
      {s : System A} → 0 < n → Reach k z n s → (j : ℕ) → s.pc j ≡ overflow → s.mem.rear ≡ int_max
  Reach-overflow h start j e = absurd (ground arith)
  Reach-overflow h (later r st) j e = Step-overflow st (Reach-Inv h r) (Reach-overflow h r) j e

  -- In a state that threads reach from `sbuf_init` on at least one slot, no thread has run into the
  -- undefined `++` before the buffer has taken the largest `int` of items.
  pub no_overflow :
      {s : System A} → 0 < n → Reach k z n s → length s.puts < int_max → (j : ℕ) → s.pc j ≢ overflow
  no_overflow h r few j e =
      absurd (omega (arith, Reach-overflow h r j e, (Reach-Inv h r).ring.puts_count))

  -- In a state that threads reach from `sbuf_init` on at least one slot, two of them are never
  -- both inside the section that `mutex` guards.
  pub mutual_exclusion :
      {s : System A}
      → 0 < n
      → Reach k z n s
      → (i j : ℕ) → i < k
      → j < k
      → locking (s.pc i) ≡ 1
      → locking (s.pc j) ≡ 1
      → i ≡ j
  mutual_exclusion {s} h r i j hi hj p q = elim (ℕ_discrete i j) [
    | yes e ↦ e
    | no ne ↦
        absurd
          (omega (arith, weights-le-tally locking k s.pc i j hi hj ne, (Reach-Inv h r).counts.lock))
  ]

  -- In a state that threads reach from `sbuf_init` on at least one slot: first in, first out,
  -- nothing lost or made up, and never more than `n` items inside.
  pub fifo :
      {s : System A}
      → 0 < n
      → Reach k z n s
      → (s.gets ≡ take (length s.gets) s.puts)
        × (length s.gets ≤ length s.puts)
        × (length s.puts ≤ length s.gets + n)
  fifo {s} h r = (
    rw (← v.ring.gets_count) v.ring.in_order,
    omega (arith, v.counts.queued, v.ring.gets_count, v.ring.puts_count),
    omega (arith, v.counts.room, v.ring.gets_count, v.ring.puts_count, Reach-n r),
  )
    where
      v : Inv k s
      v = Reach-Inv h r

  -- In a state that threads reach from `sbuf_init` on at least one slot, with no call past its
  -- first wait, the mutex is free, `items` is what is inside, and `slots` is the room left.
  pub quiescent :
      {s : System A}
      → 0 < n
      → Reach k z n s
      → ((i : ℕ) → i < k → outside (s.pc i) ≡ true)
      → (s.mem.mutex ≡ 1)
        × (s.mem.items + length s.gets ≡ length s.puts)
        × (s.mem.slots + s.mem.items ≡ n)
  quiescent {s} h r quiet = omega (
    arith,
    v.counts.lock,
    v.counts.room,
    v.counts.queued,
    v.ring.gets_count,
    v.ring.puts_count,
    Reach-n r,
    zero_of locking (λ p e. ground arith),
    zero_of reserving (λ p e. ground arith),
    zero_of announcing (λ p e. ground arith),
    zero_of claiming (λ p e. ground arith),
    zero_of freeing (λ p e. ground arith),
  )
    where
      v : Inv k s
      v = Reach-Inv h r

      zero_of : (w : Pc A → ℕ) → ((p : Pc A) → outside p ≡ true → w p ≡ 0) → tally w k s.pc ≡ 0
      zero_of w f = outside-total k w s.pc f quiet
