-- ===== src/Sbuf/Counts.antt =====
-- What the semaphores of a `Sbuf` count: every move of a thread keeps it.
use systems_programming.Base.{ℕ, ◌+◌, ◌≤◌, ◌<◌, ◌≡◌, arith}
use systems_programming.Base.Family.{update, tally, tally-update, weight-le-tally}
use systems_programming.Sbuf.{Sbuf, int_max}
use systems_programming.Sbuf.Threads.{
  Pc, put_mutex, put_write, put_unlock, put_items, get_mutex, get_read, get_unlock, get_slots,
  overflow, Move, call_insert, wait_slots, lock_put, write, write_overflow, unlock_put, post_items,
  call_remove, wait_items, lock_get, read, read_overflow, unlock_get, post_slots,
}

module _ {ℓ} {A : Type ℓ} where
  -- Between `sem_wait(&sp->mutex)` and `sem_post(&sp->mutex)`.
  abbrev pub locking : Pc A → ℕ
  locking (put_write _) = 1
  locking put_unlock = 1
  locking get_read = 1
  locking (get_unlock _) = 1
  locking overflow = 1
  locking _ = 0

  -- A slot is taken and not yet filled.
  abbrev pub reserving : Pc A → ℕ
  reserving (put_mutex _) = 1
  reserving (put_write _) = 1
  reserving overflow = 1
  reserving _ = 0

  -- A slot is filled and not yet announced.
  abbrev pub announcing : Pc A → ℕ
  announcing put_unlock = 1
  announcing put_items = 1
  announcing _ = 0

  -- An item is claimed and not yet taken out.
  abbrev pub claiming : Pc A → ℕ
  claiming get_mutex = 1
  claiming get_read = 1
  claiming _ = 0

  -- A slot is emptied and not yet given back.
  abbrev pub freeing : Pc A → ℕ
  freeing (get_unlock _) = 1
  freeing (get_slots _) = 1
  freeing _ = 0

-- What the counts of the semaphores stand for.
pub record Counts {ℓ} {A : Type ℓ} (k : ℕ) (m : Sbuf A) (pc : ℕ → Pc A) : Type ℓ where
  pub lock : m.mutex + tally locking k pc ≡ 1
  pub room : m.slots + tally reserving k pc + m.rear + tally freeing k pc ≡ m.n + m.front
  pub queued : m.items + tally announcing k pc + tally claiming k pc + m.front ≡ m.rear

-- How the five sums change when thread `i` goes from `p` to `p'`.
pub record Sums {ℓ} {A : Type ℓ} (k : ℕ) (pc : ℕ → Pc A) (i : ℕ) (p p' : Pc A) : Type ℓ where
  pub locks : tally locking k (update pc i p') + locking p ≡ tally locking k pc + locking p'
  pub reserves :
      tally reserving k (update pc i p') + reserving p ≡ tally reserving k pc + reserving p'
  pub announces :
      tally announcing k (update pc i p') + announcing p ≡ tally announcing k pc + announcing p'
  pub claims : tally claiming k (update pc i p') + claiming p ≡ tally claiming k pc + claiming p'
  pub frees : tally freeing k (update pc i p') + freeing p ≡ tally freeing k pc + freeing p'
  pub own_reserve : reserving p ≤ tally reserving k pc
  pub own_claim : claiming p ≤ tally claiming k pc

pub sums {ℓ} :
    {A : Type ℓ} (k : ℕ) (pc : ℕ → Pc A) (i : ℕ) (p' : Pc A) → i < k → Sums k pc i (pc i) p'
sums k pc i p' h = record {
  locks = tally-update locking k pc i p' h;
  reserves = tally-update reserving k pc i p' h;
  announces = tally-update announcing k pc i p' h;
  claims = tally-update claiming k pc i p' h;
  frees = tally-update freeing k pc i p' h;
  own_reserve = weight-le-tally reserving k pc i h;
  own_claim = weight-le-tally claiming k pc i h;
}

module _ {ℓ} {A : Type ℓ} {k : ℕ} {m : Sbuf A} {pc : ℕ → Pc A} where
  Sums-Counts :
      {i : ℕ} {p p' : Pc A} {m' : Sbuf A}
      → Move m p m' p'
      → m.rear ≤ int_max
      → Sums k pc i p p'
      → Counts k m pc
      → Counts k m' (update pc i p')
  Sums-Counts (call_insert _) b f c = omega arith
  Sums-Counts (wait_slots h) b f c = omega arith
  Sums-Counts (lock_put h) b f c = omega arith
  Sums-Counts (write h) b f c = omega arith
  Sums-Counts (write_overflow h) b f c = omega arith
  Sums-Counts unlock_put b f c = omega arith
  Sums-Counts post_items b f c = omega arith
  Sums-Counts call_remove b f c = omega arith
  Sums-Counts (wait_items h) b f c = omega arith
  Sums-Counts (lock_get h) b f c = omega arith
  Sums-Counts (read h _) b f c = omega arith
  Sums-Counts (read_overflow h) b f c = absurd (omega arith)
  Sums-Counts unlock_get b f c = omega arith
  Sums-Counts post_slots b f c = omega arith

  pub Move-Counts :
      {i : ℕ} {p' : Pc A} {m' : Sbuf A}
      → i < k
      → Move m (pc i) m' p'
      → m.rear ≤ int_max
      → Counts k m pc
      → Counts k m' (update pc i p')
  Move-Counts {i} {p'} h mv b c = Sums-Counts mv b (sums k pc i p' h) c
