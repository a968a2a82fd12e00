-- ===== src/Sbuf.antt =====
-- first-proxylab-handout/sbuf.c and sbuf.h: a bounded FIFO shared by threads, a ring array under
-- three semaphores. The items are of any type: `int` here, `char *` in `Logbuf`.
pub mod Threads
pub mod Counts
pub mod Invariant
pub mod Fifo
pub mod Progress
pub mod Queue
pub mod Sequence
use systems_programming.Base.{
  ℕ, zero, suc, ◌+◌, ◌-◌, ◌%◌, ◌^◌, ◌==◌, if◌then◌else◌, List, [], Option, none, some, get_elem?,
  set, replicate,
}

-- The largest `int`: `++` on it is undefined.
abbrev pub int_max : ℕ
int_max = 2 ^ 31 - 1

-- `sbuf_t`. The semaphores are their counts.
pub record Sbuf {ℓ} (A : Type ℓ) : Type ℓ where
  pub buf : List A
  pub n : ℕ
  pub front : ℕ
  pub rear : ℕ
  pub mutex : ℕ
  pub slots : ℕ
  pub items : ℕ

-- How a call ends: with a value, asleep in `sem_wait`, or in undefined behaviour.
pub data Outcome {ℓ} (A : Type ℓ) : Type ℓ where
  done : A → Outcome A
  blocked : Outcome A
  undefined : Outcome A

infixl 5 ◌>>=◌
abbrev pub ◌>>=◌ {ℓ κ} : {A : Type ℓ} {B : Type κ} → Outcome A → (A → Outcome B) → Outcome B
done a >>= f = f a
blocked >>= f = blocked
undefined >>= f = undefined

-- `sem_wait` on a count, for a caller that nobody will wake.
unfoldable pub sem_wait : ℕ → Outcome ℕ
sem_wait zero = blocked
sem_wait (suc k) = done k

-- `++i` on an `int`
unfoldable pub incr : ℕ → Outcome ℕ
incr i = if i == int_max then undefined else done (i + 1)

module _ {ℓ} {A : Type ℓ} where
  -- `sbuf_init`. `calloc` fills the array with the zero of the item type.
  unfoldable pub sbuf_init : A → ℕ → Sbuf A
  sbuf_init z n = record {
    buf = replicate n z;
    n = n;
    front = 0;
    rear = 0;
    mutex = 1;
    slots = n;
    items = 0;
  }

  -- `sbuf_deinit`: the array is freed, and no access to it is in range any more.
  unfoldable pub sbuf_deinit : Sbuf A → Sbuf A
  sbuf_deinit sp = record sp { buf = [] }

  -- `sbuf_insert`, run by a thread with no other in the way.
  unfoldable pub sbuf_insert : Sbuf A → A → Outcome (Sbuf A)
  unfolding sem_wait incr
  sbuf_insert sp item = do
    slots ← sem_wait sp.slots
    mutex ← sem_wait sp.mutex
    rear ← incr sp.rear
    done (record sp {
      buf = set sp.buf (rear % sp.n) item;
      rear = rear;
      mutex = mutex + 1;
      slots = slots;
      items = sp.items + 1;
    })

  read_item : Sbuf A → ℕ → Outcome A
  read_item sp i = elim (get_elem? sp.buf (i % sp.n)) [ none ↦ undefined | some v ↦ done v ]

  -- `sbuf_remove`, likewise.
  unfoldable pub sbuf_remove : Sbuf A → Outcome (A × Sbuf A)
  unfolding sem_wait incr read_item
  sbuf_remove sp = do
    items ← sem_wait sp.items
    mutex ← sem_wait sp.mutex
    front ← incr sp.front
    item ← read_item sp front
    done (item, record sp { front = front; mutex = mutex + 1; slots = sp.slots + 1; items = items })
