-- ===== src/Sbuf/Threads.antt =====
-- The threads of the proxy over one `Sbuf`: a step is one semaphore operation or one access to the
-- array, in any order of the threads.
use systems_programming.Base.{ℕ, ◌+◌, ◌-◌, ◌%◌, ◌<◌, ◌≡◌, List, [], ◌∷◌, ◌++◌, some, get_elem?, set}
use systems_programming.Base.Family.{update}
use systems_programming.Sbuf.{Sbuf, int_max, sbuf_init}

-- Where a thread stands in `sbuf_insert` and `sbuf_remove`, with what it carries.
pub data Pc {ℓ} (A : Type ℓ) : Type ℓ where
  idle : Pc A
  put_slots : (item : A) → Pc A  -- before `sem_wait(&sp->slots)`
  put_mutex : (item : A) → Pc A  -- before `sem_wait(&sp->mutex)`
  put_write : (item : A) → Pc A  -- before the store
  put_unlock : Pc A  -- before `sem_post(&sp->mutex)`
  put_items : Pc A  -- before `sem_post(&sp->items)`
  get_items : Pc A  -- before `sem_wait(&sp->items)`
  get_mutex : Pc A  -- before `sem_wait(&sp->mutex)`
  get_read : Pc A  -- before the load
  get_unlock : (item : A) → Pc A  -- before `sem_post(&sp->mutex)`
  get_slots : (item : A) → Pc A  -- before `sem_post(&sp->slots)`
  overflow : Pc A  -- past a `++` on the largest `int`

module _ {ℓ} {A : Type ℓ} where
  pub data Move (m : Sbuf A) : Pc A → Sbuf A → Pc A → Type ℓ where
    call_insert : (item : A) → Move m idle m (put_slots item)
    wait_slots :
        {item : A}
        → 0 < m.slots
        → Move m (put_slots item) (record m { slots = m.slots - 1 }) (put_mutex item)
    lock_put :
        {item : A}
        → 0 < m.mutex
        → Move m (put_mutex item) (record m { mutex = m.mutex - 1 }) (put_write item)
    write :
        {item : A}
        → m.rear < int_max
        → Move m
            (put_write item)
            (record m { buf = set m.buf ((m.rear + 1) % m.n) item; rear = m.rear + 1 })
            put_unlock
    write_overflow : {item : A} → m.rear ≡ int_max → Move m (put_write item) m overflow
    unlock_put : Move m put_unlock (record m { mutex = m.mutex + 1 }) put_items
    post_items : Move m put_items (record m { items = m.items + 1 }) idle
    call_remove : Move m idle m get_items
    wait_items : 0 < m.items → Move m get_items (record m { items = m.items - 1 }) get_mutex
    lock_get : 0 < m.mutex → Move m get_mutex (record m { mutex = m.mutex - 1 }) get_read
    read :
        {item : A}
        → m.front < int_max
        → get_elem? m.buf ((m.front + 1) % m.n) ≡ some item
        → Move m get_read (record m { front = m.front + 1 }) (get_unlock item)
    read_overflow : m.front ≡ int_max → Move m get_read m overflow
    unlock_get :
        {item : A} → Move m (get_unlock item) (record m { mutex = m.mutex + 1 }) (get_slots item)
    post_slots : {item : A} → Move m (get_slots item) (record m { slots = m.slots + 1 }) idle

  -- The item that a move stores, and the one that it takes out.
  abbrev pub stored : {m m' : Sbuf A} {p p' : Pc A} → Move m p m' p' → List A
  stored (write {item} _) = item ∷ []
  stored _ = []

  abbrev pub taken : {m m' : Sbuf A} {p p' : Pc A} → Move m p m' p' → List A
  taken (read {item} _ _) = item ∷ []
  taken _ = []

-- The shared memory, the threads, and what went in and out so far, in order.
pub record System {ℓ} (A : Type ℓ) : Type ℓ where
  pub mem : Sbuf A
  pub pc : ℕ → Pc A
  pub puts : List A
  pub gets : List A

module _ {ℓ} {A : Type ℓ} where
  -- Any of the first `k` threads moves.
  pub data Step (k : ℕ) (s : System A) : System A → Type ℓ where
    pick :
        (i : ℕ) {m : Sbuf A} {p : Pc A}
        → i < k
        → (mv : Move s.mem (s.pc i) m p)
        → Step k s (record {
          mem = m;
          pc = update s.pc i p;
          puts = s.puts ++ stored mv;
          gets = s.gets ++ taken mv;
        })

  abbrev pub start_system : A → ℕ → System A
  start_system z n = record { mem = sbuf_init z n; pc = λ _. idle; puts = []; gets = [] }

  pub data Reach (k : ℕ) (z : A) (n : ℕ) : System A → Type ℓ where
    start : Reach k z n (start_system z n)
    later : {s t : System A} → Reach k z n s → Step k s t → Reach k z n t
