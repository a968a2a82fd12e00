-- ===== src/Cache/Threads.antt =====
-- `cache_insert` and `cache_find_object` of first-proxylab-handout/cache.c, called by many threads: a
-- step is one operation on a semaphore, on the counts or on one entry, in any order of the threads.
pub mod Exclusion
pub mod Sizes
pub mod Progress
pub mod Search
use systems_programming.Base.{
  ℕ, ◌+◌, ◌-◌, ◌%◌, ◌≤◌, ◌<◌, ◌≡◌, ◌≢◌, ◌⊎◌, true, false, Option, none, some, List, [], ◌∷◌, ◌++◌,
  get_elem?, set, length, CStr, str_eq,
}
use systems_programming.Base.Family.{update}
use systems_programming.Sbuf.{int_max}
use systems_programming.Cache.{CacheObject, Cache, cache_init, max_object_size, max_cache_size}

-- Where a thread stands, with what it carries. A thread that has run into undefined behaviour stays
-- where it is.
pub data Pc : Type 0 where
  idle : Pc
  insert_wait : (object : CacheObject) → Pc  -- before `sem_wait(&sp->rw)`
  insert_store : (object : CacheObject) → Pc  -- before the store
  insert_size : (object : CacheObject) → Pc  -- before `sp->size += object.size`
  insert_post : Pc  -- before `sem_post(&sp->rw)`
  insert_crashed : Pc
  find_wait : (url : CStr) → Pc  -- before the first `sem_wait(&sp->mutex)`
  find_count : (url : CStr) → Pc  -- before `readers++`
  find_first : (url : CStr) → Pc  -- before `if(readers == 1)`
  find_unlock : (url : CStr) → Pc  -- before `sem_post(&sp->mutex)`
  find_loop : (url : CStr) (index : ℕ) → Pc  -- before a round of the loop
  find_crashed : Pc
  leave_wait : (found : Option ℕ) → Pc  -- before the second `sem_wait(&sp->mutex)`
  leave_count : (found : Option ℕ) → Pc  -- before `readers--`
  leave_last : (found : Option ℕ) → Pc  -- before `if(readers == 0)`
  leave_unlock : (found : Option ℕ) → Pc  -- before the last `sem_post(&sp->mutex)`

-- The tests of `cache_insert` stand before the lock: `size` may change behind them.
pub data Move (m : Cache) : Pc → Cache → Pc → Type 0 where
  refuse_large : (object : CacheObject) → max_object_size < object.size → Move m idle m idle
  refuse_full :
      (object : CacheObject)
      → object.size ≤ max_object_size
      → max_cache_size < object.size + m.size
      → Move m idle m idle
  call_insert :
      (object : CacheObject)
      → object.size ≤ max_object_size
      → object.size + m.size ≤ max_cache_size
      → Move m idle m (insert_wait object)
  lock_insert :
      {object : CacheObject}
      → 0 < m.rw_lock
      → Move m (insert_wait object) (record m { rw_lock = m.rw_lock - 1 }) (insert_store object)
  store_object :
      {object : CacheObject}
      → m.rear < int_max
      → (m.rear + 1) % m.n < length m.buf
      → Move m
          (insert_store object)
          (record m { buf = set m.buf ((m.rear + 1) % m.n) object; rear = m.rear + 1 })
          (insert_size object)
  store_outside :
      {object : CacheObject}
      → (m.rear ≡ int_max) ⊎ (length m.buf ≤ (m.rear + 1) % m.n)
      → Move m (insert_store object) m insert_crashed
  add_size :
      {object : CacheObject}
      → Move m (insert_size object) (record m { size = m.size + object.size }) insert_post
  unlock_insert : Move m insert_post (record m { rw_lock = m.rw_lock + 1 }) idle
  call_find : (url : CStr) → Move m idle m (find_wait url)
  lock_find :
      {url : CStr}
      → 0 < m.mutex
      → Move m (find_wait url) (record m { mutex = m.mutex - 1 }) (find_count url)
  count_reader :
      {url : CStr} → Move m (find_count url) (record m { readers = m.readers + 1 }) (find_first url)
  first_reader :
      {url : CStr}
      → m.readers ≡ 1
      → 0 < m.rw_lock
      → Move m (find_first url) (record m { rw_lock = m.rw_lock - 1 }) (find_unlock url)
  later_reader : {url : CStr} → m.readers ≢ 1 → Move m (find_first url) m (find_unlock url)
  unlock_find :
      {url : CStr}
      → Move m (find_unlock url) (record m { mutex = m.mutex + 1 }) (find_loop url m.front)
  loop_end :
      {url : CStr} {index : ℕ} → index ≡ m.rear → Move m (find_loop url index) m (leave_wait none)
  loop_found :
      {url : CStr} {index : ℕ} {object : CacheObject} {u : CStr}
      → index ≢ m.rear
      → get_elem? m.buf index ≡ some object
      → object.url ≡ some u
      → str_eq u url ≡ true
      → Move m (find_loop url index) m (leave_wait (some index))
  loop_next :
      {url : CStr} {index : ℕ} {object : CacheObject} {u : CStr}
      → index ≢ m.rear
      → get_elem? m.buf index ≡ some object
      → object.url ≡ some u
      → str_eq u url ≡ false
      → Move m (find_loop url index) m (find_loop url ((index + 1) % m.n))
  loop_null :
      {url : CStr} {index : ℕ} {object : CacheObject}
      → index ≢ m.rear
      → get_elem? m.buf index ≡ some object
      → object.url ≡ none
      → Move m (find_loop url index) m find_crashed
  loop_outside :
      {url : CStr} {index : ℕ}
      → index ≢ m.rear
      → get_elem? m.buf index ≡ none
      → Move m (find_loop url index) m find_crashed
  lock_leave :
      {found : Option ℕ}
      → 0 < m.mutex
      → Move m (leave_wait found) (record m { mutex = m.mutex - 1 }) (leave_count found)
  uncount_reader :
      {found : Option ℕ}
      → Move m (leave_count found) (record m { readers = m.readers - 1 }) (leave_last found)
  last_reader :
      {found : Option ℕ}
      → m.readers ≡ 0
      → Move m (leave_last found) (record m { rw_lock = m.rw_lock + 1 }) (leave_unlock found)
  not_last_reader :
      {found : Option ℕ} → m.readers ≢ 0 → Move m (leave_last found) m (leave_unlock found)
  unlock_leave :
      {found : Option ℕ} → Move m (leave_unlock found) (record m { mutex = m.mutex + 1 }) idle

-- The object that a move stores.
abbrev pub stored : {m m' : Cache} {p p' : Pc} → Move m p m' p' → List CacheObject
stored (store_object {object} _ _) = object ∷ []
stored _ = []

-- The shared memory, the threads, and the objects that were stored so far, in order.
pub record System : Type 0 where
  pub mem : Cache
  pub pc : ℕ → Pc
  pub puts : List CacheObject

-- Any of the first `k` threads moves.
pub data Step (k : ℕ) (s : System) : System → Type 0 where
  pick :
      (i : ℕ) {m : Cache} {p : Pc}
      → i < k
      → (mv : Move s.mem (s.pc i) m p)
      → Step k s (record { mem = m; pc = update s.pc i p; puts = s.puts ++ stored mv })

abbrev pub start_system : ℕ → System
start_system n = record { mem = cache_init n; pc = λ _. idle; puts = [] }

pub data Reach (k n : ℕ) : System → Type 0 where
  start : Reach k n (start_system n)
  later : {s t : System} → Reach k n s → Step k s t → Reach k n t
