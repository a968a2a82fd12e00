-- ===== src/Cache.antt =====
-- first-proxylab-handout/cache.c and cache.h: the cache of the threaded proxy, called by one thread
-- at a time. A `char *` is an option, and a `cache_object_t *` into the array is an index.
pub mod Laws
pub mod Threads
use systems_programming.Base.{
  ℕ, zero, suc, ◌+◌, ◌-◌, ◌*◌, ◌/◌, ◌%◌, ◌==◌, ltb, if◌then◌else◌, Bool, true, false, Option, none,
  some, List, [], ◌∷◌, get_elem?, set, replicate, length, CStr, str_eq,
}
use systems_programming.Sbuf.{Outcome, done, blocked, undefined, ◌>>=◌, sem_wait, incr}

abbrev pub max_cache_size : ℕ
max_cache_size = 1049000

abbrev pub max_object_size : ℕ
max_object_size = 102400

-- `cache_object_t`; sizes are counts of bytes.
pub record CacheObject : Type 0 where
  pub size : ℕ
  pub url : Option CStr
  pub content : Option (List ℕ)

-- `cache_t`, with the static `readers` of `cache_find_object`.
pub record Cache : Type 0 where
  pub buf : List CacheObject
  pub n : ℕ
  pub size : ℕ
  pub front : ℕ
  pub rear : ℕ
  pub mutex : ℕ
  pub rw_lock : ℕ
  pub readers : ℕ

-- What `calloc` leaves in an entry.
abbrev pub zero_object : CacheObject
zero_object = record { size = 0; url = none; content = none }

-- Entries of `sizeof(cache_object_t)` bytes (an `int` and two pointers, 24 bytes with padding on a
-- 64-bit machine) that fit into the `n * sizeof(cache_object_t *)` bytes that are allocated.
abbrev pub allocated : ℕ → ℕ
allocated n = n * 8 / 24

-- `cache_init`
unfoldable pub cache_init : ℕ → Cache
cache_init n = record {
  buf = replicate (allocated n) zero_object;
  n = n;
  size = 0;
  front = 0;
  rear = 0;
  mutex = 1;
  rw_lock = 1;
  readers = 0;
}

-- `cache_deinit`, likewise to `sbuf_deinit`.
unfoldable pub cache_deinit : Cache → Cache
cache_deinit sp = record sp { buf = [] }

-- `cache_build_object`
unfoldable pub cache_build_object : ℕ → Option CStr → Option (List ℕ) → CacheObject
cache_build_object size url content = record { size = size; url = url; content = content }

-- A store to `sp->buf[i]`; outside the allocated memory it is undefined.
abbrev pub store : Cache → ℕ → CacheObject → Outcome Cache
store sp i object =
    if ltb i (length sp.buf) then done (record sp { buf = set sp.buf i object }) else undefined

-- The part of `cache_insert` under the lock.
locked_insert : Cache → CacheObject → Outcome Cache
unfolding sem_wait incr
locked_insert sp object = do
  rw_lock ← sem_wait sp.rw_lock
  rear ← incr sp.rear
  sp' ← store (record sp { rear = rear }) (rear % sp.n) object
  done (record sp' { size = sp'.size + object.size; rw_lock = rw_lock + 1 })

-- `cache_insert`: an object that is too large, or has no room left, is not stored.
unfoldable pub cache_insert : Cache → CacheObject → Outcome Cache
unfolding locked_insert
cache_insert sp object =
    if ltb max_object_size object.size
    then done sp
    else if ltb max_cache_size (object.size + sp.size)
    then done sp
    else locked_insert sp object

-- The loop of `cache_find_object` from `index` on: the index of the object, or `none` at `rear`.
-- `none` outside means that the fuel ran out.
unfoldable pub find_from : ℕ → Cache → CStr → ℕ → Option (Outcome (Option ℕ))
find_from zero sp url index = none
find_from (suc fuel) sp url index =
    let rest : Option (Outcome (Option ℕ)) = find_from fuel sp url ((index + 1) % sp.n) in
    if index == sp.rear then some (done none) else elim (get_elem? sp.buf index) [
      | none ↦ some undefined
      | some object ↦ elim object.url [
        | none ↦ some undefined
        | some u ↦ if str_eq u url then some (done (some index)) else rest
      ]
    ]

-- The locks around the loop: the first reader takes `rw`, the last one gives it back.
abbrev pub enter_reader : Cache → Outcome Cache
enter_reader sp =
    if sp.readers == 0
    then (sem_wait sp.rw_lock >>= λ k. done (record sp { readers = 1; rw_lock = k }))
    else done (record sp { readers = sp.readers + 1 })

abbrev pub leave_reader : Cache → Cache
leave_reader sp =
    if sp.readers == 1
    then record sp { readers = 0; rw_lock = sp.rw_lock + 1 }
    else record sp { readers = sp.readers - 1 }

-- `cache_find_object`, with fuel for its loop.
unfoldable pub cache_find_object : ℕ → Cache → CStr → Option (Outcome (Option ℕ × Cache))
unfolding sem_wait
cache_find_object fuel sp url = elim (sem_wait sp.mutex >>= λ k. enter_reader sp) [
  | blocked ↦ some blocked
  | undefined ↦ some undefined
  | done sp' ↦ elim (find_from fuel sp' url sp'.front) [
    | none ↦ none
    | some r ↦ some (r >>= λ found. done (found, leave_reader sp'))
  ]
]
