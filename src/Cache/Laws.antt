-- ===== src/Cache/Laws.antt =====
-- What `cache_insert` stores, the bounds that it keeps, and what `cache_find_object` makes of it.
use native.Mathlib.Nat.{mod-eq_of_lt}
use systems_programming.Base.{
  ℕ, zero, suc, ◌+◌, ◌≤◌, ◌<◌, ◌≡◌, refl, ◌==◌, ltb, if◌then◌else◌, none, some, List, [], ◌∷◌, ◌++◌,
  ◌⊎◌, get_elem?, set, replicate, length, length-set, length-replicate, length-append, CStr, arith,
  Bool-cases, inl, inr, ap, ◌∙◌, sym, get_elem?-set_ne, get_elem?-set_self, get_elem?-append_left,
  get_elem?-append_last, ℕ_discrete,
}
use systems_programming.Sbuf.{done, undefined, int_max}
use systems_programming.Cache.{
  CacheObject, Cache, zero_object, allocated, cache_init, locked_insert, cache_insert, find_from,
  cache_find_object, max_cache_size, max_object_size,
}

abbrev pub total_size : List CacheObject → ℕ
total_size [] = 0
total_size (o ∷ os) = o.size + total_size os

pub total_size-append :
    (os : List CacheObject) (o : CacheObject) → total_size (os ++ (o ∷ [])) ≡ total_size os + o.size
total_size-append [] o = omega arith
total_size-append (x ∷ os) o = omega (arith, total_size-append os o)

-- The cache after the given objects were stored, with the allocated entries not used up: nobody
-- holds a lock, entry 0 is as `calloc` left it, and object `j` stands in entry `j + 1`.
pub record Holds (sp : Cache) (os : List CacheObject) : Type 0 where
  pub room : length os < allocated sp.n
  pub small : allocated sp.n < int_max
  pub slots : length sp.buf ≡ allocated sp.n
  pub front : sp.front ≡ 0
  pub rear : sp.rear ≡ length os
  pub size : sp.size ≡ total_size os
  pub within : total_size os ≤ max_cache_size
  pub first : get_elem? sp.buf 0 ≡ some zero_object
  pub held : (j : ℕ) → j < length os → get_elem? sp.buf (j + 1) ≡ get_elem? os j
  pub unlocked : (sp.mutex ≡ 1) × (sp.rw_lock ≡ 1) × (sp.readers ≡ 0)

get_elem?-replicate : {A : Type 0} (n i : ℕ) (a : A) → i < n → get_elem? (replicate n a) i ≡ some a
get_elem?-replicate zero i a h = absurd (omega arith)
get_elem?-replicate (suc n) zero a h = refl
get_elem?-replicate (suc n) (suc i) a h = get_elem?-replicate n i a (omega arith)

pub cache_init-Holds : (n : ℕ) → 0 < allocated n → allocated n < int_max → Holds (cache_init n) []
unfolding cache_init
cache_init-Holds n pos small = record {
  room = pos;
  small = small;
  slots = length-replicate (allocated n) zero_object;
  front = refl;
  rear = refl;
  size = refl;
  within = omega arith;
  first = get_elem?-replicate (allocated n) 0 zero_object pos;
  held = λ j h. absurd (omega arith);
  unlocked = (refl, refl, refl);
}

-- The cache with one more object.
abbrev stored : Cache → CacheObject → Cache
stored sp o = record sp {
  buf = set sp.buf (sp.rear + 1) o;
  rear = sp.rear + 1;
  size = sp.size + o.size;
}

locked_insert-stored :
    {sp : Cache} {os : List CacheObject} (o : CacheObject)
    → Holds sp os
    → length os + 1 < allocated sp.n
    → locked_insert sp o ≡ done (stored sp o)
unfolding locked_insert
locked_insert-stored {sp} {os} o h more = ground (
  arith,
  h.rear,
  h.small,
  h.slots,
  h.unlocked.1,
  mod-eq_of_lt {n = sp.rear + 1} {m = sp.n} (omega (arith, h.rear)),
)

stored-Holds :
    {sp : Cache} {os : List CacheObject} (o : CacheObject)
    → Holds sp os
    → length os + 1 < allocated sp.n
    → o.size + sp.size ≤ max_cache_size
    → Holds (stored sp o) (os ++ (o ∷ []))
stored-Holds {sp} {os} o h more fits = record {
  room = omega (arith, length-append os (o ∷ []));
  small = h.small;
  slots = length-set sp.buf (sp.rear + 1) o ∙ h.slots;
  front = h.front;
  rear = omega (arith, h.rear, length-append os (o ∷ []));
  size = omega (arith, h.size, total_size-append os o);
  within = omega (arith, h.size, total_size-append os o);
  first = get_elem?-set_ne sp.buf (sp.rear + 1) 0 o (λ e. omega arith) ∙ h.first;
  held = held_after;
  unlocked = h.unlocked;
}
  where
    held_after :
        (j : ℕ)
        → j < length (os ++ (o ∷ []))
        → get_elem? (set sp.buf (sp.rear + 1) o) (j + 1) ≡ get_elem? (os ++ (o ∷ [])) j
    held_after j lt = elim (ℕ_discrete j (length os)) [
      | yes e ↦
          ap (get_elem? (set sp.buf (sp.rear + 1) o)) (omega (arith, h.rear))
          ∙ get_elem?-set_self sp.buf (sp.rear + 1) o (omega (arith, h.rear, h.slots))
          ∙ sym (get_elem?-append_last os o j e)
      | no ne ↦
          get_elem?-set_ne sp.buf (sp.rear + 1) (j + 1) o (λ e. ne (omega (arith, h.rear)))
          ∙ h.held j (omega (arith, length-append os (o ∷ [])))
          ∙ sym (get_elem?-append_left os (o ∷ []) j (omega (arith, length-append os (o ∷ []))))
    ]

-- `cache_insert`, while allocated entries are left: an object above `MAX_OBJECT_SIZE`, or one that
-- would take the sum of the sizes above `MAX_CACHE_SIZE`, changes nothing; any other one is stored
-- behind the others, with the sizes added up, within the limit, and the lock given back.
pub cache_insert-Holds :
    (sp : Cache) (os : List CacheObject) (o : CacheObject)
    → Holds sp os
    → length os + 1 < allocated sp.n
    → (((max_object_size < o.size) ⊎ (max_cache_size < o.size + sp.size))
        × (cache_insert sp o ≡ done sp))
      ⊎ ((sp' : Cache) × (cache_insert sp o ≡ done sp') × Holds sp' (os ++ (o ∷ [])))
unfolding cache_insert
cache_insert-Holds sp os o h more = elim (Bool-cases (ltb max_object_size o.size)) [
  | inl e ↦ inl (inl (ground arith), rw e)
  | inr e ↦ elim (Bool-cases (ltb max_cache_size (o.size + sp.size))) [
    | inl p ↦ inl (inr (ground arith), rw (e, p))
    | inr p ↦ inr (
      stored sp o,
      rw (e, p) (locked_insert-stored o h more),
      stored-Holds o h more (ground arith),
    )
  ]
]

-- In a cache whose allocated entries are used up, an object within the limits is written behind the
-- array.
pub cache_insert_overflow :
    (sp : Cache) (os : List CacheObject) (o : CacheObject)
    → Holds sp os
    → length os + 1 ≡ allocated sp.n
    → o.size ≤ max_object_size
    → o.size + sp.size ≤ max_cache_size
    → cache_insert sp o ≡ undefined
unfolding cache_insert locked_insert
cache_insert_overflow sp os o h full small fits = ground (
  arith,
  h.rear,
  h.small,
  h.slots,
  h.unlocked.1,
  mod-eq_of_lt {n = sp.rear + 1} {m = sp.n} (omega (arith, h.rear)),
)

find_from_zero :
    (fuel : ℕ) (sp : Cache) (url : CStr)
    → get_elem? sp.buf 0 ≡ some zero_object
    → find_from (suc fuel) sp url 0 ≡ some (if 0 == sp.rear then done none else undefined)
unfolding find_from
find_from_zero fuel sp url first = elim (Bool-cases (0 == sp.rear)) [
  | inl e ↦ rw e
  | inr e ↦ rw (e, first)
]

-- While allocated entries are left, and with fuel for one round: `cache_find_object` starts at entry
-- 0, which no insertion has filled: it answers NULL on an empty cache, with the locks given back, and
-- on any other one it hands the NULL of entry 0 to `strcmp`, whatever the URL.
pub cache_find_object-Holds :
    (fuel : ℕ) (sp : Cache) (os : List CacheObject) (url : CStr)
    → Holds sp os
    → cache_find_object (suc fuel) sp url
      ≡ some (if length os == 0 then done (none, sp) else undefined)
unfolding cache_find_object
cache_find_object-Holds fuel sp os url h =
    let reading : Cache = record sp { readers = 1; rw_lock = 0 } in
    let looked : find_from (suc fuel) reading url 0
        ≡ some (if 0 == sp.rear then done none else undefined) =
      find_from_zero fuel reading url h.first in
    ground (arith, looked, h.front, h.rear, h.unlocked.0, h.unlocked.1, h.unlocked.2)
