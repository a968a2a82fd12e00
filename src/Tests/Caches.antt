-- ===== src/Tests/Caches.antt =====
-- A cache that was asked to hold three or six objects, and one that two threads share.
use systems_programming.Base.{
  ℕ, zero, suc, ◌*◌, ◌≤◌, false, ℕ_discrete, ◌+◌, ◌<◌, ◌≡◌, refl, some, [], arith, codes,
}
use systems_programming.Sbuf.{undefined}
use systems_programming.Cache.{
  CacheObject, cache_init, allocated, find_from, max_object_size, max_cache_size,
}
use systems_programming.Cache.Laws.{Holds, cache_init-Holds}
use systems_programming.Cache.Laws.{total_size}
use systems_programming.Cache.Threads.{
  System, pick, Reach, start, later, call_insert, lock_insert, store_object, add_size, call_find,
  lock_find, count_reader, first_reader, unlock_find, loop_null, unlock_insert,
}
use systems_programming.Cache.Threads.Exclusion.{reading, writing, writer_alone}
use systems_programming.Cache.Threads.Search.{SameArray, Within, stay, step, search_alone}
use systems_programming.Cache.Threads.Sizes.{size_bound}
use systems_programming.Cache.Threads.Progress.{outside, IsAlive, Enabled, cache_progress}

abbrev page : CacheObject
page = record { size = 3; url = some (codes "u"); content = some (codes "abc") }

empty-Holds : (n : ℕ) → 0 < allocated n → allocated n < 100 → Holds (cache_init n) []
empty-Holds n h q = cache_init-Holds n h (omega arith)

-- Thread 0 inserts an object, up to its store; thread 1 has begun a search.
writing_page : (s : System) × Reach 2 6 s
unfolding cache_init ℕ_discrete
writing_page = (
  _,
  later
      (later
        (later (later start (pick 1 (omega arith) (call_find (codes "u"))))
          (pick 1 (omega arith) (lock_find (omega arith))))
        (pick 0 (omega arith) (call_insert page (omega arith) (omega arith))))
      (pick 0 (omega arith) (lock_insert (omega arith))),
)

size_page : (s : System) × Reach 2 6 s
unfolding cache_init ℕ_discrete writing_page
size_page = (
  _,
  later (later writing_page.1 (pick 0 (omega arith) (store_object (omega arith) (omega arith))))
      (pick 0 (omega arith) add_size),
)

writer_alone_example :
    (reading (writing_page.0.pc 1) ≡ 0) × (writing (writing_page.0.pc 1) ≡ 1 → ◌≡◌ {A = ℕ} 0 1)
unfolding writing_page ℕ_discrete
writer_alone_example = writer_alone writing_page.1 0 1 (omega arith) (omega arith) refl

size_bound_example :
    (size_page.0.mem.size + max_object_size ≤ max_cache_size + max_object_size * 2)
    × (((i : ℕ) → i < 2 → writing (size_page.0.pc i) ≡ 0)
        → size_page.0.mem.size ≡ total_size size_page.0.puts)
size_bound_example = size_bound size_page.1 (omega arith)

alive : (j : ℕ) → j < 2 → IsAlive (writing_page.0.pc j)
unfolding writing_page ℕ_discrete
alive zero h = tt
alive (suc zero) h = tt
alive (suc (suc j)) h = absurd (omega arith)

cache_progress_example :
    (j : ℕ) × (j < 2)
    × (outside (writing_page.0.pc j) ≡ false)
    × Enabled writing_page.0.mem (writing_page.0.pc j)
unfolding writing_page ℕ_discrete
cache_progress_example = cache_progress writing_page.1 alive 0 (omega arith) refl

-- Thread 0 has inserted an object, and thread 1 has then been counted; thread 0 asks to insert again
-- while thread 1 searches. Entry 0 has no object, and the search stops there.
counted : (s : System) × Reach 2 6 s
unfolding cache_init ℕ_discrete writing_page size_page
counted = (
  _,
  later
      (later (later size_page.1 (pick 0 (omega arith) unlock_insert))
        (pick 1 (omega arith) count_reader))
      (pick 1 (omega arith) (first_reader refl (omega arith))),
)

searched : (t : System) × Within 2 1 counted.0 t
unfolding cache_init ℕ_discrete writing_page size_page counted
searched = (
  _,
  step
      (step (step stay (pick 1 (omega arith) unlock_find) refl)
        (pick 0 (omega arith) (call_insert page (omega arith) (omega arith))) refl)
      (pick 1 (omega arith) (loop_null (λ e. omega (arith, e)) refl refl)) refl,
)

search_alone_example :
    SameArray counted.0.mem searched.0.mem
    × ((fuel : ℕ) × (find_from fuel counted.0.mem (codes "u") counted.0.mem.front ≡ some undefined))
unfolding writing_page size_page counted searched ℕ_discrete
search_alone_example = search_alone undefined counted.1 (omega arith) refl searched.1 refl
