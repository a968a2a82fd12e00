-- ===== src/Cache/Threads/Exclusion.antt =====
-- Readers and writers of the cache: what the two semaphores and `readers` count in every state that
-- the threads reach.
use systems_programming.Base.{
  ℕ, ◌+◌, ◌-◌, ◌≤◌, ◌<◌, ◌≡◌, refl, ◌==◌, if◌then◌else◌, arith, ℕ_discrete,
}
use systems_programming.Base.Family.{
  update, tally, tally-update, tally-eq-zero, weight-le-tally, weights-le-tally,
}
use systems_programming.Cache.{Cache, cache_init}
use systems_programming.Cache.Threads.{
  Pc, idle, insert_store, insert_size, insert_post, insert_crashed, find_count, find_first,
  find_unlock, find_loop, find_crashed, leave_wait, leave_count, leave_last, leave_unlock, Move,
  refuse_large, refuse_full, call_insert, lock_insert, store_object, store_outside, add_size,
  unlock_insert, call_find, lock_find, count_reader, first_reader, later_reader, unlock_find,
  loop_end, loop_found, loop_next, loop_null, loop_outside, lock_leave, uncount_reader, last_reader,
  not_last_reader, unlock_leave, System, Step, pick, Reach, start, later,
}

-- Holds `mutex`, but stands at neither test of `readers`.
abbrev pub holding : Pc → ℕ
holding (find_count _) = 1
holding (find_unlock _) = 1
holding (leave_count _) = 1
holding (leave_unlock _) = 1
holding _ = 0

-- Stands at the test of `readers` behind `readers++`, and behind `readers--`.
abbrev pub entering : Pc → ℕ
entering (find_first _) = 1
entering _ = 0

abbrev pub leaving : Pc → ℕ
leaving (leave_last _) = 1
leaving _ = 0

-- Is past the first test and not yet counted off: may read the array.
abbrev pub reading : Pc → ℕ
reading (find_unlock _) = 1
reading (find_loop _ _) = 1
reading find_crashed = 1
reading (leave_wait _) = 1
reading (leave_count _) = 1
reading _ = 0

-- Is between `sem_wait(&sp->rw)` and `sem_post(&sp->rw)` of `cache_insert`.
abbrev pub writing : Pc → ℕ
writing (insert_store _) = 1
writing (insert_size _) = 1
writing insert_post = 1
writing insert_crashed = 1
writing _ = 0

-- Whether the readers together hold `rw`: the first one has it behind its test, the last one gives
-- it back behind its own.
abbrev pub group : ℕ → ℕ → ℕ → ℕ
group readers at_entry at_exit =
    if readers == 0 then at_exit else if readers == 1 then 1 - at_entry else 1

pub record Counts (k : ℕ) (m : Cache) (pc : ℕ → Pc) : Type 0 where
  pub lock : m.mutex + tally holding k pc + tally entering k pc + tally leaving k pc ≡ 1
  pub count : m.readers ≡ tally reading k pc + tally entering k pc
  pub owner :
      m.rw_lock + tally writing k pc + group m.readers (tally entering k pc) (tally leaving k pc)
      ≡ 1

-- How the sums change when thread `i` goes from `p` to `p'`.
record Sums (k : ℕ) (pc : ℕ → Pc) (i : ℕ) (p p' : Pc) : Type 0 where
  holds : tally holding k (update pc i p') + holding p ≡ tally holding k pc + holding p'
  enters : tally entering k (update pc i p') + entering p ≡ tally entering k pc + entering p'
  leaves : tally leaving k (update pc i p') + leaving p ≡ tally leaving k pc + leaving p'
  reads : tally reading k (update pc i p') + reading p ≡ tally reading k pc + reading p'
  writes : tally writing k (update pc i p') + writing p ≡ tally writing k pc + writing p'
  own_hold : holding p ≤ tally holding k pc
  own_entry : entering p ≤ tally entering k pc
  own_exit : leaving p ≤ tally leaving k pc
  own_read : reading p ≤ tally reading k pc

sums : (k : ℕ) (pc : ℕ → Pc) (i : ℕ) (p' : Pc) → i < k → Sums k pc i (pc i) p'
sums k pc i p' h = record {
  holds = tally-update holding k pc i p' h;
  enters = tally-update entering k pc i p' h;
  leaves = tally-update leaving k pc i p' h;
  reads = tally-update reading k pc i p' h;
  writes = tally-update writing k pc i p' h;
  own_hold = weight-le-tally holding k pc i h;
  own_entry = weight-le-tally entering k pc i h;
  own_exit = weight-le-tally leaving k pc i h;
  own_read = weight-le-tally reading k pc i h;
}

module _ {k : ℕ} {m : Cache} {pc : ℕ → Pc} where
  Sums-Counts :
      {i : ℕ} {p p' : Pc} {m' : Cache}
      → Move m p m' p'
      → Sums k pc i p p'
      → Counts k m pc
      → Counts k m' (update pc i p')
  Sums-Counts (lock_insert h) f c = ground arith
  Sums-Counts (store_object h q) f c = ground arith
  Sums-Counts (store_outside h) f c = ground arith
  Sums-Counts add_size f c = ground arith
  Sums-Counts unlock_insert f c = ground arith
  Sums-Counts (lock_find h) f c = ground arith
  Sums-Counts count_reader f c = ground arith
  Sums-Counts (first_reader e h) f c = ground arith
  Sums-Counts (later_reader e) f c = ground arith
  Sums-Counts unlock_find f c = ground arith
  Sums-Counts (lock_leave h) f c = ground arith
  Sums-Counts uncount_reader f c = ground arith
  Sums-Counts (last_reader e) f c = ground arith
  Sums-Counts (not_last_reader e) f c = ground arith
  Sums-Counts unlock_leave f c = ground arith
  Sums-Counts (loop_end e) f c = ground arith
  Sums-Counts (loop_found e a b q) f c = ground arith
  Sums-Counts (loop_next e a b q) f c = ground arith
  Sums-Counts (loop_null e a b) f c = ground arith
  Sums-Counts (loop_outside e a) f c = ground arith
  Sums-Counts (refuse_large o h) f c = ground arith
  Sums-Counts (refuse_full o h q) f c = ground arith
  Sums-Counts (call_insert o h q) f c = ground arith
  Sums-Counts (call_find u) f c = ground arith

Step-Counts : {k : ℕ} {s t : System} → Step k s t → Counts k s.mem s.pc → Counts k t.mem t.pc
Step-Counts {k} {s} (pick i {p = p'} lt mv) c = Sums-Counts mv (sums k s.pc i p' lt) c

pub Reach-Counts : {k n : ℕ} {s : System} → Reach k n s → Counts k s.mem s.pc
unfolding cache_init
Reach-Counts {k} start = record {
  lock = omega (arith, quiet holding refl, quiet entering refl, quiet leaving refl);
  count = omega (arith, quiet reading refl, quiet entering refl);
  owner = omega (arith, quiet writing refl, quiet leaving refl);
}
  where
    quiet : (w : Pc → ℕ) → w idle ≡ 0 → tally w k (λ _. idle) ≡ 0
    quiet w e = tally-eq-zero w k (λ _. idle) (λ _ _. e)
Reach-Counts (later r st) = Step-Counts st (Reach-Counts r)

-- In a state that threads reach from `cache_init`, a thread that writes excludes every reader of the
-- array and every other writer.
pub writer_alone :
    {k n : ℕ} {s : System}
    → Reach k n s
    → (i j : ℕ) → i < k
    → j < k
    → writing (s.pc i) ≡ 1
    → (reading (s.pc j) ≡ 0) × (writing (s.pc j) ≡ 1 → i ≡ j)
writer_alone {k} {s = s} r i j hi hj w = (
  ground (
    arith,
    weight-le-tally writing k s.pc i hi,
    weight-le-tally reading k s.pc j hj,
    (Reach-Counts r).count,
    (Reach-Counts r).owner,
  ),
  λ q. elim (ℕ_discrete i j) [
    | yes e ↦ e
    | no ne ↦
        absurd (omega (arith, weights-le-tally writing k s.pc i j hi hj ne, (Reach-Counts r).owner))
  ],
)
