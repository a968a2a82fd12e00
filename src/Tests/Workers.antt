-- ===== src/Tests/Workers.antt =====
-- The threads of the proxy, with one connection.
use systems_programming.Base.{ℕ, ◌<◌, ◌≡◌, ◌/◌, refl, true, some, arith, ℕ_discrete}
use systems_programming.Sbuf.{sbuf_init}
use systems_programming.Logbuf.{logbuf_init}
use systems_programming.Cache.{cache_init, max_cache_size}
use systems_programming.Sbuf.Threads.{
  call_insert, wait_slots, lock_put, write, unlock_put, post_items, call_remove, wait_items,
  lock_get, read, unlock_get, post_slots,
}
use systems_programming.Pool.Threads.{
  Workers, start_workers, Reach, start, later, move, Setup, main, serving,
}
use systems_programming.Pool.Threads.Connections.{Handed, main-Handed}
use systems_programming.Pool.Threads.Progress.{GoesOn, threads_go_on}

-- `main` has put descriptor 5 into the buffer.
inserted : (s : Workers) × Reach 17 (start_workers 32) s
unfolding sbuf_init ℕ_discrete
inserted = (
  _,
  later
      (later
        (later
          (later
            (later (later start (move 0 (omega arith) (call_insert (some 5)) refl))
              (move 0 (omega arith) (wait_slots (omega arith)) tt))
            (move 0 (omega arith) (lock_put (omega arith)) tt))
          (move 0 (omega arith) (write (omega arith)) tt))
        (move 0 (omega arith) unlock_put tt))
      (move 0 (omega arith) post_items tt),
)

-- Thread 3 has taken it out.
removed : (s : Workers) × Reach 17 (start_workers 32) s
unfolding sbuf_init ℕ_discrete inserted
removed = (
  _,
  later
      (later
        (later
          (later
            (later (later inserted.1 (move 3 (omega arith) call_remove (omega arith, refl)))
              (move 3 (omega arith) (wait_items (omega arith)) tt))
            (move 3 (omega arith) (lock_get (omega arith)) tt))
          (move 3 (omega arith) (read {item = some 5} (omega arith) refl) tt))
        (move 3 (omega arith) unlock_get tt))
      (move 3 (omega arith) post_slots tt),
)

abbrev setup : Setup
setup = record { socket = some 3; binds = true; listens = true }

started :
    main 2 setup
    ≡ serving 3 (cache_init (max_cache_size / 100)) (logbuf_init 64) 17 (start_workers 32)
unfolding main
started = refl

main-Handed_example : Handed 17 32 removed.0
unfolding removed inserted ℕ_discrete
main-Handed_example =
    main-Handed 2 setup 3 17 (cache_init (max_cache_size / 100)) (logbuf_init 64) (start_workers 32)
      removed.0 started removed.1 (omega arith)

threads_go_on_example : (j : ℕ) × (j < 17) × GoesOn inserted.0 j
unfolding inserted ℕ_discrete
threads_go_on_example =
    threads_go_on (omega arith) inserted.1 (omega arith) 3 (omega arith) (omega arith) refl
      (omega arith)
