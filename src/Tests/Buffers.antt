-- ===== src/Tests/Buffers.antt =====
-- The bounded buffer of two slots, used by one thread that inserts and then removes.
use systems_programming.Base.{
  ℕ, List, ◌+◌, ◌≤◌, ◌≡◌, refl, [], ◌∷◌, take, length, arith, ℕ_discrete,
}
use systems_programming.Sbuf.{sbuf_init, done}
use systems_programming.Sbuf.Threads.{
  System, pick, call_insert, wait_slots, lock_put, write, unlock_put, post_items, call_remove,
  wait_items, lock_get, read, Reach, start, later,
}
use systems_programming.Sbuf.Queue.{sbuf_init-IsQueue}
use systems_programming.Sbuf.Sequence.{
  Op, insert, remove, run_buffer, run_list, run_buffer-run_list,
}
use systems_programming.Sbuf.Fifo.{mutual_exclusion, fifo}

writing : (s : System ℕ) × Reach 1 0 2 s
unfolding sbuf_init ℕ_discrete
writing = (
  _,
  later
      (later (later start (pick 0 (omega arith) (call_insert 7)))
        (pick 0 (omega arith) (wait_slots (omega arith))))
      (pick 0 (omega arith) (lock_put (omega arith))),
)

inserted : (s : System ℕ) × Reach 1 0 2 s
unfolding sbuf_init ℕ_discrete writing
inserted = (
  _,
  later
      (later (later writing.1 (pick 0 (omega arith) (write (omega arith))))
        (pick 0 (omega arith) unlock_put))
      (pick 0 (omega arith) post_items),
)

removed : (s : System ℕ) × Reach 1 0 2 s
unfolding sbuf_init ℕ_discrete writing inserted
removed = (
  _,
  later
      (later
        (later (later inserted.1 (pick 0 (omega arith) call_remove))
          (pick 0 (omega arith) (wait_items (omega arith))))
        (pick 0 (omega arith) (lock_get (omega arith))))
      (pick 0 (omega arith) (read {item = 7} (omega arith) refl)),
)

mutual_exclusion_example : ◌≡◌ {A = ℕ} 0 0
unfolding writing
mutual_exclusion_example =
    mutual_exclusion (omega arith) writing.1 0 0 (omega arith) (omega arith) refl refl

fifo_example :
    (removed.0.gets ≡ take (length removed.0.gets) removed.0.puts)
    × (length removed.0.gets ≤ length removed.0.puts)
    × (length removed.0.puts ≤ length removed.0.gets + 2)
fifo_example = fifo (omega arith) removed.1

abbrev calls : List (Op ℕ)
calls = insert 7 ∷ insert 8 ∷ remove ∷ insert 9 ∷ remove ∷ []

run_buffer-run_list_example : run_buffer (sbuf_init 0 2) calls ≡ run_list 2 [] calls
unfolding sbuf_init
run_buffer-run_list_example =
    run_buffer-run_list calls (sbuf_init 0 2) [] (sbuf_init-IsQueue 0 2 (omega arith)) (omega arith)

-- The calls do return, and the first two items come out.
calls_return : run_list 2 [] calls ≡ done (7 ∷ 8 ∷ [])
unfolding run_list
calls_return = refl
