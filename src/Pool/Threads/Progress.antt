-- ===== src/Pool/Threads/Progress.antt =====
-- The threads of first-proxylab-handout/proxy.c never wait for one another while a connection waits.
use systems_programming.Base.{
  ℕ, ◌<◌, ◌≡◌, refl, ap, [], arith, length, length-append, Option, none, true, false, dec_lt,
  if◌then◌else◌,
}
use systems_programming.Base.Family.{tally, tally-pos, weight-le-tally}
use systems_programming.Sbuf.{Sbuf, int_max}
use systems_programming.Sbuf.Threads.{
  Pc, idle, put_slots, get_items, Move, call_insert, call_remove, wait_slots, wait_items,
}
use systems_programming.Sbuf.Fifo.{outside, quiescent}
use systems_programming.Sbuf.Progress.{progress}
use systems_programming.Pool.Threads.{Fd, Workers, start_workers, May, called, Reach}
use systems_programming.Pool.Threads.Order.{pending, InOrder, Reach-InOrder, Reach-system}

-- Thread `i` can make a step on the buffer without a new connection.
abbrev pub GoesOn : Workers → ℕ → Type 0
GoesOn s i =
    (m : Sbuf Fd) × (p : Pc Fd) × (mv : Move s.system.mem (s.system.pc i) m p) × May i (s.serving i)
      mv
    × (called mv ≡ [])

-- A move out of the inside of a call is always one of its own.
inside-May :
    {m m' : Sbuf Fd} {p p' : Pc Fd} (mv : Move m p m' p') (i : ℕ) (hand : Option Fd)
    → outside p ≡ false
    → May i hand mv × (called mv ≡ [])
inside-May (call_insert item) i hand e = absurd (cc)
inside-May call_remove i hand e = absurd (cc)
inside-May mv i hand e = (tt, refl)

-- A thread that is at its first wait, or between two calls.
worker_moves :
    {m : Sbuf Fd} (p : Pc Fd) (i : ℕ) (hand : Option Fd)
    → 0 < i
    → hand ≡ none
    → 0 < m.items
    → outside p ≡ true
    → pending p ≡ []
    → (m' : Sbuf Fd) × (p' : Pc Fd) × (mv : Move m p m' p') × May i hand mv × (called mv ≡ [])
worker_moves idle i hand pos free some_item e none_left = (_, _, call_remove, (pos, free), refl)
worker_moves get_items i hand pos free some_item e none_left =
    (_, _, wait_items some_item, tt, refl)
worker_moves (put_slots item) i hand pos free some_item e none_left = absurd (cc)
worker_moves p i hand pos free some_item e none_left = absurd (cc)

main_moves :
    {m : Sbuf Fd} (p : Pc Fd) (hand : Option Fd)
    → 0 < m.slots
    → outside p ≡ true
    → 0 < length (pending p)
    → (m' : Sbuf Fd) × (p' : Pc Fd) × (mv : Move m p m' p') × May 0 hand mv × (called mv ≡ [])
main_moves (put_slots item) hand room e carries = (_, _, wait_slots room, tt, refl)
main_moves idle hand room e carries = absurd (omega arith)
main_moves get_items hand room e carries = absurd (omega arith)
main_moves p hand room e carries = absurd (ground arith)

abbrev inside : Pc Fd → ℕ
inside p = if outside p then 0 else 1

inside-zero : (p : Pc Fd) → inside p ≡ 0 → outside p ≡ true
inside-zero p e = ground arith

module _ {k n : ℕ} {s : Workers} (some_slot : 0 < n) (r : Reach k (start_workers n) s)
    (few : length s.accepted < int_max) where
  o : InOrder s
  o = Reach-InOrder some_slot r few

  puts_few : length s.system.puts < int_max
  puts_few =
      omega
        (arith, ap (length {A = Fd}) o.order, length-append s.system.puts (pending (s.system.pc 0)))

  -- With every thread outside.
  all_outside :
      (i : ℕ)
      → 0 < i
      → i < k
      → s.serving i ≡ none
      → length s.system.gets < length s.accepted
      → ((j : ℕ) → j < k → outside (s.system.pc j) ≡ true)
      → (j : ℕ) × (j < k) × GoesOn s j
  all_outside i pos lt free waits quiet =
      let (lock, queued, room) = quiescent some_slot (Reach-system r) quiet in
      elim (dec_lt 0 s.system.mem.items) [
        | yes h ↦ (
          i,
          lt,
          worker_moves (s.system.pc i) i (s.serving i) pos free h (quiet i lt) (o.only_main i pos),
        )
        | no h ↦ (
          0,
          omega arith,
          main_moves (s.system.pc 0) (s.serving 0) (omega arith) (quiet 0 (omega arith)) (
              omega (
                arith,
                ap (length {A = Fd}) o.order,
                length-append s.system.puts (pending (s.system.pc 0)),
              )),
        )
      ]

  -- In every state that the threads of the proxy reach, with fewer connections accepted than the largest
  -- `int`: while one of them has not been taken out of the buffer and one of the threads that serve is not
  -- in `read_write`, some thread can go on without a new connection.
  pub threads_go_on :
      (i : ℕ)
      → 0 < i
      → i < k
      → s.serving i ≡ none
      → length s.system.gets < length s.accepted
      → (j : ℕ) × (j < k) × GoesOn s j
  threads_go_on i pos lt free waits = elim (dec_lt 0 (tally inside k s.system.pc)) [
    | yes h ↦
        let (j, jt, h') = tally-pos inside k s.system.pc h in
        let (u, ut, e, (m, p, mv)) =
          progress some_slot (Reach-system r) puts_few j jt (ground arith) in
        let (may, own) = inside-May mv u (s.serving u) e in (u, ut, (m, p, mv, may, own))
    | no h ↦ all_outside i pos lt free waits (λ j jt.
        inside-zero (s.system.pc j) (omega (arith, weight-le-tally inside k s.system.pc j jt)))
  ]
