-- ===== src/Pool/Threads/Order.antt =====
-- The order in which the threads of the proxy get the descriptors that `accept` returned.
use mathlib.Core.List.{append-nil}
use systems_programming.Base.{
  ℕ, ◌+◌, ◌≤◌, ◌<◌, ◌≡◌, refl, sym, ap, ◌∙◌, List, [], ◌∷◌, ◌++◌, arith, length, take,
  length-append, take-append_left, ℕ_discrete, Option, some,
}
use systems_programming.Base.Family.{update_self, update_other}
use systems_programming.Sbuf.{Sbuf, int_max}
use systems_programming.Sbuf.Threads as Buffer
use systems_programming.Sbuf.Threads.{
  Pc, put_slots, put_mutex, put_write, Move, call_insert, call_remove, write, write_overflow,
  wait_slots, lock_put, stored, taken,
}
use systems_programming.Sbuf.Invariant.{Reach-Inv}
use systems_programming.Sbuf.Fifo.{fifo}
use systems_programming.Pool.Threads.{
  Fd, Workers, start_workers, May, called, Step, move, finish, Reach, start, later,
}

-- The steps on the buffer are those of any threads.
pub Reach-system :
    {k n : ℕ} {s : Workers} → Reach k (start_workers n) s → Buffer.Reach k (some 0) n s.system
Reach-system start = Buffer.start
Reach-system (later r (move i lt mv may)) = Buffer.later (Reach-system r) (Buffer.pick i lt mv)
Reach-system (later r (finish i fd lt e)) = Reach-system r

-- A descriptor that `main` carries to the buffer.
abbrev pub pending : Pc Fd → List Fd
pending (put_slots item) = item ∷ []
pending (put_mutex item) = item ∷ []
pending (put_write item) = item ∷ []
pending _ = []

unchanged :
    (accepted puts rest : List Fd) → accepted ≡ puts ++ rest → accepted ++ [] ≡ (puts ++ []) ++ rest
unchanged accepted puts rest e = rw (append-nil accepted, append-nil puts) e

pending_one : (p : Pc Fd) → length (pending p) ≤ 1
pending_one (put_slots item) = omega arith
pending_one p = omega arith

-- What `accept` returned went into the buffer in that order, or is still carried there.
Move-pending :
    {m m' : Sbuf Fd} {p p' : Pc Fd} (mv : Move m p m' p') (accepted puts : List Fd)
    → m.rear < int_max
    → accepted ≡ puts ++ pending p
    → accepted ++ called mv ≡ (puts ++ stored mv) ++ pending p'
Move-pending (call_insert item) accepted puts small e =
    rw (append-nil puts) (ap (λ t. t ++ (item ∷ [])) (e ∙ append-nil puts))
Move-pending (write {item} h) accepted puts small e =
    rw (append-nil accepted, append-nil (puts ++ (item ∷ []))) e
Move-pending (write_overflow h) accepted puts small e = absurd (omega arith)
Move-pending (wait_slots {item} h) accepted puts small e = unchanged accepted puts (item ∷ []) e
Move-pending (lock_put {item} h) accepted puts small e = unchanged accepted puts (item ∷ []) e
Move-pending mv accepted puts small e = unchanged accepted puts [] e

-- Another thread than `main` carries none.
Move-other :
    {m m' : Sbuf Fd} {p p' : Pc Fd} (mv : Move m p m' p') (i : ℕ) (hand : Option Fd)
    → 0 < i
    → May i hand mv
    → pending p ≡ []
    → (called mv ≡ []) × (stored mv ≡ []) × (pending p' ≡ [])
Move-other (call_insert item) i hand pos may e = absurd (omega arith)
Move-other (write {item} h) i hand pos may e = absurd (cc)
Move-other (wait_slots h) i hand pos may e = absurd (cc)
Move-other (lock_put h) i hand pos may e = absurd (cc)
Move-other (write_overflow h) i hand pos may e = absurd (cc)
Move-other mv i hand pos may e = (refl, refl, refl)

pub record InOrder (s : Workers) : Type 0 where
  pub order : s.accepted ≡ s.system.puts ++ pending (s.system.pc 0)
  pub only_main : (i : ℕ) → 0 < i → pending (s.system.pc i) ≡ []

-- With fewer connections than the largest `int`, `rear` stays below it.
rear_small :
    {k n : ℕ} {s : Workers}
    → 0 < n
    → Reach k (start_workers n) s
    → InOrder s
    → length s.accepted < int_max
    → s.system.mem.rear < int_max
rear_small {s} h r o few = omega (
  arith,
  (Reach-Inv h (Reach-system r)).ring.puts_count,
  ap (length {A = Fd}) o.order,
  length-append s.system.puts (pending (s.system.pc 0)),
)

Step-InOrder :
    {k : ℕ} {s t : Workers} → Step k s t → InOrder s → s.system.mem.rear < int_max → InOrder t
Step-InOrder {s} (move i {m} {p} lt mv may) o small = elim (ℕ_discrete i 0) [
  | yes e ↦ record {
    order = rw (update_self s.system.pc i p 0 e) (
        Move-pending mv s.accepted s.system.puts small
          (o.order ∙ ap (λ j. s.system.puts ++ pending (s.system.pc j)) (sym e)));
    only_main = λ j pos.
        rw (update_other s.system.pc i p j (λ q. absurd (omega arith))) (o.only_main j pos);
  }
  | no ne ↦
      let (not_called, not_stored, none_left) =
        Move-other mv i (s.serving i) (omega arith) may (o.only_main i (omega arith)) in
      record {
        order =
            rw (update_other s.system.pc i p 0 ne, not_called, not_stored)
              (unchanged s.accepted s.system.puts (pending (s.system.pc 0)) o.order);
        only_main = λ j pos. elim (ℕ_discrete i j) [
          | yes q ↦ rw (update_self s.system.pc i p j q) none_left
          | no q ↦ rw (update_other s.system.pc i p j q) (o.only_main j pos)
        ];
      }
]
Step-InOrder (finish i fd lt e) o small = record { order = o.order; only_main = o.only_main }

accepted_before : {k : ℕ} {s t : Workers} → Step k s t → length s.accepted ≤ length t.accepted
accepted_before {s} (move i lt mv may) = omega (arith, length-append s.accepted (called mv))
accepted_before (finish i fd lt e) = omega arith

pub Reach-InOrder :
    {k n : ℕ} {s : Workers}
    → 0 < n
    → Reach k (start_workers n) s
    → length s.accepted < int_max
    → InOrder s
Reach-InOrder h start few = record { order = refl; only_main = λ i pos. refl }
Reach-InOrder h (later r st) few =
    let before = Reach-InOrder h r (omega (arith, accepted_before st)) in
    Step-InOrder st before (rear_small h r before (omega (arith, accepted_before st)))

-- In every state that the threads of the proxy reach, with fewer connections accepted than the largest
-- `int`: the calls of `sbuf_remove` return the descriptors in the order of `accept`, and all but the
-- `n` in the buffer and the one that `main` carries have been returned.
pub taken_in_order :
    {k n : ℕ} {s : Workers}
    → 0 < n
    → Reach k (start_workers n) s
    → length s.accepted < int_max
    → (s.system.gets ≡ take (length s.system.gets) s.accepted)
      × (length s.accepted ≤ length s.system.gets + n + 1)
taken_in_order {s} h r few =
    let o = Reach-InOrder h r few in
    let (in_order, le, room) = fifo h (Reach-system r) in
    let one : length (pending (s.system.pc 0)) ≤ 1 = pending_one (s.system.pc 0) in
    let sizes = length-append s.system.puts (pending (s.system.pc 0)) in
    (
      rw
          (
            o.order,
            take-append_left (length s.system.gets) s.system.puts (pending (s.system.pc 0)) le,
          )
          in_order,
      omega (arith, ap (length {A = Fd}) o.order, sizes),
    )
