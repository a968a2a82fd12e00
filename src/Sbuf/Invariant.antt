-- ===== src/Sbuf/Invariant.antt =====
-- What the ring array of a `Sbuf` holds, and the invariant of every reachable state.
use mathlib.Core.List.{append-nil}
use systems_programming.Base.{
  ℕ, ◌+◌, ◌%◌, ◌≤◌, ◌<◌, ◌≡◌, refl, List, [], ◌∷◌, ◌++◌, some, arith, length, get_elem?, set, take,
  length-append, length-set, length-replicate, get_elem?-set_self, get_elem?-set_ne,
  get_elem?-append_left, get_elem?-append_last, take-append_left, take-suc, mod-ne, sym, ap, ◌∙◌,
  ℕ_discrete,
}
use systems_programming.Base.Family.{tally, tally-eq-zero}
use systems_programming.Sbuf.{Sbuf, int_max, sbuf_init}
use systems_programming.Sbuf.Threads.{
  Pc, idle, Move, write, read, stored, taken, System, Step, pick, start_system, Reach, start, later,
}
use systems_programming.Sbuf.Counts.{
  locking, reserving, announcing, claiming, freeing, Counts, Sums, sums, Move-Counts,
}

-- What the ring array holds: the items that went in and have not come out.
pub record Ring {ℓ} {A : Type ℓ} (buf : List A) (n front rear : ℕ) (puts gets : List A)
    : Type ℓ where
  pub some_room : 0 < n
  pub size : length buf ≡ n
  pub in_range : rear ≤ int_max
  pub puts_count : rear ≡ length puts
  pub gets_count : front ≡ length gets
  pub in_order : gets ≡ take front puts
  pub held : (j : ℕ) → front ≤ j → j < rear → get_elem? buf ((j + 1) % n) ≡ get_elem? puts j

module _ {ℓ} {A : Type ℓ} {buf : List A} {n front rear : ℕ} {puts gets : List A}
    (r : Ring buf n front rear puts gets) where
  -- A store into a ring that is not full.
  write-Ring :
      (item : A)
      → rear < int_max
      → rear < n + front
      → front ≤ rear
      → Ring (set buf ((rear + 1) % n) item) n front (rear + 1) (puts ++ (item ∷ [])) (gets ++ [])
  write-Ring item small free le = record {
    some_room = r.some_room;
    size = omega (arith, r.size, length-set buf ((rear + 1) % n) item);
    in_range = omega arith;
    puts_count = omega (arith, r.puts_count, length-append puts (item ∷ []));
    gets_count = omega (arith, r.gets_count, length-append {ℓ} gets []);
    in_order =
        rw (append-nil, take-append_left front puts (item ∷ []) (omega (arith, r.puts_count)))
          r.in_order;
    held = held_after;
  }
    where
      held_after :
          (j : ℕ)
          → front ≤ j
          → j < rear + 1
          → get_elem? (set buf ((rear + 1) % n) item) ((j + 1) % n)
            ≡ get_elem? (puts ++ (item ∷ [])) j
      held_after j lo hi = elim (ℕ_discrete j rear) [
        | yes e ↦
            rw (e, get_elem?-append_last puts item rear r.puts_count)
              (get_elem?-set_self buf ((rear + 1) % n) item (omega (arith, r.size, r.some_room)))
        | no ne ↦
            rw
              (
                get_elem?-set_ne buf ((rear + 1) % n) ((j + 1) % n) item
                    (λ e. mod-ne n (j + 1) (rear + 1) (omega arith) (omega arith) (sym e)),
                get_elem?-append_left puts (item ∷ []) j (omega (arith, r.puts_count)),
              )
              (r.held j lo (omega arith))
      ]

  -- A load from a ring that is not empty.
  read-Ring :
      (item : A)
      → front < rear
      → get_elem? buf ((front + 1) % n) ≡ some item
      → Ring buf n (front + 1) rear (puts ++ []) (gets ++ (item ∷ []))
  read-Ring item lt e = record {
    some_room = r.some_room;
    size = r.size;
    in_range = r.in_range;
    puts_count = rw append-nil r.puts_count;
    gets_count = omega (arith, r.gets_count, length-append gets (item ∷ []));
    in_order =
        rw (append-nil, take-suc front puts item (sym (r.held front (omega arith) lt) ∙ e))
          (ap (λ t. t ++ (item ∷ [])) r.in_order);
    held = rw append-nil (λ j lo hi. r.held j (omega arith) hi);
  }

  -- A move that touches neither the array nor its ends.
  keep-Ring : Ring buf n front rear (puts ++ []) (gets ++ [])
  keep-Ring = simp append-nil r

pub record Inv {ℓ} {A : Type ℓ} (k : ℕ) (s : System A) : Type ℓ where
  pub counts : Counts k s.mem s.pc
  pub ring : Ring s.mem.buf s.mem.n s.mem.front s.mem.rear s.puts s.gets

module _ {ℓ} {A : Type ℓ} {k : ℕ} {m : Sbuf A} {pc : ℕ → Pc A} {puts gets : List A} where
  Move-Ring :
      {i : ℕ} {p p' : Pc A} {m' : Sbuf A}
      → (mv : Move m p m' p') → Sums k pc i p p'
      → Counts k m pc
      → Ring m.buf m.n m.front m.rear puts gets
      → Ring m'.buf m'.n m'.front m'.rear (puts ++ stored mv) (gets ++ taken mv)
  Move-Ring (write {item} h) f c r = write-Ring r item h (omega arith) (omega arith)
  Move-Ring (read {item} h e) f c r = read-Ring r item (omega arith) e
  Move-Ring _ f c r = keep-Ring r

-- Every step of the threads keeps the invariant.
pub Step-Inv {ℓ} : {A : Type ℓ} {k : ℕ} {s t : System A} → Step k s t → Inv k s → Inv k t
Step-Inv {k} {s} (pick i {p = p'} lt mv) inv = record {
  counts = Move-Counts lt mv inv.ring.in_range inv.counts;
  ring = Move-Ring mv (sums k s.pc i p' lt) inv.counts inv.ring;
}

start-Inv {ℓ} : {A : Type ℓ} (k : ℕ) (z : A) (n : ℕ) → 0 < n → Inv k (start_system z n)
unfolding sbuf_init
start-Inv {A} k z n h = record {
  counts = record {
    lock = omega (arith, quiet locking refl);
    room = omega (arith, quiet reserving refl, quiet freeing refl);
    queued = omega (arith, quiet announcing refl, quiet claiming refl);
  };
  ring = record {
    some_room = h;
    size = length-replicate n z;
    in_range = omega arith;
    puts_count = refl;
    gets_count = refl;
    in_order = refl;
    held = λ j lo hi. absurd (omega arith);
  };
}
  where
    quiet : (w : Pc A → ℕ) → w idle ≡ 0 → tally w k (λ _. idle) ≡ 0
    quiet w e = tally-eq-zero w k (λ _. idle) (λ _ _. e)

-- The invariant of every state that threads can reach from `sbuf_init` on `n` slots.
pub Reach-Inv {ℓ} :
    {A : Type ℓ} {k : ℕ} {z : A} {n : ℕ} {s : System A} → 0 < n → Reach k z n s → Inv k s
Reach-Inv {k} {z} {n} h start = start-Inv k z n h
Reach-Inv h (later r st) = Step-Inv st (Reach-Inv h r)
