-- ===== src/Pool/Threads/Hands.antt =====
-- Who has a descriptor that left the buffer of the proxy: each one a single thread, or no one any more.
use systems_programming.Base.{
  ℕ, ◌+◌, ◌≡◌, refl, ap, ◌∙◌, List, [], ◌∷◌, ◌++◌, arith, ℕ_discrete, Option, none, some, Bool,
  true, false,
}
use systems_programming.Base.Family.{
  update_self, update_other, tally, tally-update, tally-eq-zero, total, total-append, total-nil,
  total-single,
}
use systems_programming.Sbuf.{Sbuf}
use systems_programming.Sbuf.Threads.{
  Pc, idle, get_items, get_mutex, get_read, get_unlock, get_slots, Move, call_insert, call_remove,
  wait_items, lock_get, read, unlock_get, post_slots, taken,
}
use systems_programming.Pool.Threads.{
  Fd, Workers, start_workers, May, hand_after, Step, move, finish, Reach, start, later,
}

-- Inside `sbuf_remove`.
abbrev pub removing : Pc Fd → Bool
removing get_items = true
removing get_mutex = true
removing get_read = true
removing (get_unlock _) = true
removing (get_slots _) = true
removing _ = false

module _ (w : Fd → ℕ) where
  -- What a thread has taken out of the array and not yet returned, and what it works on.
  abbrev pub in_call : Pc Fd → ℕ
  in_call (get_unlock item) = w item
  in_call (get_slots item) = w item
  in_call _ = 0

  abbrev pub in_hand : Option Fd → ℕ
  in_hand none = 0
  in_hand (some fd) = w fd

  Move-hands :
      {m m' : Sbuf Fd} {p p' : Pc Fd} (mv : Move m p m' p') (gets : List Fd) (hand : Option Fd)
      → (removing p ≡ true → hand ≡ none)
      → total w (gets ++ taken mv) + in_call p + in_hand hand
        ≡ total w gets + in_call p' + in_hand (hand_after hand mv)
  Move-hands (read {item} h e) gets hand free =
      omega (arith, total-append w gets (item ∷ []), total-single w item)
  Move-hands (unlock_get {item}) gets hand free = omega (arith, total-append w gets [], total-nil w)
  Move-hands (post_slots {item}) gets hand free =
      rw (free refl) (omega (arith, total-append w gets [], total-nil w))
  Move-hands (call_insert item) gets hand free = omega (arith, total-append w gets [], total-nil w)
  Move-hands mv gets hand free = omega (arith, total-append w gets [], total-nil w)

-- A thread inside `sbuf_remove` works on nothing else.
Move-free :
    {m m' : Sbuf Fd} {p p' : Pc Fd} (mv : Move m p m' p') (i : ℕ) (hand : Option Fd)
    → May i hand mv
    → (removing p ≡ true → hand ≡ none)
    → removing p' ≡ true
    → hand_after hand mv ≡ none
Move-free call_remove i hand may free e = may.1
Move-free (wait_items h) i hand may free e = free refl
Move-free (lock_get h) i hand may free e = free refl
Move-free (read h q) i hand may free e = free refl
Move-free unlock_get i hand may free e = free refl
Move-free (call_insert item) i hand may free e = absurd (cc)
Move-free mv i hand may free e = absurd (cc)

pub record InHands (k : ℕ) (s : Workers) : Type 0 where
  pub free : (i : ℕ) → removing (s.system.pc i) ≡ true → s.serving i ≡ none
  pub taken_out :
      (w : Fd → ℕ)
      → total w s.system.gets
        ≡ tally (in_call w) k s.system.pc + tally (in_hand w) k s.serving + total w s.served

Step-InHands : {k : ℕ} {s t : Workers} → Step k s t → InHands k s → InHands k t
Step-InHands {k} {s} (move i {m} {p} lt mv may) v = record {
  free = λ j e. elim (ℕ_discrete i j) [
    | yes q ↦
        rw (update_self s.serving i (hand_after (s.serving i) mv) j q)
          (Move-free mv i (s.serving i) may (v.free i) (rw (update_self s.system.pc i p j q) at e))
    | no q ↦
        rw (update_other s.serving i (hand_after (s.serving i) mv) j q)
          (v.free j (rw (update_other s.system.pc i p j q) at e))
  ];
  taken_out = λ w. omega (
    arith,
    v.taken_out w,
    Move-hands w mv s.system.gets (s.serving i) (v.free i),
    tally-update (in_call w) k s.system.pc i p lt,
    tally-update (in_hand w) k s.serving i (hand_after (s.serving i) mv) lt,
  );
}
Step-InHands {k} {s} (finish i fd lt e) v = record {
  free = λ j q. elim (ℕ_discrete i j) [
    | yes same ↦ update_self s.serving i none j same
    | no other ↦ update_other s.serving i none j other ∙ v.free j q
  ];
  taken_out = λ w.
      let own : in_hand w (s.serving i) ≡ w fd = ap (in_hand w) e in
      omega (
        arith,
        v.taken_out w,
        tally-update (in_hand w) k s.serving i none lt,
        total-append w s.served (fd ∷ []),
        total-single w fd,
      );
}

pub Reach-InHands : {k : ℕ} (n : ℕ) {s : Workers} → Reach k (start_workers n) s → InHands k s
Reach-InHands {k} n start = record {
  free = λ i e. refl;
  taken_out = λ w. omega (
    arith,
    total-nil w,
    tally-eq-zero (in_call w) k (λ _. idle) (λ _ _. refl),
    tally-eq-zero (in_hand w) k (λ _. none) (λ _ _. refl),
  );
}
Reach-InHands n (later r st) = Step-InHands st (Reach-InHands n r)
