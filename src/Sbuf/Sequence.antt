-- ===== src/Sbuf/Sequence.antt =====
-- Sequences of calls of sbuf.c, against a list with room for `n` items.
use systems_programming.Base.{
  ℕ, ◌+◌, ◌≤◌, ◌≡◌, ◌==◌, if◌then◌else◌, true, false, refl, inl, inr, List, [], ◌∷◌, ◌++◌, arith,
  length, length-append, ap,
}
use systems_programming.Sbuf.{
  Sbuf, Outcome, int_max, done, blocked, ◌>>=◌, sbuf_insert, sbuf_remove,
}
use systems_programming.Sbuf.Queue.{
  IsQueue, inserted, removed, sbuf_insert-IsQueue, sbuf_remove-IsQueue,
}

-- A call on the buffer.
pub data Op {ℓ} (A : Type ℓ) : Type ℓ where
  insert : A → Op A
  remove : Op A

module _ {ℓ} {A : Type ℓ} where
  -- Calls one after the other: the items that they take out.
  unfoldable pub run_buffer : Sbuf A → List (Op A) → Outcome (List A)
  run_buffer sp [] = done []
  run_buffer sp (insert item ∷ ops) = (sbuf_insert sp item >>= λ sp'. run_buffer sp' ops)
  run_buffer sp (remove ∷ ops) =
      (sbuf_remove sp >>= λ (item, sp'). (run_buffer sp' ops >>= λ items. done (item ∷ items)))

  -- The same calls on a list of at most `n` items.
  unfoldable pub run_list : ℕ → List A → List (Op A) → Outcome (List A)
  run_list n xs [] = done []
  run_list n xs (insert item ∷ ops) =
      let rest : Outcome (List A) = run_list n (xs ++ (item ∷ [])) ops in
      if length xs == n then blocked else rest
  run_list n [] (remove ∷ ops) = blocked
  run_list n (x ∷ xs) (remove ∷ ops) = (run_list n xs ops >>= λ items. done (x ∷ items))

  -- On a buffer that holds the items `xs`, any sequence of calls that cannot bring `rear` above the
  -- largest `int` takes out the same items, or blocks, as on the list `xs` with room for `n` items.
  pub run_buffer-run_list :
      (ops : List (Op A)) (sp : Sbuf A) (xs : List A)
      → IsQueue sp xs
      → sp.rear + length ops ≤ int_max
      → run_buffer sp ops ≡ run_list sp.n xs ops
  unfolding run_buffer run_list
  run_buffer-run_list [] sp xs q small = refl
  run_buffer-run_list (insert item ∷ ops) sp xs q small =
      elim (sbuf_insert-IsQueue sp xs item q (omega arith)) [
        | inl (full, gone) ↦
            let e : (length xs == sp.n) ≡ true = ground arith in rw gone (rw e refl)
        | inr (put, q') ↦
            let e : (length xs == sp.n) ≡ false =
              ground (arith, q'.slots, length-append xs (item ∷ [])) in
            rw put (
              rw e
                (run_buffer-run_list ops (inserted sp item) (xs ++ (item ∷ [])) q' (omega arith)))
      ]
  run_buffer-run_list (remove ∷ ops) sp [] q small = rw (sbuf_remove-IsQueue sp [] q) refl
  run_buffer-run_list (remove ∷ ops) sp (x ∷ xs) q small =
      let (taken, q') = sbuf_remove-IsQueue sp (x ∷ xs) q in
      rw taken (
        ap (λ o. o >>= λ items. done (x ∷ items))
          (run_buffer-run_list ops (removed sp (length xs)) xs q' (omega arith)))
