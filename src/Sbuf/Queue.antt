-- ===== src/Sbuf/Queue.antt =====
-- What sbuf.c promises to a single caller: a queue with room for `n` items.
use systems_programming.Base.{
  ℕ, suc, ◌+◌, ◌-◌, ◌%◌, ◌≤◌, ◌<◌, ◌≡◌, ◌==◌, false, refl, ◌⊎◌, inl, inr, some, List, [], ◌∷◌, ◌++◌,
  arith, length, get_elem?, set, length-append, length-set, length-replicate, get_elem?-set_self,
  get_elem?-set_ne, get_elem?-append_left, get_elem?-append_last, mod-ne, sym, ap, ◌∙◌, ℕ_discrete,
  dec_lt,
}
use systems_programming.Sbuf.{
  Sbuf, int_max, sbuf_init, done, blocked, sbuf_insert, read_item, sbuf_remove, sbuf_deinit,
  undefined,
}

-- A buffer that is not in use and holds the items `xs`, the oldest first.
pub record IsQueue {ℓ} {A : Type ℓ} (sp : Sbuf A) (xs : List A) : Type ℓ where
  pub room : 0 < sp.n
  pub size : length sp.buf ≡ sp.n
  pub small : sp.rear ≤ int_max
  pub ends : sp.rear ≡ sp.front + length xs
  pub items : sp.items ≡ length xs
  pub slots : sp.slots + length xs ≡ sp.n
  pub free : sp.mutex ≡ 1
  pub held : (j : ℕ) → j < length xs → get_elem? sp.buf ((sp.front + 1 + j) % sp.n) ≡ get_elem? xs j

module _ {ℓ} {A : Type ℓ} where
  pub sbuf_init-IsQueue : (z : A) (n : ℕ) → 0 < n → IsQueue (sbuf_init z n) []
  unfolding sbuf_init
  sbuf_init-IsQueue z n pos = record {
    room = pos;
    size = length-replicate n z;
    small = omega arith;
    ends = refl;
    items = refl;
    slots = omega arith;
    free = refl;
    held = λ j h. absurd (omega arith);
  }

  -- The buffer behind an insertion, and behind a removal.
  abbrev pub inserted : Sbuf A → A → Sbuf A
  inserted sp item = record sp {
    buf = set sp.buf ((sp.rear + 1) % sp.n) item;
    rear = sp.rear + 1;
    mutex = 1;
    slots = sp.slots - 1;
    items = sp.items + 1;
  }

  abbrev pub removed : Sbuf A → ℕ → Sbuf A
  removed sp items = record sp {
    front = sp.front + 1;
    mutex = 0 + 1;
    slots = sp.slots + 1;
    items = items;
  }

  inserted-IsQueue :
      (sp : Sbuf A) (xs : List A) (item : A)
      → IsQueue sp xs
      → length xs < sp.n
      → sp.rear < int_max
      → IsQueue (inserted sp item) (xs ++ (item ∷ []))
  inserted-IsQueue sp xs item q more small = record {
    room = q.room;
    size = omega (arith, q.size, length-set sp.buf ((sp.rear + 1) % sp.n) item);
    small = omega arith;
    ends = omega (arith, q.ends, length-append xs (item ∷ []));
    items = omega (arith, q.items, length-append xs (item ∷ []));
    slots = omega (arith, q.slots, length-append xs (item ∷ []));
    free = refl;
    held = held_after;
  }
    where
      held_after :
          (j : ℕ)
          → j < length (xs ++ (item ∷ []))
          → get_elem? (set sp.buf ((sp.rear + 1) % sp.n) item) ((sp.front + 1 + j) % sp.n)
            ≡ get_elem? (xs ++ (item ∷ [])) j
      held_after j h = elim (ℕ_discrete j (length xs)) [
        | yes e ↦
            let same : sp.front + 1 + j ≡ sp.rear + 1 = omega (arith, q.ends) in
            rw (same, get_elem?-append_last xs item j e)
              (get_elem?-set_self sp.buf ((sp.rear + 1) % sp.n) item
                (omega (arith, q.size, q.room)))
        | no ne ↦
            let lt : j < length xs = omega (arith, length-append xs (item ∷ [])) in
            get_elem?-set_ne sp.buf ((sp.rear + 1) % sp.n) ((sp.front + 1 + j) % sp.n) item (λ e.
              mod-ne sp.n (sp.front + 1 + j) (sp.rear + 1) (omega (arith, q.ends))
                (omega (arith, q.ends, q.slots)) (sym e))
            ∙ q.held j lt
            ∙ sym (get_elem?-append_left xs (item ∷ []) j lt)
      ]

  removed-IsQueue :
      (sp : Sbuf A) (x : A) (xs : List A)
      → IsQueue sp (x ∷ xs)
      → IsQueue (removed sp (length xs)) xs
  removed-IsQueue sp x xs q = record {
    room = q.room;
    size = q.size;
    small = q.small;
    ends = omega (arith, q.ends);
    items = omega (arith, q.items);
    slots = omega (arith, q.slots);
    free = refl;
    held = λ j h.
        let next : sp.front + 1 + 1 + j ≡ sp.front + 1 + suc j = omega arith in
        ap (λ k. get_elem? sp.buf (k % sp.n)) next ∙ q.held (suc j) (omega arith);
  }

  -- What `sbuf_insert` does to a queue: it blocks on a full one, and otherwise adds the item at the end.
  abbrev pub Inserts : Sbuf A → List A → A → Type ℓ
  Inserts sp xs item =
      ((length xs ≡ sp.n) × (sbuf_insert sp item ≡ blocked))
      ⊎ ((sbuf_insert sp item ≡ done (inserted sp item))
          × IsQueue (inserted sp item) (xs ++ (item ∷ [])))

  -- What `sbuf_remove` does: it blocks on an empty one, and otherwise takes the oldest item.
  abbrev pub Removes : Sbuf A → List A → Type ℓ
  Removes sp [] = sbuf_remove sp ≡ blocked
  Removes sp (x ∷ xs) =
      (sbuf_remove sp ≡ done (x, removed sp (length xs))) × IsQueue (removed sp (length xs)) xs

  pub sbuf_insert-IsQueue :
      (sp : Sbuf A) (xs : List A) (item : A)
      → IsQueue sp xs
      → sp.rear < int_max
      → Inserts sp xs item
  unfolding sbuf_insert
  sbuf_insert-IsQueue sp xs item q small = elim (dec_lt (length xs) sp.n) [
    | yes more ↦ inr (ground (arith, q.free, q.slots), inserted-IsQueue sp xs item q more small)
    | no full ↦
        inl
          (omega (arith, q.slots), (let z : sp.slots ≡ 0 = omega (arith, q.slots) in ground arith))
  ]

  pub sbuf_remove-IsQueue : (sp : Sbuf A) (xs : List A) → IsQueue sp xs → Removes sp xs
  unfolding sbuf_remove read_item
  sbuf_remove-IsQueue sp [] q = ground (arith, q.items)
  sbuf_remove-IsQueue sp (x ∷ xs) q =
      let more : (sp.front == int_max) ≡ false = ground (arith, q.ends, q.small) in
      let first : sp.front + 1 ≡ sp.front + 1 + 0 = omega arith in
      let oldest : get_elem? sp.buf ((sp.front + 1) % sp.n) ≡ some x =
        ap (λ k. get_elem? sp.buf (k % sp.n)) first ∙ q.held 0 (omega arith) in
      (
        rw (q.items, sbuf_remove) (rw q.free (rw more (rw (oldest, read_item) refl))),
        removed-IsQueue sp x xs q,
      )

  -- After `sbuf_deinit` an item that is still inside cannot be taken out.
  sbuf_remove-deinit :
      (sp : Sbuf A) (x : A) (xs : List A)
      → IsQueue sp (x ∷ xs)
      → sbuf_remove (sbuf_deinit sp) ≡ undefined
  unfolding sbuf_remove read_item sbuf_deinit
  sbuf_remove-deinit sp x xs q =
      let more : (sp.front == int_max) ≡ false = ground (arith, q.ends, q.small) in
      rw (q.items, sbuf_remove) (rw q.free (rw more refl))
