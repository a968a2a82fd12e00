-- ===== src/Resolver/Query/Entries/Links.antt =====
-- The entries that the loop of `resolve` in resolver.c links, one after the other.
use mathlib.Core.List.{append_assoc, append-nil}
use systems_programming.Base.{
  ◌>>=◌, ℕ, zero, suc, ◌≡◌, refl, Option, none, some, List, [], ◌∷◌, ◌++◌, length, length-append,
  get_elem?-middle, set-middle, CStr, arith, ap, ◌∙◌, sym, Option-cases, inl, inr,
}
use systems_programming.Resolver.Query.{answer_at, answers_from}
use systems_programming.Resolver.Query.Entries.{
  Link, null, at, Entry, Heap, new_entry, malloc, load, set_next, set_value, free, entries_from,
  finish_list,
}

-- An entry whose successor gets the next address.
abbrev pub linked : ℕ → CStr → Option Entry
linked a v = some (record { value = some v; next = at (suc a) })

-- The entries of the values of a list, from the address `a` on.
abbrev links : ℕ → List CStr → Heap
links a [] = []
links a (v ∷ vs) = linked a v ∷ links (suc a) vs

abbrev last_of : ℕ → List CStr → Option ℕ → Option ℕ
last_of a [] prev = prev
last_of a (v ∷ vs) prev = last_of (suc a) vs (some a)

length-malloc : (heap : Heap) → length (malloc heap) ≡ suc (length heap)
length-malloc heap = omega (arith, length-append heap (some new_entry ∷ []))

module _ (heap rest : Heap) (entry : Entry) where
  pub load-middle : load (heap ++ (some entry ∷ rest)) (length heap) ≡ some entry
  unfolding load
  load-middle = rw (get_elem?-middle heap rest (some entry), load) refl

  set_next-middle :
      (link : Link)
      → set_next (heap ++ (some entry ∷ rest)) (length heap) link
        ≡ some (heap ++ (some (record entry { next = link }) ∷ rest))
  unfolding set_next
  set_next-middle link = rw load-middle (ap some (set-middle heap rest (some entry) _))

  set_value-middle :
      (value : CStr)
      → set_value (heap ++ (some entry ∷ rest)) (length heap) value
        ≡ some (heap ++ (some (record entry { value = some value }) ∷ rest))
  unfolding set_value
  set_value-middle value = rw load-middle (ap some (set-middle heap rest (some entry) _))

  free-middle : free (heap ++ (some entry ∷ rest)) (length heap) ≡ some (heap ++ (none ∷ rest))
  unfolding free
  free-middle = rw load-middle (ap some (set-middle heap rest (some entry) none))

pub length-linked :
    (heap : Heap) (v : CStr) → length (heap ++ (linked (length heap) v ∷ [])) ≡ suc (length heap)
length-linked heap v = omega (arith, length-append heap (linked (length heap) v ∷ []))

-- What a round does with the value that it has read: the entry that was new is filled, and another is new.
fill :
    (total fuel : ℕ) (wire : List ℕ) (heap : Heap) (value : CStr) (next : ℕ)
    → (set_value
          (heap
            ++ (some (record { value = none; next = at (length (malloc heap)) })
                ∷ some new_entry
                ∷ []))
          (length heap)
          value
        >>= λ stored.
            entries_from total fuel wire next stored (length (malloc heap)) (some (length heap)))
      ≡ entries_from total fuel wire next
          (malloc (heap ++ (linked (length heap) value ∷ [])))
          (length (heap ++ (linked (length heap) value ∷ [])))
          (some (length heap))
fill total fuel wire heap value next =
    rw
      (set_value-middle heap (some new_entry ∷ [])
        (record { value = none; next = at (length (malloc heap)) }) value)
      (rw (length-malloc heap) (
        rw (length-linked heap value) (
          ap (λ h. entries_from total fuel wire next h (suc (length heap)) (some (length heap)))
            (sym (append_assoc heap (linked (length heap) value ∷ []) (some new_entry ∷ []))))))

round :
    (total fuel : ℕ) (wire : List ℕ) (index : ℕ) (heap : Heap) (prev : Option ℕ)
    → entries_from (suc total) fuel wire index (malloc heap) (length heap) prev ≡ (
        answer_at fuel wire index >>= λ found.
        entries_from total fuel wire found.1
          (malloc (heap ++ (linked (length heap) found.0 ∷ [])))
          (length (heap ++ (linked (length heap) found.0 ∷ [])))
          (some (length heap)))
unfolding entries_from
round total fuel wire index heap prev =
    rw (append_assoc heap (some new_entry ∷ []) (some new_entry ∷ [])) (
      rw (set_next-middle heap (some new_entry ∷ []) new_entry (at (length (malloc heap))))
        (λ i. answer_at fuel wire index >>= λ found. fill total fuel wire heap found.0 found.1 i))

-- The loop builds an entry for each answer, and one that is new.
abbrev pub looped : Heap → Option ℕ → List CStr → Heap × ℕ × Option ℕ
looped heap prev vs = (
  malloc (heap ++ links (length heap) vs),
  length (heap ++ links (length heap) vs),
  last_of (length heap) vs prev,
)

links-next :
    (heap : Heap) (prev : Option ℕ) (v : CStr) (vs : List CStr)
    → looped (heap ++ (linked (length heap) v ∷ [])) (some (length heap)) vs
      ≡ looped heap prev (v ∷ vs)
links-next heap prev v vs =
    let whole : (heap ++ (linked (length heap) v ∷ []))
          ++ links (length (heap ++ (linked (length heap) v ∷ []))) vs
        ≡ heap ++ links (length heap) (v ∷ vs) =
      append_assoc heap (linked (length heap) v ∷ []) _
      ∙ ap (λ a. heap ++ (linked (length heap) v ∷ links a vs)) (length-linked heap v) in
    λ i.
      (malloc (whole i), length (whole i), last_of (length-linked heap v i) vs (some (length heap)))

entries_from-zero :
    (fuel : ℕ) (wire : List ℕ) (index : ℕ) (heap : Heap) (prev : Option ℕ)
    → entries_from 0 fuel wire index (malloc heap) (length heap) prev
      ≡ some (malloc heap, length heap, prev)
unfolding entries_from
entries_from-zero fuel wire index heap prev = refl

pub entries_from-answers :
    (total fuel : ℕ) (wire : List ℕ) (index : ℕ) (heap : Heap) (prev : Option ℕ)
    → entries_from total fuel wire index (malloc heap) (length heap) prev
      ≡ (answers_from total fuel wire index >>= λ vs. some (looped heap prev vs))
unfolding answers_from
entries_from-answers zero fuel wire index heap prev =
    entries_from-zero fuel wire index heap prev
    ∙ (λ i. some (malloc (none_more i), length (none_more i), prev))
  where
    none_more : heap ≡ heap ++ []
    none_more = sym (append-nil heap)
entries_from-answers (suc total) fuel wire index heap prev =
    round total fuel wire index heap prev ∙ (elim (Option-cases (answer_at fuel wire index)) [
      | inl e ↦ rw e refl
      | inr ((v, next), e) ↦ rw e (
          entries_from-answers total fuel wire next (heap ++ (linked (length heap) v ∷ []))
            (some (length heap))
          ∙ elim (Option-cases (answers_from total fuel wire next)) [
            | inl q ↦ rw q refl
            | inr (vs, q) ↦ rw q (ap some (links-next heap prev v vs))
          ])
    ])

-- The entries of a list that ends, and the place of the entry that was not filled.
abbrev pub closed : ℕ → CStr → List CStr → Heap
closed a v [] = some (record { value = some v; next = null }) ∷ none ∷ []
closed a v (w ∷ ws) = linked a v ∷ closed (suc a) w ws

pub closed-next :
    (heap : Heap) (v w : CStr) (ws : List CStr)
    → (heap ++ (linked (length heap) v ∷ []))
        ++ closed (length (heap ++ (linked (length heap) v ∷ []))) w ws
      ≡ heap ++ closed (length heap) v (w ∷ ws)
closed-next heap v w ws =
    append_assoc heap (linked (length heap) v ∷ []) _
    ∙ ap (λ a. heap ++ (linked (length heap) v ∷ closed a w ws)) (length-linked heap v)

free-second :
    (heap : Heap) (x : Option Entry)
    → free (heap ++ (x ∷ some new_entry ∷ [])) (suc (length heap)) ≡ some (heap ++ (x ∷ none ∷ []))
free-second heap x =
    sym (λ i. free (append_assoc heap (x ∷ []) (some new_entry ∷ []) i) (second i))
    ∙ free-middle (heap ++ (x ∷ [])) [] new_entry
    ∙ ap some (append_assoc heap (x ∷ []) (none ∷ []))
  where
    second : length (heap ++ (x ∷ [])) ≡ suc (length heap)
    second = omega (arith, length-append heap (x ∷ []))

finish_last :
    (n head : ℕ) (heap : Heap) (v : CStr) (last : ℕ)
    → last ≡ suc (length heap)
    → finish_list
        (suc n)
        head
        (heap ++ (linked (length heap) v ∷ some new_entry ∷ []), last, some (length heap))
      ≡ some (heap ++ closed (length heap) v [], at head)
unfolding finish_list
finish_last n head heap v last e =
    rw (e, finish_list)
      (rw
        (set_next-middle heap (some new_entry ∷ [])
          (record { value = some v; next = at (suc (length heap)) }) null)
        (rw (free-second heap (some (record { value = some v; next = null }))) refl))

pub finish_list-looped :
    (n head : ℕ) (heap : Heap) (prev : Option ℕ) (v : CStr) (vs : List CStr)
    → finish_list (suc n) head (looped heap prev (v ∷ vs))
      ≡ some (heap ++ closed (length heap) v vs, at head)
finish_list-looped n head heap prev v [] =
    (λ i. finish_list (suc n) head (
      append_assoc heap (linked (length heap) v ∷ []) (some new_entry ∷ []) i,
      length (heap ++ (linked (length heap) v ∷ [])),
      some (length heap),
    ))
    ∙ finish_last n head heap v (length (heap ++ (linked (length heap) v ∷ [])))
        (length-linked heap v)
finish_list-looped n head heap prev v (w ∷ ws) =
    ap (finish_list (suc n) head) (sym (links-next heap prev v (w ∷ ws)))
    ∙ finish_list-looped n head (heap ++ (linked (length heap) v ∷ [])) (some (length heap)) w ws
    ∙ ap (λ h. some (h, at head)) (closed-next heap v w ws)
