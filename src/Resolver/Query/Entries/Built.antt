-- ===== src/Resolver/Query/Entries/Built.antt =====
-- The list that `resolve` of resolver.c builds is the list of its answers, and it is freed as a whole.
use mathlib.Core.List.{append-nil}
use systems_programming.Base.{
  ◌>>=◌, ℕ, zero, suc, ◌+◌, ◌*◌, ◌≡◌, refl, Option, none, some, List, [], ◌∷◌, ◌++◌, length,
  get_elem?, CStr, ap, ◌∙◌, Option-cases, inl, inr,
}
use systems_programming.Resolver.Query.{answer_at, answers_from, resolve}
use systems_programming.Resolver.Query.Entries.{
  Link, null, at, Heap, malloc, entries_from, finish_list, resolve_list,
}
use systems_programming.Resolver.Query.Entries.Links.{
  looped, entries_from-answers, closed, finish_list-looped,
}

-- What `resolve` leaves: for no answers NULL and an entry that nothing points at, else the list.
abbrev pub listed : Heap → List CStr → Heap × Link
listed heap [] = (malloc heap, null)
listed heap (v ∷ vs) = (heap ++ closed (length heap) v vs, at (length heap))

finish_list-none :
    (heap : Heap) → finish_list 0 (length heap) (looped heap none []) ≡ some (malloc heap, null)
unfolding finish_list
finish_list-none heap = ap (λ h. some (malloc h, null)) (append-nil heap)

finish_list-answers :
    (total fuel : ℕ) (wire : List ℕ) (index : ℕ) (heap : Heap)
    → (answers_from total fuel wire index >>= λ vs.
        finish_list total (length heap) (looped heap none vs))
      ≡ (answers_from total fuel wire index >>= λ vs. some (listed heap vs))
unfolding answers_from
finish_list-answers zero fuel wire index heap = finish_list-none heap
finish_list-answers (suc total) fuel wire index heap =
    elim (Option-cases (answer_at fuel wire index)) [
      | inl e ↦ rw e refl
      | inr ((v, next), e) ↦ rw e (elim (Option-cases (answers_from total fuel wire next)) [
        | inl q ↦ rw q refl
        | inr (vs, q) ↦ rw q (finish_list-looped total (length heap) heap none v vs)
      ])
    ]

some-bind :
    {A B C : Type 0} (o : Option A) (f : A → B) (g : B → Option C)
    → ((o >>= λ a. some (f a)) >>= g) ≡ (o >>= λ a. g (f a))
some-bind none f g = refl
some-bind (some a) f g = refl

-- `resolve` on the memory does what it does on values: it stops where that stops, with no answer it
-- returns NULL and loses one entry, and with answers it returns a list of them, in order, in new
-- entries, that ends in NULL; nothing else is left and no old entry is touched.
pub resolve_list-resolve :
    (fuel : ℕ) (qname : CStr) (response : List ℕ) (heap : Heap)
    → resolve_list fuel qname response heap
      ≡ (resolve fuel qname response >>= λ vs. some (listed heap vs))
unfolding resolve_list resolve
resolve_list-resolve fuel qname response heap = elim (Option-cases (get_elem? response 6)) [
  | inl e ↦ rw e refl
  | inr (high, e) ↦ rw e (elim (Option-cases (get_elem? response 7)) [
    | inl q ↦ rw q refl
    | inr (low, q) ↦ rw q (built (high * 256 + low))
  ])
]
  where
    index : ℕ
    index = 12 + length qname + 2 + 4

    built :
        (total : ℕ)
        → (entries_from total fuel response index (malloc heap) (length heap) none
            >>= finish_list total (length heap))
          ≡ (answers_from total fuel response index >>= λ vs. some (listed heap vs))
    built total =
        ap (λ o. o >>= finish_list total (length heap))
          (entries_from-answers total fuel response index heap none)
        ∙ some-bind (answers_from total fuel response index) (looped heap none)
            (finish_list total (length heap))
        ∙ finish_list-answers total fuel response index heap
