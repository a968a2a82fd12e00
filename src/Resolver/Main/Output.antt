-- ===== src/Resolver/Main/Output.antt =====
-- What `main` of resolver.c prints, and what it leaves in memory.
use mathlib.Core.List.{append_assoc}
use systems_programming.Base.{
  ℕ, zero, suc, ◌<◌, ◌≡◌, refl, some, none, List, [], ◌∷◌, ◌++◌, length, length-append, replicate,
  set, set-middle, arith, ap, ◌∙◌, sym, CStr,
}
use systems_programming.Resolver.Query.{create_dns_query, resolve}
use systems_programming.Resolver.Query.Entries.{
  Heap, malloc, null, at, new_entry, finished, free_answer_entries,
}
use systems_programming.Resolver.Query.Entries.Links.{
  linked, closed, closed-next, length-linked, load-middle,
}
use systems_programming.Resolver.Query.Entries.Built.{listed, resolve_list-resolve}
use systems_programming.Resolver.Main.{
  World, send_recv_message, line_and, print_answers, printed, print_and_free, port_of, main,
}

-- Each value on a line.
abbrev pub lines : List CStr → CStr
lines [] = []
lines (v ∷ vs) = v ++ (10 ∷ lines vs)

print_answers-closed :
    (vs : List CStr) (fuel : ℕ) (heap : Heap) (v : CStr)
    → length vs < fuel
    → print_answers fuel (heap ++ closed (length heap) v vs) (at (length heap))
      ≡ finished (lines (v ∷ vs))
unfolding print_answers line_and
print_answers-closed vs zero heap v lt = absurd (omega arith)
print_answers-closed [] (suc fuel) heap v lt =
    rw (load-middle heap (none ∷ []) _, print_answers) refl
print_answers-closed (w ∷ ws) (suc fuel) heap v lt =
    rw (load-middle heap (closed (suc (length heap)) w ws) _, print_answers)
      (ap (line_and v) (
        sym (λ i. print_answers fuel (closed-next heap v w ws i) (at (length-linked heap v i)))
        ∙ print_answers-closed ws fuel (heap ++ (linked (length heap) v ∷ [])) w (omega arith)))

free_answer_entries-closed :
    (vs : List CStr) (fuel : ℕ) (heap : Heap) (v : CStr)
    → length vs < fuel
    → free_answer_entries fuel (heap ++ closed (length heap) v vs) (at (length heap))
      ≡ finished (heap ++ replicate (suc (suc (length vs))) none)
unfolding free_answer_entries
free_answer_entries-closed vs zero heap v lt = absurd (omega arith)
free_answer_entries-closed [] (suc fuel) heap v lt =
    rw (load-middle heap (none ∷ []) _, free_answer_entries)
      (ap finished (set-middle heap (none ∷ []) _ none))
free_answer_entries-closed (w ∷ ws) (suc fuel) heap v lt =
    rw (load-middle heap (closed (suc (length heap)) w ws) _, free_answer_entries)
      ((λ i. free_answer_entries fuel (rest i) (at (next i)))
        ∙ free_answer_entries-closed ws fuel (heap ++ (none ∷ [])) w (omega arith)
        ∙ ap finished (append_assoc heap (none ∷ []) _))
  where
    next : suc (length heap) ≡ length (heap ++ (none ∷ []))
    next = omega (arith, length-append heap (none ∷ []))

    rest :
        set (heap ++ closed (length heap) v (w ∷ ws)) (length heap) none
        ≡ (heap ++ (none ∷ [])) ++ closed (length (heap ++ (none ∷ []))) w ws
    rest =
        set-middle heap (closed (suc (length heap)) w ws) (linked (length heap) v) none
        ∙ sym (append_assoc heap (none ∷ []) (closed (suc (length heap)) w ws))
        ∙ ap (λ a. (heap ++ (none ∷ [])) ++ closed a w ws) next

-- What `main` leaves behind: with no answer an entry that nothing points at, else freed entries only.
abbrev pub left : List CStr → Heap
left [] = some new_entry ∷ []
left (v ∷ vs) = replicate (suc (length (v ∷ vs))) none

print_and_free-null : (rounds : ℕ) (heap : Heap) → print_and_free rounds heap null ≡ printed [] heap
unfolding print_and_free print_answers free_answer_entries
print_and_free-null zero heap = refl
print_and_free-null (suc rounds) heap = refl

print_and_free-listed :
    (vs : List CStr) (rounds : ℕ) (heap : Heap)
    → length vs < rounds
    → print_and_free rounds (listed heap vs).0 (listed heap vs).1
      ≡ printed (lines vs) (heap ++ left vs)
unfolding print_and_free
print_and_free-listed [] rounds heap lt = print_and_free-null rounds (malloc heap)
print_and_free-listed (v ∷ vs) rounds heap lt =
    rw (print_answers-closed vs rounds heap v (omega arith), print_and_free)
      (rw (free_answer_entries-closed vs rounds heap v (omega arith)) refl)

-- With a domain name and a server as arguments, a response from the server on which `resolve` returns
-- `vs`, and more rounds than answers: `main` prints the answers, each on its line and in order, and ends
-- with each entry of the list freed; if there is no answer, one entry is never freed.
pub main-resolve :
    (fuel rounds : ℕ) (world : World) (program qname server : CStr) (rest : List CStr) (heap : Heap)
    (response : List ℕ) (vs : List CStr)
    → send_recv_message world
        (create_dns_query world.first world.second world.after world.dest qname)
        server
        (port_of rest)
      ≡ some response
    → resolve fuel qname response ≡ some vs
    → length vs < rounds
    → main fuel rounds world (program ∷ qname ∷ server ∷ rest) heap
      ≡ printed (lines vs) (heap ++ left vs)
unfolding main
main-resolve fuel rounds world program qname server rest heap response vs sent found lt =
    rw (sent, main)
      (rw (resolve_list-resolve fuel qname response heap)
        (rw found (print_and_free-listed vs rounds heap lt)))
