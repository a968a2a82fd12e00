-- ===== src/Resolver/Main/Lookup.antt =====
-- A whole run of resolver.c: from the name on the command line to the addresses on the output.
use systems_programming.Base.{
  ℕ, zero, suc, ◌+◌, ◌*◌, ◌%◌, ◌≤◌, ◌<◌, ◌≡◌, refl, some, List, [], ◌∷◌, ◌++◌, length, get_elem?,
  take, drop, map, CStr, arith, ap, ◌∙◌,
}
use systems_programming.Proxy.Events.Handlers.{Attempt, first_connected}
use systems_programming.Resolver.{res_max}
use systems_programming.Resolver.Names.{AreLabels, dotted, encoded}
use systems_programming.Resolver.Query.Sent.{create_dns_query-dotted}
use systems_programming.Resolver.Query.Answers.{
  Address, ArePointers, all_bytes, printed as shown, resolve-all_bytes,
}
use systems_programming.Resolver.Query.Entries.{Heap}
use systems_programming.Resolver.Main.{World, send_recv_message, port_of, printed, main}
use systems_programming.Resolver.Main.Output.{lines, left, main-resolve}

-- The query for a name: an id of two random bytes, the flags and counts, the name, its type and class.
abbrev pub query_of : ℕ → ℕ → List CStr → List ℕ
query_of first second labels =
    (first % 256)
    ∷ (second % 256)
    ∷ 1
    ∷ 0
    ∷ 0
    ∷ 1
    ∷ 0
    ∷ 0
    ∷ 0
    ∷ 0
    ∷ 0
    ∷ 0
    ∷ (encoded labels ++ (0 ∷ 1 ∷ 0 ∷ 1 ∷ []))

-- What the array of the response holds: a datagram, and behind it what was there before.
abbrev pub array_of : List ℕ → List ℕ → List ℕ
array_of datagram memory = datagram ++ drop (length datagram) memory

take_all : (n : ℕ) (xs : List ℕ) → length xs ≤ n → take n xs ≡ xs
take_all zero [] h = refl
take_all (suc n) [] h = refl
take_all zero (x ∷ xs) h = absurd (omega arith)
take_all (suc n) (x ∷ xs) h = ap (λ t. x ∷ t) (take_all n xs (omega arith))

length-shown : (answers : List Address) → length (map shown answers) ≡ length answers
length-shown [] = refl
length-shown (r ∷ rs) = ap suc (length-shown rs)

-- The server that `world` reaches on `fd` answers the query for the name with `datagram`.
abbrev pub Answers : World → CStr → CStr → List Attempt → ℕ → List ℕ → List ℕ → Type 0
Answers world server port attempts fd query datagram =
    (world.getaddrinfo server port ≡ some attempts)
    × (first_connected attempts ≡ some fd)
    × (world.recv fd query ≡ some datagram)
    × (length datagram ≤ res_max)

send_recv_message-Answers :
    (world : World) (query : List ℕ) (server port : CStr) (attempts : List Attempt) (fd : ℕ)
    (datagram : List ℕ)
    → Answers world server port attempts fd query datagram
    → send_recv_message world query server port ≡ some (array_of datagram world.memory)
unfolding send_recv_message
send_recv_message-Answers world query server port attempts fd datagram
      (found, connected, received, small) =
    rw (found, send_recv_message)
      (rw connected (
        rw received (
          ap (λ t. some (t ++ drop (length datagram) world.memory))
            (take_all res_max datagram small))))

-- A name of labels of 1 to 191 bytes, none of them a delimiter; a server that answers exactly its
-- query, in a datagram that fits, with as many answers as it counts, each with a pointer for its name
-- and an address, behind a copy of the query: `main` prints the addresses, one on each line and in order,
-- and frees the list.
pub main-lookup :
    (fuel rounds : ℕ) (world : World) (program server : CStr) (rest : List CStr) (heap : Heap)
    (l : CStr) (ls : List CStr) (attempts : List Attempt) (fd : ℕ) (datagram : List ℕ)
    (answers : List Address) (post : List ℕ) (high low : ℕ)
    → AreLabels (b'.' ∷ world.after) (l ∷ ls)
    → Answers world server
        (port_of rest)
        attempts
        fd
        (query_of world.first world.second (l ∷ ls))
        datagram
    → ArePointers answers
    → get_elem? (array_of datagram world.memory) 6 ≡ some high
    → get_elem? (array_of datagram world.memory) 7 ≡ some low
    → high * 256 + low ≡ length answers
    → drop (12 + length (dotted l ls) + 2 + 4) (array_of datagram world.memory)
      ≡ all_bytes answers post
    → length answers < rounds
    → main fuel rounds world (program ∷ dotted l ls ∷ server ∷ rest) heap
      ≡ printed (lines (map shown answers)) (heap ++ left (map shown answers))
main-lookup fuel rounds world program server rest heap l ls attempts fd datagram answers post high
      low names there pointers e₆ e₇ count behind enough =
    main-resolve fuel rounds world program (dotted l ls) server rest heap
      (array_of datagram world.memory) (map shown answers)
      (ap (λ query. send_recv_message world query server (port_of rest))
          (create_dns_query-dotted world.first world.second world.after world.dest l ls names)
        ∙ send_recv_message-Answers world (query_of world.first world.second (l ∷ ls)) server
            (port_of rest) attempts fd datagram there)
      (resolve-all_bytes answers fuel (dotted l ls) (array_of datagram world.memory) post high low
        pointers e₆ e₇ count behind)
      (omega (arith, length-shown answers))
