-- ===== src/Proxy/Events/Find.antt =====
-- The table of requests of proxylab-handout/proxy.c: how an entry is found and how one is added.
use mathlib.Core.List.{append-nil, append_assoc}
use mathlib.Core.Option
use systems_programming.Base.{
  ℕ, zero, suc, ◌+◌, ◌≤◌, ◌<◌, ◌≡◌, refl, inl, inr, ltb, true, false, none, some, List, [], ◌∷◌,
  ◌++◌, length, length-append, get_elem?, get_elem?-append_left, arith, Bool-cases, Option-cases,
  ap, ◌∙◌, sym, map,
}
use systems_programming.Proxy.Events.{ReqInfo, req_info_constructor}
use systems_programming.Proxy.Events.Server.{req_array_size, owns, find_fd, add_clients}

-- The record of a new connection.
abbrev pub fresh : ℕ → ReqInfo
fresh fd = record req_info_constructor { client_fd = some fd }

pub find_fd_lem :
    (table : List ReqInfo) (fd i : ℕ)
    → find_fd table fd ≡ some i
    → (req : ReqInfo) × (get_elem? table i ≡ some req) × (owns fd req ≡ true)
unfolding find_fd
find_fd_lem [] fd i e = cc
find_fd_lem (r ∷ rs) fd zero e = elim (Bool-cases (owns fd r)) [
  | inl own ↦ (r, refl, own)
  | inr other ↦ elim (Option-cases (find_fd rs fd)) [
    | inl q ↦ absurd (ground arith)
    | inr (k, q) ↦ absurd (ground arith)
  ]
]
find_fd_lem (r ∷ rs) fd (suc i) e = elim (Bool-cases (owns fd r)) [
  | inl own ↦ absurd (ground arith)
  | inr other ↦ elim (Option-cases (find_fd rs fd)) [
    | inl q ↦ absurd (ground arith)
    | inr (k, q) ↦ let same : k ≡ i = ground arith in find_fd_lem rs fd i (q ∙ ap some same)
  ]
]

-- The first entry that has the descriptor is the one that is found.
pub find_fd-first :
    (table : List ReqInfo) (fd i : ℕ) (req : ReqInfo)
    → get_elem? table i ≡ some req
    → owns fd req ≡ true
    → ((k : ℕ) (r : ReqInfo) → k < i → get_elem? table k ≡ some r → owns fd r ≡ false)
    → find_fd table fd ≡ some i
unfolding find_fd
find_fd-first [] fd i req e own before = cc
find_fd-first (r ∷ rs) fd zero req e own before =
    let same : r ≡ req = cc in let mine : owns fd r ≡ true = ap (owns fd) same ∙ own in rw mine refl
find_fd-first (r ∷ rs) fd (suc i) req e own before = rw (before 0 r (omega arith) refl) (
    ap (Option.map suc)
      (find_fd-first rs fd i req e own (λ k q lt g. before (suc k) q (omega arith) g)))

-- The connections stand behind the others, if there is room for all of them.
pub add_clients_lem :
    (table : List ReqInfo) (fds : List ℕ)
    → length table + length fds ≤ req_array_size
    → add_clients table fds ≡ some (table ++ map fresh fds)
unfolding add_clients
add_clients_lem table [] h = ap some (sym (append-nil table))
add_clients_lem table (fd ∷ fds) h =
    let room : ltb (length table) req_array_size ≡ true = ground arith in
    rw room (
      add_clients_lem (table ++ (fresh fd ∷ [])) fds
        (omega (arith, length-append table (fresh fd ∷ [])))
      ∙ ap some (append_assoc table (fresh fd ∷ []) (map fresh fds)))

-- Otherwise a record is written past the array.
pub add_clients_overrun :
    (table : List ReqInfo) (fds : List ℕ)
    → length table ≤ req_array_size
    → req_array_size < length table + length fds
    → add_clients table fds ≡ none
unfolding add_clients
add_clients_overrun table [] le h = absurd (omega arith)
add_clients_overrun table (fd ∷ fds) le h = elim (Bool-cases (ltb (length table) req_array_size)) [
  | inl room ↦ rw room (
      add_clients_overrun (table ++ (fresh fd ∷ [])) fds
        (ground (arith, length-append table (fresh fd ∷ [])))
        (omega (arith, length-append table (fresh fd ∷ []))))
  | inr full ↦ rw full refl
]

pub get_elem?-within :
    (table : List ReqInfo) (i : ℕ) (req : ReqInfo) → get_elem? table i ≡ some req → i < length table
get_elem?-within [] i req e = cc
get_elem?-within (r ∷ rs) zero req e = omega arith
get_elem?-within (r ∷ rs) (suc i) req e = omega (arith, get_elem?-within rs i req e)

-- An entry keeps its place when others come behind it.
pub add_clients-keeps :
    (table table' : List ReqInfo) (fds : List ℕ) (i : ℕ) (req : ReqInfo)
    → add_clients table fds ≡ some table'
    → get_elem? table i ≡ some req
    → get_elem? table' i ≡ some req
unfolding add_clients
add_clients-keeps table table' [] i req e at =
    let same : table ≡ table' = cc in ap (λ t. get_elem? t i) (sym same) ∙ at
add_clients-keeps table table' (fd ∷ fds) i req e at =
    elim (Bool-cases (ltb (length table) req_array_size)) [
      | inl room ↦
          add_clients-keeps (table ++ (fresh fd ∷ [])) table' fds i req (ground arith)
            (get_elem?-append_left table (fresh fd ∷ []) i (get_elem?-within table i req at) ∙ at)
      | inr full ↦ absurd (ground arith)
    ]
