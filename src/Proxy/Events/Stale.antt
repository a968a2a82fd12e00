-- ===== src/Proxy/Events/Stale.antt =====
-- A descriptor of proxylab-handout/proxy.c that is closed but stays in the table.
use systems_programming.Base.{
  ℕ, ◌<◌, ◌≡◌, refl, inl, inr, some, List, [], ◌∷◌, ◌++◌, length, get_elem?, get_elem?-append_left,
  arith, Bool-cases, Option-cases, ◌∙◌,
}
use systems_programming.Proxy.Events.{ReqInfo}
use systems_programming.Proxy.Events.Handlers.{Resolver, close}
use systems_programming.Proxy.Events.Server.{
  req_array_size, owns, find_fd, Io, dispatch, error, accepted, ready, store_back, handle_event,
  going, and_then, handle_events,
}
use systems_programming.Proxy.Events.Find.{fresh, add_clients_lem, get_elem?-within}
use systems_programming.Proxy.Events.Table.{handle_event-ready}

find_fd-append :
    (table more : List ReqInfo) (fd i : ℕ)
    → find_fd table fd ≡ some i
    → find_fd (table ++ more) fd ≡ some i
unfolding find_fd
find_fd-append [] more fd i e = cc
find_fd-append (r ∷ rs) more fd i e = elim (Bool-cases (owns fd r)) [
  | inl own ↦ rw own (ground arith)
  | inr other ↦ elim (Option-cases (find_fd rs fd)) [
    | inl q ↦ absurd (ground arith)
    | inr (k, q) ↦ rw (other, find_fd-append rs more fd k q) (ground arith)
  ]
]

after_error :
    (getaddrinfo : Resolver) (table : List ReqInfo) (fd : ℕ)
    → length table < req_array_size
    → handle_events getaddrinfo table (error fd ∷ accepted (fd ∷ []) ∷ [])
      ≡ going (table ++ (fresh fd ∷ [])) ((close (some fd) ∷ [], []) ∷ ([], []) ∷ [])
unfolding handle_events and_then handle_event
after_error getaddrinfo table fd room = rw (add_clients_lem table (fd ∷ []) (omega arith)) refl

-- A descriptor that `epoll_wait` reports an error on is closed, but its entry keeps it. When the
-- kernel gives the number to a new connection, the events of the new one go to the old entry.
pub stale_entry :
    (getaddrinfo : Resolver) (table : List ReqInfo) (fd i : ℕ) (req : ReqInfo) (io : Io)
    → length table < req_array_size
    → find_fd table fd ≡ some i
    → get_elem? table i ≡ some req
    → (handle_events getaddrinfo table (error fd ∷ accepted (fd ∷ []) ∷ [])
        ≡ going (table ++ (fresh fd ∷ [])) ((close (some fd) ∷ [], []) ∷ ([], []) ∷ []))
      × (handle_event getaddrinfo (table ++ (fresh fd ∷ [])) (ready fd io)
          ≡ store_back (table ++ (fresh fd ∷ [])) i (dispatch getaddrinfo io req))
stale_entry getaddrinfo table fd i req io room found at = (
  after_error getaddrinfo table fd room,
  handle_event-ready getaddrinfo (table ++ (fresh fd ∷ [])) fd io i req
      (find_fd-append table (fresh fd ∷ []) fd i found)
      (get_elem?-append_left table (fresh fd ∷ []) i (get_elem?-within table i req at) ∙ at),
)
