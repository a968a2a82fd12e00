-- ===== src/Proxy/Events/Last.antt =====
-- One event of proxylab-handout/proxy.c on the last request of the table.
use systems_programming.Base.{
  ℕ, ◌-◌, ◌≡◌, refl, Bool-cases, Option-cases, inl, inr, true, ◌||◌, ◌==◌, Option, none, some, List,
  [], ◌∷◌, ◌++◌, length, take, take-length, get_elem?-middle, set-middle, arith, ap, ◌∙◌, ◌<◌,
}
use systems_programming.Proxy.Events.{
  ReqInfo, ReadResult, WriteResult, complete, read_response, write_buffer,
}
use systems_programming.Proxy.Events.Handlers.{Resolver, Call}
use systems_programming.Proxy.Events.Server.{
  req_array_size, fd_is, owns, find_fd, Io, dispatch, Event, accepted, ready, continue, store_back,
  handle_event, Run, and_then, handle_events,
}
use systems_programming.Proxy.Events.Writes.{
  Takes, Takes-Fits, write_buffer-Wrote, write_buffer-finishes,
}
use systems_programming.Proxy.Events.Deliver.{received, read_response_lem}
use systems_programming.Proxy.Events.Find.{fresh, add_clients_lem}
use systems_programming.Proxy.Events.Table.{handle_event-ready, handle_events-continue}

-- The calls of `write` take a whole buffer.
pub write_buffer-whole :
    (ws : List WriteResult) (buf : List ℕ)
    → Takes ws (length buf)
    → write_buffer ws buf (length buf) 0
      ≡ record { count = length buf; out = buf; status = complete }
write_buffer-whole ws buf takes =
    let left : length buf - 0 ≡ length buf = omega arith in
    let ended = write_buffer-finishes ws buf (length buf) 0 (omega arith) (rw left takes) in
    let w =
      write_buffer-Wrote ws buf (length buf) 0 (omega arith)
        (Takes-Fits ws (length buf - 0) (rw left takes)) in
    let count = w.done ended in
    let out : (write_buffer ws buf (length buf) 0).out ≡ buf =
      w.bytes ∙ ap (λ k. take (k - 0) buf) count ∙ ap (λ k. take k buf) left ∙ take-length buf in
    λ i. record { count = count i; out = out i; status = ended i }

pub read_response-whole :
    (rs : List ReadResult)
    → (read_response rs [] 0).status ≡ complete
    → read_response rs [] 0
      ≡ record { buf = received rs; count = length (received rs); status = complete }
read_response-whole rs ended =
    let (buf, count) = read_response_lem rs [] 0 refl (λ e. cc) in
    λ i. record { buf = buf i; count = count i; status = ended i }

-- No entry of the table has the descriptor.
abbrev pub Foreign : List ReqInfo → ℕ → Type 0
Foreign table fd = find_fd table fd ≡ none

find_fd-Foreign :
    (table : List ReqInfo) (fd : ℕ) (req : ReqInfo)
    → Foreign table fd
    → owns fd req ≡ true
    → find_fd (table ++ (req ∷ [])) fd ≡ some (length table)
unfolding find_fd
find_fd-Foreign [] fd req free own = rw own refl
find_fd-Foreign (x ∷ table) fd req free own = elim (Bool-cases (owns fd x)) [
  | inl e ↦ absurd (ground arith)
  | inr e ↦ elim (Option-cases (find_fd table fd)) [
    | inl q ↦ rw (e, find_fd-Foreign table fd req q own) refl
    | inr (k, q) ↦ absurd (ground arith)
  ]
]

pub handle_event-accepted :
    (getaddrinfo : Resolver) (table : List ReqInfo) (fd : ℕ)
    → length table < req_array_size
    → handle_event getaddrinfo table (accepted (fd ∷ []))
      ≡ continue (table ++ (fresh fd ∷ [])) [] []
unfolding handle_event
handle_event-accepted getaddrinfo table fd room =
    rw (add_clients_lem table (fd ∷ []) (omega arith), handle_event) refl

same_fd : (fd : ℕ) → (fd == fd) ≡ true
same_fd fd = ground arith

pub own_client : (fd : ℕ) (server : Option ℕ) → (fd_is fd (some fd) || fd_is fd server) ≡ true
own_client fd server = rw (same_fd fd) refl

pub own_server : (sfd fd : ℕ) → (fd_is sfd (some fd) || fd_is sfd (some sfd)) ≡ true
own_server sfd fd = elim (Bool-cases (sfd == fd)) [
  | inl e ↦ rw e refl
  | inr e ↦ rw (e, same_fd sfd) refl
]

-- One event of a request that stands behind the others, and what comes after it.
pub handle_events-last :
    (getaddrinfo : Resolver) (table : List ReqInfo) (fd : ℕ) (io : Io) (req req' : ReqInfo)
    (calls : List Call) (out : List ℕ) (events : List Event) (run : Run)
    → Foreign table fd
    → owns fd req ≡ true
    → dispatch getaddrinfo io req
      ≡ record { req = req'; status = complete; calls = calls; out = out }
    → handle_events getaddrinfo (table ++ (req' ∷ [])) events ≡ run
    → handle_events getaddrinfo (table ++ (req ∷ [])) (ready fd io ∷ events)
      ≡ and_then (calls, out) run
unfolding store_back
handle_events-last getaddrinfo table fd io req req' calls out events run free own done rest =
    let stored : handle_event getaddrinfo (table ++ (req ∷ [])) (ready fd io)
        ≡ continue (table ++ (req' ∷ [])) calls out =
      handle_event-ready getaddrinfo (table ++ (req ∷ [])) fd io (length table) req
        (find_fd-Foreign table fd req free own) (get_elem?-middle table [] req)
      ∙ ap (store_back (table ++ (req ∷ [])) (length table)) done
      ∙ ap (λ t. continue t calls out) (set-middle table [] req req') in
    handle_events-continue getaddrinfo _ _ _ calls out events stored
    ∙ (ap (and_then (calls, out)) rest)
