-- ===== src/Proxy/Events/Sound/Runs.antt =====
-- The invariant of the table over whole runs of the event loop of proxylab-handout/proxy.c.
use systems_programming.Base.{
  ℕ, zero, suc, ◌≤◌, ◌≡◌, refl, ◌⊎◌, inl, inr, ltb, some, List, [], ◌∷◌, ◌++◌, length,
  length-append, length-set, get_elem?, set, get_elem?-set_self, get_elem?-set_ne, arith, ap, ◌∙◌,
  sym, subst, Bool-cases, Option-cases, ℕ_discrete, dec_lt,
}
use systems_programming.Proxy.Events.{ReqInfo}
use systems_programming.Proxy.Events.Handlers.{Resolver, Call}
use systems_programming.Proxy.Events.Server.{
  req_array_size, find_fd, dispatch, Event, error, accepted, rejected, ready, add_clients, continue,
  handle_event, going, handle_events,
}
use systems_programming.Proxy.Events.Find.{fresh, find_fd_lem, get_elem?-within}
use systems_programming.Proxy.Events.Table.{
  stopped-continue, rejected-continue, handle_events-going, store_back-continue, handle_event-ready,
  handle_event-unknown,
}
use systems_programming.Proxy.Events.Sound.{IsSound}
use systems_programming.Proxy.Events.Sound.Handling.{IsPolite, dispatch-IsSound}

-- All requests of a table are in order, and the table is within its array.
pub record AreSound (table : List ReqInfo) : Type 0 where
  pub within : length table ≤ req_array_size
  pub sound : (i : ℕ) (req : ReqInfo) → get_elem? table i ≡ some req → IsSound req

fresh-IsSound : (fd : ℕ) → IsSound (fresh fd)
fresh-IsSound fd = record {
  asked = refl;
  asked_small = omega arith;
  request_small = omega arith;
  sent = omega arith;
  unsent = λ _. refl;
  answered = refl;
  answered_small = omega arith;
  delivered = omega arith;
  done = λ _. refl;
  descriptors = tt;
}

get_elem?-snoc :
    (table : List ReqInfo) (last : ReqInfo) (i : ℕ) (req : ReqInfo)
    → get_elem? (table ++ (last ∷ [])) i ≡ some req
    → (get_elem? table i ≡ some req) ⊎ (last ≡ req)
get_elem?-snoc [] last zero req e = inr cc
get_elem?-snoc [] last (suc i) req e = cc
get_elem?-snoc (x ∷ xs) last zero req e = inl e
get_elem?-snoc (x ∷ xs) last (suc i) req e = get_elem?-snoc xs last i req e

add_clients-AreSound :
    (table table' : List ReqInfo) (fds : List ℕ)
    → AreSound table
    → add_clients table fds ≡ some table'
    → AreSound table'
unfolding add_clients
add_clients-AreSound table table' [] h e = let same : table ≡ table' = cc in subst AreSound same h
add_clients-AreSound table table' (fd ∷ fds) h e =
    elim (Bool-cases (ltb (length table) req_array_size)) [
      | inr full ↦ absurd (ground arith)
      | inl room ↦
          add_clients-AreSound (table ++ (fresh fd ∷ [])) table' fds
            (record {
              within = ground (arith, length-append table (fresh fd ∷ []));
              sound = λ i req at. elim (get_elem?-snoc table (fresh fd) i req at) [
                | inl old ↦ h.sound i req old
                | inr new ↦ subst IsSound new (fresh-IsSound fd)
              ];
            })
            (ground arith)
    ]

set-AreSound :
    (table : List ReqInfo) (j : ℕ) (req : ReqInfo)
    → AreSound table
    → IsSound req
    → AreSound (set table j req)
set-AreSound table j req h new = record {
  within = omega (arith, length-set table j req, h.within);
  sound = λ i r at. elim (ℕ_discrete j i) [
    | no ne ↦ h.sound i r (sym (get_elem?-set_ne table j i req ne) ∙ at)
    | yes same ↦ elim (dec_lt j (length table)) [
      | no out ↦
          absurd (omega (arith, length-set table j req, get_elem?-within (set table j req) i r at))
      | yes inside ↦
          let z : some req ≡ some r =
            sym (get_elem?-set_self table j req inside)
            ∙ ap (get_elem? (set table j req)) same
            ∙ at in
          let one : req ≡ r = cc in subst IsSound one new
    ]
  ];
}

-- The calls of `write` for the request that an event reaches are those of a kernel that takes no more than
-- it is given.
abbrev pub ArePolite : List ReqInfo → Event → Type 0
ArePolite table (ready fd io) =
    (i : ℕ) (req : ReqInfo)
    → find_fd table fd ≡ some i
    → get_elem? table i ≡ some req
    → IsPolite io req
ArePolite table event = Unit

handle_event-AreSound :
    (getaddrinfo : Resolver) (table table' : List ReqInfo) (event : Event) (calls : List Call)
    (out : List ℕ)
    → AreSound table
    → ArePolite table event
    → handle_event getaddrinfo table event ≡ continue table' calls out
    → AreSound table'
unfolding handle_event
handle_event-AreSound getaddrinfo table table' (error fd) calls out h polite e =
    let same : table ≡ table' = cc in subst AreSound same h
handle_event-AreSound getaddrinfo table table' (accepted fds) calls out h polite e =
    elim (Option-cases (add_clients table fds)) [
      | inl q ↦ absurd (ground arith)
      | inr (t, q) ↦
          let same : t ≡ table' = ground arith in
          subst AreSound same (add_clients-AreSound table t fds h q)
    ]
handle_event-AreSound getaddrinfo table table' (rejected fds) calls out h polite e =
    absurd (rejected-continue (add_clients table fds) e)
handle_event-AreSound getaddrinfo table table' (ready fd io) calls out h polite e =
    elim (Option-cases (find_fd table fd)) [
      | inl q ↦ absurd (stopped-continue (sym (handle_event-unknown getaddrinfo table fd io q) ∙ e))
      | inr (j, q) ↦
          let (r, there, own) = find_fd_lem table fd j q in
          let (after, returned) =
            store_back-continue table table' j (dispatch getaddrinfo io r) calls out
              (sym (handle_event-ready getaddrinfo table fd io j r q there) ∙ e) in
          subst AreSound (sym after) (
            set-AreSound table j (dispatch getaddrinfo io r).req h
              (dispatch-IsSound getaddrinfo io r (h.sound j r there) (polite j r q there) returned))
    ]

-- The same for all events of a run, each on the table that those before it have left.
abbrev pub AllPolite : Resolver → List ReqInfo → List Event → Type 0
AllPolite getaddrinfo table [] = Unit
AllPolite getaddrinfo table (event ∷ events) =
    ArePolite table event
    × ((table' : List ReqInfo) (calls : List Call) (out : List ℕ)
        → handle_event getaddrinfo table event ≡ continue table' calls out
        → AllPolite getaddrinfo table' events)

-- While `write` takes no more than it is given: a run of the event loop that is still going, from a table
-- whose requests are in order, ends on such a table. No buffer is past its end, no count is past what it
-- counts, each request has the descriptors of its state, and the array is never left.
pub handle_events-AreSound :
    (getaddrinfo : Resolver) (events : List Event) (table table' : List ReqInfo)
    (trace : List (List Call × List ℕ))
    → AreSound table
    → AllPolite getaddrinfo table events
    → handle_events getaddrinfo table events ≡ going table' trace
    → AreSound table'
unfolding handle_events
handle_events-AreSound getaddrinfo [] table table' trace h polite e =
    let same : table ≡ table' = cc in subst AreSound same h
handle_events-AreSound getaddrinfo (event ∷ events) table table' trace h polite e =
    let (t, calls, out, rest, q, went) =
      handle_events-going getaddrinfo table event events table' trace e in
    handle_events-AreSound getaddrinfo events t table' rest
      (handle_event-AreSound getaddrinfo table t event calls out h polite.0 q)
      (polite.1 t calls out q) went
