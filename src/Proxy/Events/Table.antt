-- ===== src/Proxy/Events/Table.antt =====
-- The table of requests of proxylab-handout/proxy.c: which entry an event reaches, and that it
-- touches no other.
use systems_programming.Base.{
  ℕ, ◌≡◌, ◌≢◌, refl, ◌⊎◌, inl, inr, Bool, true, false, none, some, List, Option, ◌∷◌, get_elem?,
  set, get_elem?-set_self, get_elem?-set_ne, arith, Option-cases, ℕ_discrete, subst, ap, ◌∙◌, sym,
}
use systems_programming.Proxy.Events.{
  ReqInfo, Status, complete, suspended, exited, overrun, running,
}
use systems_programming.Proxy.Events.Handlers.{Resolver, Handled, Call, registered, refused_at}
use systems_programming.Proxy.Events.Server.{
  ended, owns, find_fd, Io, dispatch, Event, error, accepted, rejected, ready, add_clients, Next,
  continue, stopped, store_back, handle_event, Run, going, and_then, handle_events,
}
use systems_programming.Proxy.Events.Find.{find_fd_lem, get_elem?-within, add_clients-keeps}

-- A handler that has returned to the loop.
abbrev pub Returned : Status → Type 0
Returned status = (status ≡ complete) ⊎ (status ≡ suspended)

refused_at-Returned :
    (P : Handled → Type 0) (status : Status) (h : Handled)
    → (Returned h.status → P h)
    → Returned (refused_at status h).status
    → P (refused_at status h)
refused_at-Returned P complete h f r = elim r [ inl e ↦ cc | inr e ↦ cc ]
refused_at-Returned P suspended h f r = f r
refused_at-Returned P exited h f r = f r
refused_at-Returned P overrun h f r = f r
refused_at-Returned P running h f r = f r

-- A handler that has returned has not failed behind its loop.
pub registered-Returned :
    (P : Handled → Type 0) (registers : Bool) (h : Handled)
    → (Returned h.status → P h)
    → Returned (registered registers h).status
    → P (registered registers h)
unfolding registered
registered-Returned P true h f r = f r
registered-Returned P false h f r = refused_at-Returned P h.status h f r

pub handle_events-stopped :
    (getaddrinfo : Resolver) (table : List ReqInfo) (event : Event) (status : Status)
    (events : List Event)
    → handle_event getaddrinfo table event ≡ stopped status
    → handle_events getaddrinfo table (event ∷ events) ≡ ended status
unfolding handle_events
handle_events-stopped getaddrinfo table event status events e = rw (e, handle_events) refl

pub handle_events-continue :
    (getaddrinfo : Resolver) (table table' : List ReqInfo) (event : Event) (calls : List Call)
    (out : List ℕ) (events : List Event)
    → handle_event getaddrinfo table event ≡ continue table' calls out
    → handle_events getaddrinfo table (event ∷ events)
      ≡ and_then (calls, out) (handle_events getaddrinfo table' events)
unfolding handle_events
handle_events-continue getaddrinfo table table' event calls out events e =
    rw (e, handle_events) refl

-- What an event may do to the entry `req` at `i`: nothing, or what its own handler does.
abbrev pub Entry : Resolver → Event → ℕ → ReqInfo → List ReqInfo → Type 0
Entry getaddrinfo event i req table' =
    (get_elem? table' i ≡ some req)
    ⊎ ((fd : ℕ) × (io : Io) × (event ≡ ready fd io)
        × (owns fd req ≡ true)
        × Returned (dispatch getaddrinfo io req).status
        × (get_elem? table' i ≡ some (dispatch getaddrinfo io req).req))

pub stopped-continue :
    {status : Status} {table : List ReqInfo} {calls : List Call} {out : List ℕ}
    → stopped status ≢ continue table calls out
stopped-continue e = cc

-- With a connection that cannot be set up the server does not go on.
pub rejected-continue :
    {table : List ReqInfo} {calls : List Call} {out : List ℕ} (added : Option (List ReqInfo))
    → (elim added as (λ _. Next) [ none ↦ stopped overrun | some table' ↦ stopped exited ])
      ≢ continue table calls out
rejected-continue none e = cc
rejected-continue (some table') e = cc

pub Next-cases :
    (next : Next)
    → ((status : Status) × (next ≡ stopped status))
      ⊎ ((table : List ReqInfo) × (calls : List Call) × (out : List ℕ) × (next
            ≡ continue table calls out))
Next-cases (stopped status) = inl (status, refl)
Next-cases (continue table calls out) = inr (table, calls, out, refl)

and_then-going :
    (done : List Call × List ℕ) (run : Run) (table : List ReqInfo)
    (trace : List (List Call × List ℕ))
    → and_then done run ≡ going table trace
    → (rest : List (List Call × List ℕ)) × (run ≡ going table rest)
unfolding and_then
and_then-going done (going t rest) table trace e =
    let same : t ≡ table = cc in (rest, ap (λ x. going x rest) same)
and_then-going done (ended status) table trace e = cc

ended-going :
    {status : Status} {table : List ReqInfo} {trace : List (List Call × List ℕ)}
    → ended status ≢ going table trace
ended-going e = cc

-- A run that is still going behind its first event.
pub handle_events-going :
    (getaddrinfo : Resolver) (table : List ReqInfo) (event : Event) (events : List Event)
    (table' : List ReqInfo) (trace : List (List Call × List ℕ))
    → handle_events getaddrinfo table (event ∷ events) ≡ going table' trace
    → (t : List ReqInfo) × (calls : List Call) × (out : List ℕ) × (rest : List (List Call × List ℕ))
      × (handle_event getaddrinfo table event ≡ continue t calls out)
      × (handle_events getaddrinfo t events ≡ going table' rest)
handle_events-going getaddrinfo table event events table' trace e =
    elim (Next-cases (handle_event getaddrinfo table event)) [
      | inl (status, q) ↦
          absurd
            (ended-going (sym (handle_events-stopped getaddrinfo table event status events q) ∙ e))
      | inr (t, calls, out, q) ↦
          let (rest, went) =
            and_then-going (calls, out) (handle_events getaddrinfo t events) table' trace
              (sym (handle_events-continue getaddrinfo table t event calls out events q) ∙ e) in
          (t, calls, out, rest, q, went)
    ]

pub store_back-continue :
    (table table' : List ReqInfo) (j : ℕ) (h : Handled) (calls : List Call) (out : List ℕ)
    → store_back table j h ≡ continue table' calls out
    → (table' ≡ set table j h.req) × Returned h.status
unfolding store_back
store_back-continue table table' j h calls out e = go h.status h.req h.calls h.out e
  where
    go :
        (st : Status) (req : ReqInfo) (cs : List Call) (o : List ℕ)
        → (elim st [
          | complete ↦ continue (set table j req) cs o
          | suspended ↦ continue (set table j req) cs o
          | other ↦ stopped other
        ])
          ≡ continue table' calls out
        → (table' ≡ set table j req) × Returned st
    go complete req cs o q = (cc, inl refl)
    go suspended req cs o q = (cc, inr refl)
    go exited req cs o q = cc
    go overrun req cs o q = cc
    go running req cs o q = cc

module _ (getaddrinfo : Resolver) (table : List ReqInfo) (fd : ℕ) (io : Io) where
  -- An event goes to the entry that is found, and an unknown descriptor ends the server.
  pub handle_event-ready :
      (j : ℕ) (r : ReqInfo)
      → find_fd table fd ≡ some j
      → get_elem? table j ≡ some r
      → handle_event getaddrinfo table (ready fd io)
        ≡ store_back table j (dispatch getaddrinfo io r)
  unfolding handle_event
  handle_event-ready j r found there = rw (found, handle_event) (rw there refl)

  pub handle_event-unknown :
      find_fd table fd ≡ none → handle_event getaddrinfo table (ready fd io) ≡ stopped exited
  unfolding handle_event
  handle_event-unknown gone = rw (gone, handle_event) refl

  ready-Entry :
      (table' : List ReqInfo) (calls : List Call) (out : List ℕ) (i : ℕ) (req : ReqInfo)
      → handle_event getaddrinfo table (ready fd io) ≡ continue table' calls out
      → get_elem? table i ≡ some req
      → Entry getaddrinfo (ready fd io) i req table'
  ready-Entry table' calls out i req e at = elim (Option-cases (find_fd table fd)) [
    | inl q ↦ absurd (stopped-continue (sym (handle_event-unknown q) ∙ e))
    | inr (j, q) ↦
        let (r, there, own) = find_fd_lem table fd j q in
        let (after, returned) =
          store_back-continue table table' j (dispatch getaddrinfo io r) calls out
            (sym (handle_event-ready j r q there) ∙ e) in
        elim (ℕ_discrete j i) [
          | yes same ↦
              let one : r ≡ req =
                let z : some r ≡ some req = sym there ∙ ap (get_elem? table) same ∙ at in cc in
              inr (
                fd,
                io,
                refl,
                ap (owns fd) (sym one) ∙ own,
                subst (λ t. Returned (dispatch getaddrinfo io t).status) one returned,
                ap (λ t. get_elem? t i) after
                    ∙ ap (λ k. get_elem? (set table j (dispatch getaddrinfo io r).req) k) (sym same)
                    ∙ get_elem?-set_self table j (dispatch getaddrinfo io r).req
                        (get_elem?-within table j r there)
                    ∙ ap (λ t. some (dispatch getaddrinfo io t).req) one,
              )
          | no other ↦ inl (
              ap (λ t. get_elem? t i) after
              ∙ get_elem?-set_ne table j i (dispatch getaddrinfo io r).req other
              ∙ at)
        ]
  ]

-- Whatever an event is, if the server goes on each entry of the table keeps its place, and it is as
-- before, unless the event is on one of its own descriptors: then its own handler has run on it,
-- to its end or up to a wait.
pub handle_event-Entry :
    (getaddrinfo : Resolver) (table table' : List ReqInfo) (event : Event) (calls : List Call)
    (out : List ℕ) (i : ℕ) (req : ReqInfo)
    → handle_event getaddrinfo table event ≡ continue table' calls out
    → get_elem? table i ≡ some req
    → Entry getaddrinfo event i req table'
unfolding handle_event
handle_event-Entry getaddrinfo table table' (error fd) calls out i req e at =
    let same : table ≡ table' = cc in inl (ap (λ t. get_elem? t i) (sym same) ∙ at)
handle_event-Entry getaddrinfo table table' (accepted fds) calls out i req e at =
    elim (Option-cases (add_clients table fds)) [
      | inl q ↦ absurd (ground arith)
      | inr (t, q) ↦
          let same : t ≡ table' = ground arith in
          inl (add_clients-keeps table table' fds i req (q ∙ ap some same) at)
    ]
handle_event-Entry getaddrinfo table table' (rejected fds) calls out i req e at =
    absurd (rejected-continue (add_clients table fds) e)
handle_event-Entry getaddrinfo table table' (ready fd io) calls out i req e at =
    ready-Entry getaddrinfo table fd io table' calls out i req e at
