-- ===== src/Proxy/Events/History.antt =====
-- What happens to one request of proxylab-handout/proxy.c over a run of the event loop, among all others.
use systems_programming.Base.{
  ℕ, suc, ◌+◌, ◌≤◌, ◌≡◌, refl, sym, ap, ◌∙◌, ◌⊎◌, inl, inr, true, some, List, [], ◌∷◌, arith,
  get_elem?, subst, length,
}
use systems_programming.Proxy.Events.{
  State, ReqInfo, Status, complete, suspended, Reading, Writing, read_request, read_response,
  write_buffer,
}
use systems_programming.Proxy.Events.Handlers.{
  Resolver, Handled, idle_at, Call, start_request, connect_request, after_asking, read_client,
  after_sending, write_server, after_reading, read_server, after_writing, write_client,
}
use systems_programming.Proxy.Events.Server.{owns, Io, dispatch, Event, ready, going, handle_events}
use systems_programming.Proxy.Events.Table.{
  registered-Returned, Returned, handle_event-Entry, handle_events-going,
}

-- The order of the states.
abbrev pub place : State → ℕ
place State.read_client = 0
place State.write_server = 1
place State.read_server = 2
place State.write_client = 3
place State.finished = 4

-- A handler that has come to its end leaves its request in the next state, one that waits in its own.
abbrev Advances : State → Handled → Type 0
Advances st h =
    ((h.status ≡ suspended) × (place h.req.state ≡ place st))
    ⊎ ((h.status ≡ complete) × (place h.req.state ≡ place st + 1))

start_request-Advances :
    (getaddrinfo : Resolver) (req : ReqInfo)
    → place req.state ≡ 0
    → Returned (start_request getaddrinfo req).status
    → Advances req.state (start_request getaddrinfo req)
unfolding start_request connect_request
start_request-Advances getaddrinfo req at r = ground arith

after_asking-Advances :
    (getaddrinfo : Resolver) (req : ReqInfo) (buf : List ℕ) (n : ℕ) (status : Status)
    → place req.state ≡ 0
    → Returned (after_asking getaddrinfo req buf n status).status
    → Advances req.state (after_asking getaddrinfo req buf n status)
unfolding after_asking
after_asking-Advances getaddrinfo req buf n complete at r =
    start_request-Advances getaddrinfo _ at r
after_asking-Advances getaddrinfo req buf n suspended at r = inl (refl, refl)
after_asking-Advances getaddrinfo req buf n other at r = elim r [ inl e ↦ cc | inr e ↦ cc ]

after_sending-Advances :
    (req : ReqInfo) (n : ℕ) (out : List ℕ) (status : Status)
    → place req.state ≡ 1
    → Returned (after_sending req n out status).status
    → Advances req.state (after_sending req n out status)
unfolding after_sending
after_sending-Advances req n out complete at r = inr (refl, omega arith)
after_sending-Advances req n out suspended at r = inl (refl, refl)
after_sending-Advances req n out other at r = elim r [ inl e ↦ cc | inr e ↦ cc ]

after_reading-Advances :
    (req : ReqInfo) (buf : List ℕ) (n : ℕ) (status : Status)
    → place req.state ≡ 2
    → Returned (after_reading req buf n status).status
    → Advances req.state (after_reading req buf n status)
unfolding after_reading
after_reading-Advances req buf n complete at r = inr (refl, omega arith)
after_reading-Advances req buf n suspended at r = inl (refl, refl)
after_reading-Advances req buf n other at r = elim r [ inl e ↦ cc | inr e ↦ cc ]

after_writing-Advances :
    (req : ReqInfo) (n : ℕ) (out : List ℕ) (status : Status)
    → place req.state ≡ 3
    → Returned (after_writing req n out status).status
    → Advances req.state (after_writing req n out status)
unfolding after_writing
after_writing-Advances req n out complete at r = inr (refl, omega arith)
after_writing-Advances req n out suspended at r = inl (refl, refl)
after_writing-Advances req n out other at r = elim r [ inl e ↦ cc | inr e ↦ cc ]

module _ (getaddrinfo : Resolver) (io : Io) (req : ReqInfo) where
  abbrev by_state : State → Handled
  by_state st = elim st [
    | State.read_client ↦ read_client getaddrinfo io.registers io.reads req
    | State.write_server ↦ write_server io.registers io.writes req
    | State.read_server ↦ read_server io.registers io.reads req
    | State.write_client ↦ write_client io.writes req
    | State.finished ↦ idle_at req suspended
  ]

  by_state-Advances :
      (st : State)
      → req.state ≡ st
      → Returned (by_state st).status
      → Advances req.state (by_state st)
  unfolding read_client write_server read_server write_client
  by_state-Advances State.read_client e r =
      let g : Reading = read_request io.reads req.original_req_buf req.client_bytes_read in
      registered-Returned (Advances req.state) io.registers
        (after_asking getaddrinfo req g.buf g.count g.status)
        (after_asking-Advances getaddrinfo req g.buf g.count g.status (ap place e)) r
  by_state-Advances State.write_server e r =
      let g : Writing =
        write_buffer io.writes req.modified_req_buf (length req.modified_req_buf)
          req.server_bytes_written in
      registered-Returned (Advances req.state) io.registers
        (after_sending req g.count g.out g.status)
        (after_sending-Advances req g.count g.out g.status (ap place e)) r
  by_state-Advances State.read_server e r =
      let g : Reading = read_response io.reads req.response_buf req.server_bytes_read in
      registered-Returned (Advances req.state) io.registers
        (after_reading req g.buf g.count g.status)
        (after_reading-Advances req g.buf g.count g.status (ap place e)) r
  by_state-Advances State.write_client e r =
      let g : Writing =
        write_buffer io.writes req.response_buf req.server_bytes_read req.client_bytes_written in
      after_writing-Advances req g.count g.out g.status (ap place e) r
  by_state-Advances State.finished e r = inl (refl, refl)

  dispatch-Advances :
      Returned (dispatch getaddrinfo io req).status
      → Advances req.state (dispatch getaddrinfo io req)
  unfolding dispatch
  dispatch-Advances r = by_state-Advances req.state refl r

-- What events do to a request: most pass it by; its handler runs on those of its own descriptors.
pub data History (getaddrinfo : Resolver) : ReqInfo → List Event → ReqInfo → Type 0 where
  untouched : {req : ReqInfo} → History getaddrinfo req [] req
  passed :
      {req req' : ReqInfo} {events : List Event} (event : Event)
      → History getaddrinfo req events req'
      → History getaddrinfo req (event ∷ events) req'
  handled :
      {req req' : ReqInfo} {events : List Event} (fd : ℕ) (io : Io)
      → owns fd req ≡ true
      → Returned (dispatch getaddrinfo io req).status
      → History getaddrinfo (dispatch getaddrinfo io req).req events req'
      → History getaddrinfo req (ready fd io ∷ events) req'

-- How often the handler of the request has run.
abbrev pub turns :
    {getaddrinfo : Resolver} {req req' : ReqInfo} {events : List Event}
    → History getaddrinfo req events req'
    → ℕ
turns untouched = 0
turns (passed event h) = turns h
turns (handled fd io own done h) = suc (turns h)

History-place :
    {getaddrinfo : Resolver} {req req' : ReqInfo} {events : List Event}
    → (h : History getaddrinfo req events req')
    → (place req.state ≤ place req'.state) × (place req'.state ≤ place req.state + turns h)
History-place untouched = omega arith
History-place (passed event h) = History-place h
History-place {getaddrinfo} {req} (handled fd io own done h) =
    let (low, high) = History-place h in
    elim (dispatch-Advances getaddrinfo io req done) [
      | inl (waits, same) ↦ omega arith
      | inr (ends, next) ↦ omega arith
    ]

run-History :
    (getaddrinfo : Resolver) (events : List Event) (table table' : List ReqInfo)
    (trace : List (List Call × List ℕ)) (i : ℕ) (req : ReqInfo)
    → handle_events getaddrinfo table events ≡ going table' trace
    → get_elem? table i ≡ some req
    → (req' : ReqInfo) × (get_elem? table' i ≡ some req') × History getaddrinfo req events req'
unfolding handle_events
run-History getaddrinfo [] table table' trace i req e at =
    let same : table ≡ table' = cc in (req, ap (λ t. get_elem? t i) (sym same) ∙ at, untouched)
run-History getaddrinfo (event ∷ events) table table' trace i req e at =
    let (t, calls, out, rest, q, went) =
      handle_events-going getaddrinfo table event events table' trace e in
    elim (handle_event-Entry getaddrinfo table t event calls out i req q at) [
      | inl same ↦
          let (req', at', h) = run-History getaddrinfo events t table' rest i req went same in
          (req', at', passed event h)
      | inr (fd, io, is_ready, own, done, there) ↦
          let (req', at', h) =
            run-History getaddrinfo events t table' rest i (dispatch getaddrinfo io req).req went
              there in
          (
            req',
            at',
            subst (λ v. History getaddrinfo req (v ∷ events) req') (sym is_ready)
                (handled fd io own done h),
          )
    ]

-- In a run of the event loop that is still going, whatever the events: a request keeps its place in
-- the table, and only its own handler has run on it, on events of its own descriptors. Its state
-- never goes back, and goes on by at most one at each turn of the handler.
pub handle_events-History :
    (getaddrinfo : Resolver) (events : List Event) (table table' : List ReqInfo)
    (trace : List (List Call × List ℕ)) (i : ℕ) (req : ReqInfo)
    → handle_events getaddrinfo table events ≡ going table' trace
    → get_elem? table i ≡ some req
    → (req' : ReqInfo) × (get_elem? table' i ≡ some req')
      × (h : History getaddrinfo req events req') × (place req.state ≤ place req'.state)
      × (place req'.state ≤ place req.state + turns h)
handle_events-History getaddrinfo events table table' trace i req e at =
    let (req', at', h) = run-History getaddrinfo events table table' trace i req e at in
    let (low, high) = History-place h in (req', at', h, low, high)
