-- ===== src/Proxy/Events/Life.antt =====
-- A whole request through the event loop of proxylab-handout/proxy.c, from the connection to its end.
use systems_programming.Base.{
  ℕ, ◌≡◌, refl, true, ltb, none, some, List, [], ◌∷◌, ◌++◌, length, arith, ap, ◌∙◌, ◌<◌,
}
use systems_programming.Proxy.Parse.{ok, parse, max_object_size}
use systems_programming.Proxy.Parse.Request.{Request, IsRequest, request_text, sent, parse-request}
use systems_programming.Proxy.Events.{
  State, ReqInfo, ReadResult, WriteResult, complete, until_nul, read_request, read_response,
}
use systems_programming.Proxy.Events.Handlers.{
  Resolver, connect_to_server, host_port, epoll_add_out, epoll_mod_in, epoll_mod_out, close, log,
  logging, log_copy, registered, connect_request, start_request, after_asking, after_sending,
  read_client, write_server, read_server, after_reading, write_client, after_writing,
}
use systems_programming.Proxy.Events.Server.{
  req_array_size, dispatch, Event, accepted, ready, going, and_then, handle_events,
}
use systems_programming.Proxy.Events.Writes.{Takes}
use systems_programming.Proxy.Events.Deliver.{received}
use systems_programming.Proxy.Events.Find.{fresh}
use systems_programming.Proxy.Events.Table.{handle_events-continue}
use systems_programming.Proxy.Events.Last.{
  write_buffer-whole, read_response-whole, Foreign, handle_event-accepted, own_client, own_server,
  handle_events-last,
}

-- A request between its events: a new one, one that has been parsed, one that has been sent on, one
-- with its response, one that is done.
abbrev parsed : ℕ → ℕ → Request → ℕ → ReqInfo
parsed fd sfd r n = record (fresh fd) {
  original_req_buf = request_text r;
  client_bytes_read = n;
  modified_req_buf = sent r;
  server_fd = some sfd;
  state = State.write_server;
}

abbrev passed_on : ℕ → ℕ → Request → ℕ → ReqInfo
passed_on fd sfd r n = record (parsed fd sfd r n) {
  server_bytes_written = length (sent r);
  state = State.read_server;
}

abbrev answered : ℕ → ℕ → Request → ℕ → List ℕ → ReqInfo
answered fd sfd r n response = record (passed_on fd sfd r n) {
  response_buf = response;
  server_bytes_read = length response;
  state = State.write_client;
  server_fd = none;
}

abbrev pub served : ℕ → ℕ → Request → ℕ → List ℕ → ReqInfo
served fd sfd r n response = record (answered fd sfd r n response) {
  client_bytes_written = length response;
  state = State.finished;
  client_fd = none;
}

-- The `getaddrinfo` of the system leads to the connected descriptor `sfd` for the host and port of `r`.
abbrev pub Leads : Resolver → Request → ℕ → Type 0
Leads getaddrinfo r sfd = connect_to_server getaddrinfo r.host (host_port r.port) ≡ some sfd

-- What the four handlers of a request meet: its text, in one event, which fits into the arrays that it is
-- copied to; `write` that takes the new request whole; a response up to its end; `write` that takes it
-- whole.
pub record Meets (r : Request) (n : ℕ) (asked : List ReadResult) (to_server : List WriteResult)
    (answer : List ReadResult) (to_client : List WriteResult) : Type 0 where
  pub request :
      read_request asked [] 0 ≡ record { buf = request_text r; count = n; status = complete }
  pub plain : until_nul (request_text r) ≡ request_text r
  pub fits : length (request_text r) < max_object_size
  pub small : length (sent r) < max_object_size
  pub takes : Takes to_server (length (sent r))
  pub response : (read_response answer [] 0).status ≡ complete
  pub delivers : Takes to_client (length (received answer))

-- The events of the request, in the order in which the kernel can report them.
abbrev pub life :
    ℕ → ℕ → List ReadResult → List WriteResult → List ReadResult → List WriteResult → List Event
life fd sfd asked to_server answer to_client =
    accepted (fd ∷ [])
    ∷ ready fd (record { reads = asked; writes = []; registers = true })
    ∷ ready sfd (record { reads = []; writes = to_server; registers = true })
    ∷ ready sfd (record { reads = answer; writes = []; registers = true })
    ∷ ready fd (record { reads = []; writes = to_client; registers = true })
    ∷ []

module _ (getaddrinfo : Resolver) (r : Request) (fd sfd n : ℕ) (asked : List ReadResult)
    (to_server : List WriteResult) (answer : List ReadResult) (to_client : List WriteResult)
    (v : IsRequest r) (leads : Leads getaddrinfo r sfd)
    (m : Meets r n asked to_server answer to_client) where
  logging-short : logging (request_text r) ≡ ok (log_copy (request_text r))
  unfolding logging
  logging-short =
      let short : ltb (length (request_text r)) max_object_size ≡ true =
        let q = m.fits in ground arith in
      rw short refl

  read_client-parsed :
      dispatch getaddrinfo (record { reads = asked; writes = []; registers = true }) (fresh fd)
      ≡ record {
        req = parsed fd sfd r n;
        status = complete;
        calls = log (log_copy (request_text r)) ∷ epoll_add_out sfd ∷ [];
        out = [];
      }
  unfolding dispatch read_client after_asking start_request connect_request registered
  read_client-parsed =
      let fits : ltb (length (sent r)) max_object_size ≡ true = let q = m.small in ground arith in
      let short : ltb (length (request_text r)) max_object_size ≡ true =
        let q = m.fits in ground arith in
      let one : parse (request_text r)
          ≡ ok (record { host = r.host; port = r.port; request = sent r }) =
        parse-request r v ∙ rw (short, fits) refl in
      let started : start_request getaddrinfo
            (record (fresh fd) { original_req_buf = request_text r; client_bytes_read = n })
          ≡ _ =
        rw (ap parse m.plain ∙ one, start_request)
          (rw (ap logging m.plain ∙ logging-short) (rw (leads, connect_request) refl)) in
      ap (λ r. after_asking getaddrinfo (fresh fd) r.buf r.count r.status) m.request ∙ started

  write_server-passed_on :
      dispatch getaddrinfo
        (record { reads = []; writes = to_server; registers = true })
        (parsed fd sfd r n)
      ≡ record {
        req = passed_on fd sfd r n;
        status = complete;
        calls = epoll_mod_in sfd ∷ [];
        out = sent r;
      }
  unfolding dispatch write_server after_sending registered
  write_server-passed_on =
      ap (λ w. after_sending (parsed fd sfd r n) w.count w.out w.status)
        (write_buffer-whole to_server (sent r) m.takes)

  read_server-answered :
      dispatch getaddrinfo
        (record { reads = answer; writes = []; registers = true })
        (passed_on fd sfd r n)
      ≡ record {
        req = answered fd sfd r n (received answer);
        status = complete;
        calls = epoll_mod_out (some fd) ∷ close (some sfd) ∷ [];
        out = [];
      }
  unfolding dispatch read_server after_reading registered
  read_server-answered = rw (read_response-whole answer m.response, read_server) refl

  write_client-served :
      dispatch getaddrinfo
        (record { reads = []; writes = to_client; registers = true })
        (answered fd sfd r n (received answer))
      ≡ record {
        req = served fd sfd r n (received answer);
        status = complete;
        calls = close (some fd) ∷ [];
        out = received answer;
      }
  unfolding dispatch write_client after_writing
  write_client-served =
      rw (write_buffer-whole to_client (received answer) m.delivers, write_client) refl

  -- A new connection on `fd`, with room in the table and no entry that has `fd` or `sfd`, whose well-formed
  -- request arrives whole in one event and fits into the arrays that it is copied to, as the new
  -- request does, and whose host and port lead to `sfd`, where `fcntl` and `epoll_ctl` succeed: the
  -- five events leave one new entry, done and without descriptors, and all others as they were. The
  -- server gets exactly the new request, the client exactly the bytes of the response, and each
  -- descriptor is closed once.
  pub serve_request :
      (table : List ReqInfo)
      → length table < req_array_size
      → Foreign table fd
      → Foreign table sfd
      → handle_events getaddrinfo table (life fd sfd asked to_server answer to_client)
        ≡ going (table ++ (served fd sfd r n (received answer) ∷ [])) (
            ([], [])
            ∷ (log (log_copy (request_text r)) ∷ epoll_add_out sfd ∷ [], [])
            ∷ (epoll_mod_in sfd ∷ [], sent r)
            ∷ (epoll_mod_out (some fd) ∷ close (some sfd) ∷ [], [])
            ∷ (close (some fd) ∷ [], received answer)
            ∷ [])
  unfolding handle_events and_then
  serve_request table room free free' =
      let send_back : List Event =
        ready fd (record { reads = []; writes = to_client; registers = true }) ∷ [] in
      let read_back : List Event =
        ready sfd (record { reads = answer; writes = []; registers = true }) ∷ send_back in
      let pass_on : List Event =
        ready sfd (record { reads = []; writes = to_server; registers = true }) ∷ read_back in
      let ask : List Event =
        ready fd (record { reads = asked; writes = []; registers = true }) ∷ pass_on in
      handle_events-continue getaddrinfo table (table ++ (fresh fd ∷ [])) (accepted (fd ∷ [])) [] []
        ask (handle_event-accepted getaddrinfo table fd room)
      ∙ ap (and_then ([], [])) (
          handle_events-last getaddrinfo table fd _ (fresh fd) _ _ _ pass_on _ free
            (own_client fd none) read_client-parsed
            (handle_events-last getaddrinfo table sfd _ _ _ _ _ read_back _ free'
              (own_server sfd fd) write_server-passed_on
              (handle_events-last getaddrinfo table sfd _ _ _ _ _ send_back _ free'
                (own_server sfd fd) read_server-answered
                (handle_events-last getaddrinfo table fd _ _ _ _ _ [] _ free (own_client fd none)
                  write_client-served refl))))
