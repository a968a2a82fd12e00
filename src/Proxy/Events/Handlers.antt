-- ===== src/Proxy/Events/Handlers.antt =====
-- The four handlers of proxylab-handout/proxy.c, and the connection to the server.
use systems_programming.Base.{
  ltb, if◌then◌else◌, Bool, true, false, ℕ, Option, none, some, List, [], ◌∷◌, length, CStr, codes,
}
use systems_programming.Proxy.Parse.{Parsed, ok, fault, Target, parse, strtok, max_object_size}
use systems_programming.Proxy.Events.{
  State, ReqInfo, ReadResult, WriteResult, Status, complete, exited, overrun, Reading, Writing,
  until_nul, read_request, read_response, write_buffer,
}

-- One address of `getaddrinfo`: no socket, a refused connection, a connected descriptor.
pub data Attempt : Type 0 where
  no_socket refused : Attempt
  connected : ℕ → Attempt

-- `getaddrinfo` on a host and a service, `none` for an error.
abbrev pub Resolver : Type 0
Resolver = CStr → CStr → Option (List Attempt)

-- The loop of `connect_to_server` over the addresses.
unfoldable pub first_connected : List Attempt → Option ℕ
first_connected [] = none
first_connected (connected fd ∷ rest) = some fd
first_connected (a ∷ rest) = first_connected rest

-- `port ? port : "80"`
unfoldable pub service : Option CStr → CStr
service none = codes "80"
service (some port) = port

-- `connect_to_server`: `none` where the program exits. If no address answers, the descriptor is
-- closed or -1, and setting it to non-blocking fails.
unfoldable pub connect_to_server : Resolver → CStr → Option CStr → Option ℕ
unfolding service first_connected
connect_to_server getaddrinfo host port = elim (getaddrinfo host (service port)) [
  | none ↦ none
  | some attempts ↦ first_connected attempts
]

-- What `parse` leaves in the buffer `host_port` of `read_client`: it stays all zero without a port,
-- since `host_port = NULL` only sets the parameter. The pointer to it is never NULL.
unfoldable pub host_port : Option CStr → Option CStr
host_port none = some []
host_port (some port) = some port

-- What a handler does besides its record.
pub data Call : Type 0 where
  epoll_add_out : ℕ → Call
  epoll_mod_in : ℕ → Call
  epoll_mod_out : Option ℕ → Call
  close : Option ℕ → Call
  log : Option CStr → Call

-- `logging`, behind its copy: the second word of the request, for the log file.
unfoldable pub log_copy : CStr → Option CStr
log_copy buf = elim (strtok (codes " ") buf) [
  | none ↦ none
  | some (method, rest) ↦ elim (strtok (codes " ") rest) [
    | none ↦ none
    | some (url, more) ↦ some url
  ]
]

-- `logging`: `strcpy` into an array of `MAX_OBJECT_SIZE` bytes comes first.
unfoldable pub logging : CStr → Parsed (Option CStr)
logging buf = if ltb (length buf) max_object_size then ok (log_copy buf) else fault

-- The record behind a handler, how it ended, its calls, and the bytes that it wrote.
pub record Handled : Type 0 where
  pub req : ReqInfo
  pub status : Status
  pub calls : List Call
  pub out : List ℕ

abbrev pub idle_at : ReqInfo → Status → Handled
idle_at req status = record { req = req; status = status; calls = []; out = [] }

-- `read_client`, behind `parse` and `logging`: connect, and register the new descriptor.
unfoldable pub connect_request : Resolver → ReqInfo → Target → Option CStr → Handled
connect_request getaddrinfo req t url =
    elim (connect_to_server getaddrinfo t.host (host_port t.port)) [
      | none ↦ record {
        req = record req { modified_req_buf = t.request };
        status = exited;
        calls = log url ∷ [];
        out = [];
      }
      | some fd ↦ record {
        req = record req {
          modified_req_buf = t.request;
          server_fd = some fd;
          state = State.write_server;
        };
        status = complete;
        calls = log url ∷ epoll_add_out fd ∷ [];
        out = [];
      }
    ]

-- `read_client`, behind its loop.
unfoldable pub start_request : Resolver → ReqInfo → Handled
start_request getaddrinfo req = elim (parse (until_nul req.original_req_buf)) [
  | fault ↦ idle_at req overrun
  | ok t ↦ elim (logging (until_nul req.original_req_buf)) [
    | fault ↦ idle_at req overrun
    | ok url ↦ connect_request getaddrinfo req t url
  ]
]

-- A handler with the calls that it makes behind its loop, `epoll_ctl` and, in `connect_to_server`,
-- `fcntl`: if one of them fails, the program exits. A handler that does not come there makes none of
-- them.
abbrev pub refused_at : Status → Handled → Handled
refused_at complete h = record h { status = exited }
refused_at other h = h

unfoldable pub registered : Bool → Handled → Handled
registered true h = h
registered false h = refused_at h.status h

-- `read_client`, behind its loop: a finished request is passed on, and another waits or has failed.
unfoldable pub after_asking : Resolver → ReqInfo → List ℕ → ℕ → Status → Handled
unfolding start_request
after_asking getaddrinfo req buf n complete =
    start_request getaddrinfo (record req { original_req_buf = buf; client_bytes_read = n })
after_asking getaddrinfo req buf n other =
    idle_at (record req { original_req_buf = buf; client_bytes_read = n }) other

-- `read_client`
unfoldable pub read_client : Resolver → Bool → List ReadResult → ReqInfo → Handled
unfolding after_asking
read_client getaddrinfo registers reads req =
    let r : Reading = read_request reads req.original_req_buf req.client_bytes_read in
    registered registers (after_asking getaddrinfo req r.buf r.count r.status)

-- `write_server`, behind its loop.
unfoldable pub after_sending : ReqInfo → ℕ → List ℕ → Status → Handled
after_sending req n out complete = record {
  req = record req { server_bytes_written = n; state = State.read_server };
  status = complete;
  calls = elim req.server_fd [ none ↦ [] | some fd ↦ epoll_mod_in fd ∷ [] ];
  out = out;
}
after_sending req n out other = record {
  req = record req { server_bytes_written = n };
  status = other;
  calls = [];
  out = out;
}

-- `write_server`
unfoldable pub write_server : Bool → List WriteResult → ReqInfo → Handled
unfolding after_sending
write_server registers writes req =
    let w : Writing =
      write_buffer writes req.modified_req_buf (length req.modified_req_buf)
        req.server_bytes_written in
    registered registers (after_sending req w.count w.out w.status)

-- `read_server`, behind its loop.
unfoldable pub after_reading : ReqInfo → List ℕ → ℕ → Status → Handled
after_reading req buf n complete = record {
  req = record req {
    response_buf = buf;
    server_bytes_read = n;
    state = State.write_client;
    server_fd = none;
  };
  status = complete;
  calls = epoll_mod_out req.client_fd ∷ close req.server_fd ∷ [];
  out = [];
}
after_reading req buf n other =
    idle_at (record req { response_buf = buf; server_bytes_read = n }) other

-- `read_server`
unfoldable pub read_server : Bool → List ReadResult → ReqInfo → Handled
read_server registers reads req =
    let r : Reading = read_response reads req.response_buf req.server_bytes_read in
    registered registers (after_reading req r.buf r.count r.status)

-- `write_client`, behind its loop.
unfoldable pub after_writing : ReqInfo → ℕ → List ℕ → Status → Handled
after_writing req n out complete = record {
  req = record req { client_bytes_written = n; state = State.finished; client_fd = none };
  status = complete;
  calls = close req.client_fd ∷ [];
  out = out;
}
after_writing req n out other = record {
  req = record req { client_bytes_written = n };
  status = other;
  calls = [];
  out = out;
}

-- `write_client`
unfoldable pub write_client : List WriteResult → ReqInfo → Handled
write_client writes req =
    let w : Writing =
      write_buffer writes req.response_buf req.server_bytes_read req.client_bytes_written in
    after_writing req w.count w.out w.status
