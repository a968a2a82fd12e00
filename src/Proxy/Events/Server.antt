-- ===== src/Proxy/Events/Server.antt =====
-- The table of requests and the event loop of `main` in proxylab-handout/proxy.c.
use systems_programming.Base.{
  ℕ, suc, ◌==◌, ltb, if◌then◌else◌, Bool, false, ◌||◌, Option, none, some, List, [], ◌∷◌, ◌++◌,
  length, get_elem?, set,
}
use mathlib.Core.Option
use systems_programming.Proxy.Events.{
  State, ReqInfo, req_info_constructor, ReadResult, WriteResult, Status, complete, suspended,
  exited, overrun,
}
use systems_programming.Proxy.Events.Handlers.{
  Resolver, Handled, Call, close, idle_at, read_client, write_server, read_server, write_client,
}

abbrev pub req_array_size : ℕ
req_array_size = 512

abbrev pub fd_is : ℕ → Option ℕ → Bool
fd_is fd none = false
fd_is fd (some k) = fd == k

abbrev pub owns : ℕ → ReqInfo → Bool
owns fd r = fd_is fd r.client_fd || fd_is fd r.server_fd

-- `find_fd`: the first request with this descriptor. The descriptors of events are not -1.
unfoldable pub find_fd : List ReqInfo → ℕ → Option ℕ
find_fd [] fd = none
find_fd (r ∷ rs) fd = if owns fd r then some 0 else Option.map suc (find_fd rs fd)

-- What `read` and `write` return to the handler of one event, and whether the calls of `fcntl` and
-- `epoll_ctl` behind its loop succeed.
pub record Io : Type 0 where
  pub reads : List ReadResult
  pub writes : List WriteResult
  pub registers : Bool

-- The `switch` on the state of a request; another state is only reported.
unfoldable pub dispatch : Resolver → Io → ReqInfo → Handled
dispatch getaddrinfo io req = elim req.state [
  | State.read_client ↦ read_client getaddrinfo io.registers io.reads req
  | State.write_server ↦ write_server io.registers io.writes req
  | State.read_server ↦ read_server io.registers io.reads req
  | State.write_client ↦ write_client io.writes req
  | State.finished ↦ idle_at req suspended
]

-- What `epoll_wait` reports: an error on a descriptor, new connections on the listening socket, such
-- connections before one on which `fcntl` or `epoll_ctl` fails, or a descriptor that is ready.
pub data Event : Type 0 where
  error : ℕ → Event
  accepted : List ℕ → Event
  rejected : List ℕ → Event
  ready : ℕ → Io → Event

-- The loop over `accept`: a record for each connection, behind the others. The array has
-- `REQ_ARRAY_SIZE` entries; the one after is out of range.
unfoldable pub add_clients : List ReqInfo → List ℕ → Option (List ReqInfo)
add_clients table [] = some table
add_clients table (fd ∷ fds) =
    let rest : Option (List ReqInfo) =
      add_clients (table ++ (record req_info_constructor { client_fd = some fd } ∷ [])) fds in
    if ltb (length table) req_array_size then rest else none

-- How an event leaves the server: with a table, the calls made and the bytes written, or ended.
pub data Next : Type 0 where
  continue : List ReqInfo → List Call → List ℕ → Next
  stopped : Status → Next

-- What the loop does with the result of a handler.
unfoldable pub store_back : List ReqInfo → ℕ → Handled → Next
store_back table i h = elim h.status [
  | complete ↦ continue (set table i h.req) h.calls h.out
  | suspended ↦ continue (set table i h.req) h.calls h.out
  | other ↦ stopped other
]

-- The body of the loop over the events. An unknown descriptor ends the program.
unfoldable pub handle_event : Resolver → List ReqInfo → Event → Next
unfolding store_back
handle_event getaddrinfo table (error fd) = continue table (close (some fd) ∷ []) []
handle_event getaddrinfo table (accepted fds) = elim (add_clients table fds) [
  | none ↦ stopped overrun
  | some table' ↦ continue table' [] []
]
handle_event getaddrinfo table (rejected fds) = elim (add_clients table fds) [
  | none ↦ stopped overrun
  | some table' ↦ stopped exited
]
handle_event getaddrinfo table (ready fd io) = elim (find_fd table fd) [
  | none ↦ stopped exited
  | some i ↦ elim (get_elem? table i) [
    | none ↦ stopped overrun
    | some req ↦ store_back table i (dispatch getaddrinfo io req)
  ]
]

-- A run over events: the table, and for each event the calls made and the bytes written.
pub data Run : Type 0 where
  going : List ReqInfo → List (List Call × List ℕ) → Run
  ended : Status → Run

-- What an event did, in front of what the later ones did.
unfoldable pub and_then : List Call × List ℕ → Run → Run
and_then done (going table trace) = going table (done ∷ trace)
and_then done (ended status) = ended status

-- Events one after the other, as one call of `epoll_wait` reports them or several.
unfoldable pub handle_events : Resolver → List ReqInfo → List Event → Run
handle_events getaddrinfo table [] = going table []
handle_events getaddrinfo table (event ∷ events) = elim (handle_event getaddrinfo table event) [
  | stopped status ↦ ended status
  | continue table' calls out ↦ and_then (calls, out) (handle_events getaddrinfo table' events)
]
