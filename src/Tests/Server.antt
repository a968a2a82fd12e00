-- ===== src/Tests/Server.antt =====
-- The event loop on a table with one request that is done, and one or two connections.
use systems_programming.Base.{
  ◌≤◌, ◌+◌, get_elem?, ◌≡◌, refl, List, [], ◌∷◌, ◌++◌, length, arith, codes, some, ◌-◌, ℕ, ltb,
  true, str_eq,
}
use systems_programming.Proxy.Events.{
  ReqInfo, req_info_constructor, ReadResult, got, read_again, WriteResult, wrote, read_request,
  read_response, until_nul, has_end,
}
use systems_programming.Proxy.Events.Handlers.{
  Resolver, read_client, after_asking, refused, connected, epoll_add_out, epoll_mod_in,
  epoll_mod_out, close, log, log_copy, registered, connect_to_server, first_connected, service,
  host_port,
}
use systems_programming.Proxy.Events.Server.{
  and_then, find_fd, Io, dispatch, error, accepted, ready, store_back, handle_event, going,
  handle_events,
}
use systems_programming.Proxy.Events.Find.{fresh}
use systems_programming.Proxy.Events.Stale.{stale_entry}
use systems_programming.Proxy.Events.History.{History, place, turns, handle_events-History}
use systems_programming.Proxy.Events.Last.{Foreign}
use systems_programming.Proxy.Events.Life.{Leads, Meets, life, served, serve_request}
use systems_programming.Proxy.Parse.{is_dropped, max_object_size}
use systems_programming.Proxy.Parse.Request.{request_text, sent}
use systems_programming.Tests.Requests.{request, is_request, reads}

-- The second address of the host answers.
abbrev pub addresses : Resolver
addresses host port = some (refused ∷ connected 6 ∷ [])

abbrev table : List ReqInfo
table = req_info_constructor ∷ []

abbrev asked : List ReadResult
asked = got (request_text request) ∷ []

abbrev to_server : List WriteResult
to_server = wrote 10 ∷ wrote (length (sent request) - 10) ∷ []

abbrev to_client : List WriteResult
to_client = wrote 1 ∷ wrote 3 ∷ []

leads : Leads addresses request 6
unfolding connect_to_server first_connected service host_port
leads = refl

free : (fd : ℕ) → Foreign table fd
unfolding find_fd
free fd = refl

small_text : ltb (length (request_text request)) max_object_size ≡ true
small_text = refl

small_request : ltb (length (sent request)) max_object_size ≡ true
unfolding is_dropped str_eq
small_request = refl

long_request : ltb 9 (length (sent request)) ≡ true
unfolding is_dropped str_eq
long_request = refl

meets : Meets request (length (request_text request)) asked to_server reads to_client
unfolding read_request read_response until_nul has_end
meets = record {
  request = refl;
  plain = refl;
  fits = ground (arith, small_text);
  small = ground (arith, small_request);
  takes = (ground (arith, long_request), (omega arith, omega arith));
  response = refl;
  delivers = (omega arith, (omega arith, refl));
}

serve_request_example :
    handle_events addresses table (life 5 6 asked to_server reads to_client)
    ≡ going (table ++ (served 5 6 request (length (request_text request)) (codes "abcd") ∷ [])) (
        ([], [])
        ∷ (log (log_copy (request_text request)) ∷ epoll_add_out 6 ∷ [], [])
        ∷ (epoll_mod_in 6 ∷ [], sent request)
        ∷ (epoll_mod_out (some 5) ∷ close (some 6) ∷ [], [])
        ∷ (close (some 5) ∷ [], codes "abcd")
        ∷ [])
serve_request_example =
    serve_request addresses request 5 6 (length (request_text request)) asked to_server reads
      to_client is_request leads meets table (omega arith) (free 5) (free 6)

-- A read that waits on one connection does not reach another.
abbrev waiting : Io
waiting = record { reads = read_again ∷ []; writes = []; registers = true }

waits_again :
    handle_events addresses (fresh 5 ∷ fresh 6 ∷ []) (ready 6 waiting ∷ [])
    ≡ going (fresh 5 ∷ fresh 6 ∷ []) (([], []) ∷ [])
unfolding handle_events handle_event find_fd dispatch read_client after_asking read_request
    until_nul has_end store_back and_then registered
waits_again = refl

handle_events-History_example :
    (req' : ReqInfo) × (get_elem? (fresh 5 ∷ fresh 6 ∷ []) 1 ≡ some req')
    × (h : History addresses (fresh 6) (ready 6 waiting ∷ []) req') × (0 ≤ place req'.state)
    × (place req'.state ≤ 0 + turns h)
handle_events-History_example =
    handle_events-History addresses (ready 6 waiting ∷ []) (fresh 5 ∷ fresh 6 ∷ [])
      (fresh 5 ∷ fresh 6 ∷ []) (([], []) ∷ []) 1 (fresh 6) waits_again refl

found : find_fd (fresh 5 ∷ []) 5 ≡ some 0
unfolding find_fd
found = refl

abbrev again : Io
again = record { reads = []; writes = []; registers = true }

stale_entry_example :
    (handle_events addresses (fresh 5 ∷ []) (error 5 ∷ accepted (5 ∷ []) ∷ [])
      ≡ going (fresh 5 ∷ fresh 5 ∷ []) ((close (some 5) ∷ [], []) ∷ ([], []) ∷ []))
    × (handle_event addresses (fresh 5 ∷ fresh 5 ∷ []) (ready 5 again)
        ≡ store_back (fresh 5 ∷ fresh 5 ∷ []) 0 (dispatch addresses again (fresh 5)))
stale_entry_example =
    stale_entry addresses (fresh 5 ∷ []) 5 0 (fresh 5) again (omega arith) found refl
