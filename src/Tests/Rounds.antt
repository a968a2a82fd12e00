-- ===== src/Tests/Rounds.antt =====
-- A run of `main` of the event loop with a call of `write`.
use systems_programming.Proxy.Events.Main.{Setup, behind, wait_for_events, main}
use systems_programming.Proxy.Events.Main.Runs.{reported, main-AreSound}
use systems_programming.Base.{
  ◌≡◌, refl, List, [], ◌∷◌, length, arith, codes, Option, some, ℕ, ltb, true, false, CStr, take,
  zero, suc, sym, ap, ◌∙◌, subst,
}
use systems_programming.Proxy.Events.{
  State, write_buffer, ReqInfo, got, wrote, write_again, read_request, until_nul, has_end,
}
use systems_programming.Proxy.Events.Handlers.{
  read_client, after_asking, epoll_add_out, log, log_copy, registered, start_request, logging,
  connect_request, write_server, after_sending, Call, connect_to_server,
}
use systems_programming.Proxy.Events.Server.{
  Event, add_clients, and_then, find_fd, Io, dispatch, accepted, ready, store_back, handle_event,
  continue, going, handle_events,
}
use systems_programming.Proxy.Events.Find.{fresh}
use systems_programming.Proxy.Parse.{
  parse, parse_copy, strtok, skip, elem, cut, strchr, headers_from, finish_parse, assemble,
  split_host,
}
use systems_programming.Proxy.Events.Sound.Handling.{IsPolite}
use systems_programming.Proxy.Events.Sound.Runs.{AreSound, ArePolite, AllPolite}
use systems_programming.Tests.Server.{addresses}

-- A connection in one round, its whole request in the next, and a call of `write` to the server.
abbrev text : CStr
text = codes "GET http://h/ HTTP/1.0\r\n\r\n"

abbrev bare_request : Io
bare_request = record { reads = got text ∷ []; writes = []; registers = true }

abbrev two_bytes : Io
two_bytes = record { reads = []; writes = wrote 2 ∷ write_again ∷ []; registers = true }

abbrev rounds : List (Option (List Event))
rounds =
    some (accepted (5 ∷ []) ∷ [])
    ∷ some (ready 5 bare_request ∷ [])
    ∷ some (ready 6 two_bytes ∷ [])
    ∷ []

abbrev up : Setup
up = record { unblocks = true; creates = true; adds = true }

abbrev rewritten : CStr
rewritten = assemble (codes "GET") (codes "h") [] ([], false)

-- The request of the connection behind its first handler, and once two bytes of it have gone out.
abbrev begun : ReqInfo
begun = record (fresh 5) {
  server_fd = some 6;
  state = State.write_server;
  original_req_buf = text;
  client_bytes_read = length text;
  modified_req_buf = rewritten;
}

abbrev half_sent : ReqInfo
half_sent = record begun { server_bytes_written = 2 }

abbrev started : List Call
started = log (log_copy text) ∷ epoll_add_out 6 ∷ []

runs :
    main addresses 2 up rounds
    ≡ going (half_sent ∷ []) (([], []) ∷ (started, []) ∷ ([], take 2 rewritten) ∷ [])
unfolding main wait_for_events behind handle_events handle_event add_clients find_fd dispatch
    store_back read_client after_asking read_request until_nul has_end and_then registered
    start_request parse parse_copy strtok skip elem cut strchr headers_from finish_parse assemble
    split_host logging connect_request connect_to_server write_server write_buffer after_sending
runs = refl

connects : handle_event addresses [] (accepted (5 ∷ [])) ≡ continue (fresh 5 ∷ []) [] []
unfolding handle_event add_clients
connects = refl

starts :
    handle_event addresses (fresh 5 ∷ []) (ready 5 bare_request) ≡ continue (begun ∷ []) started []
unfolding handle_event add_clients find_fd dispatch store_back read_client after_asking read_request
    until_nul has_end and_then registered start_request parse parse_copy strtok skip elem cut strchr
    headers_from finish_parse assemble split_host logging connect_request connect_to_server
    write_server write_buffer after_sending
starts = refl

continues :
    (t t' : List ReqInfo) (calls calls' : List Call) (out out' : List ℕ)
    → continue t calls out ≡ continue t' calls' out'
    → t ≡ t'
continues t t' calls calls' out out' e = cc

long_text : ltb 1 (length rewritten) ≡ true
unfolding assemble
long_text = refl

begun-IsPolite : IsPolite two_bytes begun
begun-IsPolite = ((λ q. (ground (arith, long_text), tt)), (λ q. cc))

only-ArePolite : ArePolite (begun ∷ []) (ready 6 two_bytes)
only-ArePolite zero req seen at =
    let same : begun ≡ req = cc in subst (IsPolite two_bytes) same begun-IsPolite
only-ArePolite (suc i) req seen at = cc

rounds-AllPolite : AllPolite addresses [] (reported rounds)
rounds-AllPolite = (
  tt,
  λ t calls out e. (
    (λ i req seen at. ((λ q. tt), (λ q. tt))),
    λ t' calls' out' e'.
        let table : fresh 5 ∷ [] ≡ t = continues _ t _ calls _ out (sym connects ∙ e) in
        let next : begun ∷ [] ≡ t' =
          continues _ t' _ calls' _ out'
            (sym starts ∙ ap (λ x. handle_event addresses x (ready 5 bare_request)) table ∙ e') in
        (
          subst (λ x. ArePolite x (ready 6 two_bytes)) next only-ArePolite,
          λ t'' calls'' out'' e''. tt,
        ),
  ),
)

main-AreSound_example : AreSound (half_sent ∷ [])
main-AreSound_example =
    main-AreSound addresses 2 up rounds (half_sent ∷ [])
      (([], []) ∷ (started, []) ∷ ([], take 2 rewritten) ∷ []) rounds-AllPolite runs
