-- ===== src/Tests/Requests.antt =====
-- A request with headers that the proxy keeps, drops and adds.
use systems_programming.Base.{
  ◌≡◌, refl, List, [], ◌∷◌, length, arith, CStr, codes, if◌then◌else◌, ltb, Bool, true, not, ◌&&◌,
  some,
}
use systems_programming.Proxy.Parse.{ok, fault, crlf, elem, parse, max_object_size}
use systems_programming.Proxy.Parse.Headers.{NoneOf, Header, AreHeaders}
use systems_programming.Proxy.Parse.Request.{Request, IsRequest, request_text, sent, parse-request}
use systems_programming.Proxy.Events.{
  State, ReqInfo, req_info_constructor, ReadResult, got, read_again, WriteResult, wrote,
  write_again, complete, read_response, write_buffer,
}
use systems_programming.Proxy.Events.Handlers.{
  registered, read_server, after_reading, write_client, after_writing,
}
use systems_programming.Proxy.Events.Deliver.{AllFit, deliver_response, or_later}
use systems_programming.Proxy.Events.Relay.{receive_response, all_received, relay}

none_of : CStr → CStr → Bool
none_of delim [] = true
none_of delim (c ∷ s) = not (elem c delim) && none_of delim s

NoneOf-of : (delim s : CStr) → none_of delim s ≡ true → NoneOf delim s
unfolding none_of
NoneOf-of delim [] h = tt
NoneOf-of delim (c ∷ s) h = (ground arith, NoneOf-of delim s (ground arith))

abbrev host_header : Header
host_header = record { name = codes "Accept"; value = codes " *" }

abbrev agent_header : Header
agent_header = record { name = codes "User-Agent"; value = codes " x" }

abbrev headers : List Header
headers = host_header ∷ agent_header ∷ []

are_headers : AreHeaders headers
unfolding none_of elem
are_headers = (
  (NoneOf-of (b':' ∷ []) (codes "Accept") refl, NoneOf-of crlf (codes "Accept: *") refl),
  (
    (NoneOf-of (b':' ∷ []) (codes "User-Agent") refl, NoneOf-of crlf (codes "User-Agent: x") refl),
    tt,
  ),
)

abbrev pub request : Request
request = record {
  method = codes "GET";
  host = codes "a.org";
  port = some (codes "81");
  path = codes "x";
  version = codes "HTTP/1.1";
  headers = headers;
}

pub is_request : IsRequest request
unfolding none_of elem
is_request = record {
  method_token = NoneOf-of (codes " ") (codes "GET") refl;
  authority_token = NoneOf-of (codes "/") (codes "a.org:81") refl;
  host_plain = NoneOf-of (b':' ∷ []) (codes "a.org") refl;
  path_plain = NoneOf-of (b' ' ∷ []) (codes "x") refl;
  path_line = NoneOf-of crlf (codes "x") refl;
  version_line = NoneOf-of crlf (codes "HTTP/1.1") refl;
  are_headers = are_headers;
}

parse-request_example : parse (request_text request) ≡ (
    if ltb (length (request_text request)) max_object_size
    then if ltb (length (sent request)) max_object_size
      then ok (record { host = codes "a.org"; port = some (codes "81"); request = sent request })
      else fault
    else fault)
parse-request_example = parse-request request is_request

-- A response of four bytes, read in two events and written in two events.
abbrev reading : ReqInfo
reading = record req_info_constructor {
  client_fd = some 5;
  server_fd = some 6;
  state = State.read_server;
}

abbrev pub reads : List ReadResult
reads = got (codes "ab") ∷ got (codes "cd") ∷ got [] ∷ []

abbrev split_reads : List (List ReadResult)
split_reads = (got (codes "ab") ∷ read_again ∷ []) ∷ (got (codes "cd") ∷ got [] ∷ []) ∷ []

abbrev events : List (List WriteResult)
events = (wrote 3 ∷ write_again ∷ []) ∷ (wrote 1 ∷ []) ∷ []

all_read : (receive_response split_reads reading).status ≡ complete
unfolding receive_response or_later read_server registered read_response after_reading
all_read = refl

all_fit : AllFit events (receive_response split_reads reading).req
unfolding receive_response or_later read_server registered read_response after_reading write_client
    write_buffer after_writing
all_fit = ((omega arith, tt), ((omega arith, tt), tt))

all_sent : (deliver_response events (receive_response split_reads reading).req []).status ≡ complete
unfolding receive_response read_server registered read_response after_reading write_client
    write_buffer after_writing deliver_response or_later
all_sent = refl

relay_example :
    (deliver_response events (receive_response split_reads reading).req []).out
    ≡ all_received split_reads
relay_example = relay split_reads events reading refl refl all_read all_fit all_sent
