-- ===== src/Proxy/Parse/Request.antt =====
-- The request parser of the proxies on the requests that browsers send.
use mathlib.Core.List.{append_assoc}
use systems_programming.Base.{
  ap, ◌+◌, ◌≡◌, refl, ltb, if◌then◌else◌, Option, none, some, List, [], ◌∷◌, ◌++◌, length,
  length-append, CStr, codes, arith, ◌∙◌,
}
use systems_programming.Proxy.Parse.{
  parse_copy, ok, fault, elem, strtok, crlf, headers_from, split_host, assemble, finish_parse,
  parse, max_object_size, closing,
}
use systems_programming.Proxy.Parse.Headers.{
  NoneOf, IsToken, strtok-append, strtok-skip, strchr-append, strchr-none, Header, headers_text,
  AreHeaders, kept, has_host, headers_from-text, headers_from-skip,
}

-- `METHOD http://host:port/path VERSION`, the port left out or not, and headers up to an empty line.
pub record Request : Type 0 where
  pub method : CStr
  pub host : CStr
  pub port : Option CStr
  pub path : CStr
  pub version : CStr
  pub headers : List Header

abbrev pub authority_text : CStr → Option CStr → CStr
authority_text host none = host
authority_text host (some port) = host ++ (b':' ∷ port)

abbrev pub request_text : Request → CStr
request_text r =
    r.method
    ++ (b' '
        ∷ (codes "http:"
            ++ (codes "//"
                ++ (authority_text r.host r.port
                    ++ (b'/'
                        ∷ (r.path
                            ++ (b' '
                                ∷ (r.version ++ (13 ∷ 10 ∷ (headers_text r.headers ++ crlf))))))))))

pub record IsRequest (r : Request) : Type 0 where
  pub method_token : IsToken (codes " ") r.method
  pub authority_token : IsToken (codes "/") (authority_text r.host r.port)
  pub host_plain : NoneOf (b':' ∷ []) r.host
  pub path_plain : NoneOf (b' ' ∷ []) r.path
  pub path_line : NoneOf crlf r.path
  pub version_line : NoneOf crlf r.version
  pub are_headers : AreHeaders r.headers

NoneOf-line :
    (path version : CStr)
    → NoneOf crlf path
    → NoneOf crlf version
    → IsToken crlf (path ++ (b' ' ∷ version))
unfolding elem
NoneOf-line [] version p v = (refl, v)
NoneOf-line (c ∷ path) version p v = (p.0, go path p.1)
  where
    go : (s : CStr) → NoneOf crlf s → NoneOf crlf (s ++ (b' ' ∷ version))
    go [] h = (refl, v)
    go (d ∷ s) h = (h.0, go s h.1)

host_token :
    (authority rest : CStr)
    → IsToken (codes "/") authority
    → strtok (codes "/") (b'/' ∷ (authority ++ (b'/' ∷ rest))) ≡ some (authority, rest)
unfolding elem
host_token authority rest h =
    strtok-skip (codes "/") b'/' (authority ++ (b'/' ∷ rest)) refl
    ∙ strtok-append (codes "/") authority b'/' rest h refl

scheme_token :
    (rest : CStr)
    → strtok (codes "//") (codes "http:" ++ (codes "//" ++ rest))
      ≡ some (codes "http:", b'/' ∷ rest)
unfolding elem
scheme_token rest =
    strtok-append (codes "//") (codes "http:") b'/' (b'/' ∷ rest)
      (refl, (refl, (refl, (refl, (refl, tt))))) refl

line_token :
    (path version rest : CStr)
    → NoneOf crlf path
    → NoneOf crlf version
    → strtok crlf (path ++ (b' ' ∷ (version ++ (13 ∷ rest))))
      ≡ some (path ++ (b' ' ∷ version), rest)
unfolding elem
line_token path version rest p v =
    rw (← append_assoc path (b' ' ∷ version) (13 ∷ rest))
      (strtok-append crlf (path ++ (b' ' ∷ version)) 13 rest (NoneOf-line path version p v) refl)

headers_end :
    (hs : List Header)
    → AreHeaders hs
    → headers_from (length (10 ∷ (headers_text hs ++ crlf)) + 1) (10 ∷ (headers_text hs ++ crlf))
      ≡ ok (kept hs, has_host hs)
headers_end hs v =
    headers_from-skip (length (10 ∷ (headers_text hs ++ crlf)) + 1) (headers_text hs ++ crlf)
    ∙ headers_from-text (length (10 ∷ (headers_text hs ++ crlf)) + 1) hs v
        (omega (arith, length-append (headers_text hs) crlf))

split_host-authority :
    (host : CStr) (port : Option CStr)
    → NoneOf (b':' ∷ []) host
    → split_host (authority_text host port) ≡ (host, port)
unfolding split_host
split_host-authority host none h = rw (strchr-none b':' host h, split_host)
split_host-authority host (some port) h = rw (strchr-append b':' host port h, split_host)

parse_copy-text :
    (r : Request)
    → IsRequest r
    → parse_copy (request_text r)
      ≡ finish_parse
          (r.host, r.port)
          (assemble r.method r.host r.path (kept r.headers, has_host r.headers))
unfolding parse_copy elem
parse_copy-text r v = rw (strtok-append (codes " ") r.method b' ' _ v.method_token refl) (
    rw (scheme_token _) (
      rw (host_token (authority_text r.host r.port) _ v.authority_token) (
        rw (line_token r.path r.version _ v.path_line v.version_line) (
          rw (strchr-append b' ' r.path r.version v.path_plain) (
            rw (headers_end r.headers v.are_headers)
              (rw (split_host-authority r.host r.port v.host_plain)))))))

-- The request that goes out: the method, the path and HTTP/1.0, the headers that are kept, and the
-- proxy's own. Without a `Host` header the bare host stands there as a line, with no header name.
abbrev pub sent : Request → CStr
sent r =
    r.method
    ++ (codes " /"
        ++ (r.path
            ++ (codes " "
                ++ (codes "HTTP/1.0"
                    ++ (crlf
                        ++ (kept r.headers
                            ++ ((if has_host r.headers then [] else r.host ++ crlf)
                                ++ closing)))))))

-- On a well-formed request the parser finds the host and the port, and rewrites the request; a request
-- or a new one that does not fit with its NUL into an array of `MAX_OBJECT_SIZE` is written past its end.
pub parse-request :
    (r : Request)
    → IsRequest r
    → parse (request_text r) ≡ (
        if ltb (length (request_text r)) max_object_size
        then (if ltb (length (sent r)) max_object_size
            then ok (record { host = r.host; port = r.port; request = sent r })
            else fault)
        else fault)
unfolding parse assemble finish_parse
parse-request r v =
    ap (λ p. if ltb (length (request_text r)) max_object_size then p else fault)
      (parse_copy-text r v)
