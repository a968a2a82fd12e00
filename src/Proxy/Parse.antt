-- ===== src/Proxy/Parse.antt =====
-- The request parser that both proxies hold a copy of: `parse` of proxylab-handout/proxy.c and
-- `parse_request` of first-proxylab-handout/proxy.c. `strtok` keeps the rest of the text between
-- calls; here each call returns it.
pub mod Headers
pub mod Request
pub mod Bounds
use systems_programming.Base.{
  ℕ, zero, suc, ◌+◌, ◌==◌, ltb, if◌then◌else◌, Bool, true, false, ◌||◌, Option, none, some, List,
  [], ◌∷◌, ◌++◌, length, CStr, codes, str_eq,
}

-- The end of a parse: with a value, or through a NULL pointer or past the end of a buffer.
pub data Parsed {ℓ} (A : Type ℓ) : Type ℓ where
  ok : A → Parsed A
  fault : Parsed A

infixl 5 ◌>>=◌
abbrev pub ◌>>=◌ {ℓ κ} : {A : Type ℓ} {B : Type κ} → Parsed A → (A → Parsed B) → Parsed B
ok a >>= f = f a
fault >>= f = fault

abbrev pub max_object_size : ℕ
max_object_size = 102400

unfoldable pub elem : ℕ → CStr → Bool
elem c [] = false
elem c (d ∷ ds) = c == d || elem c ds

-- The bytes of a text before the first delimiter, and those behind it.
unfoldable pub cut : CStr → CStr → CStr × CStr
cut delim [] = ([], [])
cut delim (c ∷ s) = if elem c delim then ([], s) else (c ∷ (cut delim s).0, (cut delim s).1)

unfoldable pub skip : CStr → CStr → CStr
skip delim [] = []
skip delim (c ∷ s) = let rest = skip delim s in if elem c delim then rest else c ∷ s

-- `strtok`: NULL if nothing but delimiters is left.
unfoldable pub strtok : CStr → CStr → Option (CStr × CStr)
strtok delim s = elim (skip delim s) [ [] ↦ none | c ∷ r ↦ some (cut delim (c ∷ r)) ]

-- `strchr` with the byte overwritten by NUL: what is before it and what is behind it.
unfoldable pub strchr : ℕ → CStr → Option (CStr × CStr)
strchr d [] = none
strchr d (c ∷ s) =
    if c == d
    then some ([], s)
    else elim (strchr d s) [ none ↦ none | some (a, b) ↦ some (c ∷ a, b) ]

abbrev pub deref {ℓ} : {A : Type ℓ} → Option A → Parsed A
deref none = fault
deref (some a) = ok a

abbrev pub crlf : CStr
crlf = 13 ∷ 10 ∷ []

-- `user_agent_hdr`
abbrev pub user_agent_hdr : CStr
user_agent_hdr =
    codes "User-Agent: Mozilla/5.0 (X11; Linux x86_64; rv:10.0.3) Gecko/20120305 Firefox/10.0.3"
    ++ crlf

-- A header that the proxy throws away, to put its own in its place.
unfoldable pub is_dropped : CStr → Bool
is_dropped name =
    str_eq name (codes "Connection")
    || (str_eq name (codes "Proxy-Connection") || str_eq name (codes "User-Agent"))

-- One round of the loop over the headers: the text that it adds to the request, and whether it was
-- the `Host` header. A line with no colon is written through a NULL pointer.
unfoldable pub header_line : CStr → Parsed (CStr × Bool)
header_line header = elim (strchr b':' header) [
  | none ↦ fault
  | some (name, rest) ↦
      if is_dropped name then ok ([], false) else ok (header ++ crlf, str_eq name (codes "Host"))
]

-- The loop `while ((header = strtok(NULL, "\r\n")) != NULL)`, on the text that is left. A token takes
-- at least one byte, so the length of the text is fuel enough.
unfoldable pub headers_from : ℕ → CStr → Parsed (CStr × Bool)
headers_from zero s = ok ([], false)
headers_from (suc fuel) s = elim (strtok crlf s) [
  | none ↦ ok ([], false)
  | some (header, rest) ↦
      (header_line header >>= λ p. headers_from fuel rest >>= λ q. ok (p.0 ++ q.0, p.1 || q.1))
]

-- What the parser finds out: the host, the port if the URL has one, and the request to send.
pub record Target : Type 0 where
  pub host : CStr
  pub port : Option CStr
  pub request : CStr

-- The headers that end every request.
abbrev pub closing : CStr
closing =
    user_agent_hdr
    ++ (codes "Connection: close" ++ (crlf ++ (codes "Proxy-Connection: close" ++ (crlf ++ crlf))))

unfoldable pub split_host : CStr → CStr × Option CStr
split_host authority = elim (strchr b':' authority) [
  | none ↦ (authority, none)
  | some (host, port) ↦ (host, some port)
]

-- The text that `myRequest` is put together from.
unfoldable pub assemble : CStr → CStr → CStr → CStr × Bool → CStr
assemble req_type host path headers =
    req_type
    ++ (codes " /"
        ++ (path
            ++ (codes " "
                ++ (codes "HTTP/1.0"
                    ++ (crlf
                        ++ (headers.0 ++ ((if headers.1 then [] else host ++ crlf) ++ closing)))))))

-- `myRequest` and the copies of host and port; a request that fills its buffer is written past it.
unfoldable pub finish_parse : CStr × Option CStr → CStr → Parsed Target
finish_parse authority request =
    if ltb (length request) max_object_size
    then ok (record { host = authority.0; port = authority.1; request = request })
    else fault

-- The statements of `parse` behind its copy. The complaints about a method other than GET, a scheme
-- other than http and an empty host are printed, and the parser goes on; a missing token is read
-- through a NULL pointer.
unfoldable pub parse_copy : CStr → Parsed Target
parse_copy buf = do
  (req_type, s₁) ← deref (strtok (codes " ") buf)
  (http, s₂) ← deref (strtok (codes "//") s₁)
  (authority, s₃) ← deref (strtok (codes "/") s₂)
  (line, s₄) ← deref (strtok crlf s₃)
  (path, version) ← deref (strchr b' ' line)
  headers ← headers_from (length s₄ + 1) s₄
  finish_parse (split_host authority) (assemble req_type (split_host authority).0 path headers)

-- `parse`, on `original_req_buf` up to its NUL: `strcpy` into an array of `MAX_OBJECT_SIZE` bytes comes
-- first.
unfoldable pub parse : CStr → Parsed Target
parse original = if ltb (length original) max_object_size then parse_copy original else fault

-- `parse_request` of first-proxylab-handout/proxy.c: the same statements on the buffer itself, with
-- the copies of host, port and request on the heap.
unfoldable pub parse_request : CStr → Parsed Target
parse_request buf = parse_copy buf
