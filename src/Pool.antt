-- ===== src/Pool.antt =====
-- The threads of first-proxylab-handout/proxy.c: what one of them does with a request. A call of `read`
-- or `write` is what it returns: bytes or a count, and `none` for -1.
pub mod Laws
pub mod Log
pub mod Threads
use systems_programming.Base.{
  ℕ, zero, suc, ◌+◌, ◌==◌, ltb, get_elem?, if◌then◌else◌, Option, none, some, List, [], ◌∷◌, ◌++◌,
  length, take, drop, CStr, codes, decimal,
}
use systems_programming.Sbuf
use systems_programming.Sbuf.{Outcome, done, blocked, undefined}
use systems_programming.Logbuf.{Logbuf, logbuf_insert, logbuf_remove}
use systems_programming.Cache.{
  CacheObject, Cache, cache_build_object, cache_insert, cache_find_object,
}
use systems_programming.Proxy.Parse.{
  strtok, ok, fault, parse_request, Target, max_object_size, Parsed,
}
use systems_programming.Proxy.Events.{until_nul, has_end}
use systems_programming.Proxy.Events.Handlers.{Resolver, first_connected, service}

-- `logging`, behind its copy: the second word of the request goes to the log, and is returned. Without
-- one `strlen` reads through NULL.
unfoldable pub log_copy : Logbuf → CStr → Outcome (CStr × Logbuf)
log_copy logbuf buf = elim (strtok (codes " ") buf) [
  | none ↦ undefined
  | some (method, rest) ↦ elim (strtok (codes " ") rest) [
    | none ↦ undefined
    | some (url, more) ↦
        Sbuf.◌>>=◌ (logbuf_insert logbuf (some url)) (λ logbuf'. done (url, logbuf'))
  ]
]

-- `logging`: `strcpy` into an array of `MAX_OBJECT_SIZE` bytes comes first.
unfoldable pub logging : Logbuf → CStr → Outcome (CStr × Logbuf)
logging logbuf buf = if ltb (length buf) max_object_size then log_copy logbuf buf else undefined

-- How the loop that writes a request ends: with all of it sent, in `exit`, or still running after
-- the given calls of `write`, which return a count, or `none` for -1.
pub data Sending : Type 0 where
  sent : List ℕ → Sending
  failed : List ℕ → Sending
  running : List ℕ → Sending

unfoldable pub behind : List ℕ → Sending → Sending
behind out (sent rest) = sent (out ++ rest)
behind out (failed rest) = failed (out ++ rest)
behind out (running rest) = running (out ++ rest)

-- The loop of `contact_host`, from `written` on.
unfoldable pub send_request : List (Option ℕ) → List ℕ → ℕ → Sending
send_request [] request written = if written == length request then sent [] else running []
send_request (none ∷ calls) request written =
    if written == length request then sent [] else failed []
send_request (some k ∷ calls) request written =
    let rest : Sending = send_request calls request (written + k) in
    if written == length request then sent [] else behind (take k (drop written request)) rest

-- How a loop that reads ends: with a buffer and the count of its bytes, by a pointer out of range, or
-- still running after the given calls.
pub data Receiving : Type 0 where
  received : List ℕ → ℕ → Receiving
  out_of_range : Receiving
  waiting : Receiving

-- The loop of `contact_host` that reads, up to an empty read. -1 is added to the count like any other
-- result; in front of the buffer the pointer is out of range.
unfoldable pub read_reply : List (Option (List ℕ)) → List ℕ → ℕ → Receiving
read_reply [] content total = waiting
read_reply (none ∷ calls) content zero = out_of_range
read_reply (none ∷ calls) content (suc total) = read_reply calls content total
read_reply (some [] ∷ calls) content total = received content total
read_reply (some (c ∷ bytes) ∷ calls) content total =
    let more : ℕ = length (c ∷ bytes) in
    let rest : Receiving =
      read_reply calls (take total content ++ ((c ∷ bytes) ++ drop (total + more) content))
        (total + more) in
    if ltb max_object_size (total + more) then out_of_range else rest

-- The loop of `read_write` that reads, up to the end of the headers; an empty read does not end it.
unfoldable pub read_headers : List (Option (List ℕ)) → List ℕ → ℕ → Receiving
read_headers [] buf nread = if has_end (until_nul buf) then received buf nread else waiting
read_headers (none ∷ calls) buf zero =
    if has_end (until_nul buf) then received buf 0 else out_of_range
read_headers (none ∷ calls) buf (suc nread) =
    let rest : Receiving = read_headers calls buf nread in
    if has_end (until_nul buf) then received buf (suc nread) else rest
read_headers (some bytes ∷ calls) buf nread =
    let more : ℕ = length bytes in
    let rest : Receiving =
      read_headers calls (take nread buf ++ (bytes ++ drop (nread + more) buf)) (nread + more) in
    if has_end (until_nul buf)
    then received buf nread
    else if ltb max_object_size (nread + more)
    then out_of_range
    else rest

-- What the host of a request does: the results of the calls on its socket.
pub record Host : Type 0 where
  pub getaddrinfo : Resolver
  pub writes : List (Option ℕ)
  pub reads : List (Option (List ℕ))

-- How a call ends: with a value, in `exit`, in undefined behaviour, asleep for ever in `sem_wait`, or
-- still in a loop after the given calls and rounds.
pub data Result (A : Type 0) : Type 0 where
  ended : A → Result A
  exits : Result A
  crashes : Result A
  sleeps : Result A
  goes_on : Result A

infixl 5 ◌>>=◌
abbrev pub ◌>>=◌ : {A B : Type 0} → Result A → (A → Result B) → Result B
ended a >>= f = f a
exits >>= f = exits
crashes >>= f = crashes
sleeps >>= f = sleeps
goes_on >>= f = goes_on

unfoldable pub of_outcome : {A : Type 0} → Outcome A → Result A
of_outcome (done a) = ended a
of_outcome blocked = sleeps
of_outcome undefined = crashes

unfoldable pub of_sending : Sending → Result (List ℕ)
of_sending (sent out) = ended out
of_sending (failed out) = exits
of_sending (running out) = goes_on

unfoldable pub of_receiving : Receiving → Result (List ℕ × ℕ)
of_receiving (received buf n) = ended (buf, n)
of_receiving out_of_range = crashes
of_receiving waiting = goes_on

-- The addresses up to the first that answers. If none does, the program goes on with a descriptor that
-- is -1 or closed, on which `write` returns -1.
unfoldable pub writes_of : Option ℕ → List (Option ℕ) → List (Option ℕ)
writes_of none writes = none ∷ []
writes_of (some fd) writes = writes

-- `contact_host`: what the host got, the object, and the cache.
unfoldable pub contact_host : Host → Target → CStr → Cache → Result (List ℕ × CacheObject × Cache)
unfolding of_outcome of_sending of_receiving writes_of
contact_host host req_info url cache =
    elim (host.getaddrinfo req_info.host (service req_info.port)) [
      | none ↦ exits
      | some attempts ↦ do
        out ←
            of_sending
              (send_request (writes_of (first_connected attempts) host.writes) req_info.request 0)
        (content, total) ← of_receiving (read_reply host.reads [] 0)
        cache' ←
            of_outcome (cache_insert cache (cache_build_object total (some url) (some content)))
        ended (out, cache_build_object total (some url) (some content), cache')
    ]

-- What a thread shares with the others: the log and the cache.
pub record Shared : Type 0 where
  pub log : Logbuf
  pub cache : Cache

unfoldable pub parsed : Parsed Target → Result Target
parsed (ok t) = ended t
parsed fault = crashes

-- `read_write`, behind the search: without result `contact_host` does its work, and its object is
-- stored through the NULL that the search returned.
unfoldable pub answer :
    Host → List (Option ℕ) → CStr → CStr → Logbuf → Option ℕ × Cache → Result (List ℕ × Shared)
unfolding of_sending
answer host writes buf url log (none, cache) = do
  req_info ← parsed (parse_request buf)
  object ← contact_host host req_info url cache
  crashes
answer host writes buf url log (some i, cache) = elim (get_elem? cache.buf i) [
  | none ↦ crashes
  | some object ↦ elim object.content [
    | none ↦ crashes
    | some content ↦ do
      out ← of_sending (send_request writes (take object.size content) 0)
      ended (out, record { log = log; cache = cache })
  ]
]

-- `cache_find_object`, with fuel.
unfoldable pub search : ℕ → Cache → CStr → Result (Option ℕ × Cache)
unfolding of_outcome
search fuel cache url = elim (cache_find_object fuel cache url) [
  | none ↦ goes_on
  | some r ↦ of_outcome r
]

-- `read_write`, with the calls on the socket of the client: what the client got.
unfoldable pub read_write :
    ℕ → Host → List (Option (List ℕ)) → List (Option ℕ) → Shared → Result (List ℕ × Shared)
unfolding of_outcome of_receiving search answer
read_write fuel host reads writes shared = do
  (buf, nread) ← of_receiving (read_headers reads [] 0)
  (url, log) ← of_outcome (logging shared.log (until_nul buf))
  found ← search fuel shared.cache url
  answer host writes (until_nul buf) url log found

-- A line of the log file: `%ld: %s\n`.
abbrev pub log_line : ℕ → CStr → CStr
log_line t url = decimal t ++ (codes ": " ++ (url ++ codes "\n"))

abbrev pub line_before : CStr → CStr × Logbuf → Result (CStr × Logbuf)
line_before line (text, log) = ended (line ++ text, log)

-- `logging_thread`, for a round at each of the times: what it writes to the log file.
unfoldable pub logging_thread : List ℕ → Logbuf → Result (CStr × Logbuf)
unfolding of_outcome
logging_thread [] log = ended ([], log)
logging_thread (t ∷ times) log = do
  (item, log') ← of_outcome (logbuf_remove log)
  elim item [
    | none ↦ crashes
    | some url ↦ (logging_thread times log' >>= line_before (log_line t url))
  ]
