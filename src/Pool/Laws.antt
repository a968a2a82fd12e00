-- ===== src/Pool/Laws.antt =====
-- What a thread of first-proxylab-handout/proxy.c does with a request, when no other one runs.
use mathlib.Core.List.{append-nil, append_assoc}
use systems_programming.Base.{
  ℕ, zero, suc, ◌+◌, ◌-◌, ◌≤◌, ◌<◌, ◌≡◌, ◌≢◌, ◌⊎◌, ◌==◌, ltb, refl, Bool-cases, inl, inr, Option,
  none, some, List, [], ◌∷◌, ◌++◌, length, length-append, take, take-length, drop, drop-add,
  take-append-drop, if◌then◌else◌, true, false, CStr, arith, ap, ap₂, ◌∙◌, sym,
}
use systems_programming.Sbuf.{done}
use systems_programming.Cache.{
  CacheObject, Cache, allocated, max_cache_size, cache_build_object, cache_insert,
}
use systems_programming.Logbuf.{Logbuf}
use systems_programming.Cache.Laws.{Holds, cache_insert-Holds, cache_find_object-Holds}
use systems_programming.Proxy.Parse.{Target, max_object_size, parse_request}
use systems_programming.Proxy.Events.{until_nul}
use systems_programming.Proxy.Events.Handlers.{Attempt, first_connected, service}
use systems_programming.Pool.{
  send_request, sent, behind, received, read_reply, read_headers, Host, Result, ended, exits,
  crashes, sleeps, goes_on, answer, search, ◌>>=◌, of_outcome, of_sending, of_receiving, writes_of,
  contact_host, Shared, parsed, logging, read_write,
}

-- If what follows a call never ends, neither does the whole.
bind-never :
    {A B : Type 0} (x : Result A) (f : A → Result B) (b : B)
    → ((a : A) → f a ≢ ended b)
    → (x >>= f) ≢ ended b
bind-never (ended a) f b h = h a
bind-never exits f b h = λ e. cc
bind-never crashes f b h = λ e. cc
bind-never sleeps f b h = λ e. cc
bind-never goes_on f b h = λ e. cc

-- A search without result ends in a crash, at the latest.
answer-never :
    (host : Host) (writes : List (Option ℕ)) (buf url : CStr) (log : Logbuf) (cache : Cache)
    (result : List ℕ × Shared)
    → answer host writes buf url log (none, cache) ≢ ended result
unfolding answer
answer-never host writes buf url log cache result =
    bind-never (parsed (parse_request buf)) _ result
      (λ req_info. bind-never (contact_host host req_info url cache) _ result (λ object e. cc))

search-Holds :
    (fuel : ℕ) (cache : Cache) (os : List CacheObject) (url : CStr)
    → Holds cache os
    → search (suc fuel) cache url ≡ (if length os == 0 then ended (none, cache) else crashes)
unfolding search of_outcome
search-Holds fuel cache os url h =
    rw (cache_find_object-Holds fuel cache os url h, search)
      (elim (Bool-cases (length os == 0)) [ inl e ↦ rw e refl | inr e ↦ rw e refl ])

-- While allocated entries are left in the cache, whatever the client and the host do, and whatever the
-- cache holds: `read_write` never comes to its end.
pub read_write-never :
    (fuel : ℕ) (host : Host) (reads : List (Option (List ℕ))) (writes : List (Option ℕ))
    (shared : Shared) (os : List CacheObject) (result : List ℕ × Shared)
    → Holds shared.cache os
    → read_write (suc fuel) host reads writes shared ≢ ended result
unfolding read_write
read_write-never fuel host reads writes shared os result h =
    bind-never (of_receiving (read_headers reads [] 0)) _ result (λ (buf, nread).
      bind-never (of_outcome (logging shared.log (until_nul buf))) _ result
        (λ (url, log). searched (until_nul buf) url log))
  where
    searched :
        (buf url : CStr) (log : Logbuf)
        → (search (suc fuel) shared.cache url >>= answer host writes buf url log) ≢ ended result
    searched buf url log =
        rw (search-Holds fuel shared.cache os url h) (elim (Bool-cases (length os == 0)) [
          | inl e ↦ rw e (answer-never host writes buf url log shared.cache result)
          | inr e ↦ rw e (λ q. cc)
        ])

-- Calls of `write` that take exactly what is left.
abbrev pub TakesAll : List (Option ℕ) → ℕ → Type 0
TakesAll [] left = left ≡ 0
TakesAll (some k ∷ calls) left = (k ≤ left) × TakesAll calls (left - k)
TakesAll (none ∷ calls) left = left ≡ 0

drop_all : (n : ℕ) (xs : List ℕ) → length xs ≤ n → drop n xs ≡ []
drop_all zero [] h = refl
drop_all zero (x ∷ xs) h = absurd (omega arith)
drop_all (suc n) [] h = refl
drop_all (suc n) (x ∷ xs) h = drop_all n xs (omega arith)

send_request_end :
    (calls : List (Option ℕ)) (request : List ℕ) (n : ℕ)
    → n ≡ length request
    → send_request calls request n ≡ sent (drop n request)
unfolding send_request
send_request_end calls request n e = go calls
  where
    equal : (n == length request) ≡ true
    equal = ground arith

    nothing : sent [] ≡ sent (drop n request)
    nothing = ap sent (sym (drop_all n request (omega arith)))

    go : (calls : List (Option ℕ)) → send_request calls request n ≡ sent (drop n request)
    go [] = rw equal nothing
    go (none ∷ calls) = rw equal nothing
    go (some k ∷ calls) = rw equal nothing

pub send_request-whole :
    (calls : List (Option ℕ)) (request : List ℕ) (n : ℕ)
    → n ≤ length request
    → TakesAll calls (length request - n)
    → send_request calls request n ≡ sent (drop n request)
unfolding send_request behind
send_request-whole [] request n le takes = send_request_end [] request n (omega arith)
send_request-whole (none ∷ calls) request n le takes =
    send_request_end (none ∷ calls) request n (omega arith)
send_request-whole (some k ∷ calls) request n le takes = elim (Bool-cases (n == length request)) [
  | inl e ↦ send_request_end (some k ∷ calls) request n (ground arith)
  | inr e ↦
      let left : length request - (n + k) ≡ length request - n - k = omega arith in
      let rest =
        send_request-whole calls request (n + k) (omega (arith, takes.0)) (rw left takes.1) in
      let joined : take k (drop n request) ++ drop (n + k) request ≡ drop n request =
        ap (λ t. take k (drop n request) ++ t) (drop-add n k request)
        ∙ take-append-drop k (drop n request) in
      rw e (ap (behind (take k (drop n request))) rest ∙ ap sent joined)
]

-- Reads of pieces that are not empty, and an empty one.
abbrev pub stream : List (ℕ × List ℕ) → List (Option (List ℕ)) → List (Option (List ℕ))
stream [] more = some [] ∷ more
stream ((c, bytes) ∷ pieces) more = some (c ∷ bytes) ∷ stream pieces more

abbrev pub joined : List (ℕ × List ℕ) → List ℕ
joined [] = []
joined ((c, bytes) ∷ pieces) = (c ∷ bytes) ++ joined pieces

read_reply-stream :
    (pieces : List (ℕ × List ℕ)) (more : List (Option (List ℕ))) (content : List ℕ) (n : ℕ)
    → n ≡ length content
    → n + length (joined pieces) ≤ max_object_size
    → read_reply (stream pieces more) content n
      ≡ received (content ++ joined pieces) (n + length (joined pieces))
unfolding read_reply
read_reply-stream [] more content n e fits = ap₂ received (sym (append-nil content)) (omega arith)
read_reply-stream ((c, bytes) ∷ pieces) more content n e fits =
    let size : length (joined ((c, bytes) ∷ pieces)) ≡ length (c ∷ bytes) + length (joined pieces) =
      length-append (c ∷ bytes) (joined pieces) in
    let small : ltb max_object_size (n + length (c ∷ bytes)) ≡ false = ground (arith, size) in
    let kept : take n content ++ ((c ∷ bytes) ++ drop (n + length (c ∷ bytes)) content)
        ≡ content ++ (c ∷ bytes) =
      ap₂ (λ a b. a ++ ((c ∷ bytes) ++ b)) (ap (λ k. take k content) e ∙ take-length content)
        (drop_all (n + length (c ∷ bytes)) content (omega arith))
      ∙ ap (λ t. content ++ t) (append-nil (c ∷ bytes)) in
    rw small (
      rw kept (
        read_reply-stream pieces more (content ++ (c ∷ bytes)) (n + length (c ∷ bytes))
          (omega (arith, length-append content (c ∷ bytes))) (omega (arith, size))
        ∙ ap₂ received (append_assoc content (c ∷ bytes) (joined pieces)) (omega (arith, size))))

-- What `contact_host` makes of a response.
abbrev pub object_of : CStr → List ℕ → CacheObject
object_of url response = cache_build_object (length response) (some url) (some response)

-- A host with an address that answers, calls of `write` that take the request whole, and a response of
-- at most `MAX_OBJECT_SIZE` bytes in any number of reads; a cache with allocated entries left: the host
-- gets exactly the request, the object is the whole response under its URL, and the cache either
-- keeps it behind the others or is full and stays as it is.
pub contact_host-Holds :
    (host : Host) (req_info : Target) (url : CStr) (cache : Cache) (os : List CacheObject)
    (attempts : List Attempt) (fd : ℕ) (pieces : List (ℕ × List ℕ)) (more : List (Option (List ℕ)))
    → Holds cache os
    → length os + 1 < allocated cache.n
    → host.getaddrinfo req_info.host (service req_info.port) ≡ some attempts
    → first_connected attempts ≡ some fd
    → TakesAll host.writes (length req_info.request)
    → host.reads ≡ stream pieces more
    → length (joined pieces) ≤ max_object_size
    → (cache' : Cache) × (contact_host host req_info url cache
        ≡ ended (req_info.request, object_of url (joined pieces), cache'))
      × (((max_cache_size < length (joined pieces) + cache.size) × (cache' ≡ cache))
          ⊎ Holds cache' (os ++ (object_of url (joined pieces) ∷ [])))
unfolding contact_host of_outcome of_sending of_receiving writes_of cache_build_object
contact_host-Holds host req_info url cache os attempts fd pieces more h room found connected takes
      reads fits =
    elim (cache_insert-Holds cache os (object_of url (joined pieces)) h room) [
      | inl (why, kept) ↦ (cache, contacted cache kept, inl (full why, refl))
      | inr (cache', kept, h') ↦ (cache', contacted cache' kept, inr h')
    ]
  where
    full :
        (max_object_size < length (joined pieces))
          ⊎ (max_cache_size < length (joined pieces) + cache.size)
        → max_cache_size < length (joined pieces) + cache.size
    full (inl large) = absurd (omega arith)
    full (inr over) = over

    left : length req_info.request - 0 ≡ length req_info.request
    left = omega arith

    response :
        read_reply (stream pieces more) [] 0 ≡ received (joined pieces) (length (joined pieces))
    response =
        read_reply-stream pieces more [] 0 refl (omega arith)
        ∙ ap (received (joined pieces)) (omega arith)

    contacted :
        (cache' : Cache)
        → cache_insert cache (object_of url (joined pieces)) ≡ done cache'
        → contact_host host req_info url cache
          ≡ ended (req_info.request, object_of url (joined pieces), cache')
    contacted cache' kept =
        rw (found, contact_host)
          (rw connected (
            rw (send_request-whole host.writes req_info.request 0 (omega arith) (rw left takes))
              (rw reads (rw response (rw kept refl)))))
