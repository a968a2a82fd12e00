-- ===== src/Tests/Pool.antt =====
-- One thread of the pool, with a cache for two objects.
use systems_programming.Base.{
  ltb, true, length, ◌+◌, ◌<◌, ◌≡◌, ◌≢◌, ◌⊎◌, refl, some, none, [], ◌∷◌, CStr, codes, arith, map,
}
use systems_programming.Sbuf.{sbuf_init, done}
use systems_programming.Sbuf.Queue.{IsQueue, sbuf_init-IsQueue}
use systems_programming.Logbuf.{Logbuf, logbuf_init}
use systems_programming.Pool.Log.{log_text, log_in_order}
use systems_programming.Cache.{Cache, cache_init, max_cache_size}
use systems_programming.Cache.Laws.{Holds, cache_init-Holds}
use systems_programming.Proxy.Parse.{max_object_size, Target, strtok, skip, cut, elem}
use systems_programming.Proxy.Events.Handlers.{refused, connected, first_connected}
use systems_programming.Pool.{
  Host, Shared, ended, contact_host, read_write, logging, logging_thread,
}
use systems_programming.Pool.Laws.{object_of, read_write-never, contact_host-Holds}

abbrev request : CStr
request = codes "GET http://a.org/x HTTP/1.1\r\n\r\n"

-- The host takes the request in two parts and answers in two.
abbrev host : Host
host = record {
  getaddrinfo = λ name port. some (refused ∷ connected 7 ∷ []);
  writes = some 2 ∷ some 3 ∷ [];
  reads = some (codes "ab") ∷ some (codes "c") ∷ some [] ∷ [];
}

abbrev asked : Target
asked = record { host = codes "a.org"; port = none; request = codes "GET x" }

abbrev shared : Shared
shared = record { log = logbuf_init 2; cache = cache_init 6 }

empty-Holds : Holds (cache_init 6) []
empty-Holds = cache_init-Holds 6 (omega arith) (omega arith)

read_write-never_example :
    read_write 1 host (some request ∷ []) (some 3 ∷ []) shared ≢ ended (codes "abc", shared)
read_write-never_example =
    read_write-never 0 host (some request ∷ []) (some 3 ∷ []) shared [] (codes "abc", shared)
      empty-Holds

answers : first_connected (refused ∷ connected 7 ∷ []) ≡ some 7
unfolding first_connected
answers = refl

contact_host-Holds_example :
    (cache' : Cache) × (contact_host host asked (codes "u") (cache_init 6)
      ≡ ended (codes "GET x", object_of (codes "u") (codes "abc"), cache'))
    × (((max_cache_size < 3 + (cache_init 6).size) × (cache' ≡ cache_init 6))
        ⊎ Holds cache' (object_of (codes "u") (codes "abc") ∷ []))
unfolding cache_init
contact_host-Holds_example =
    contact_host-Holds host asked (codes "u") (cache_init 6) [] (refused ∷ connected 7 ∷ []) 7
      ((b'a', codes "b") ∷ (b'c', []) ∷ []) [] empty-Holds (omega arith) refl answers
      (omega arith, (omega arith, refl)) refl (omega arith)

empty-IsQueue : IsQueue (logbuf_init 2) (map some [])
unfolding logbuf_init
empty-IsQueue = sbuf_init-IsQueue none 2 (omega arith)

small_text : ltb (length request) max_object_size ≡ true
small_text = refl

log_in_order_example :
    (log' last : Logbuf) × (logging (logbuf_init 2) request ≡ done (codes "http://a.org/x", log'))
    × (logging_thread (7 ∷ []) log' ≡ ended (log_text (7 ∷ []) (codes "http://a.org/x" ∷ []), last))
    × IsQueue last []
unfolding logbuf_init sbuf_init strtok skip cut elem
log_in_order_example =
    log_in_order (logbuf_init 2) [] request (codes "GET") (codes "http://a.org/x")
      (codes "http://a.org/x HTTP/1.1\r\n\r\n") (codes "HTTP/1.1\r\n\r\n") (7 ∷ []) empty-IsQueue
      (omega arith) (omega arith) (ground (arith, small_text)) refl refl refl
