-- ===== src/Tests/Answers.antt =====
-- The answer of `Names`, on its way from the socket to the output.
use systems_programming.Base.{◌>>=◌, ◌≡◌, refl, some, none, [], ◌∷◌, ◌++◌, map, codes, arith}
use systems_programming.Proxy.Events.Handlers.{refused, connected, first_connected}
use systems_programming.Resolver.Query.{create_dns_query, resolve}
use systems_programming.Resolver.Query.Answers.{printed, resolve-all_bytes}
use systems_programming.Resolver.Query.Entries.{Heap, resolve_list}
use systems_programming.Resolver.Query.Entries.Built.{listed, resolve_list-resolve}
use systems_programming.Resolver.Main.{World, send_recv_message, port_of, printed as shows, main}
use systems_programming.Resolver.Main.Output.{lines, left, main-resolve}
use systems_programming.Resolver.Main.Lookup.{main-lookup}
use systems_programming.Resolver.Dump.{print_bytes}
use systems_programming.Resolver.Dump.Cells.{rows}
use systems_programming.Resolver.Dump.Rows.{print_bytes-rows}
use systems_programming.Tests.Names.{answer, response, are_labels}

abbrev world : World
world = record {
  first = 300;
  second = 5;
  after = [];
  dest = [];
  memory = [];
  getaddrinfo = λ host port. some (refused ∷ connected 3 ∷ []);
  recv = λ fd query. some response;
}

-- One entry is in use before.
abbrev heap : Heap
heap = none ∷ []

resolve_list-resolve_example :
    resolve_list 3 (codes "a.bc") response heap
    ≡ (resolve 3 (codes "a.bc") response >>= λ vs. some (listed heap vs))
resolve_list-resolve_example = resolve_list-resolve 3 (codes "a.bc") response heap

arrives :
    send_recv_message world (create_dns_query 300 5 [] [] (codes "a.bc")) (codes "ns") (port_of [])
    ≡ some response
unfolding send_recv_message first_connected
arrives = refl

resolves : resolve 3 (codes "a.bc") response ≡ some (map printed (answer ∷ []))
resolves =
    resolve-all_bytes (answer ∷ []) 3 (codes "a.bc") response [] 0 1 (refl, tt) refl refl refl refl

main-resolve_example :
    main 3 5 world (codes "resolver" ∷ codes "a.bc" ∷ codes "ns" ∷ []) heap
    ≡ shows (lines (map printed (answer ∷ []))) (heap ++ left (map printed (answer ∷ [])))
main-resolve_example =
    main-resolve 3 5 world (codes "resolver") (codes "a.bc") (codes "ns") [] heap response
      (map printed (answer ∷ [])) arrives resolves (omega arith)

print_bytes-rows_example : print_bytes response ≡ rows 5 0 response ++ codes "\n"
print_bytes-rows_example = print_bytes-rows response

main-lookup_example :
    main 3 5 world (codes "resolver" ∷ codes "a.bc" ∷ codes "ns" ∷ []) heap
    ≡ shows (lines (map printed (answer ∷ []))) (heap ++ left (map printed (answer ∷ [])))
unfolding first_connected
main-lookup_example =
    main-lookup 3 5 world (codes "resolver") (codes "ns") [] heap (codes "a") (codes "bc" ∷ [])
      (refused ∷ connected 3 ∷ []) 3 response (answer ∷ []) [] 0 1 are_labels
      (refl, refl, refl, omega arith) (refl, tt) refl refl refl refl (omega arith)
