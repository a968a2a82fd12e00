-- ===== src/Tests/Sockets.antt =====
-- The client of hw5, on the second of its addresses.
use systems_programming.Base.{◌≡◌, refl, some, List, [], ◌∷◌, codes, arith}
use systems_programming.Client
use systems_programming.Client.{Address, no_socket, rejects, accepts, Peer, prints, msg_max}
use systems_programming.Client.Exchange.{main-exchange}

abbrev addresses : List Address
addresses = rejects 3 ∷ accepts 4 ∷ []

-- The socket takes the message in two parts.
abbrev peer : Peer
peer = record {
  getaddrinfo = λ host port. some addresses;
  writes = some 2 ∷ some 3 ∷ [];
  reply = some (codes "hi");
}

main-exchange_example :
    Client.main
      (codes "client" ∷ codes "host" ∷ codes "80" ∷ [])
      peer
      (codes "hello")
      (7 ∷ 7 ∷ b'x' ∷ 0 ∷ 5 ∷ [])
    ≡ (3 ∷ [], prints 4 (codes "hello") (codes "hix"))
main-exchange_example =
    main-exchange (codes "client") (codes "host") (codes "80") [] peer (codes "hello") (some 3 ∷ [])
      4 [] (codes "hi") (7 ∷ 7 ∷ []) (codes "x") (5 ∷ []) refl (omega arith, (omega arith, refl))
      refl refl (omega arith, (omega arith, (omega arith, tt)))
