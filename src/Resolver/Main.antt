-- ===== src/Resolver/Main.antt =====
-- `main` and `send_recv_message` of dnsresolverlab-handout/resolver.c.
pub mod Output
pub mod Lookup
use systems_programming.Base.{
  ℕ, zero, suc, Option, none, some, List, [], ◌∷◌, ◌++◌, length, take, drop, CStr, codes,
}
use systems_programming.Proxy.Events.Handlers.{Resolver, first_connected}
use systems_programming.Resolver.{res_max}
use systems_programming.Resolver.Query.{create_dns_query}
use systems_programming.Resolver.Query.Entries.{
  Link, unset, null, at, Heap, load, resolve_list, Walked, finished, fault, running,
  free_answer_entries,
}

-- What the program meets: the two numbers of `random`; the memory behind `delim`, in the array of the
-- query and in that of the response; the addresses of a host; and what `recv` returns on a descriptor
-- after a message was sent there, `none` for an error.
pub record World : Type 0 where
  pub first : ℕ
  pub second : ℕ
  pub after : CStr
  pub dest : List ℕ
  pub memory : List ℕ
  pub getaddrinfo : Resolver
  pub recv : ℕ → List ℕ → Option (List ℕ)

-- `send_recv_message`: the array of the response behind it; `none` where the program exits. A datagram
-- is cut to the size of the array, and an error of `recv` leaves the array as it was.
unfoldable pub send_recv_message : World → List ℕ → CStr → CStr → Option (List ℕ)
send_recv_message world request server port = elim (world.getaddrinfo server port) [
  | none ↦ none
  | some attempts ↦ elim (first_connected attempts) [
    | none ↦ none
    | some fd ↦ elim (world.recv fd request) [
      | none ↦ some world.memory
      | some datagram ↦ some (take res_max datagram ++ drop (length datagram) world.memory)
    ]
  ]
]

-- A line in front of those that come later.
unfoldable pub line_and : CStr → Walked CStr → Walked CStr
line_and value (finished out) = finished (value ++ (10 ∷ out))
line_and value fault = fault
line_and value running = running

-- The loop of `main` that prints the answers.
unfoldable pub print_answers : ℕ → Heap → Link → Walked CStr
print_answers fuel heap null = finished []
print_answers fuel heap unset = fault
print_answers zero heap (at a) = running
print_answers (suc fuel) heap (at a) = elim (load heap a) [
  | none ↦ fault
  | some entry ↦ elim entry.value [
    | none ↦ fault
    | some value ↦ line_and value (print_answers fuel heap entry.next)
  ]
]

-- How the program ends: with its usage, in `exit`, with its output and the memory at its end, by an
-- access out of range, or still in a loop after the given rounds.
pub data Ended : Type 0 where
  usage exited crashed looping : Ended
  printed : CStr → Heap → Ended

-- The end of `main`; `free_answer_entries` does nothing on NULL.
unfoldable pub print_and_free : ℕ → Heap → Link → Ended
print_and_free rounds heap ans = elim (print_answers rounds heap ans) [
  | fault ↦ crashed
  | running ↦ looping
  | finished out ↦ elim (free_answer_entries rounds heap ans) [
    | fault ↦ crashed
    | running ↦ looping
    | finished heap' ↦ printed out heap'
  ]
]

unfoldable pub port_of : List CStr → CStr
port_of [] = codes "53"
port_of (port ∷ rest) = port

-- `main` on its arguments, with fuel for each name and rounds for each walk over the list.
unfoldable pub main : ℕ → ℕ → World → List CStr → Heap → Ended
unfolding port_of print_and_free
main fuel rounds world (program ∷ qname ∷ server ∷ rest) heap =
    elim (send_recv_message world
      (create_dns_query world.first world.second world.after world.dest qname) server
      (port_of rest)) [
        | none ↦ exited
        | some response ↦ elim (resolve_list fuel qname response heap) [
          | none ↦ crashed
          | some (heap', ans) ↦ print_and_free rounds heap' ans
        ]
      ]
main fuel rounds world _ heap = usage
