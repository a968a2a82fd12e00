-- ===== src/Client.antt =====
-- hw5/client.c: it sends what it reads from its standard input to a server, and prints what comes back.
pub mod Exchange
use systems_programming.Base.{
  ℕ, ◌==◌, if◌then◌else◌, Option, none, some, List, [], ◌∷◌, ◌++◌, length, take, drop, CStr,
}
use systems_programming.Pool.{send_request, sent, failed, running}

abbrev pub msg_max : ℕ
msg_max = 4096

-- What `socket` and `connect` do with an address.
pub data Address : Type 0 where
  no_socket : Address
  rejects : ℕ → Address
  accepts : ℕ → Address

-- The loop over the addresses: the descriptors that it closes, and the socket that it comes to.
unfoldable pub try_addresses : List Address → List ℕ × Option ℕ
try_addresses [] = ([], none)
try_addresses (no_socket ∷ rest) = try_addresses rest
try_addresses (rejects fd ∷ rest) = let (closed, found) = try_addresses rest in (fd ∷ closed, found)
try_addresses (accepts fd ∷ rest) = ([], some fd)

-- What `getaddrinfo` and the calls on the socket return, `none` for an error.
pub record Peer : Type 0 where
  pub getaddrinfo : CStr → CStr → Option (List Address)
  pub writes : List (Option ℕ)
  pub reply : Option (List ℕ)

-- How the program ends, with the bytes that went to the socket: with EXIT_FAILURE, still in the loop
-- that writes, behind the last `fprintf`, or in one that reads on behind the array.
pub data Ending : Type 0 where
  fails : List ℕ → Ending
  writing : List ℕ → Ending
  prints : ℕ → List ℕ → CStr → Ending
  runs_off : List ℕ → Ending

-- An array as `%s` prints it, up to its first NUL.
unfoldable pub printed : List ℕ → Option CStr
printed [] = none
printed (c ∷ bytes) =
    let rest : Option CStr = printed bytes in
    if c == 0 then some [] else elim rest [ none ↦ none | some text ↦ some (c ∷ text) ]

-- From the last `read` on, where `buf` held `stack`.
unfoldable pub finish : ℕ → Option (List ℕ) → List ℕ → List ℕ → Ending
finish fd none stack out = fails out
finish fd (some bytes) stack out = elim (printed (bytes ++ drop (length bytes) stack)) [
  | none ↦ runs_off out
  | some text ↦ prints fd out text
]

-- From the first `write` on.
unfoldable pub talk : ℕ → Peer → List ℕ → List ℕ → Ending
talk fd peer message stack = elim (send_request peer.writes message 0) [
  | failed out ↦ fails out
  | running out ↦ writing out
  | sent out ↦ finish fd peer.reply stack out
]

-- Behind the loop over the addresses.
unfoldable pub connected : Peer → List ℕ → List ℕ → List ℕ × Option ℕ → List ℕ × Ending
connected peer stdin stack (closed, none) = (closed, fails [])
connected peer stdin stack (closed, some fd) = (closed, talk fd peer (take msg_max stdin) stack)

-- `main`: what it closes, and how it ends.
unfoldable pub main : List CStr → Peer → List ℕ → List ℕ → List ℕ × Ending
main (name ∷ host ∷ port ∷ more) peer stdin stack = elim (peer.getaddrinfo host port) [
  | none ↦ ([], fails [])
  | some addresses ↦ connected peer stdin stack (try_addresses addresses)
]
main _ peer stdin stack = ([], fails [])
