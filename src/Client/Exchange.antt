-- ===== src/Client/Exchange.antt =====
-- A whole exchange of hw5/client.c with a server that answers.
use mathlib.Core.List.{append_assoc}
use systems_programming.Base.{
  NoNul, drop-append, ℕ, ◌==◌, ◌≡◌, refl, Option, none, some, List, [], ◌∷◌, ◌++◌, map, length,
  take, drop, CStr, arith, ap, false, subst, ◌-◌, ◌∙◌,
}
use systems_programming.Pool.{send_request, sent}
use systems_programming.Pool.Laws.{TakesAll, send_request-whole}
use systems_programming.Client.{
  msg_max, Address, no_socket, rejects, accepts, try_addresses, Peer, prints, printed, finish, talk,
  connected, main,
}

-- An address that does not answer, with the socket that was made for it.
abbrev pub silent : Option ℕ → Address
silent none = no_socket
silent (some fd) = rejects fd

abbrev pub somes : List (Option ℕ) → List ℕ
somes [] = []
somes (none ∷ rest) = somes rest
somes (some fd ∷ rest) = fd ∷ somes rest

pub try_addresses-silent :
    (before : List (Option ℕ)) (fd : ℕ) (others : List Address)
    → try_addresses (map silent before ++ (accepts fd ∷ others)) ≡ (somes before, some fd)
unfolding try_addresses
try_addresses-silent [] fd others = refl
try_addresses-silent (none ∷ before) fd others = try_addresses-silent before fd others
try_addresses-silent (some tried ∷ before) fd others =
    ap (λ (closed, found). (tried ∷ closed, found)) (try_addresses-silent before fd others)

printed-NoNul : (text rest : List ℕ) → NoNul text → printed (text ++ (0 ∷ rest)) ≡ some text
unfolding printed
printed-NoNul [] rest h = refl
printed-NoNul (c ∷ text) rest (pos, h) =
    let visible : (c == 0) ≡ false = ground arith in rw (visible, printed-NoNul text rest h) refl

talk-exchange :
    (peer : Peer) (fd : ℕ) (message reply under old rest : List ℕ)
    → TakesAll peer.writes (length message)
    → peer.reply ≡ some reply
    → length under ≡ length reply
    → NoNul (reply ++ old)
    → talk fd peer message (under ++ (old ++ (0 ∷ rest))) ≡ prints fd message (reply ++ old)
unfolding talk finish
talk-exchange peer fd message reply under old rest takes replies same visible =
    let all : length message ≡ length message - 0 = omega arith in
    let whole : send_request peer.writes message 0 ≡ sent message =
      send_request-whole peer.writes message 0 (omega arith)
        (subst (TakesAll peer.writes) all takes) in
    let behind : drop (length reply) (under ++ (old ++ (0 ∷ rest))) ≡ old ++ (0 ∷ rest) =
      subst (λ n. drop n (under ++ (old ++ (0 ∷ rest))) ≡ old ++ (0 ∷ rest)) same
        (drop-append under (old ++ (0 ∷ rest))) in
    rw (whole, talk)
      (rw (replies, finish)
        (rw (behind, ← append_assoc reply old (0 ∷ rest), printed-NoNul (reply ++ old) rest visible)
          refl))

-- When an address answers, `write` takes the whole message, and the reply holds no NUL: the program
-- closes the sockets of the addresses before, sends the first 4096 bytes of its input, and prints the
-- reply, but with all that the array held behind it up to the next NUL.
pub main-exchange :
    (name host port : CStr) (arguments : List CStr) (peer : Peer) (stdin : List ℕ)
    (before : List (Option ℕ)) (fd : ℕ) (others : List Address) (reply under old rest : List ℕ)
    → peer.getaddrinfo host port ≡ some (map silent before ++ (accepts fd ∷ others))
    → TakesAll peer.writes (length (take msg_max stdin))
    → peer.reply ≡ some reply
    → length under ≡ length reply
    → NoNul (reply ++ old)
    → main (name ∷ host ∷ port ∷ arguments) peer stdin (under ++ (old ++ (0 ∷ rest)))
      ≡ (somes before, prints fd (take msg_max stdin) (reply ++ old))
unfolding main connected
main-exchange name host port arguments peer stdin before fd others reply under old rest found takes
      replies same visible =
    rw (found, main)
      (ap (connected peer stdin (under ++ (old ++ (0 ∷ rest))))
          (try_addresses-silent before fd others)
        ∙ ap (λ ending. (somes before, ending))
            (talk-exchange peer fd (take msg_max stdin) reply under old rest takes replies same
              visible))
