-- ===== src/Proxy/Events/Main.antt =====
-- `main` of proxylab-handout/proxy.c: its set-up and its loop over the calls of `epoll_wait`.
pub mod Runs
use systems_programming.Base.{
  ℕ, ◌==◌, if◌then◌else◌, Bool, not, Option, none, some, List, [], ◌∷◌, ◌++◌,
}
use systems_programming.Proxy.Events.{ReqInfo, exited, overrun}
use systems_programming.Proxy.Events.Handlers.{Resolver, Call}
use systems_programming.Proxy.Events.Server.{Event, Run, going, ended, handle_events}

-- Whether `fcntl`, `epoll_create1` and `epoll_ctl` succeed on the listening socket.
pub record Setup : Type 0 where
  pub unblocks : Bool
  pub creates : Bool
  pub adds : Bool

abbrev pub Trace : Type 0
Trace = List (List Call × List ℕ)

-- What the calls before did, in front of what the later ones did.
unfoldable pub behind : Trace → Run → Run
behind trace (going table rest) = going table (trace ++ rest)
behind trace (ended status) = ended status

-- A run, and a run from the table that it leaves.
abbrev pub after : Run → (List ReqInfo → Run) → Run
after (going table trace) rest = behind trace (rest table)
after (ended status) rest = ended status

-- The events that each call of `epoll_wait` reports: [] on a timeout, and `none` for -1. In the
-- `size_t n` that is the largest value, and the loop goes on behind the array of events.
unfoldable pub wait_for_events : Resolver → List ReqInfo → List (Option (List Event)) → Run
wait_for_events getaddrinfo table [] = going table []
wait_for_events getaddrinfo table (none ∷ rounds) = ended overrun
wait_for_events getaddrinfo table (some events ∷ rounds) =
    after (handle_events getaddrinfo table events) (λ t. wait_for_events getaddrinfo t rounds)

-- `main`, where `Open_listenfd` has returned.
unfoldable pub main : Resolver → ℕ → Setup → List (Option (List Event)) → Run
main getaddrinfo argc setup rounds =
    if not (argc == 2)
    then ended exited
    else if not setup.unblocks
    then ended exited
    else if not setup.creates
    then ended exited
    else if not setup.adds
    then ended exited
    else wait_for_events getaddrinfo [] rounds
