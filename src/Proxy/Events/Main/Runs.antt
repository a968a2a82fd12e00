-- ===== src/Proxy/Events/Main/Runs.antt =====
-- Whole runs of `main` of proxylab-handout/proxy.c.
use systems_programming.Base.{
  arith, ℕ, ◌≡◌, refl, sym, ◌∙◌, ap, List, [], ◌∷◌, ◌++◌, inl, inr, Option, none, some,
}
use systems_programming.Proxy.Events.{ReqInfo}
use systems_programming.Proxy.Events.Handlers.{Resolver, Call}
use systems_programming.Proxy.Events.Server.{
  Event, handle_event, Run, going, ended, and_then, handle_events,
}
use systems_programming.Proxy.Events.Table.{Next-cases}
use systems_programming.Proxy.Events.Sound.Runs.{AreSound, AllPolite, handle_events-AreSound}
use systems_programming.Proxy.Events.Main.{Setup, Trace, behind, after, wait_for_events, main}

-- The events of all the calls of `epoll_wait`, in order.
abbrev pub reported : List (Option (List Event)) → List Event
reported [] = []
reported (none ∷ rounds) = reported rounds
reported (some events ∷ rounds) = events ++ reported rounds

behind-nil : (run : Run) → run ≡ behind [] run
unfolding behind
behind-nil (going table trace) = refl
behind-nil (ended status) = refl

behind-cons :
    (done : List Call × List ℕ) (trace : Trace) (run : Run)
    → behind (done ∷ trace) run ≡ and_then done (behind trace run)
unfolding and_then behind
behind-cons done trace (going table rest) = refl
behind-cons done trace (ended status) = refl

after-and_then :
    (done : List Call × List ℕ) (run : Run) (rest : List ReqInfo → Run)
    → after (and_then done run) rest ≡ and_then done (after run rest)
unfolding and_then
after-and_then done (going table trace) rest = behind-cons done trace (rest table)
after-and_then done (ended status) rest = refl

handle_events-append :
    (getaddrinfo : Resolver) (events more : List Event) (table : List ReqInfo)
    → handle_events getaddrinfo table (events ++ more)
      ≡ after (handle_events getaddrinfo table events) (λ t. handle_events getaddrinfo t more)
unfolding handle_events
handle_events-append getaddrinfo [] more table = behind-nil (handle_events getaddrinfo table more)
handle_events-append getaddrinfo (event ∷ events) more table =
    elim (Next-cases (handle_event getaddrinfo table event)) [
      | inl (status, q) ↦ rw (q, handle_events) refl
      | inr (t, calls, out, q) ↦
          rw (q, handle_events)
            (ap (and_then (calls, out)) (handle_events-append getaddrinfo events more t)
              ∙ sym (
                  after-and_then (calls, out) (handle_events getaddrinfo t events)
                    (λ u. handle_events getaddrinfo u more)))
    ]

behind-going :
    (before : Trace) (run : Run) (table : List ReqInfo) (trace : Trace)
    → behind before run ≡ going table trace
    → (u : List ReqInfo) × (later : Trace) × (run ≡ going u later)
unfolding behind
behind-going before (going u later) table trace e = (u, later, refl)
behind-going before (ended status) table trace e = cc

after-cong :
    (run : Run) (f g : List ReqInfo → Run) (table : List ReqInfo) (trace : Trace)
    → ((t u : List ReqInfo) (later : Trace) → f t ≡ going u later → f t ≡ g t)
    → after run f ≡ going table trace
    → after run f ≡ after run g
after-cong (going t before) f g table trace same e =
    let (u, later, q) = behind-going before (f t) table trace e in
    ap (behind before) (same t u later q)
after-cong (ended status) f g table trace same e = refl

-- How `epoll_wait` groups the events does not matter.
wait_for_events-reported :
    (getaddrinfo : Resolver) (rounds : List (Option (List Event))) (table after_all : List ReqInfo)
    (trace : Trace)
    → wait_for_events getaddrinfo table rounds ≡ going after_all trace
    → wait_for_events getaddrinfo table rounds ≡ handle_events getaddrinfo table (reported rounds)
unfolding wait_for_events handle_events
wait_for_events-reported getaddrinfo [] table after_all trace e = refl
wait_for_events-reported getaddrinfo (none ∷ rounds) table after_all trace e = cc
wait_for_events-reported getaddrinfo (some events ∷ rounds) table after_all trace e =
    after-cong (handle_events getaddrinfo table events) (λ t. wait_for_events getaddrinfo t rounds)
      (λ t. handle_events getaddrinfo t (reported rounds)) after_all trace
      (λ t u later q. wait_for_events-reported getaddrinfo rounds t u later q) e
    ∙ sym (handle_events-append getaddrinfo events (reported rounds) table)

main-going :
    (getaddrinfo : Resolver) (argc : ℕ) (setup : Setup) (rounds : List (Option (List Event)))
    (table : List ReqInfo) (trace : Trace)
    → main getaddrinfo argc setup rounds ≡ going table trace
    → wait_for_events getaddrinfo [] rounds ≡ going table trace
unfolding main
main-going getaddrinfo argc setup rounds table trace e = ground arith

empty-AreSound : AreSound []
empty-AreSound = record { within = omega arith; sound = λ i req e. cc }

-- While `write` takes no more than it is given: when `main` is still running after any calls of
-- `epoll_wait`, each request in its array is in order. No buffer is past its end, no count is past what
-- it counts, each request has the descriptors of its state, and the array was never left.
pub main-AreSound :
    (getaddrinfo : Resolver) (argc : ℕ) (setup : Setup) (rounds : List (Option (List Event)))
    (table : List ReqInfo) (trace : Trace)
    → AllPolite getaddrinfo [] (reported rounds)
    → main getaddrinfo argc setup rounds ≡ going table trace
    → AreSound table
main-AreSound getaddrinfo argc setup rounds table trace polite e =
    handle_events-AreSound getaddrinfo (reported rounds) [] table trace empty-AreSound polite
      (sym (wait_for_events-reported getaddrinfo rounds [] table trace running) ∙ running)
  where
    running : wait_for_events getaddrinfo [] rounds ≡ going table trace
    running = main-going getaddrinfo argc setup rounds table trace e
