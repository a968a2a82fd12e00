-- ===== src/Shell/Signals/Unhandled.antt =====
-- The children that `sigchld_handler` of tsh.c reports on without a change of the job list, and what
-- that does to `waitfg`.
use systems_programming.Base.{ℕ, ◌≡◌, ◌≢◌, refl, ◌==◌, true, false, List, [], ◌∷◌, arith, ◌∙◌, ap}
use systems_programming.Shell.Jobs.{Shell, fgpid, say}
use systems_programming.Shell.Parse.{Result, ok}
use systems_programming.Shell.Signals.{
  Status, exited, signaled, stopped, Report, reap, sigchld_handler, sigint_handler, sigtstp_handler,
  forward, Signal, chld, int, tstp, quit, deliver, deliver_all, waiting, waitfg, sigint, sigtstp,
}

-- Ended by another signal than SIGINT, or stopped by another one than SIGTSTP.
abbrev pub IsUnhandled : Status → Type 0
IsUnhandled (exited code) = ⊥
IsUnhandled (signaled g) = g ≢ sigint
IsUnhandled (stopped g) = g ≢ sigtstp

abbrev pub AllReports : List Report → Type 0
AllReports [] = Unit
AllReports ((pid, status) ∷ reports) = IsUnhandled status × AllReports reports

-- SIGINT and SIGTSTP for the shell itself are only passed on.
abbrev pub AllSignals : List Signal → Type 0
AllSignals [] = Unit
AllSignals (chld reports ∷ gs) = AllReports reports × AllSignals gs
AllSignals (int ∷ gs) = AllSignals gs
AllSignals (tstp ∷ gs) = AllSignals gs
AllSignals (quit ∷ gs) = ⊥

abbrev pub AllRounds : List (List Signal) → Type 0
AllRounds [] = Unit
AllRounds (gs ∷ rounds) = AllSignals gs × AllRounds rounds

-- A run of handlers that ends well and leaves the jobs as they were.
abbrev Keeps : Shell → Result Shell → Type 0
Keeps s r = (s' : Shell) × (r ≡ ok s') × (s'.jobs ≡ s.jobs)

reap-Keeps :
    (s : Shell) (pid : ℕ) (status : Status) → IsUnhandled status → Keeps s (reap s pid status)
unfolding reap say
reap-Keeps s pid (exited code) h = absurd h
reap-Keeps s pid (signaled g) h =
    let other : (g == sigint) ≡ false = ground arith in rw other (_, refl, refl)
reap-Keeps s pid (stopped g) h =
    let other : (g == sigtstp) ≡ false = ground arith in rw other (_, refl, refl)

sigchld_handler-Keeps :
    (s : Shell) (reports : List Report) → AllReports reports → Keeps s (sigchld_handler s reports)
unfolding sigchld_handler
sigchld_handler-Keeps s [] h = (s, refl, refl)
sigchld_handler-Keeps s ((pid, status) ∷ reports) h =
    let (s₁, e₁, k₁) = reap-Keeps s pid status h.0 in
    let (s₂, e₂, k₂) = sigchld_handler-Keeps s₁ reports h.1 in (s₂, rw e₁ e₂, k₂ ∙ k₁)

forward-jobs : (s : Shell) (g : ℕ) → (forward s g).jobs ≡ s.jobs
unfolding forward
forward-jobs s g = ground arith

deliver_all-Keeps : (s : Shell) (gs : List Signal) → AllSignals gs → Keeps s (deliver_all s gs)
unfolding deliver_all deliver sigint_handler sigtstp_handler
deliver_all-Keeps s [] h = (s, refl, refl)
deliver_all-Keeps s (chld reports ∷ gs) h =
    let (s₁, e₁, k₁) = sigchld_handler-Keeps s reports h.0 in
    let (s₂, e₂, k₂) = deliver_all-Keeps s₁ gs h.1 in (s₂, rw e₁ e₂, k₂ ∙ k₁)
deliver_all-Keeps s (int ∷ gs) h =
    let (s₂, e₂, k₂) = deliver_all-Keeps (forward s sigint) gs h in
    (s₂, e₂, k₂ ∙ forward-jobs s sigint)
deliver_all-Keeps s (tstp ∷ gs) h =
    let (s₂, e₂, k₂) = deliver_all-Keeps (forward s sigtstp) gs h in
    (s₂, e₂, k₂ ∙ forward-jobs s sigtstp)
deliver_all-Keeps s (quit ∷ gs) h = absurd h

-- A foreground job whose process was ended by another signal than SIGINT (or stopped by another one
-- than SIGTSTP) stays in the foreground: `waitfg` waits through any number of rounds with no other
-- news, and the job list never changes.
pub waitfg_forever :
    (s : Shell) (pid : ℕ) (rounds : List (List Signal))
    → fgpid s.jobs ≡ pid
    → AllRounds rounds
    → (s' : Shell) × (waitfg s pid rounds ≡ ok (waiting s')) × (s'.jobs ≡ s.jobs)
unfolding waitfg
waitfg_forever s pid [] e h = (s, ground arith, refl)
waitfg_forever s pid (gs ∷ rounds) e h =
    let (s₁, e₁, k₁) = deliver_all-Keeps s gs h.0 in
    let (s₂, e₂, k₂) = waitfg_forever s₁ pid rounds (ap fgpid k₁ ∙ e) h.1 in
    let awake : (pid == fgpid s.jobs) ≡ true = ground arith in (s₂, rw (awake, e₁) e₂, k₂ ∙ k₁)
