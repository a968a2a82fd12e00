-- ===== src/Shell/Signals.antt =====
-- The signal handlers of tsh.c and `waitfg`. What the kernel decides comes in as values: the
-- children that `waitpid` reports in one handler, and the signals that arrive in each `sleep`.
pub mod Stable
pub mod Foreground
pub mod Unhandled
use systems_programming.Base.{
  ℕ, zero, suc, ◌==◌, ltb, if◌then◌else◌, Bool, true, false, Option, none, some, List, [], ◌∷◌,
  ◌++◌, set, CStr, codes, decimal,
}
use systems_programming.Shell.Jobs.{
  Job, JobState, st, Shell, Event, print, kill, job_at, getjobpid, deletejob, fgpid, say,
}
use systems_programming.Shell.Parse.{Result, ok, fault, exit, ◌>>=◌}

-- The numbers of the signals on Linux.
abbrev pub sigint : ℕ
sigint = 2

abbrev pub sigtstp : ℕ
sigtstp = 20

abbrev pub sigcont : ℕ
sigcont = 18

-- `wstatus`, as `WIFEXITED`, `WIFSIGNALED` and `WIFSTOPPED` take it apart.
pub data Status : Type 0 where
  exited : (code : ℕ) → Status
  signaled : (signal : ℕ) → Status
  stopped : (signal : ℕ) → Status

-- A child that `waitpid` reports.
abbrev pub Report : Type 0
Report = ℕ × Status

unfoldable pub job_text : ℕ → ℕ → CStr → ℕ → CStr
job_text jid pid verb signal =
    codes "Job ["
    ++ (decimal jid
        ++ (codes "] ("
            ++ (decimal pid
                ++ (codes ") "
                    ++ (verb ++ (codes " by signal " ++ (decimal signal ++ codes "\n")))))))

-- `job->state = state`
abbrev pub set_state : Shell → ℕ → JobState → Shell
set_state s i state = record s { jobs = set s.jobs i (record (job_at s.jobs i) { state = state }) }

-- The body of the loop in `sigchld_handler`, for one child.
unfoldable pub reap : Shell → ℕ → Status → Result Shell
reap s pid (exited code) = ok (deletejob s pid).1
reap s pid (signaled signal) =
    if signal == sigint
    then elim (getjobpid s.jobs pid) [
      | none ↦ fault
      | some i ↦
          ok (
            say (deletejob s pid).1
              (job_text (job_at s.jobs i).jid pid (codes "terminated") sigint))
    ]
    else ok (say s (codes "I don't know how to handle that kind of terminating signal\n"))
reap s pid (stopped signal) =
    if signal == sigtstp
    then elim (getjobpid s.jobs pid) [
      | none ↦ fault
      | some i ↦
          ok (say (set_state s i st) (job_text (job_at s.jobs i).jid pid (codes "stopped") sigtstp))
    ]
    else ok (say s (codes "I don't know how to handle that kind of stopping signal\n"))

-- `sigchld_handler`, for the children that `waitpid` reports until it has no more.
unfoldable pub sigchld_handler : Shell → List Report → Result Shell
sigchld_handler s [] = ok s
sigchld_handler s ((pid, status) ∷ reports) = reap s pid status >>= λ s'. sigchld_handler s' reports

-- `kill(-pid, signal)` for the process group of the foreground job, if there is one.
forward : Shell → ℕ → Shell
forward s signal =
    if ltb 0 (fgpid s.jobs)
    then record s { events = s.events ++ (kill (fgpid s.jobs) signal ∷ []) }
    else s

-- `sigint_handler`
unfoldable pub sigint_handler : Shell → Shell
unfolding forward
sigint_handler s = forward s sigint

-- `sigtstp_handler`
unfoldable pub sigtstp_handler : Shell → Shell
unfolding forward
sigtstp_handler s = forward s sigtstp

-- `sigquit_handler`, which prints and exits.
unfoldable pub sigquit_handler : Shell → Result Shell
sigquit_handler s = exit 1

-- A signal to the shell, with the handler that `main` installs for it.
pub data Signal : Type 0 where
  chld : List Report → Signal
  int : Signal
  tstp : Signal
  quit : Signal

unfoldable pub deliver : Shell → Signal → Result Shell
deliver s (chld reports) = sigchld_handler s reports
deliver s int = ok (sigint_handler s)
deliver s tstp = ok (sigtstp_handler s)
deliver s quit = sigquit_handler s

unfoldable pub deliver_all : Shell → List Signal → Result Shell
deliver_all s [] = ok s
deliver_all s (g ∷ gs) = deliver s g >>= λ s'. deliver_all s' gs

-- Whether a command is over, or still sleeps in `waitfg` when the given rounds have passed.
pub data Progress : Type 0 where
  returned : Shell → Progress
  waiting : Shell → Progress

-- `waitfg`: each round is the signals that arrive during one `sleep(1)`.
unfoldable pub waitfg : Shell → ℕ → List (List Signal) → Result Progress
waitfg s pid [] = ok (if pid == fgpid s.jobs then waiting s else returned s)
waitfg s pid (signals ∷ rounds) =
    let next : Result Progress = (deliver_all s signals >>= λ s'. waitfg s' pid rounds) in
    if pid == fgpid s.jobs then next else ok (returned s)
