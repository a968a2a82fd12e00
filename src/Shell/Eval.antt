-- ===== src/Shell/Eval.antt =====
-- `eval`, `builtin_cmd` and `do_bgfg` of tsh.c.
pub mod Laws
pub mod Faults
pub mod Runs
pub mod Builtin
pub mod Waits
use systems_programming.Base.{
  ℕ, zero, suc, ◌-◌, ◌^◌, ◌==◌, ltb, if◌then◌else◌, Bool, true, false, Option, none, some, List, [],
  ◌∷◌, ◌++◌, CStr, codes, decimal, str_eq,
}
use systems_programming.Shell.Jobs.{
  Job, JobState, fg, bg, Shell, Event, print, kill, job_at, getjobpid, getjobjid, addjob, listjobs,
  say,
}
use systems_programming.Shell.Parse.{Result, ok, fault, exit, ◌>>=◌, parseline, isnum, atoi}
use systems_programming.Shell.Signals.{
  sigcont, set_state, Signal, deliver_all, Progress, returned, waiting, waitfg,
}

-- The line `[%d] (%d) %s` on a job.
unfoldable pub line_of : Job → CStr
line_of j =
    codes "[" ++ (decimal j.jid ++ (codes "] (" ++ (decimal j.pid ++ (codes ") " ++ j.cmdline))))

abbrev pub signal_group : Shell → ℕ → ℕ → Shell
signal_group s pid signal = record s { events = s.events ++ (kill pid signal ∷ []) }

-- What the user names a job by: `%jid` or a process id.
pub data Target : Type 0 where
  job_number : CStr → Target
  process : CStr → Target

abbrev pub target : CStr → Target
target [] = process []
target (c ∷ s) = if c == b'%' then job_number s else process (c ∷ s)

abbrev pub target_text : Target → CStr
target_text (job_number s) = s
target_text (process s) = s

abbrev pub find_target : List Job → Target → Option ℕ
find_target jobs (job_number s) = getjobjid jobs (atoi s)
find_target jobs (process s) = getjobpid jobs (atoi s)

abbrev pub missing_text : Target → CStr → CStr
missing_text (job_number s) arg = arg ++ codes ": No such job\n"
missing_text (process s) arg = codes "(" ++ (arg ++ codes "): No such process\n")

-- What the world does during one command: the result of `fork` (`none` if it fails), the signals
-- that are delivered when SIGCHLD is unblocked, and those of each later `sleep`; in `do_bgfg`, the
-- signals between the lookup of the job and the read of its process id, and those between `kill` and
-- the store into the job's state.
pub record World : Type 0 where
  pub forked : Option ℕ
  pub pending : List Signal
  pub rounds : List (List Signal)
  pub found : List Signal
  pub continued : List Signal

-- The end of `do_bgfg`, with the job found at index `i`.
continue_job : Shell → CStr → ℕ → World → Result Progress
continue_job s cmd i w = deliver_all s w.found >>= λ s'.
    let pid : ℕ = (job_at s'.jobs i).pid in
    let sent : Result Shell = deliver_all (signal_group s' pid sigcont) w.continued in
    if str_eq cmd (codes "bg")
    then (sent >>= λ t. ok (returned (say (set_state t i bg) (line_of (job_at t.jobs i)))))
    else if str_eq cmd (codes "fg")
    then (sent >>= λ t. waitfg (set_state t i fg) pid w.rounds)
    else ok (returned s')

-- `do_bgfg` on `argv[0]` and the arguments behind it. A number that no `int` holds is undefined in
-- `atoi`.
unfoldable pub do_bgfg : Shell → CStr → List CStr → World → Result Progress
unfolding continue_job
do_bgfg s cmd [] w =
    ok (returned (say s (cmd ++ codes " command requires PID or %jobid argument\n")))
do_bgfg s cmd (arg ∷ rest) w =
    let t : Target = target arg in
    if isnum (target_text t)
    then if ltb (atoi (target_text t)) (2 ^ 31)
      then elim (find_target s.jobs t) [
        | none ↦ ok (returned (say s (missing_text t arg)))
        | some i ↦ continue_job s cmd i w
      ]
      else fault
    else ok (returned (say s (cmd ++ codes ": argument must be a PID or %jobid\n")))

-- `builtin_cmd`: `none` for a command that is not built in. `strcmp` on the NULL of an empty `argv`
-- is undefined.
unfoldable pub builtin_cmd : Shell → List CStr → World → Result (Option Progress)
builtin_cmd s [] w = fault
builtin_cmd s (cmd ∷ args) w =
    if str_eq cmd (codes "quit")
    then exit 0
    else if str_eq cmd (codes "jobs")
    then ok (some (returned (listjobs s)))
    else if str_eq cmd (codes "bg")
    then (do_bgfg s cmd args w >>= λ p. ok (some p))
    else if str_eq cmd (codes "fg")
    then (do_bgfg s cmd args w >>= λ p. ok (some p))
    else ok none

-- The end of `eval`: wait for a foreground job, print the line of another one.
finish : Shell → JobState → ℕ → List (List Signal) → Result Progress
finish s fg pid rounds = waitfg s pid rounds
finish s _ pid rounds = elim (getjobpid s.jobs pid) [
  | none ↦ fault
  | some i ↦ ok (returned (say s (line_of (job_at s.jobs i))))
]

-- The parent's part of `eval` behind a successful `fork`.
pub launch : Shell → JobState → CStr → ℕ → World → Result Progress
unfolding finish
launch s state cmdline pid w =
    deliver_all (addjob s pid state cmdline).1 w.pending >>= λ s'. finish s' state pid w.rounds

-- What follows a `fork`; one that fails ends the shell.
spawn : Option ℕ → Shell → Bool → CStr → World → Result Progress
unfolding launch
spawn none s background cmdline w = exit 1
spawn (some pid) s background cmdline w = launch s (if background then bg else fg) cmdline pid w

-- `if (builtin_cmd(argv)) return;`, and otherwise the rest.
unless_builtin : Option Progress → Result Progress → Result Progress
unless_builtin (some p) rest = ok p
unless_builtin none rest = rest

-- `eval`, in the parent.
unfoldable pub eval : Shell → CStr → World → Result Progress
unfolding spawn unless_builtin
eval s cmdline w = do
  (background, argv) ← parseline cmdline
  done ← builtin_cmd s argv w
  unless_builtin done (spawn w.forked s background cmdline w)
