-- ===== src/Shell/Signals/Stable.antt =====
-- What the signal handlers of tsh.c and `waitfg` can do to the job list: clear entries and stop jobs.
use systems_programming.Base.{
  ℕ, ◌<◌, ◌≡◌, ◌==◌, ltb, some, List, [], ◌∷◌, set, length, arith, Bool-cases, Option-cases, inl,
  inr,
}
use systems_programming.Shell.Jobs.{
  Job, st, Shell, clearjob, job_at, find_first, pid_is, getjobpid, deletejob, fgpid, say,
}
use systems_programming.Shell.Jobs.Find.{find_first-some}
use systems_programming.Shell.Parse.{Result, ok, fault, exit, ◌>>=◌}
use systems_programming.Shell.Signals.{
  Status, exited, signaled, stopped, Report, reap, sigchld_handler, sigint_handler, sigtstp_handler,
  Signal, chld, int, tstp, quit, sigquit_handler, deliver, deliver_all, Progress, returned, waiting,
  waitfg, sigint, sigtstp,
}

abbrev pub stopped_job : Job → Job
stopped_job j = record j { state = st }

-- A property of the job list that survives a cleared entry and a stopped job.
pub record IsStable (Q : List Job → Type 0) : Type 0 where
  pub clears : (js : List Job) (i : ℕ) → i < length js → Q js → Q (set js i clearjob)
  pub stops :
      (js : List Job) (i : ℕ) → i < length js → Q js → Q (set js i (stopped_job (job_at js i)))

abbrev pub Ensures : (List Job → Type 0) → Result Shell → Type 0
Ensures Q (ok s) = Q s.jobs
Ensures Q _ = Unit

abbrev pub EnsuresAll : (List Job → Type 0) → Result Progress → Type 0
EnsuresAll Q (ok (returned s)) = Q s.jobs
EnsuresAll Q (ok (waiting s)) = Q s.jobs
EnsuresAll Q _ = Unit

module _ (Q : List Job → Type 0) (stable : IsStable Q) where
  pub deletejob-Q : (s : Shell) (pid : ℕ) → Q s.jobs → Q (deletejob s pid).1.jobs
  unfolding deletejob
  deletejob-Q s pid q = elim (Bool-cases (ltb pid 1)) [
    | inl e ↦ rw e q
    | inr e ↦ elim (Option-cases (find_first (pid_is pid) s.jobs)) [
      | inl none_found ↦ rw (e, none_found) q
      | inr (i, found) ↦
          rw (e, found)
            (stable.clears s.jobs i (find_first-some (pid_is pid) s.jobs i found).within q)
    ]
  ]

  getjobpid-within : (js : List Job) (pid i : ℕ) → getjobpid js pid ≡ some i → i < length js
  unfolding getjobpid
  getjobpid-within js pid i h = elim (Bool-cases (ltb pid 1)) [
    | inl e ↦ absurd (ground arith)
    | inr e ↦ (find_first-some (pid_is pid) js i (ground arith)).within
  ]

  reap-Q : (s : Shell) (pid : ℕ) (status : Status) → Q s.jobs → Ensures Q (reap s pid status)
  unfolding reap say
  reap-Q s pid (exited code) q = deletejob-Q s pid q
  reap-Q s pid (signaled g) q = elim (Bool-cases (g == sigint)) [
    | inl e ↦ elim (Option-cases (getjobpid s.jobs pid)) [
      | inl none_found ↦ rw (e, none_found) tt
      | inr (i, found) ↦ rw (e, found) (deletejob-Q s pid q)
    ]
    | inr e ↦ rw e q
  ]
  reap-Q s pid (stopped g) q = elim (Bool-cases (g == sigtstp)) [
    | inl e ↦ elim (Option-cases (getjobpid s.jobs pid)) [
      | inl none_found ↦ rw (e, none_found) tt
      | inr (i, found) ↦
          rw (e, found) (stable.stops s.jobs i (getjobpid-within s.jobs pid i found) q)
    ]
    | inr e ↦ rw e q
  ]

  bind-Ensures :
      (m : Result Shell) (f : Shell → Result Shell)
      → Ensures Q m
      → ((s : Shell) → Q s.jobs → Ensures Q (f s))
      → Ensures Q (m >>= f)
  bind-Ensures (ok s) f h k = k s h
  bind-Ensures fault f h k = tt
  bind-Ensures (exit c) f h k = tt

  sigchld_handler-Q :
      (s : Shell) (reports : List Report) → Q s.jobs → Ensures Q (sigchld_handler s reports)
  unfolding sigchld_handler
  sigchld_handler-Q s [] q = q
  sigchld_handler-Q s ((pid, status) ∷ reports) q =
      bind-Ensures (reap s pid status) (λ s'. sigchld_handler s' reports) (reap-Q s pid status q)
        (λ s' q'. sigchld_handler-Q s' reports q')

  pub deliver-Q : (s : Shell) (g : Signal) → Q s.jobs → Ensures Q (deliver s g)
  unfolding deliver sigint_handler sigtstp_handler sigquit_handler
  deliver-Q s (chld reports) q = sigchld_handler-Q s reports q
  deliver-Q s int q = elim (Bool-cases (ltb 0 (fgpid s.jobs))) [ inl e ↦ rw e q | inr e ↦ rw e q ]
  deliver-Q s tstp q = elim (Bool-cases (ltb 0 (fgpid s.jobs))) [ inl e ↦ rw e q | inr e ↦ rw e q ]
  deliver-Q s quit q = tt

  pub deliver_all-Q : (s : Shell) (gs : List Signal) → Q s.jobs → Ensures Q (deliver_all s gs)
  unfolding deliver_all
  deliver_all-Q s [] q = q
  deliver_all-Q s (g ∷ gs) q =
      bind-Ensures (deliver s g) (λ s'. deliver_all s' gs) (deliver-Q s g q)
        (λ s' q'. deliver_all-Q s' gs q')

  bind-EnsuresAll :
      (m : Result Shell) (f : Shell → Result Progress)
      → Ensures Q m
      → ((s : Shell) → Q s.jobs → EnsuresAll Q (f s))
      → EnsuresAll Q (m >>= f)
  bind-EnsuresAll (ok s) f h k = k s h
  bind-EnsuresAll fault f h k = tt
  bind-EnsuresAll (exit c) f h k = tt

  pub waitfg-Q :
      (s : Shell) (pid : ℕ) (rounds : List (List Signal))
      → Q s.jobs
      → EnsuresAll Q (waitfg s pid rounds)
  unfolding waitfg
  waitfg-Q s pid [] q = elim (Bool-cases (pid == fgpid s.jobs)) [ inl e ↦ rw e q | inr e ↦ rw e q ]
  waitfg-Q s pid (gs ∷ rounds) q = elim (Bool-cases (pid == fgpid s.jobs)) [
    | inl e ↦ rw e (
        bind-EnsuresAll (deliver_all s gs) (λ s'. waitfg s' pid rounds) (deliver_all-Q s gs q)
          (λ s' q'. waitfg-Q s' pid rounds q'))
    | inr e ↦ rw e q
  ]
