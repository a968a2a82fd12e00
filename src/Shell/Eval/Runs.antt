-- ===== src/Shell/Eval/Runs.antt =====
-- How a command of tsh.c runs: a foreground job to its end, and a background job that is too fast.
use systems_programming.Base.{
  ℕ, ◌<◌, ◌≡◌, ◌≢◌, ◌⊎◌, if◌then◌else◌, Bool, true, false, none, some, List, [], length, arith, inl,
  inr, ◌∙◌, sym, ap, CStr,
}
use systems_programming.Shell.Jobs.{
  Job, JobState, fg, bg, Shell, job_at, maxjobs, is_fg, addjob, deletejob, fgpid,
}
use systems_programming.Shell.Jobs.Entries.{IsValid, Absent, pid_of}
use systems_programming.Shell.Jobs.Valid.{
  addjob_lem, addjob-IsValid, deletejob_lem, deletejob-IsValid,
}
use systems_programming.Shell.Parse.{ok, fault, parseline}
use systems_programming.Shell.Signals.{Signal, deliver_all, returned}
use systems_programming.Shell.Signals.Foreground.{IsIdle, IsBusy, IsBusy-stable}
use systems_programming.Shell.Eval.{builtin_cmd, World, finish, launch, eval}
use systems_programming.Shell.Signals.Stable.{deletejob-Q}
use systems_programming.Shell.Eval.Builtin.{getjobpid-within}
use systems_programming.Shell.Eval.Laws.{addjob-IsBusy}
use systems_programming.Shell.Eval.Waits.{
  exit_of, deliver_exit, Absent-getjobpid, OnlyFg-fgpid, waitfg_over, exits_after, waitfg_exit,
  gone-fgpid, eval-launch,
}

-- Adding and deleting leave the entries of other processes alone.
addjob_keeps :
    (s : Shell) (pid : ℕ) (state : JobState) (cmdline : CStr) (k : ℕ)
    → 0 < pid
    → IsValid s.jobs
    → Absent s.jobs pid
    → pid_of s.jobs k ≢ 0
    → job_at (addjob s pid state cmdline).1.jobs k ≡ job_at s.jobs k
addjob_keeps s pid state cmdline k pos v new live =
    elim (addjob_lem s pid state cmdline pos v new) [
      | inl (ret, same, full) ↦ ap (λ js. job_at js k) same
      | inr (i, ret, free, found, entry, jid, others) ↦ others k (λ e. live (rw (← e) free))
    ]

deletejob_keeps :
    (s : Shell) (pid k : ℕ)
    → 0 < pid
    → IsValid s.jobs
    → pid_of s.jobs k ≢ pid
    → job_at (deletejob s pid).1.jobs k ≡ job_at s.jobs k
deletejob_keeps s pid k pos v other = elim (deletejob_lem s pid pos v) [
  | inl (gone, same) ↦ ap (λ (r : ℕ × Shell). job_at r.1.jobs k) same
  | inr (i, own, ret, cleared, gone, others, below) ↦ others k (λ e. other (rw (← e) own))
]

deletejob-Absent :
    (s : Shell) (pid : ℕ) → 0 < pid → IsValid s.jobs → Absent (deletejob s pid).1.jobs pid
deletejob-Absent s pid pos v = elim (deletejob_lem s pid pos v) [
  | inl (gone, same) ↦ rw same gone
  | inr (i, own, ret, cleared, gone, others, below) ↦ gone
]

-- A job added to the foreground, with an entry free for it, is what `fgpid` answers.
addjob-fgpid :
    (s : Shell) (pid : ℕ) (cmdline : CStr) (i : ℕ)
    → 0 < pid
    → IsIdle s.jobs
    → Absent s.jobs pid
    → i < maxjobs
    → pid_of s.jobs i ≡ 0
    → fgpid (addjob s pid fg cmdline).1.jobs ≡ pid
addjob-fgpid s pid cmdline i pos idle new lt free =
    let b : IsBusy pid (addjob s pid fg cmdline).1.jobs =
      addjob-IsBusy s pid cmdline pos new idle in
    elim (addjob_lem s pid fg cmdline pos idle.valid new) [
      | inl (ret, same, full) ↦ absurd (full i lt free)
      | inr (j, ret, was_free, found, entry, jid, others) ↦
          OnlyFg-fgpid (addjob s pid fg cmdline).1.jobs pid j b.valid.size b.only_fg
            (omega
              (arith, b.valid.size, getjobpid-within (addjob s pid fg cmdline).1.jobs pid j found))
            (ap (λ (job : Job). is_fg job.state) entry)
    ]

module _ (s : Shell) (cmdline : CStr) (w : World) (cmd : List CStr) (pid code : ℕ)
    (rounds : List (List Signal)) (idle : IsIdle s.jobs) (pos : 0 < pid) (new : Absent s.jobs pid)
    (not_builtin : builtin_cmd s cmd w ≡ ok none) (child : w.forked ≡ some pid) where
  state_of : Bool → JobState
  state_of background = if background then bg else fg

  -- The shell once the new job has been added, and once it is off the list again.
  added : Bool → Shell
  added background = (addjob s pid (state_of background) cmdline).1

  deleted : Bool → Shell
  deleted background = (deletejob (added background) pid).1

  added-IsValid : (background : Bool) → IsValid (added background).jobs
  unfolding added
  added-IsValid background = addjob-IsValid s pid (state_of background) cmdline pos idle.valid new

  deleted-Absent : (background : Bool) → Absent (deleted background).jobs pid
  unfolding deleted
  deleted-Absent background = deletejob-Absent (added background) pid pos (added-IsValid background)

  deleted-size : (background : Bool) → length (deleted background).jobs ≡ maxjobs
  unfolding deleted
  deleted-size background =
      (deletejob-IsValid (added background) pid pos (added-IsValid background)).size

  deleted_keeps :
      (background : Bool) (k : ℕ)
      → k < maxjobs
      → pid_of s.jobs k ≢ 0
      → job_at (deleted background).jobs k ≡ job_at s.jobs k
  unfolding deleted added
  deleted_keeps background k lt live =
      let kept : job_at (added background).jobs k ≡ job_at s.jobs k =
        addjob_keeps s pid (state_of background) cmdline k pos idle.valid new live in
      deletejob_keeps (added background) pid k pos (added-IsValid background)
        (λ e. new k lt (sym (ap (λ (j : Job). j.pid) kept) ∙ e))
      ∙ kept

  -- From a valid job list with no foreground job and a free entry, with a process that is new to
  -- it: a foreground command that is not built in, whose exit is the next thing that a signal
  -- reports, either when SIGCHLD is unblocked or after any number of rounds of `sleep` with no
  -- signal. `eval` returns, the process is off the job list, and the jobs that were there are as
  -- before.
  pub eval_foreground_exits :
      (i n : ℕ)
      → i < maxjobs
      → pid_of s.jobs i ≡ 0
      → parseline cmdline ≡ ok (false, cmd)
      → (w.pending ≡ exit_of pid code)
        ⊎ ((w.pending ≡ []) × (w.rounds ≡ exits_after n pid code rounds))
      → (s' : Shell) × (eval s cmdline w ≡ ok (returned s'))
        × Absent s'.jobs pid
        × ((k : ℕ) → k < maxjobs → pid_of s.jobs k ≢ 0 → job_at s'.jobs k ≡ job_at s.jobs k)
  unfolding launch finish deleted added state_of deliver_all
  eval_foreground_exits i n lt free e ends =
      let b : IsBusy pid (added false).jobs = addjob-IsBusy s pid cmdline pos new idle in
      let gone : pid ≢ fgpid (deleted false).jobs =
        gone-fgpid (deleted false).jobs pid pos (deleted-size false)
          (deletejob-Q (IsBusy pid) (IsBusy-stable pid) (added false) pid b).only_fg
          (deleted-Absent false) in
      (
        deleted false,
        eval-launch s cmdline w cmd pid false not_builtin child e ∙ elim ends [
          | inl early ↦
              rw (early, deliver_exit (added false) pid code)
                (waitfg_over (deleted false) pid w.rounds gone)
          | inr (quiet, later) ↦
              rw (quiet, later)
                (waitfg_exit n (added false) pid code rounds
                  (addjob-fgpid s pid cmdline i pos idle new lt free) gone)
        ],
        deleted-Absent false,
        deleted_keeps false,
      )

  -- From such a list, a background command that is not built in, whose process exits before `eval`
  -- looks for its job: the job is found no more, and `eval` reads through the NULL pointer.
  pub eval_background_race :
      parseline cmdline ≡ ok (true, cmd) → w.pending ≡ exit_of pid code → eval s cmdline w ≡ fault
  unfolding launch finish deleted added state_of
  eval_background_race e early =
      eval-launch s cmdline w cmd pid true not_builtin child e
      ∙ rw (early, deliver_exit (addjob s pid bg cmdline).1 pid code)
          (rw (
            Absent-getjobpid (deleted true).jobs pid pos (deleted-size true) (deleted-Absent true),
            finish,
          ))
