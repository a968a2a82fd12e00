-- ===== src/Shell/Eval/Laws.antt =====
-- What `eval` of tsh.c guarantees between two commands.
use systems_programming.Base.{
  ℕ, ◌<◌, ◌≡◌, refl, if◌then◌else◌, Bool, true, false, Option, none, some, List, [], ◌∷◌, arith,
  Bool-cases, Option-cases, inl, inr, CStr, codes, str_eq,
}
use systems_programming.Shell.Jobs.{
  fg, bg, Shell, find_first, pid_is, getjobpid, addjob, say, listjobs,
}
use systems_programming.Shell.Jobs.Find.{find_first-some, job_at-set}
use systems_programming.Shell.Jobs.Entries.{Absent}
use systems_programming.Shell.Jobs.Valid.{addjob_free, addjob_full, addjob-IsValid, new_job}
use systems_programming.Shell.Parse.{Result, ok, fault, exit, ◌>>=◌, parseline}
use systems_programming.Shell.Signals.{deliver_all, Progress, waitfg}
use systems_programming.Shell.Signals.Stable.{deliver_all-Q}
use systems_programming.Shell.Signals.Foreground.{
  IsIdle, IsBusy, IsIdle-stable, IsBusy-stable, waitfg-Settled,
}
use systems_programming.Shell.Eval.{
  do_bgfg, builtin_cmd, World, finish, launch, spawn, unless_builtin, eval,
}
use systems_programming.Shell.Eval.Builtin.{
  KeepsNamed, bind-IsSettled, IsSettled, IsSettled-of, do_bgfg-IsSettled,
}

-- A built-in command that is over or waits.
abbrev SettledIfDone : Shell → Result (Option Progress) → Type 0
SettledIfDone s (ok (some p)) = IsSettled (ok p)
SettledIfDone s (ok none) = Unit
SettledIfDone s _ = Unit

done-Settled :
    (s : Shell) (r : Result Progress) → IsSettled r → SettledIfDone s (r >>= λ p. ok (some p))
done-Settled s (ok p) h = h
done-Settled s fault h = tt
done-Settled s (exit c) h = tt

builtin_cmd-Settled :
    (s : Shell) (argv : List CStr) (w : World)
    → IsIdle s.jobs
    → KeepsNamed s w argv
    → SettledIfDone s (builtin_cmd s argv w)
unfolding builtin_cmd listjobs
builtin_cmd-Settled s [] w q kept = tt
builtin_cmd-Settled s (cmd ∷ args) w q kept = elim (Bool-cases (str_eq cmd (codes "quit"))) [
  | inl e ↦ rw e tt
  | inr a ↦ elim (Bool-cases (str_eq cmd (codes "jobs"))) [
    | inl e ↦ rw (a, e) q
    | inr b ↦ elim (Bool-cases (str_eq cmd (codes "bg"))) [
      | inl e ↦
          rw (a, b, e)
            (done-Settled s (do_bgfg s cmd args w) (do_bgfg-IsSettled s cmd args w q kept))
      | inr c ↦ elim (Bool-cases (str_eq cmd (codes "fg"))) [
        | inl e ↦
            rw (a, b, c, e)
              (done-Settled s (do_bgfg s cmd args w) (do_bgfg-IsSettled s cmd args w q kept))
        | inr e ↦ rw (a, b, c, e) tt
      ]
    ]
  ]
]

-- What `addjob` leaves of the foreground: at most the new job, and only if it is started there.
pub addjob-IsBusy :
    (s : Shell) (pid : ℕ) (cmdline : CStr)
    → 0 < pid
    → Absent s.jobs pid
    → IsIdle s.jobs
    → IsBusy pid (addjob s pid fg cmdline).1.jobs
addjob-IsBusy s pid cmdline pos new q = record {
  valid = addjob-IsValid s pid fg cmdline pos q.valid new;
  only_fg = elim (Option-cases (find_first (pid_is 0) s.jobs)) [
    | inl e ↦ rw (addjob_full s pid fg cmdline pos e).1 (λ k h z. ground (arith, q.none_fg k))
    | inr (i, e) ↦ rw (addjob_free s pid fg cmdline pos i e).1 (λ k h z. ground (
      arith,
      q.none_fg k,
      job_at-set s.jobs i k (new_job s pid fg cmdline pos)
          (find_first-some (pid_is 0) s.jobs i e).within,
    ))
  ];
}

pub addjob-IsIdle :
    (s : Shell) (pid : ℕ) (cmdline : CStr)
    → 0 < pid
    → Absent s.jobs pid
    → IsIdle s.jobs
    → IsIdle (addjob s pid bg cmdline).1.jobs
addjob-IsIdle s pid cmdline pos new q = record {
  valid = addjob-IsValid s pid bg cmdline pos q.valid new;
  none_fg = elim (Option-cases (find_first (pid_is 0) s.jobs)) [
    | inl e ↦ rw (addjob_full s pid bg cmdline pos e).1 q.none_fg
    | inr (i, e) ↦ rw (addjob_free s pid bg cmdline pos i e).1 (λ k h. ground (
      arith,
      q.none_fg k,
      job_at-set s.jobs i k (new_job s pid bg cmdline pos)
          (find_first-some (pid_is 0) s.jobs i e).within,
    ))
  ];
}

launch-IsSettled :
    (s : Shell) (background : Bool) (cmdline : CStr) (pid : ℕ) (w : World)
    → 0 < pid
    → Absent s.jobs pid
    → IsIdle s.jobs
    → IsSettled (launch s (if background then bg else fg) cmdline pid w)
unfolding launch finish say
launch-IsSettled s false cmdline pid w pos new q =
    bind-IsSettled (IsBusy pid) (deliver_all (addjob s pid fg cmdline).1 w.pending)
      (λ s'. waitfg s' pid w.rounds)
      (deliver_all-Q (IsBusy pid) (IsBusy-stable pid) (addjob s pid fg cmdline).1 w.pending
        (addjob-IsBusy s pid cmdline pos new q))
      (λ s' _ b. IsSettled-of pid (waitfg s' pid w.rounds) (waitfg-Settled s' pid w.rounds b))
launch-IsSettled s true cmdline pid w pos new q =
    bind-IsSettled IsIdle (deliver_all (addjob s pid bg cmdline).1 w.pending)
      (λ s'. finish s' bg pid w.rounds)
      (deliver_all-Q IsIdle IsIdle-stable (addjob s pid bg cmdline).1 w.pending
        (addjob-IsIdle s pid cmdline pos new q))
      after
  where
    after :
        (s' : Shell)
        → deliver_all (addjob s pid bg cmdline).1 w.pending ≡ ok s'
        → IsIdle s'.jobs
        → IsSettled (finish s' bg pid w.rounds)
    after s' _ b = elim (Option-cases (getjobpid s'.jobs pid)) [
      | inl e ↦ rw (e, finish) tt
      | inr (i, e) ↦ rw (e, finish) b
    ]

spawn-IsSettled :
    (forked : Option ℕ) (s : Shell) (background : Bool) (cmdline : CStr) (w : World)
    → IsIdle s.jobs
    → ((pid : ℕ) → forked ≡ some pid → (0 < pid) × Absent s.jobs pid)
    → IsSettled (spawn forked s background cmdline w)
unfolding spawn
spawn-IsSettled none s background cmdline w q new = tt
spawn-IsSettled (some pid) s background cmdline w q new =
    launch-IsSettled s background cmdline pid w (new pid refl).0 (new pid refl).1 q

after_builtin-IsSettled :
    (s : Shell) (done : Result (Option Progress)) (rest : Result Progress)
    → SettledIfDone s done
    → IsSettled rest
    → IsSettled (done >>= λ d. unless_builtin d rest)
unfolding unless_builtin
after_builtin-IsSettled s (ok (some p)) rest h k = h
after_builtin-IsSettled s (ok none) rest h k = k
after_builtin-IsSettled s fault rest h k = tt
after_builtin-IsSettled s (exit c) rest h k = tt

after_parse-IsSettled :
    (r : Result (Bool × List CStr)) (f : Bool × List CStr → Result Progress)
    → ((p : Bool × List CStr) → r ≡ ok p → IsSettled (f p))
    → IsSettled (r >>= f)
after_parse-IsSettled (ok p) f h = h p refl
after_parse-IsSettled fault f h = tt
after_parse-IsSettled (exit c) f h = tt

-- From a valid job list with no foreground job, with a process id from `fork` that is new to it, and
-- with no signal that takes the job that an `fg` names off the list between its `kill` and its store
-- into the job's state: `eval` keeps the list valid; when it returns there is no foreground job
-- again, and while it waits only one process has one, whatever signals arrive.
pub eval-IsSettled :
    (s : Shell) (cmdline : CStr) (w : World)
    → IsIdle s.jobs
    → ((pid : ℕ) → w.forked ≡ some pid → (0 < pid) × Absent s.jobs pid)
    → ((p : Bool × List CStr) → parseline cmdline ≡ ok p → KeepsNamed s w p.1)
    → IsSettled (eval s cmdline w)
unfolding eval
eval-IsSettled s cmdline w q new kept = after_parse-IsSettled (parseline cmdline) _ (λ p e.
    after_builtin-IsSettled s (builtin_cmd s p.1 w) (spawn w.forked s p.0 cmdline w)
      (builtin_cmd-Settled s p.1 w q (kept p e)) (spawn-IsSettled w.forked s p.0 cmdline w q new))
