-- ===== src/Shell/Groups/Session/Reached.antt =====
-- Which processes a key reaches in a run of tsh.c.
use systems_programming.Base.{
  ℕ, zero, suc, ◌<◌, ◌≡◌, ◌≢◌, refl, sym, inl, inr, Option-cases, some, List, [], ◌∷◌, map, length,
  drop, set, replicate, CStr, arith, subst,
}
use systems_programming.Shell.Jobs.{
  Job, JobState, Shell, Event, print, kill, clearjob, initjobs, maxjobs, job_at, find_first, pid_is,
  is_fg, fgpid, addjob,
}
use systems_programming.Shell.Jobs.Valid.{addjob_free, addjob_full, new_job}
use systems_programming.Shell.Signals.{sigcont, sigint_handler, sigtstp_handler}
use systems_programming.Shell.Signals.Stable.{IsStable, Ensures, deliver_all-Q}
use systems_programming.Shell.Groups.{
  System, send_group, Step, fork, unmask, setpgid, execve_succeeds, execve_fails, prints,
  program_forks, ends, sends, Reach, start, later, Key, ctrl_c, ctrl_z, signal_of, handler_of,
  do_events, press,
}
use systems_programming.Shell.Groups.Keys.{reached, press-reached}
use systems_programming.Shell.Groups.Session.{
  Session, Move, processes, forks, adds, catches, continues, presses, Run, begin, then,
}

-- No job has the number of the shell's group.
abbrev Away : ℕ → List Job → Type 0
Away group [] = Unit
Away group (j ∷ jobs) = (j.pid ≢ group) × Away group jobs

module _ (group : ℕ) (pos : 0 < group) where
  Away-set :
      (jobs : List Job) (i : ℕ) (j : Job)
      → Away group jobs
      → j.pid ≢ group
      → Away group (set jobs i j)
  Away-set [] i j away new = tt
  Away-set (k ∷ jobs) zero j (old, away) new = (new, away)
  Away-set (k ∷ jobs) (suc i) j (old, away) new = (old, Away-set jobs i j away new)

  job_at-Away : (jobs : List Job) (i : ℕ) → Away group jobs → (job_at jobs i).pid ≢ group
  job_at-Away [] i away = λ e. omega arith
  job_at-Away (k ∷ jobs) zero (here, away) = here
  job_at-Away (k ∷ jobs) (suc i) (here, away) = job_at-Away jobs i away

  Away-replicate : (n : ℕ) → Away group (replicate n clearjob)
  Away-replicate zero = tt
  Away-replicate (suc n) = ((λ e. omega arith), Away-replicate n)

  fgpid-Away : (jobs : List Job) → Away group jobs → fgpid jobs ≢ group
  unfolding fgpid
  fgpid-Away jobs away = elim (Option-cases (find_first (λ j. is_fg j.state) jobs)) [
    | inl e ↦ rw (e, fgpid) (λ q. omega arith)
    | inr (i, e) ↦ rw (e, fgpid) (job_at-Away jobs i away)
  ]

  Away-IsStable : IsStable (Away group)
  Away-IsStable = record {
    clears = λ jobs i lt away. Away-set jobs i clearjob away (λ e. omega arith);
    stops = λ jobs i lt away.
        Away-set jobs i (record (job_at jobs i) { state = _ }) away (job_at-Away jobs i away);
  }

  addjob-Away :
      (s : Shell) (pid : ℕ) (state : JobState) (cmdline : CStr)
      → 0 < pid
      → pid ≢ group
      → Away group s.jobs
      → Away group (addjob s pid state cmdline).1.jobs
  addjob-Away s pid state cmdline real other away =
      elim (Option-cases (find_first (pid_is 0) s.jobs)) [
        | inl e ↦ rw (addjob_full s pid state cmdline real e).1 away
        | inr (i, e) ↦
            rw (addjob_free s pid state cmdline real i e).1
              (Away-set s.jobs i (new_job s pid state cmdline real) away other)
      ]

-- Sending signals is a step of the system.
do_events-Reach :
    (events : List Event) (s : System)
    → Reach s
    → Reach (record s { procs = do_events events s.procs })
unfolding do_events
do_events-Reach [] s r = r
do_events-Reach (print text ∷ events) s r = do_events-Reach events s r
do_events-Reach (kill group signal ∷ events) s r =
    do_events-Reach events (record s { procs = send_group group signal s.procs })
      (later r (sends group signal))

press-Reach : (key : Key) (sh : Shell) (s : System) → Reach s → Reach (press key sh s)
unfolding press
press-Reach key sh s r =
    do_events-Reach (drop (length sh.events) (handler_of key sh).events)
      (record s { procs = send_group s.shell_group (signal_of key) s.procs })
      (later r (sends s.shell_group (signal_of key)))

press-shell_group :
    (key : Key) (sh : Shell) (s : System) → (press key sh s).shell_group ≡ s.shell_group
unfolding press
press-shell_group key sh s = refl

Step-shell_group : {s t : System} → Step s t → t.shell_group ≡ s.shell_group
Step-shell_group (fork pid command fresh) = refl
Step-shell_group (unmask i p at e) = refl
Step-shell_group (setpgid i p at e) = refl
Step-shell_group (execve_succeeds i p at e) = refl
Step-shell_group (execve_fails i p at e) = refl
Step-shell_group (prints i p at e) = refl
Step-shell_group (program_forks i p pid at e fresh) = refl
Step-shell_group (ends i) = refl
Step-shell_group (sends group signal) = refl

handler_of-jobs : (key : Key) (sh : Shell) → (handler_of key sh).jobs ≡ sh.jobs
unfolding sigint_handler sigtstp_handler
handler_of-jobs ctrl_c sh = ground arith
handler_of-jobs ctrl_z sh = ground arith

record Inv (x : Session) : Type 0 where
  reach : Reach x.system
  positive : 0 < x.system.shell_group
  away : Away x.system.shell_group x.shell.jobs
  born : (pid : ℕ) → x.born ≡ some pid → (0 < pid) × (pid ≢ x.system.shell_group)

Move-Inv : {x y : Session} → Move x y → Inv x → Inv y
Move-Inv {x} (processes {t} st) v =
    let e : x.system.shell_group ≡ t.shell_group = sym (Step-shell_group st) in
    record {
      reach = later v.reach st;
      positive = subst (λ g. 0 < g) e v.positive;
      away = subst (λ g. Away g x.shell.jobs) e v.away;
      born = λ pid q. subst (λ g. (0 < pid) × (pid ≢ g)) e (v.born pid q);
    }
Move-Inv {x} (forks pid command fresh) v = record {
  reach = later v.reach (fork pid command fresh);
  positive = v.positive;
  away = v.away;
  born = λ pid' q. ground (arith, fresh.positive, fresh.not_shell);
}
Move-Inv {x} (adds pid state cmdline e) v = record {
  reach = v.reach;
  positive = v.positive;
  away =
      addjob-Away x.system.shell_group v.positive x.shell pid state cmdline (v.born pid e).0
        (v.born pid e).1 v.away;
  born = λ pid' q. cc;
}
Move-Inv {x} (catches signals shell e) v = record {
  reach = do_events-Reach (drop (length x.shell.events) shell.events) x.system v.reach;
  positive = v.positive;
  away = subst (Ensures (Away x.system.shell_group)) e (
      deliver_all-Q (Away x.system.shell_group) (Away-IsStable x.system.shell_group v.positive)
        x.shell signals v.away);
  born = v.born;
}
Move-Inv {x} (continues i state) v = record {
  reach = later v.reach (sends (job_at x.shell.jobs i).pid sigcont);
  positive = v.positive;
  away =
      Away-set x.system.shell_group v.positive x.shell.jobs i
        (record (job_at x.shell.jobs i) { state = state }) v.away
        (job_at-Away x.system.shell_group v.positive x.shell.jobs i v.away);
  born = v.born;
}
Move-Inv {x} (presses key) v =
    let e : x.system.shell_group ≡ (press key x.shell x.system).shell_group =
      sym (press-shell_group key x.shell x.system) in
    record {
      reach = press-Reach key x.shell x.system v.reach;
      positive = subst (λ g. 0 < g) e v.positive;
      away =
          subst (λ g. Away g (handler_of key x.shell).jobs) e
            (subst (Away x.system.shell_group) (sym (handler_of-jobs key x.shell)) v.away);
      born = λ pid q. subst (λ g. (0 < pid) × (pid ≢ g)) e (v.born pid q);
    }

Run-Inv : {x : Session} → Run x → Inv x
unfolding initjobs
Run-Inv (begin group verbose pos) = record {
  reach = start group;
  positive = pos;
  away = Away-replicate group pos maxjobs;
  born = λ pid q. cc;
}
Run-Inv (then r m) = Move-Inv m (Run-Inv r)

-- Whatever the user, the shell, its children and their programs have done: a key reaches exactly the
-- children that have not come to `setpgid`, and the processes of the job in the foreground that are
-- behind it, each of them once. Programs of other jobs get nothing.
pub run-reached :
    {x : Session} (key : Key)
    → Run x
    → (press key x.shell x.system).procs
      ≡ map (reached (signal_of key) (fgpid x.shell.jobs)) x.system.procs
run-reached {x} key r =
    let v = Run-Inv r in
    press-reached key x.shell x.system v.reach
      (fgpid-Away x.system.shell_group v.positive x.shell.jobs v.away)
