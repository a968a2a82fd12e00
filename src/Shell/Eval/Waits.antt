-- ===== src/Shell/Eval/Waits.antt =====
-- How `waitfg` of tsh.c comes back when the foreground job exits.
use systems_programming.Base.{
  ℕ, ◌<◌, ◌≡◌, ◌≢◌, refl, ◌==◌, if◌then◌else◌, Bool, true, false, none, some, List, [], ◌∷◌, length,
  arith, Bool-cases, Option-cases, inl, inr, ◌∙◌, CStr, zero, suc, ◌++◌, replicate,
}
use systems_programming.Shell.Jobs.{
  Job, fg, bg, Shell, job_at, find_first, maxjobs, is_fg, pid_is, getjobpid, deletejob, fgpid,
}
use systems_programming.Shell.Jobs.Find.{
  FoundAt, find_first-some, find_first-none, find_first-eq-none,
}
use systems_programming.Shell.Jobs.Entries.{Absent, getjobpid-eq}
use systems_programming.Shell.Parse.{ok, parseline}
use systems_programming.Shell.Signals.{
  exited, reap, sigchld_handler, Signal, chld, deliver, deliver_all, returned, waitfg,
}
use systems_programming.Shell.Signals.Foreground.{NoFg, OnlyFg}
use systems_programming.Shell.Eval.{builtin_cmd, World, launch, spawn, unless_builtin, eval}

-- `waitpid` reports one child, which has exited.
abbrev pub exit_of : ℕ → ℕ → List Signal
exit_of pid code = chld ((pid, exited code) ∷ []) ∷ []

pub deliver_exit :
    (s : Shell) (pid code : ℕ) → deliver_all s (exit_of pid code) ≡ ok (deletejob s pid).1
unfolding deliver_all deliver sigchld_handler reap
deliver_exit s pid code = refl

pub Absent-getjobpid :
    (js : List Job) (pid : ℕ)
    → 0 < pid
    → length js ≡ maxjobs
    → Absent js pid
    → getjobpid js pid ≡ none
Absent-getjobpid js pid pos size gone =
    getjobpid-eq js pid pos
    ∙ find_first-eq-none (pid_is pid) js (λ k lt. ground (arith, gone k (omega arith)))

-- Without a foreground job `fgpid` is 0; with one, it is the process that alone may have one.
NoFg-fgpid : (js : List Job) → length js ≡ maxjobs → NoFg js → fgpid js ≡ 0
unfolding fgpid
NoFg-fgpid js size quiet =
    rw (find_first-eq-none (λ (j : Job). is_fg j.state) js (λ k lt. quiet k (omega arith)), fgpid)

pub OnlyFg-fgpid :
    (js : List Job) (pid i : ℕ)
    → length js ≡ maxjobs
    → OnlyFg pid js
    → i < maxjobs
    → is_fg (job_at js i).state ≡ true
    → fgpid js ≡ pid
unfolding fgpid
OnlyFg-fgpid js pid i size only lt e =
    elim (Option-cases (find_first (λ (j : Job). is_fg j.state) js)) [
      | inl q ↦ absurd (ground (arith, find_first-none (λ (j : Job). is_fg j.state) js q i))
      | inr (k, q) ↦
          let found : FoundAt (λ (j : Job). is_fg j.state) js k =
            find_first-some (λ (j : Job). is_fg j.state) js k q in
          rw (q, fgpid) (only k (omega (arith, found.within)) found.passes)
    ]

pub waitfg_over :
    (s : Shell) (pid : ℕ) (rounds : List (List Signal))
    → pid ≢ fgpid s.jobs
    → waitfg s pid rounds ≡ ok (returned s)
unfolding waitfg
waitfg_over s pid [] ne = ground arith
waitfg_over s pid (gs ∷ rounds) ne =
    let off : (pid == fgpid s.jobs) ≡ false = ground arith in rw off

-- Rounds of `sleep` in which no signal arrives, and then one in which the process exits.
abbrev pub exits_after : ℕ → ℕ → ℕ → List (List Signal) → List (List Signal)
exits_after n pid code rounds = replicate n [] ++ (exit_of pid code ∷ rounds)

pub waitfg_exit :
    (n : ℕ) (s : Shell) (pid code : ℕ) (rounds : List (List Signal))
    → fgpid s.jobs ≡ pid
    → pid ≢ fgpid (deletejob s pid).1.jobs
    → waitfg s pid (exits_after n pid code rounds) ≡ ok (returned (deletejob s pid).1)
unfolding waitfg deliver_all
waitfg_exit zero s pid code rounds e ne =
    let awake : (pid == fgpid s.jobs) ≡ true = ground arith in
    rw (awake, deliver_exit s pid code) (waitfg_over (deletejob s pid).1 pid rounds ne)
waitfg_exit (suc n) s pid code rounds e ne =
    let awake : (pid == fgpid s.jobs) ≡ true = ground arith in
    rw awake (waitfg_exit n s pid code rounds e ne)

-- After the job of `pid` is off a list where only it was in the foreground, `fgpid` is another.
pub gone-fgpid :
    (js : List Job) (pid : ℕ)
    → 0 < pid
    → length js ≡ maxjobs
    → OnlyFg pid js
    → Absent js pid
    → pid ≢ fgpid js
gone-fgpid js pid pos size only gone e = absurd (
    omega (
      arith,
      e,
      NoFg-fgpid js size (λ i lt. elim (Bool-cases (is_fg (job_at js i).state)) [
        | inl q ↦ absurd (gone i lt (only i lt q))
        | inr q ↦ q
      ]),
    ))

pub eval-launch :
    (s : Shell) (cmdline : CStr) (w : World) (cmd : List CStr) (pid : ℕ) (background : Bool)
    → builtin_cmd s cmd w ≡ ok none
    → w.forked ≡ some pid
    → parseline cmdline ≡ ok (background, cmd)
    → eval s cmdline w ≡ launch s (if background then bg else fg) cmdline pid w
unfolding eval spawn unless_builtin
eval-launch s cmdline w cmd pid background not_builtin child e = rw (e, not_builtin, child)
