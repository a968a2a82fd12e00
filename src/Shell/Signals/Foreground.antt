-- ===== src/Shell/Signals/Foreground.antt =====
-- `waitfg` of tsh.c: what its end means for the foreground, and the jobs that it waits for in vain.
use systems_programming.Base.{
  ℕ, ◌<◌, ◌≡◌, ◌≢◌, refl, ◌==◌, true, false, List, [], ◌∷◌, arith, Bool-cases, Option-cases, inl,
  inr, sym,
}
use systems_programming.Shell.Jobs.{
  Job, st, Shell, clearjob, job_at, find_first, maxjobs, is_fg, fgpid,
}
use systems_programming.Shell.Jobs.Find.{FoundAt, find_first-some, find_first-none, job_at-set}
use systems_programming.Shell.Jobs.Entries.{IsValid, set-IsValid, restate-IsValid, pid_of}
use systems_programming.Shell.Parse.{Result, ok, fault, exit, ◌>>=◌}
use systems_programming.Shell.Signals.{Signal, deliver_all, Progress, returned, waiting, waitfg}
use systems_programming.Shell.Signals.Stable.{IsStable, Ensures, stopped_job, deliver_all-Q}

-- No job is in the foreground; only jobs of process `pid` are.
abbrev pub NoFg : List Job → Type 0
NoFg js = (i : ℕ) → i < maxjobs → is_fg (job_at js i).state ≡ false

abbrev pub OnlyFg : ℕ → List Job → Type 0
OnlyFg pid js = (i : ℕ) → i < maxjobs → is_fg (job_at js i).state ≡ true → pid_of js i ≡ pid

-- A valid list with no foreground job, and one with no other than that of `pid`.
pub record IsIdle (js : List Job) : Type 0 where
  pub valid : IsValid js
  pub none_fg : NoFg js

pub record IsBusy (pid : ℕ) (js : List Job) : Type 0 where
  pub valid : IsValid js
  pub only_fg : OnlyFg pid js

pub IsIdle-stable : IsStable IsIdle
IsIdle-stable = record {
  clears = λ js i lt q. record {
    valid =
        set-IsValid i clearjob q.valid (omega (arith, q.valid.size)) (λ z. absurd (z refl))
          (λ _. refl);
    none_fg = λ k h. ground (arith, job_at-set js i k clearjob lt, q.none_fg k);
  };
  stops = λ js i lt q. record {
    valid = restate-IsValid i st q.valid (omega (arith, q.valid.size));
    none_fg = λ k h. ground (arith, job_at-set js i k (stopped_job (job_at js i)) lt, q.none_fg k);
  };
}

pub IsBusy-stable : (pid : ℕ) → IsStable (IsBusy pid)
IsBusy-stable pid = record {
  clears = λ js i lt q. record {
    valid =
        set-IsValid i clearjob q.valid (omega (arith, q.valid.size)) (λ z. absurd (z refl))
          (λ _. refl);
    only_fg = λ k h e. ground (arith, job_at-set js i k clearjob lt, q.only_fg k);
  };
  stops = λ js i lt q. record {
    valid = restate-IsValid i st q.valid (omega (arith, q.valid.size));
    only_fg =
        λ k h e. ground (arith, job_at-set js i k (stopped_job (job_at js i)) lt, q.only_fg k);
  };
}

-- With no other foreground job, another answer of `fgpid` means that there is none at all.
fgpid-ne : (pid : ℕ) (js : List Job) → IsBusy pid js → pid ≢ fgpid js → IsIdle js
unfolding fgpid
fgpid-ne pid js b ne = elim (Option-cases (find_first (λ (j : Job). is_fg j.state) js)) [
  | inl e ↦ record {
    valid = b.valid;
    none_fg =
        λ i h. find_first-none (λ (j : Job). is_fg j.state) js e i (omega (arith, b.valid.size));
  }
  | inr (i, e) ↦
      let found : FoundAt (λ (j : Job). is_fg j.state) js i =
        find_first-some (λ (j : Job). is_fg j.state) js i e in
      absurd (
        ne (
          rw (e, fgpid)
            (sym (b.only_fg i (omega (arith, found.within, b.valid.size)) found.passes))))
]

-- A command is over with no foreground job, or waits for the only one.
abbrev pub Settled : ℕ → Result Progress → Type 0
Settled pid (ok (returned s)) = IsIdle s.jobs
Settled pid (ok (waiting s)) = IsBusy pid s.jobs
Settled pid _ = Unit

bind-Settled :
    (pid : ℕ) (m : Result Shell) (f : Shell → Result Progress)
    → Ensures (IsBusy pid) m
    → ((s : Shell) → IsBusy pid s.jobs → Settled pid (f s))
    → Settled pid (m >>= f)
bind-Settled pid (ok s) f h k = k s h
bind-Settled pid fault f h k = tt
bind-Settled pid (exit c) f h k = tt

pub waitfg-Settled :
    (s : Shell) (pid : ℕ) (rounds : List (List Signal))
    → IsBusy pid s.jobs
    → Settled pid (waitfg s pid rounds)
unfolding waitfg
waitfg-Settled s pid [] q = elim (Bool-cases (pid == fgpid s.jobs)) [
  | inl e ↦ rw e q
  | inr e ↦ rw e (fgpid-ne pid s.jobs q (ground arith))
]
waitfg-Settled s pid (gs ∷ rounds) q = elim (Bool-cases (pid == fgpid s.jobs)) [
  | inl e ↦ rw e (
      bind-Settled pid (deliver_all s gs) (λ s'. waitfg s' pid rounds)
        (deliver_all-Q (IsBusy pid) (IsBusy-stable pid) s gs q)
        (λ s' q'. waitfg-Settled s' pid rounds q'))
  | inr e ↦ rw e (fgpid-ne pid s.jobs q (ground arith))
]
