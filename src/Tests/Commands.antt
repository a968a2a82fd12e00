-- ===== src/Tests/Commands.antt =====
-- The shell at its start, and with one job on its list.
use systems_programming.Base.{ℕ, ◌<◌, ◌≡◌, ◌≢◌, refl, ◌⊎◌, false, some, [], arith, ap, codes}
use systems_programming.Shell.Jobs.{
  Job, fg, Shell, clearjob, initjobs, job_at, maxjobs, addjob, deletejob, getjobpid, pid2jid,
}
use systems_programming.Shell.Jobs.Entries.{
  IsValid, Absent, initjobs-IsValid, job_at-replicate, pid_of, jid_of,
}
use systems_programming.Shell.Jobs.Valid.{addjob-IsValid, addjob_lem, deletejob_lem}
use systems_programming.Shell.Jobs.Numbers.{IsNumbered, addjob-IsNumbered}
use systems_programming.Shell.Signals.Foreground.{IsIdle}

abbrev pub start_shell : Shell
start_shell = record { jobs = initjobs; nextjid = 1; verbose = false; events = [] }

pub free_entry : (i : ℕ) → job_at initjobs i ≡ clearjob
unfolding initjobs
free_entry i = job_at-replicate maxjobs i

pub none_has : (pid : ℕ) → 0 < pid → Absent initjobs pid
none_has pid pos i lt e =
    let z : pid_of initjobs i ≡ 0 = ap (λ (j : Job). j.pid) (free_entry i) in omega arith

pub IsIdle-start : IsIdle initjobs
IsIdle-start = record { valid = initjobs-IsValid; none_fg = λ i h. rw (free_entry i) refl }

start_IsNumbered : IsNumbered start_shell
start_IsNumbered = record {
  below =
      λ i h. let z : jid_of initjobs i ≡ 0 = ap (λ (j : Job). j.jid) (free_entry i) in omega arith;
  unique = λ i k hi hk e ne. absurd (ne (ap (λ (j : Job). j.jid) (free_entry i)));
}

-- With one job, of process 100.
abbrev pub one_job : Shell
one_job = (addjob start_shell 100 fg (codes "sleep 9\n")).1

pub one_job-IsValid : IsValid one_job.jobs
one_job-IsValid =
    addjob-IsValid start_shell 100 fg (codes "sleep 9\n") (omega arith) initjobs-IsValid
      (none_has 100 (omega arith))

addjob_lem_example :
    let (ret, s') = addjob start_shell 100 fg (codes "sleep 9\n") in
    ((ret ≡ 0) × (s'.jobs ≡ initjobs) × ((k : ℕ) → k < maxjobs → pid_of initjobs k ≢ 0))
    ⊎ ((i : ℕ) × (ret ≡ 1)
        × (pid_of initjobs i ≡ 0)
        × (getjobpid s'.jobs 100 ≡ some i)
        × (job_at s'.jobs i
            ≡ record { pid = 100; jid = 1; state = fg; cmdline = codes "sleep 9\n" })
        × (pid2jid s'.jobs 100 ≡ 1)
        × ((k : ℕ) → i ≢ k → job_at s'.jobs k ≡ job_at initjobs k))
addjob_lem_example =
    addjob_lem start_shell 100 fg (codes "sleep 9\n") (omega arith) initjobs-IsValid
      (none_has 100 (omega arith))

deletejob_lem_example :
    ((Absent one_job.jobs 100) × (deletejob one_job 100 ≡ (0, one_job)))
    ⊎ (let (ret, s') = deletejob one_job 100 in
        (i : ℕ) × (pid_of one_job.jobs i ≡ 100)
        × (ret ≡ 1)
        × (job_at s'.jobs i ≡ clearjob)
        × Absent s'.jobs 100
        × ((k : ℕ) → i ≢ k → job_at s'.jobs k ≡ job_at one_job.jobs k)
        × ((k : ℕ) → k < maxjobs → jid_of s'.jobs k < s'.nextjid))
deletejob_lem_example = deletejob_lem one_job 100 (omega arith) one_job-IsValid

one_job-IsNumbered : IsNumbered one_job
one_job-IsNumbered =
    addjob-IsNumbered start_shell 100 fg (codes "sleep 9\n") (omega arith) initjobs-IsValid
      (none_has 100 (omega arith)) start_IsNumbered (omega arith)
