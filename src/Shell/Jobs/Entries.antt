-- ===== src/Shell/Jobs/Entries.antt =====
-- The invariant of the job list of tsh.c, and what writing one entry does to it.
use systems_programming.Base.{
  ℕ, zero, suc, ◌<◌, ◌≡◌, ◌≢◌, refl, some, List, set, length, length-set, replicate, arith, ap,
  ◌==◌, if◌then◌else◌, ◌∙◌,
}
use systems_programming.Shell.Jobs.{
  Job, JobState, clearjob, job_at, find_first, maxjobs, initjobs, getjobpid, pid2jid, pid_is,
}
use systems_programming.Shell.Jobs.Find.{job_at-set}

abbrev pub pid_of : List Job → ℕ → ℕ
pid_of js i = (job_at js i).pid

abbrev pub jid_of : List Job → ℕ → ℕ
jid_of js i = (job_at js i).jid

-- `MAXJOBS` entries, one for each process; a free entry has no job number, a used one has one.
pub record IsValid (js : List Job) : Type 0 where
  pub size : length js ≡ maxjobs
  pub distinct :
      (i k : ℕ) → i < maxjobs → k < maxjobs → pid_of js i ≡ pid_of js k → pid_of js i ≢ 0 → i ≡ k
  pub free : (i : ℕ) → i < maxjobs → pid_of js i ≡ 0 → jid_of js i ≡ 0

-- No job of the list has this process id.
abbrev pub Absent : List Job → ℕ → Type 0
Absent js pid = (i : ℕ) → i < maxjobs → pid_of js i ≢ pid

-- Writing a job with a new process id, or clearing an entry.
pub set-IsValid :
    {js : List Job} (i : ℕ) (j : Job)
    → IsValid js
    → i < maxjobs
    → (j.pid ≢ 0 → Absent js j.pid)
    → (j.pid ≡ 0 → j.jid ≡ 0)
    → IsValid (set js i j)
set-IsValid {js} i j v lt new cleared = record {
  size = length-set js i j ∙ v.size;
  distinct = λ a b ha hb e ne. ground (arith, at a, at b, v.distinct a b, new_at a, new_at b);
  free = λ a ha e. ground (arith, at a, cleared, v.free a);
}
  where
    at : (k : ℕ) → job_at (set js i j) k ≡ (if i == k then j else job_at js k)
    at k = job_at-set js i k j (omega (arith, v.size))

    new_at : (k : ℕ) → j.pid ≢ 0 → k < maxjobs → pid_of js k ≢ j.pid
    new_at k ne h = new ne k h

-- A new state for a job keeps the invariant.
pub restate-IsValid :
    {js : List Job} (i : ℕ) (state : JobState)
    → IsValid js
    → i < maxjobs
    → IsValid (set js i (record (job_at js i) { state = state }))
restate-IsValid {js} i state v lt = record {
  size = length-set js i j ∙ v.size;
  distinct = λ a b ha hb e ne. ground (arith, at a, at b, v.distinct a b);
  free = λ a ha e. ground (arith, at a, v.free a);
}
  where
    j : Job
    j = record (job_at js i) { state = state }

    at : (k : ℕ) → job_at (set js i j) k ≡ (if i == k then j else job_at js k)
    at k = job_at-set js i k j (omega (arith, v.size))

pub job_at-replicate : (n i : ℕ) → job_at (replicate n clearjob) i ≡ clearjob
job_at-replicate zero i = refl
job_at-replicate (suc n) zero = refl
job_at-replicate (suc n) (suc i) = job_at-replicate n i

pub initjobs-IsValid : IsValid initjobs
unfolding initjobs
initjobs-IsValid = record {
  size = refl;
  distinct = λ i k hi hk e ne. absurd (ne (ap (λ (j : Job). j.pid) (job_at-replicate maxjobs i)));
  free = λ i h e. ap (λ (j : Job). j.jid) (job_at-replicate maxjobs i);
}

pub getjobpid-eq :
    (js : List Job) (pid : ℕ) → 0 < pid → getjobpid js pid ≡ find_first (pid_is pid) js
unfolding getjobpid
getjobpid-eq js pid pos = ground arith

pub pid2jid-eq :
    (js : List Job) (pid i : ℕ)
    → 0 < pid
    → find_first (pid_is pid) js ≡ some i
    → pid2jid js pid ≡ jid_of js i
unfolding pid2jid
pid2jid-eq js pid i pos e = ground arith
