-- ===== src/Shell/Jobs/Numbers.antt =====
-- The job numbers that `addjob` and `deletejob` of tsh.c hand out, and when two jobs share one.
use systems_programming.Base.{
  ℕ, ◌+◌, ◌≤◌, ◌<◌, ◌≡◌, ◌≢◌, set, arith, ltb, if◌then◌else◌, CStr, Option-cases, inl, inr, ap, ◌∙◌,
}
use systems_programming.Shell.Jobs.{
  Job, JobState, Shell, job_at, find_first, maxjobs, addjob, deletejob, pid_is,
}
use systems_programming.Shell.Jobs.Find.{FoundAt, find_first-some, job_at-set, job_at-set_self}
use systems_programming.Shell.Jobs.Entries.{IsValid, Absent, pid_of, jid_of}
use systems_programming.Shell.Jobs.Valid.{addjob_free, addjob_full, new_job, deletejob_lem}

-- Every number in use is below the next one, and no two jobs share one.
pub record IsNumbered (s : Shell) : Type 0 where
  pub below : (i : ℕ) → i < maxjobs → jid_of s.jobs i < s.nextjid
  pub unique :
      (i k : ℕ)
      → i < maxjobs
      → k < maxjobs
      → jid_of s.jobs i ≡ jid_of s.jobs k
      → jid_of s.jobs i ≢ 0
      → i ≡ k

-- On a valid list and a process that is new to it, `addjob` keeps the numbers apart and below the
-- next one, as long as that is below `MAXJOBS`.
pub addjob-IsNumbered :
    (s : Shell) (pid : ℕ) (state : JobState) (cmdline : CStr)
    → 0 < pid
    → IsValid s.jobs
    → Absent s.jobs pid
    → IsNumbered s
    → s.nextjid < maxjobs
    → IsNumbered (addjob s pid state cmdline).1
addjob-IsNumbered s pid state cmdline pos v new u small =
    elim (Option-cases (find_first (pid_is 0) s.jobs)) [
      | inl e ↦
          let (ret, jobs, next) = addjob_full s pid state cmdline pos e in
          record { below = rw (jobs, next) u.below; unique = rw jobs u.unique }
      | inr (i, e) ↦
          let (ret, jobs, next) = addjob_free s pid state cmdline pos i e in
          let found : FoundAt (pid_is 0) s.jobs i = find_first-some (pid_is 0) s.jobs i e in
          let job : Job = new_job s pid state cmdline pos in
          record {
            below =
                rw (jobs, next)
                  (λ k h. ground (arith, job_at-set s.jobs i k job found.within, u.below k));
            unique = rw jobs (λ a b ha hb q ne. ground (
              arith,
              job_at-set s.jobs i a job found.within,
              job_at-set s.jobs i b job found.within,
              u.below a,
              u.below b,
              u.unique a b,
            ));
          }
    ]

-- On a valid list `deletejob` keeps the numbers apart and below the next one.
pub deletejob-IsNumbered :
    (s : Shell) (pid : ℕ) → 0 < pid → IsValid s.jobs → IsNumbered s → IsNumbered (deletejob s pid).1
deletejob-IsNumbered s pid pos v u = elim (deletejob_lem s pid pos v) [
  | inl (gone, same) ↦ rw same u
  | inr (i, own, ret, cleared, gone, others, below) ↦ record {
    below = below;
    unique = λ a b ha hb q ne. ground (arith, cleared, others a, others b, u.unique a b);
  }
]

-- An `addjob` that returns 1 has written a free entry.
addjob_one :
    (s : Shell) (pid : ℕ) (state : JobState) (cmdline : CStr) (pos : 0 < pid)
    → (addjob s pid state cmdline).0 ≡ 1
    → (i : ℕ) × FoundAt (pid_is 0) s.jobs i
      × ((addjob s pid state cmdline).1.jobs ≡ set s.jobs i (new_job s pid state cmdline pos))
      × ((addjob s pid state cmdline).1.nextjid
          ≡ (if ltb maxjobs (s.nextjid + 1) then 1 else s.nextjid + 1))
addjob_one s pid state cmdline pos one = elim (Option-cases (find_first (pid_is 0) s.jobs)) [
  | inl e ↦ absurd (omega (arith, (addjob_full s pid state cmdline pos e).0))
  | inr (i, e) ↦
      let (ret, jobs, next) = addjob_free s pid state cmdline pos i e in
      (i, find_first-some (pid_is 0) s.jobs i e, jobs, next)
]

-- A live entry is not the one that `addjob` writes.
addjob_live :
    (s : Shell) (pid : ℕ) (state : JobState) (cmdline : CStr)
    → 0 < pid
    → (addjob s pid state cmdline).0 ≡ 1
    → (i : ℕ) → pid_of s.jobs i ≢ 0
    → job_at (addjob s pid state cmdline).1.jobs i ≡ job_at s.jobs i
addjob_live s pid state cmdline pos one i live =
    let (a, found, jobs, next) = addjob_one s pid state cmdline pos one in
    rw jobs (
      ground
        (arith, job_at-set s.jobs a i (new_job s pid state cmdline pos) found.within, found.passes))

-- From `MAXJOBS` on the numbers start again at 1. If a job with number 1 lives in a valid list, and
-- two jobs with new processes are added with success, the second one gets number 1 too.
addjob_twice-shares_jid :
    (s : Shell) (p q : ℕ) (state : JobState) (cmdline : CStr) (i : ℕ)
    → 0 < p
    → 0 < q
    → p ≢ q
    → IsValid s.jobs
    → Absent s.jobs p
    → Absent s.jobs q
    → maxjobs ≤ s.nextjid
    → i < maxjobs
    → pid_of s.jobs i ≢ 0
    → jid_of s.jobs i ≡ 1
    → let (ret, s') = addjob s p state cmdline in
      let (ret', s'') = addjob s' q state cmdline in
      ret ≡ 1
      → ret' ≡ 1
      → (k : ℕ) × (i ≢ k)
        × (jid_of s''.jobs i ≡ 1)
        × (jid_of s''.jobs k ≡ 1)
        × (pid_of s''.jobs i ≢ 0)
        × (pid_of s''.jobs k ≡ q)
addjob_twice-shares_jid s p q state cmdline i hp hq ne v np nq big lt live one r₁ r₂ =
    let s' : Shell = (addjob s p state cmdline).1 in
    let (a, found, jobs, next) = addjob_one s p state cmdline hp r₁ in
    let (b, found', jobs', next') = addjob_one s' q state cmdline hq r₂ in
    let kept : job_at s'.jobs i ≡ job_at s.jobs i = addjob_live s p state cmdline hp r₁ i live in
    let live' : pid_of s'.jobs i ≢ 0 = rw (kept, pid_of) live in
    let kept' : job_at (addjob s' q state cmdline).1.jobs i ≡ job_at s.jobs i =
      addjob_live s' q state cmdline hq r₂ i live' ∙ kept in
    let restart : s'.nextjid ≡ 1 = ground arith in
    let written : job_at (addjob s' q state cmdline).1.jobs b ≡ new_job s' q state cmdline hq =
      rw jobs' (job_at-set_self s'.jobs b (new_job s' q state cmdline hq) found'.within) in
    (
      b,
      λ e. live' (rw e (ground (arith, found'.passes))),
      ap (λ (j : Job). j.jid) kept' ∙ one,
      ap (λ (j : Job). j.jid) written ∙ restart,
      rw (kept', pid_of) live,
      ap (λ (j : Job). j.pid) written,
    )
