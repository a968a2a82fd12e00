-- ===== src/Shell/Jobs/Valid.antt =====
-- The invariant of the job list, and what `addjob` and `deletejob` do to it.
use systems_programming.Base.{
  ℕ, ◌+◌, ◌<◌, ◌≡◌, ◌≢◌, refl, none, some, set, length, length-set, ◌⊎◌, inl, inr, arith, ap, ltb,
  if◌then◌else◌, CStr, Option-cases, ◌∙◌,
}
use systems_programming.Shell.Jobs.{
  Job, JobState, Shell, clearjob, job_at, find_first, maxjid, maxjobs, addjob, deletejob, getjobpid,
  pid2jid, pid_is,
}
use systems_programming.Shell.Jobs.Find.{
  FoundAt, find_first-some, find_first-none, find_first-eq-some, job_at-set, job_at-set_self,
  job_at-set_ne, jid-le-maxjid,
}
use systems_programming.Shell.Jobs.Entries.{
  pid_of, jid_of, IsValid, Absent, set-IsValid, getjobpid-eq, pid2jid-eq,
}

module _ (s : Shell) (pid : ℕ) (state : JobState) (cmdline : CStr) (pos : 0 < pid) where
  -- The entry that `addjob` writes.
  abbrev pub new_job : Job
  new_job = record { pid = pid; jid = s.nextjid; state = state; cmdline = cmdline }

  pub addjob_free :
      (i : ℕ)
      → find_first (pid_is 0) s.jobs ≡ some i
      → ((addjob s pid state cmdline).0 ≡ 1)
        × ((addjob s pid state cmdline).1.jobs ≡ set s.jobs i new_job)
        × ((addjob s pid state cmdline).1.nextjid
            ≡ (if ltb maxjobs (s.nextjid + 1) then 1 else s.nextjid + 1))
  unfolding addjob
  addjob_free i e = ground arith

  pub addjob_full :
      find_first (pid_is 0) s.jobs ≡ none
      → ((addjob s pid state cmdline).0 ≡ 0)
        × ((addjob s pid state cmdline).1.jobs ≡ s.jobs)
        × ((addjob s pid state cmdline).1.nextjid ≡ s.nextjid)
  unfolding addjob
  addjob_full e = ground arith

  -- `addjob` keeps a job list valid, for a process that is new to it.
  pub addjob-IsValid :
      IsValid s.jobs → Absent s.jobs pid → IsValid (addjob s pid state cmdline).1.jobs
  addjob-IsValid v new = elim (Option-cases (find_first (pid_is 0) s.jobs)) [
    | inl e ↦ rw (addjob_full e).1 v
    | inr (i, e) ↦ rw (addjob_free i e).1 (
        set-IsValid i new_job v
          (omega (arith, (find_first-some (pid_is 0) s.jobs i e).within, v.size)) (λ _. new)
          (λ z. absurd (omega arith)))
  ]

  new_job_found :
      (i : ℕ)
      → IsValid s.jobs
      → Absent s.jobs pid
      → i < maxjobs
      → find_first (pid_is pid) (set s.jobs i new_job) ≡ some i
  new_job_found i v new lt = find_first-eq-some (pid_is pid) (set s.jobs i new_job) i (record {
    within = omega (arith, length-set s.jobs i new_job, v.size);
    passes = ground (arith, job_at-set s.jobs i i new_job (omega (arith, v.size)));
    first = λ k h.
        ground (arith, job_at-set s.jobs i k new_job (omega (arith, v.size)), new k (omega arith));
  })

  -- On a valid job list and a process that is new to it: either no entry is free and the list stays
  -- as it is, or the job stands in an entry that was
  -- free, is found by its process id, has the next job number, and no other entry changed.
  pub addjob_lem :
      IsValid s.jobs
      → Absent s.jobs pid
      → let (ret, s') = addjob s pid state cmdline in
        ((ret ≡ 0) × (s'.jobs ≡ s.jobs) × ((k : ℕ) → k < maxjobs → pid_of s.jobs k ≢ 0))
        ⊎ ((i : ℕ) × (ret ≡ 1)
            × (pid_of s.jobs i ≡ 0)
            × (getjobpid s'.jobs pid ≡ some i)
            × (job_at s'.jobs i ≡ new_job)
            × (pid2jid s'.jobs pid ≡ s.nextjid)
            × ((k : ℕ) → i ≢ k → job_at s'.jobs k ≡ job_at s.jobs k))
  addjob_lem v new = elim (Option-cases (find_first (pid_is 0) s.jobs)) [
    | inl e ↦ inl (
      (addjob_full e).0,
      (addjob_full e).1,
      λ k h z. ground (arith, find_first-none (pid_is 0) s.jobs e k (omega (arith, v.size))),
    )
    | inr (i, e) ↦
        let found : FoundAt (pid_is 0) s.jobs i = find_first-some (pid_is 0) s.jobs i e in
        let lt : i < length s.jobs = found.within in
        let at : job_at (set s.jobs i new_job) i ≡ new_job = job_at-set_self s.jobs i new_job lt in
        let seen : find_first (pid_is pid) (set s.jobs i new_job) ≡ some i =
          new_job_found i v new (omega (arith, v.size)) in
        rw (addjob_free i e).1 (
          inr (
            i,
            (addjob_free i e).0,
            ground (arith, found.passes),
            getjobpid-eq (set s.jobs i new_job) pid pos ∙ seen,
            at,
            pid2jid-eq (set s.jobs i new_job) pid i pos seen ∙ ap (λ (j : Job). j.jid) at,
            λ k ne. job_at-set_ne s.jobs i k new_job ne,
          ))
  ]

module _ (s : Shell) (pid : ℕ) (pos : 0 < pid) where
  deletejob_found :
      (i : ℕ)
      → find_first (pid_is pid) s.jobs ≡ some i
      → deletejob s pid ≡ (
        1,
        record s { jobs = set s.jobs i clearjob; nextjid = maxjid (set s.jobs i clearjob) + 1 },
      )
  unfolding deletejob
  deletejob_found i e = ground arith

  deletejob_absent : find_first (pid_is pid) s.jobs ≡ none → deletejob s pid ≡ (0, s)
  unfolding deletejob
  deletejob_absent e = ground arith

  -- `deletejob` keeps a job list valid.
  pub deletejob-IsValid : IsValid s.jobs → IsValid (deletejob s pid).1.jobs
  deletejob-IsValid v = elim (Option-cases (find_first (pid_is pid) s.jobs)) [
    | inl e ↦ rw (deletejob_absent e) v
    | inr (i, e) ↦ rw (deletejob_found i e) (
        set-IsValid i clearjob v
          (omega (arith, (find_first-some (pid_is pid) s.jobs i e).within, v.size))
          (λ z. absurd (z refl)) (λ _. refl))
  ]

  -- On a valid job list: either the process has no job and nothing changes, or its entry is cleared, it has no job any
  -- more, every other entry is as before, and the next job number is above every number in use.
  pub deletejob_lem :
      IsValid s.jobs
      → ((Absent s.jobs pid) × (deletejob s pid ≡ (0, s)))
        ⊎ (let (ret, s') = deletejob s pid in
            (i : ℕ) × (pid_of s.jobs i ≡ pid)
            × (ret ≡ 1)
            × (job_at s'.jobs i ≡ clearjob)
            × Absent s'.jobs pid
            × ((k : ℕ) → i ≢ k → job_at s'.jobs k ≡ job_at s.jobs k)
            × ((k : ℕ) → k < maxjobs → jid_of s'.jobs k < s'.nextjid))
  deletejob_lem v = elim (Option-cases (find_first (pid_is pid) s.jobs)) [
    | inl e ↦ inl (
      λ k h z. ground (arith, find_first-none (pid_is pid) s.jobs e k (omega (arith, v.size))),
      deletejob_absent e,
    )
    | inr (i, e) ↦
        let found : FoundAt (pid_is pid) s.jobs i = find_first-some (pid_is pid) s.jobs i e in
        let own : pid_of s.jobs i ≡ pid = ground (arith, found.passes) in
        rw (deletejob_found i e) (
          inr (
            i,
            own,
            refl,
            job_at-set_self s.jobs i clearjob found.within,
            λ k h z. ground (
              arith,
              job_at-set s.jobs i k clearjob found.within,
              v.distinct k i,
              found.within,
              v.size,
            ),
            λ k ne. job_at-set_ne s.jobs i k clearjob ne,
            λ k h. omega (
              arith,
              jid-le-maxjid (set s.jobs i clearjob) k
                  (omega (arith, length-set s.jobs i clearjob, v.size)),
            ),
          ))
  ]
