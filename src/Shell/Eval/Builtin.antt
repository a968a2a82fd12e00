-- ===== src/Shell/Eval/Builtin.antt =====
-- What `do_bgfg` and `continue_job` of tsh.c leave of the foreground.
use systems_programming.Base.{
  ℕ, ◌^◌, ◌<◌, ◌≡◌, ltb, some, List, [], ◌∷◌, set, length, arith, Bool-cases, Option-cases, inl,
  inr, CStr, codes, str_eq, refl, true, subst,
}
use systems_programming.Shell.Jobs.{
  Job, fg, bg, Shell, job_at, maxjobs, pid_is, getjobpid, getjobjid, jid_is, say,
}
use systems_programming.Shell.Jobs.Find.{find_first-some, job_at-set}
use systems_programming.Shell.Jobs.Entries.{restate-IsValid, pid_of}
use systems_programming.Shell.Parse.{Result, ok, fault, exit, ◌>>=◌, isnum, atoi}
use systems_programming.Shell.Signals.{
  deliver_all, Progress, returned, waiting, set_state, sigcont, waitfg,
}
use systems_programming.Shell.Signals.Foreground.{
  IsIdle, IsBusy, IsIdle-stable, Settled, waitfg-Settled,
}
use systems_programming.Shell.Signals.Stable.{Ensures, deliver_all-Q}
use systems_programming.Shell.Eval.{
  Target, job_number, process, target, find_target, continue_job, do_bgfg, signal_group,
  target_text, line_of, World,
}

-- A command is over with no job in the foreground, or waits for the one process that is.
abbrev pub IsSettled : Result Progress → Type 0
IsSettled (ok (returned s)) = IsIdle s.jobs
IsSettled (ok (waiting s)) = (pid : ℕ) × IsBusy pid s.jobs
IsSettled _ = Unit

pub IsSettled-of : (pid : ℕ) (r : Result Progress) → Settled pid r → IsSettled r
IsSettled-of pid (ok (returned s)) h = h
IsSettled-of pid (ok (waiting s)) h = (pid, h)
IsSettled-of pid fault h = tt
IsSettled-of pid (exit c) h = tt

-- Putting a job into the foreground, or into the background, where no job is in the foreground.
set_fg-IsBusy :
    (js : List Job) (i : ℕ)
    → i < maxjobs
    → IsIdle js
    → IsBusy (pid_of js i) (set js i (record (job_at js i) { state = fg }))
set_fg-IsBusy js i lt q = record {
  valid = restate-IsValid i fg q.valid lt;
  only_fg = λ k h e. ground (
    arith,
    job_at-set js i k (record (job_at js i) { state = fg }) (omega (arith, q.valid.size)),
    q.none_fg k,
  );
}

set_bg-IsIdle :
    (js : List Job) (i : ℕ)
    → i < maxjobs
    → IsIdle js
    → IsIdle (set js i (record (job_at js i) { state = bg }))
set_bg-IsIdle js i lt q = record {
  valid = restate-IsValid i bg q.valid lt;
  none_fg = λ k h. ground (
    arith,
    job_at-set js i k (record (job_at js i) { state = bg }) (omega (arith, q.valid.size)),
    q.none_fg k,
  );
}

pub bind-IsSettled :
    (Q : List Job → Type 0) (m : Result Shell) (f : Shell → Result Progress)
    → Ensures Q m
    → ((s : Shell) → m ≡ ok s → Q s.jobs → IsSettled (f s))
    → IsSettled (m >>= f)
bind-IsSettled Q (ok s) f h k = k s refl h
bind-IsSettled Q fault f h k = tt
bind-IsSettled Q (exit c) f h k = tt

-- No signal between `kill` and the store into its state takes the job at index `i` off the list.
abbrev IsKept : Shell → World → ℕ → Type 0
IsKept s w i =
    (s' t : Shell)
    → deliver_all s w.found ≡ ok s'
    → deliver_all (signal_group s' (pid_of s'.jobs i) sigcont) w.continued ≡ ok t
    → pid_of t.jobs i ≡ pid_of s'.jobs i

-- The same for the job that the arguments of `fg` name.
abbrev NamedIsKept : Shell → World → CStr → List CStr → Type 0
NamedIsKept s w cmd [] = Unit
NamedIsKept s w cmd (arg ∷ rest) =
    (i : ℕ)
    → str_eq cmd (codes "fg") ≡ true
    → find_target s.jobs (target arg) ≡ some i
    → IsKept s w i

abbrev pub KeepsNamed : Shell → World → List CStr → Type 0
KeepsNamed s w [] = Unit
KeepsNamed s w (cmd ∷ args) = NamedIsKept s w cmd args

module _ (s : Shell) (cmd : CStr) (i : ℕ) (w : World) (lt : i < maxjobs) (q : IsIdle s.jobs)
    (kept : str_eq cmd (codes "fg") ≡ true → IsKept s w i) where
  continued-IsIdle :
      (s' : Shell)
      → IsIdle s'.jobs
      → Ensures IsIdle (deliver_all (signal_group s' (pid_of s'.jobs i) sigcont) w.continued)
  continued-IsIdle s' q' =
      deliver_all-Q IsIdle IsIdle-stable (signal_group s' (pid_of s'.jobs i) sigcont) w.continued q'

  set_fg-IsSettled :
      str_eq cmd (codes "fg") ≡ true
      → (s' : Shell) → deliver_all s w.found ≡ ok s'
      → IsIdle s'.jobs
      → IsSettled (
          deliver_all (signal_group s' (pid_of s'.jobs i) sigcont) w.continued >>= λ t.
          waitfg (set_state t i fg) (pid_of s'.jobs i) w.rounds)
  set_fg-IsSettled is_fg s' e q' =
      bind-IsSettled IsIdle (deliver_all (signal_group s' (pid_of s'.jobs i) sigcont) w.continued)
        (λ t. waitfg (set_state t i fg) (pid_of s'.jobs i) w.rounds) (continued-IsIdle s' q')
        (λ t e' idle. IsSettled-of (pid_of s'.jobs i) _ (
          waitfg-Settled (set_state t i fg) (pid_of s'.jobs i) w.rounds (
            subst (λ p. IsBusy p (set_state t i fg).jobs) (kept is_fg s' t e e')
              (set_fg-IsBusy t.jobs i lt idle))))

  continue_job-IsSettled : IsSettled (continue_job s cmd i w)
  unfolding continue_job say
  continue_job-IsSettled =
      bind-IsSettled IsIdle (deliver_all s w.found) _
        (deliver_all-Q IsIdle IsIdle-stable s w.found q)
        (λ s' e q'. elim (Bool-cases (str_eq cmd (codes "bg"))) [
          | inl is_bg ↦ rw is_bg (
              bind-IsSettled IsIdle
                (deliver_all (signal_group s' (pid_of s'.jobs i) sigcont) w.continued)
                (λ t. ok (returned (say (set_state t i bg) (line_of (job_at t.jobs i)))))
                (continued-IsIdle s' q') (λ t e' idle. set_bg-IsIdle t.jobs i lt idle))
          | inr not_bg ↦ elim (Bool-cases (str_eq cmd (codes "fg"))) [
            | inl is_fg ↦ rw (not_bg, is_fg) (set_fg-IsSettled is_fg s' e q')
            | inr not_fg ↦ rw (not_bg, not_fg) q'
          ]
        ])

pub getjobpid-within : (js : List Job) (pid i : ℕ) → getjobpid js pid ≡ some i → i < length js
unfolding getjobpid
getjobpid-within js pid i h = elim (Bool-cases (ltb pid 1)) [
  | inl e ↦ absurd (ground arith)
  | inr e ↦ (find_first-some (pid_is pid) js i (ground arith)).within
]

getjobjid-within : (js : List Job) (jid i : ℕ) → getjobjid js jid ≡ some i → i < length js
unfolding getjobjid
getjobjid-within js jid i h = elim (Bool-cases (ltb jid 1)) [
  | inl e ↦ absurd (ground arith)
  | inr e ↦ (find_first-some (jid_is jid) js i (ground arith)).within
]

find_target-within :
    (js : List Job) (t : Target) (i : ℕ) → find_target js t ≡ some i → i < length js
find_target-within js (job_number s) i h = getjobjid-within js (atoi s) i h
find_target-within js (process s) i h = getjobpid-within js (atoi s) i h

pub do_bgfg-IsSettled :
    (s : Shell) (cmd : CStr) (args : List CStr) (w : World)
    → IsIdle s.jobs
    → NamedIsKept s w cmd args
    → IsSettled (do_bgfg s cmd args w)
unfolding do_bgfg say
do_bgfg-IsSettled s cmd [] w q kept = q
do_bgfg-IsSettled s cmd (arg ∷ rest) w q kept =
    elim (Bool-cases (isnum (target_text (target arg)))) [
      | inr e ↦ rw e q
      | inl e ↦ elim (Bool-cases (ltb (atoi (target_text (target arg))) (2 ^ 31))) [
        | inr p ↦ rw (e, p) tt
        | inl p ↦ elim (Option-cases (find_target s.jobs (target arg))) [
          | inl r ↦ rw (e, p, r) q
          | inr (i, r) ↦
              rw (e, p, r)
                (continue_job-IsSettled s cmd i w
                  (omega (arith, find_target-within s.jobs (target arg) i r, q.valid.size)) q
                  (λ f. kept i f r))
        ]
      ]
    ]
