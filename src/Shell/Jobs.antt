-- ===== src/Shell/Jobs.antt =====
-- The job list of tsh.c. The array `jobs` is a list, a `struct job_t *` into it is an index, and
-- NULL is `none`. Process ids are the numbers that `fork` and `waitpid` return on success.
pub mod Find
pub mod Valid
pub mod Numbers
pub mod Entries
use systems_programming.Base.{
  ℕ, zero, suc, ◌+◌, ◌-◌, ◌==◌, ltb, leb, if◌then◌else◌, Bool, true, false, not, ◌&&◌, Option, none,
  some, List, [], ◌∷◌, ◌++◌, set, replicate, CStr, codes, decimal,
}
use mathlib.Core.Option

-- The states `UNDEF`, `FG`, `BG` and `ST` of a job.
pub data JobState : Type 0 where
  undef fg bg st : JobState

-- `struct job_t`
pub record Job : Type 0 where
  pub pid : ℕ
  pub jid : ℕ
  pub state : JobState
  pub cmdline : CStr

-- What the shell does that can be seen from outside, in order.
pub data Event : Type 0 where
  print : CStr → Event
  kill : (group signal : ℕ) → Event

-- The globals of the shell, and what it has done.
pub record Shell : Type 0 where
  pub jobs : List Job
  pub nextjid : ℕ
  pub verbose : Bool
  pub events : List Event

abbrev pub maxjobs : ℕ
maxjobs = 16

-- `clearjob`, and the entries of the global array before it.
abbrev pub clearjob : Job
clearjob = record { pid = 0; jid = 0; state = undef; cmdline = [] }

unfoldable pub initjobs : List Job
initjobs = replicate maxjobs clearjob

-- `maxjid`, the loop with its running maximum.
maxjid_from : ℕ → List Job → ℕ
maxjid_from m [] = m
maxjid_from m (j ∷ js) = maxjid_from (if ltb m j.jid then j.jid else m) js

unfoldable pub maxjid : List Job → ℕ
unfolding maxjid_from
maxjid jobs = maxjid_from 0 jobs

-- The loops `for (i = 0; i < MAXJOBS; i++) if (test(jobs[i])) return …`: the index they stop at.
unfoldable pub find_first : (Job → Bool) → List Job → Option ℕ
find_first test [] = none
find_first test (j ∷ js) = if test j then some 0 else Option.map suc (find_first test js)

abbrev pub is_fg : JobState → Bool
is_fg fg = true
is_fg _ = false

abbrev pub pid_is : ℕ → Job → Bool
pid_is pid j = j.pid == pid

abbrev pub jid_is : ℕ → Job → Bool
jid_is jid j = j.jid == jid

abbrev pub job_at : List Job → ℕ → Job
job_at [] i = clearjob
job_at (j ∷ js) zero = j
job_at (j ∷ js) (suc i) = job_at js i

unfoldable pub say : Shell → CStr → Shell
say s text = record s { events = s.events ++ (print text ∷ []) }

added_text : Job → CStr
added_text j =
    codes "Added job ["
    ++ (decimal j.jid
        ++ (codes "] " ++ (decimal j.pid ++ (codes " " ++ (j.cmdline ++ codes "\n")))))

-- `addjob`: the number that it returns, and the shell.
unfoldable pub addjob : Shell → ℕ → JobState → CStr → ℕ × Shell
unfolding say added_text
addjob s pid state cmdline = if ltb pid 1 then (0, s) else elim (find_first (pid_is 0) s.jobs) [
  | none ↦ (0, say s (codes "Tried to create too many jobs\n"))
  | some i ↦
      let job : Job = record { pid = pid; jid = s.nextjid; state = state; cmdline = cmdline } in
      let next : ℕ = if ltb maxjobs (s.nextjid + 1) then 1 else s.nextjid + 1 in
      let s' : Shell = record s { jobs = set s.jobs i job; nextjid = next } in
      (1, if s.verbose then say s' (added_text job) else s')
]

-- `deletejob`
unfoldable pub deletejob : Shell → ℕ → ℕ × Shell
deletejob s pid = if ltb pid 1 then (0, s) else elim (find_first (pid_is pid) s.jobs) [
  | none ↦ (0, s)
  | some i ↦
      let jobs : List Job = set s.jobs i clearjob in
      (1, record s { jobs = jobs; nextjid = maxjid jobs + 1 })
]

-- `fgpid`
unfoldable pub fgpid : List Job → ℕ
fgpid jobs = elim (find_first (λ j. is_fg j.state) jobs) [ none ↦ 0 | some i ↦ (job_at jobs i).pid ]

-- `getjobpid`
unfoldable pub getjobpid : List Job → ℕ → Option ℕ
getjobpid jobs pid = if ltb pid 1 then none else find_first (pid_is pid) jobs

-- `getjobjid`
unfoldable pub getjobjid : List Job → ℕ → Option ℕ
getjobjid jobs jid = if ltb jid 1 then none else find_first (jid_is jid) jobs

-- `pid2jid`
unfoldable pub pid2jid : List Job → ℕ → ℕ
pid2jid jobs pid =
    if ltb pid 1
    then 0
    else elim (find_first (pid_is pid) jobs) [ none ↦ 0 | some i ↦ (job_at jobs i).jid ]

state_text : ℕ → JobState → CStr
state_text i bg = codes "Running "
state_text i fg = codes "Foreground "
state_text i st = codes "Stopped "
state_text i undef =
    codes "listjobs: Internal error: job["
    ++ (decimal i ++ (codes "].state=" ++ (decimal 0 ++ codes " ")))

-- `listjobs`: what is printed from index `i` on.
listjobs_from : ℕ → List Job → CStr
listjobs_from i [] = []
listjobs_from i (j ∷ js) =
    (if j.pid == 0
      then []
      else codes "["
        ++ (decimal j.jid
            ++ (codes "] ("
                ++ (decimal j.pid ++ (codes ") " ++ (state_text i j.state ++ j.cmdline))))))
    ++ listjobs_from (i + 1) js

unfoldable pub listjobs : Shell → Shell
unfolding say listjobs_from state_text
listjobs s = say s (listjobs_from 0 s.jobs)
