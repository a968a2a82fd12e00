-- ===== src/Tests/Keys.antt =====
-- A key while the job 100 is in the foreground behind `setpgid`, and the process 101 has only been forked.
use systems_programming.Base.{
  ℕ, false, ◌≢◌, ◌≡◌, refl, map, suc, zero, [], ◌∷◌, some, get_elem?, codes, arith,
}
use systems_programming.Shell.Jobs.{fg, fgpid}
use systems_programming.Shell.Groups.{
  Process, grouped, child, Fresh, unmask, setpgid, press, ctrl_c,
}
use systems_programming.Shell.Groups.Keys.{reached}
use systems_programming.Shell.Groups.Session.{Session, processes, forks, adds, Run, begin, then}
use systems_programming.Shell.Groups.Session.Reached.{run-reached}

abbrev foreground : Process
foreground = record (child 7 100 (codes "ls")) { stage = grouped; group = 100 }

first-Fresh : Fresh (record { shell_group = 7; procs = []; printed = [] }) 100
first-Fresh = record { positive = omega arith; not_shell = λ e. omega arith; unused = λ i p e. cc }

second-Fresh : Fresh (record { shell_group = 7; procs = foreground ∷ []; printed = [] }) 101
second-Fresh = record { positive = omega arith; not_shell = λ e. omega arith; unused = other }
  where
    other :
        (i : ℕ) (p : Process)
        → get_elem? (foreground ∷ []) i ≡ some p
        → (101 ≢ p.pid) × (101 ≢ p.group)
    other zero p e = ground arith
    other (suc i) p e = cc

-- The first job is in the list; the second has only been forked.
session : (x : Session) × Run x
session = (
  _,
  then
      (then
        (then
          (then (then (begin 7 false (omega arith)) (forks 100 (codes "ls") first-Fresh))
            (adds 100 fg (codes "ls\n") refl))
          (processes (unmask 0 _ refl refl)))
        (processes (setpgid 0 _ refl refl)))
      (forks 101 (codes "cat") second-Fresh),
)

run-reached_example :
    (press ctrl_c session.0.shell session.0.system).procs
    ≡ map (reached 2 (fgpid session.0.shell.jobs)) session.0.system.procs
run-reached_example = run-reached ctrl_c session.1
