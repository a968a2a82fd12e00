-- ===== src/Shell/Groups.antt =====
-- The processes that `eval` of tsh.c starts, behind `fork`, and the process groups to which the terminal
-- and the handlers of the shell send their signals. A step is one call of a process. The programs may
-- fork, but do not change their groups.
pub mod Keys
pub mod Session
use systems_programming.Base.{
  ℕ, suc, ◌<◌, ◌≡◌, ◌≢◌, ◌==◌, if◌then◌else◌, Bool, true, false, some, List, [], ◌∷◌, ◌++◌, map,
  length, take, drop, set, get_elem?, CStr, codes,
}
use systems_programming.Shell.Jobs.{Shell, Event, print, kill}
use systems_programming.Shell.Signals.{sigint, sigtstp, sigint_handler, sigtstp_handler}

-- Where a process stands between `fork` and the program. What stands behind `execve` runs if it fails.
pub data Stage : Type 0 where
  masked : Stage  -- before `sigprocmask`
  unmasked : Stage  -- before `setpgid`
  grouped : Stage  -- before `execve`
  runs : Stage  -- is the program
  not_found : Stage  -- before `printf`
  leaves : Stage  -- before `exit`

-- Whether the process still stands in the group of the shell.
abbrev pub early : Stage → Bool
early masked = true
early unmasked = true
early _ = false

-- `job` is the child of the shell that the process is or comes from, `got` the signals that were sent to it.
pub record Process : Type 0 where
  pub pid : ℕ
  pub group : ℕ
  pub stage : Stage
  pub command : CStr
  pub job : ℕ
  pub got : List ℕ

-- The group of the shell, the processes, and what they print.
pub record System : Type 0 where
  pub shell_group : ℕ
  pub procs : List Process
  pub printed : CStr

-- A child is a copy of the shell, in its group.
abbrev pub child : ℕ → ℕ → CStr → Process
child group pid command = record {
  pid = pid;
  group = group;
  stage = masked;
  command = command;
  job = pid;
  got = [];
}

abbrev pub put : System → ℕ → Process → System
put s i p = record s { procs = set s.procs i p }

-- A signal for all processes of a group.
unfoldable pub send_group : ℕ → ℕ → List Process → List Process
send_group group signal procs =
    map (λ p. if p.group == group then record p { got = p.got ++ (signal ∷ []) } else p) procs

-- A number that the kernel gives to a new process: no process and no group has it.
pub record Fresh (s : System) (pid : ℕ) : Type 0 where
  pub positive : 0 < pid
  pub not_shell : pid ≢ s.shell_group
  pub unused :
      (i : ℕ) (p : Process) → get_elem? s.procs i ≡ some p → (pid ≢ p.pid) × (pid ≢ p.group)

pub data Step (s : System) : System → Type 0 where
  fork :
      (pid : ℕ) (command : CStr)
      → Fresh s pid
      → Step s (record s { procs = s.procs ++ (child s.shell_group pid command ∷ []) })
  unmask :
      (i : ℕ) (p : Process)
      → get_elem? s.procs i ≡ some p
      → p.stage ≡ masked
      → Step s (put s i (record p { stage = unmasked }))
  setpgid :
      (i : ℕ) (p : Process)
      → get_elem? s.procs i ≡ some p
      → p.stage ≡ unmasked
      → Step s (put s i (record p { stage = grouped; group = p.pid }))
  execve_succeeds :
      (i : ℕ) (p : Process)
      → get_elem? s.procs i ≡ some p
      → p.stage ≡ grouped
      → Step s (put s i (record p { stage = runs }))
  execve_fails :
      (i : ℕ) (p : Process)
      → get_elem? s.procs i ≡ some p
      → p.stage ≡ grouped
      → Step s (put s i (record p { stage = not_found }))
  prints :
      (i : ℕ) (p : Process)
      → get_elem? s.procs i ≡ some p
      → p.stage ≡ not_found
      → Step s (record s {
        procs = set s.procs i (record p { stage = leaves });
        printed = s.printed ++ (p.command ++ codes ": Command not found\n");
      })
  program_forks :
      (i : ℕ) (p : Process) (pid : ℕ)
      → get_elem? s.procs i ≡ some p
      → p.stage ≡ runs
      → Fresh s pid
      → Step s (record s { procs = s.procs ++ (record p { pid = pid; got = [] } ∷ []) })
  -- `exit`, the end of a program, or a signal that kills the process.
  ends : (i : ℕ) → Step s (record s { procs = take i s.procs ++ drop (suc i) s.procs })
  sends : (group signal : ℕ) → Step s (record s { procs = send_group group signal s.procs })

pub data Reach : System → Type 0 where
  start : (group : ℕ) → Reach (record { shell_group = group; procs = []; printed = [] })
  later : {s t : System} → Reach s → Step s t → Reach t

-- The keys that the terminal turns into signals for the group of the shell.
pub data Key : Type 0 where
  ctrl_c ctrl_z : Key

abbrev pub signal_of : Key → ℕ
signal_of ctrl_c = sigint
signal_of ctrl_z = sigtstp

abbrev pub handler_of : Key → Shell → Shell
handler_of ctrl_c = sigint_handler
handler_of ctrl_z = sigtstp_handler

-- `kill(-group, signal)` for what a handler has sent.
unfoldable pub do_events : List Event → List Process → List Process
do_events [] procs = procs
do_events (print text ∷ events) procs = do_events events procs
do_events (kill group signal ∷ events) procs = do_events events (send_group group signal procs)

-- The processes behind what the shell has done since it was `old`.
abbrev pub carry_out : Shell → Shell → System → System
carry_out old new s = record s { procs = do_events (drop (length old.events) new.events) s.procs }

-- A key: its signal goes to the group of the shell, and the handler of the shell sends it on.
unfoldable pub press : Key → Shell → System → System
press key sh s =
    carry_out sh (handler_of key sh)
      (record s { procs = send_group s.shell_group (signal_of key) s.procs })
