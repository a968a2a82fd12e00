-- ===== src/Shell/Groups/Session.antt =====
-- The shell of tsh.c together with its processes: the calls of `eval` around `fork`, the signals that the
-- shell catches, the jobs that it continues and the keys, in any order with the steps of the processes.
pub mod Reached
use systems_programming.Base.{
  ℕ, zero, suc, ◌<◌, ◌≡◌, ◌≢◌, refl, sym, ap, ◌∙◌, ltb, inl, inr, Bool, Option, Option-cases, none,
  some, List, [], ◌∷◌, ◌++◌, map, length, drop, set, replicate, CStr, arith, subst,
}
use systems_programming.Shell.Jobs.{
  Job, JobState, Shell, Event, print, kill, clearjob, initjobs, job_at, find_first, pid_is, is_fg,
  fgpid, addjob,
}
use systems_programming.Shell.Jobs.Valid.{addjob_free, addjob_full, new_job}
use systems_programming.Shell.Parse.{ok}
use systems_programming.Shell.Signals.{
  Signal, sigcont, set_state, deliver_all, sigint_handler, sigtstp_handler,
}
use systems_programming.Shell.Signals.Stable.{IsStable, Ensures, deliver_all-Q}
use systems_programming.Shell.Eval.{signal_group}
use systems_programming.Shell.Groups.{
  System, Process, child, send_group, Fresh, Step, fork, unmask, setpgid, execve_succeeds,
  execve_fails, prints, program_forks, ends, sends, Reach, start, later, Key, ctrl_c, ctrl_z,
  signal_of, handler_of, do_events, carry_out, press,
}
use systems_programming.Shell.Groups.Keys.{reached, press-reached}

-- `born` is what `fork` has returned, up to `addjob`.
pub record Session : Type 0 where
  pub shell : Shell
  pub system : System
  pub born : Option ℕ

pub data Move (x : Session) : Session → Type 0 where
  processes : {t : System} → Step x.system t → Move x (record x { system = t })
  forks :
      (pid : ℕ) (command : CStr)
      → Fresh x.system pid
      → Move x (record x {
        system = record x.system {
          procs = x.system.procs ++ (child x.system.shell_group pid command ∷ []);
        };
        born = some pid;
      })
  adds :
      (pid : ℕ) (state : JobState) (cmdline : CStr)
      → x.born ≡ some pid
      → Move x (record x { shell = (addjob x.shell pid state cmdline).1; born = none })
  catches :
      (signals : List Signal) (shell : Shell)
      → deliver_all x.shell signals ≡ ok shell
      → Move x (record x { shell = shell; system = carry_out x.shell shell x.system })
  -- `do_bgfg`, on the job at index `i`.
  continues :
      (i : ℕ) (state : JobState)
      → Move x (record x {
        shell = set_state (signal_group x.shell (job_at x.shell.jobs i).pid sigcont) i state;
        system = record x.system {
          procs = send_group (job_at x.shell.jobs i).pid sigcont x.system.procs;
        };
      })
  presses :
      (key : Key)
      → Move x (record x { shell = handler_of key x.shell; system = press key x.shell x.system })

-- The shell before its loop, as the leader of its group.
pub data Run : Session → Type 0 where
  begin :
      (group : ℕ) (verbose : Bool)
      → 0 < group
      → Run (record {
        shell = record { jobs = initjobs; nextjid = 1; verbose = verbose; events = [] };
        system = record { shell_group = group; procs = []; printed = [] };
        born = none;
      })
  then : {x y : Session} → Run x → Move x y → Run y
