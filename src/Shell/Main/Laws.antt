-- ===== src/Shell/Main/Laws.antt =====
-- The job list over a whole run of tsh.c.
use systems_programming.Base.{ℕ, ◌≡◌, ◌<◌, refl, Bool, true, false, some, List, [], ◌∷◌, CStr}
use systems_programming.Shell.Jobs.{Shell, initjobs, maxjobs, say}
use systems_programming.Shell.Jobs.Entries.{Absent, initjobs-IsValid, job_at-replicate}
use systems_programming.Shell.Parse.{Result, ok, fault, exit, ◌>>=◌, parseline}
use systems_programming.Shell.Signals.{deliver, Progress, returned, waiting}
use systems_programming.Shell.Signals.Stable.{Ensures, deliver-Q}
use systems_programming.Shell.Signals.Foreground.{IsIdle, IsIdle-stable}
use systems_programming.Shell.Eval.{eval}
use systems_programming.Shell.Eval.Builtin.{IsSettled, KeepsNamed}
use systems_programming.Shell.Eval.Laws.{eval-IsSettled}
use systems_programming.Shell.Main.{
  Flag, Input, arrives, command, end_of_file, read_error, options, show_prompt, read_lines,
  command_loop, globals, main,
}

-- While a run goes on: each `fork` returns a process id that is not on the job list at that time, and
-- no signal takes the job that an `fg` names off the list between its `kill` and its store into the
-- job's state.
abbrev pub AreRegular : Bool → Shell → List Input → Type 0
AreRegular emit_prompt s [] = Unit
AreRegular emit_prompt s (arrives signal ∷ inputs) =
    (s' : Shell) → deliver s signal ≡ ok s' → AreRegular emit_prompt s' inputs
AreRegular emit_prompt s (command cmdline w ∷ inputs) =
    ((pid : ℕ) → w.forked ≡ some pid → (0 < pid) × Absent s.jobs pid)
    × ((p : Bool × List CStr) → parseline cmdline ≡ ok p → KeepsNamed s w p.1)
    × ((s' : Shell)
        → eval s cmdline w ≡ ok (returned s')
        → AreRegular emit_prompt (show_prompt emit_prompt s') inputs)
AreRegular emit_prompt s (end_of_file ∷ inputs) = Unit
AreRegular emit_prompt s (read_error ∷ inputs) = Unit

show_prompt-jobs : (emit_prompt : Bool) (s : Shell) → (show_prompt emit_prompt s).jobs ≡ s.jobs
unfolding show_prompt say
show_prompt-jobs true s = refl
show_prompt-jobs false s = refl

bind-IsSettled :
    (r : Result Progress) (f : Progress → Result Progress)
    → ((s : Shell) → r ≡ ok (returned s) → IsIdle s.jobs → IsSettled (f (returned s)))
    → ((s : Shell) → f (waiting s) ≡ ok (waiting s))
    → IsSettled r
    → IsSettled (r >>= f)
bind-IsSettled (ok (returned s)) f go stay h = go s refl h
bind-IsSettled (ok (waiting s)) f go stay h = rw (stay s) h
bind-IsSettled fault f go stay h = tt
bind-IsSettled (exit c) f go stay h = tt

after_signal-IsSettled :
    (r : Result Shell) (f : Shell → Result Progress)
    → Ensures IsIdle r
    → ((s : Shell) → r ≡ ok s → IsIdle s.jobs → IsSettled (f s))
    → IsSettled (r >>= f)
after_signal-IsSettled (ok s) f h go = go s refl h
after_signal-IsSettled fault f h go = tt
after_signal-IsSettled (exit c) f h go = tt

read_lines-IsSettled :
    (emit_prompt : Bool) (s : Shell) (inputs : List Input)
    → IsIdle s.jobs
    → AreRegular emit_prompt s inputs
    → IsSettled (read_lines emit_prompt s inputs)
unfolding read_lines
read_lines-IsSettled emit_prompt s [] h regular = h
read_lines-IsSettled emit_prompt s (end_of_file ∷ inputs) h regular = tt
read_lines-IsSettled emit_prompt s (read_error ∷ inputs) h regular = tt
read_lines-IsSettled emit_prompt s (arrives signal ∷ inputs) h regular =
    after_signal-IsSettled (deliver s signal) _ (deliver-Q IsIdle IsIdle-stable s signal h)
      (λ s' e idle. read_lines-IsSettled emit_prompt s' inputs idle (regular s' e))
read_lines-IsSettled emit_prompt s (command cmdline w ∷ inputs) h (new, kept, next) =
    bind-IsSettled (eval s cmdline w) _
      (λ s' q idle.
        read_lines-IsSettled emit_prompt (show_prompt emit_prompt s') inputs
          (rw (show_prompt-jobs emit_prompt s') idle) (next s' q))
      (λ s'. refl) (eval-IsSettled s cmdline w h new kept)

command_loop-IsSettled :
    (emit_prompt : Bool) (s : Shell) (inputs : List Input)
    → IsIdle s.jobs
    → AreRegular emit_prompt (show_prompt emit_prompt s) inputs
    → IsSettled (command_loop emit_prompt s inputs)
command_loop-IsSettled emit_prompt s inputs h regular =
    read_lines-IsSettled emit_prompt (show_prompt emit_prompt s) inputs
      (rw (show_prompt-jobs emit_prompt s) h) regular

globals-IsIdle : IsIdle globals.jobs
unfolding initjobs
globals-IsIdle = record {
  valid = initjobs-IsValid;
  none_fg = λ i h. rw (job_at-replicate maxjobs i) refl;
}

after_options-IsSettled :
    (r : Result (Bool × Bool)) (f : Bool × Bool → Result Progress)
    → ((o : Bool × Bool) → IsSettled (f o))
    → IsSettled (r >>= f)
after_options-IsSettled (ok o) f h = h o
after_options-IsSettled fault f h = tt
after_options-IsSettled (exit c) f h = tt

-- Over a whole run, with any options, any lines and any signals, also those that arrive while the
-- shell waits for a line, if every `fork` returns a process id that is new to the job list and no
-- signal takes the job that an `fg` names off the list between its `kill` and its store into the
-- job's state: the job list stays valid; wherever the shell waits for a line no job is in the
-- foreground, and where it waits for a job only one process has one.
pub main-IsSettled :
    (flags : List Flag) (inputs : List Input)
    → ((v emit_prompt : Bool)
        → AreRegular emit_prompt (show_prompt emit_prompt (record globals { verbose = v })) inputs)
    → IsSettled (main flags inputs)
unfolding main
main-IsSettled flags inputs regular = after_options-IsSettled (options flags false true) _ (λ o.
    command_loop-IsSettled o.1 (record globals { verbose = o.0 }) inputs globals-IsIdle
      (regular o.0 o.1))
