-- ===== src/Tests/Runs.antt =====
-- Commands that the shell runs from its start, and those that it does not survive.
use systems_programming.Base.{
  inr, subst, sym, ◌∙◌, Bool, ℕ, ◌<◌, ◌≡◌, ◌≢◌, refl, true, false, none, some, List, [], ◌∷◌, arith,
  ap, CStr, codes, str_eq,
}
use systems_programming.Shell.Jobs.{
  say, Job, Shell, initjobs, job_at, maxjobs, addjob, fgpid, find_first,
}
use systems_programming.Shell.Jobs.Entries.{Absent, pid_of}
use systems_programming.Shell.Parse.{
  ok, fault, parseline, blank_last, args_from, next_arg, skip_spaces, split_at, strip_amp,
}
use systems_programming.Shell.Signals.{chld, int, signaled, waiting, waitfg, returned, Signal}
use systems_programming.Shell.Signals.Unhandled.{waitfg_forever}
use systems_programming.Shell.Eval.{World, eval, builtin_cmd}
use systems_programming.Shell.Eval.Builtin.{IsSettled, KeepsNamed}
use systems_programming.Shell.Eval.Laws.{eval-IsSettled}
use systems_programming.Shell.Eval.Waits.{exit_of}
use systems_programming.Shell.Eval.Runs.{eval_foreground_exits, eval_background_race}
use systems_programming.Shell.Main.{
  Input, show_prompt, arrives, command, end_of_file, quiet, globals, main,
}
use systems_programming.Shell.Main.Laws.{AreRegular, main-IsSettled}
use systems_programming.Tests.Commands.{start_shell, free_entry, none_has, IsIdle-start, one_job}

abbrev exits_later : World
exits_later = record {
  forked = some 100;
  pending = [];
  rounds = [] ∷ exit_of 100 0 ∷ [];
  found = [];
  continued = [];
}

abbrev exits_at_once : World
exits_at_once = record {
  forked = some 100;
  pending = exit_of 100 0;
  rounds = [];
  found = [];
  continued = [];
}

abbrev silent : World
silent = record { forked = some 100; pending = []; rounds = []; found = []; continued = [] }

abbrev ls : List CStr
ls = codes "ls" ∷ []

new_pid : (pid : ℕ) → some 100 ≡ some pid → (0 < pid) × Absent initjobs pid
new_pid pid e = let z : 100 ≡ pid = ground arith in (omega arith, none_has pid (omega arith))

ls_words : parseline (codes "ls\n") ≡ ok (false, ls)
unfolding parseline blank_last args_from next_arg skip_spaces split_at strip_amp
ls_words = refl

ls_behind : parseline (codes "ls &\n") ≡ ok (true, ls)
unfolding parseline blank_last args_from next_arg skip_spaces split_at strip_amp
ls_behind = refl

no_names :
    (s : Shell) (w : World) (p : Bool × List CStr)
    → parseline (codes "ls\n") ≡ ok p
    → KeepsNamed s w p.1
no_names s w p e =
    let joined : ok (false, ls) ≡ ok p = sym ls_words ∙ e in
    let same : (false, ls) ≡ p = cc in subst (λ (q : Bool × List CStr). KeepsNamed s w q.1) same tt

eval-IsSettled_example : IsSettled (eval start_shell (codes "ls\n") exits_later)
eval-IsSettled_example =
    eval-IsSettled start_shell (codes "ls\n") exits_later IsIdle-start new_pid
      (no_names start_shell exits_later)

ls_not_builtin : (w : World) → builtin_cmd start_shell ls w ≡ ok none
unfolding builtin_cmd str_eq
ls_not_builtin w = refl

eval_foreground_exits_example :
    (s' : Shell) × (eval start_shell (codes "ls\n") exits_later ≡ ok (returned s'))
    × Absent s'.jobs 100
    × ((k : ℕ) → k < maxjobs → pid_of initjobs k ≢ 0 → job_at s'.jobs k ≡ job_at initjobs k)
eval_foreground_exits_example =
    eval_foreground_exits start_shell (codes "ls\n") exits_later ls 100 0 [] IsIdle-start
      (omega arith) (none_has 100 (omega arith)) (ls_not_builtin exits_later) refl 0 1 (omega arith)
      (ap (λ (j : Job). j.pid) (free_entry 0)) ls_words (inr (refl, refl))

eval_background_race_example : eval start_shell (codes "ls &\n") exits_at_once ≡ fault
eval_background_race_example =
    eval_background_race start_shell (codes "ls &\n") exits_at_once ls 100 0 [] IsIdle-start
      (omega arith) (none_has 100 (omega arith)) (ls_not_builtin exits_at_once) refl ls_behind refl

fg_is_100 : fgpid one_job.jobs ≡ 100
unfolding fgpid addjob initjobs find_first
fg_is_100 = refl

abbrev killed : List (List Signal)
killed = (chld ((100, signaled 9) ∷ []) ∷ []) ∷ [] ∷ []

waitfg_forever_example :
    (s' : Shell) × (waitfg one_job 100 killed ≡ ok (waiting s')) × (s'.jobs ≡ one_job.jobs)
waitfg_forever_example =
    waitfg_forever one_job 100 killed fg_is_100 (((λ e. omega arith, tt), tt), (tt, tt))

-- A command, and then a key at the prompt.
abbrev session : List Input
session = command (codes "ls\n") exits_later ∷ arrives int ∷ end_of_file ∷ []

session-AreRegular :
    (v emit_prompt : Bool)
    → AreRegular emit_prompt (show_prompt emit_prompt (record globals { verbose = v })) session
unfolding initjobs show_prompt say
session-AreRegular v true = (new_pid, no_names _ exits_later, λ s' e s'' e'. tt)
session-AreRegular v false = (new_pid, no_names _ exits_later, λ s' e s'' e'. tt)

main-IsSettled_example : IsSettled (main (quiet ∷ []) session)
main-IsSettled_example = main-IsSettled (quiet ∷ []) session session-AreRegular
