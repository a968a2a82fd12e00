-- ===== src/Shell/Eval/Faults.antt =====
-- Command lines and states on which `eval` of tsh.c goes through a NULL pointer.
use systems_programming.Base.{
  ℕ, zero, suc, ◌<◌, ◌≡◌, ◌≢◌, refl, true, none, some, List, [], ◌∷◌, ◌++◌, length, arith, ◌∙◌, ap,
  CStr, replicate,
}
use systems_programming.Shell.Jobs.{bg, Shell, maxjobs, pid_is, find_first, getjobpid, addjob}
use systems_programming.Shell.Jobs.Find.{find_first-eq-none}
use systems_programming.Shell.Jobs.Entries.{Absent, pid_of}
use systems_programming.Shell.Jobs.Valid.{addjob_full}
use systems_programming.Shell.Parse.{
  ok, fault, parseline, blank_last, skip_spaces, args_from, strip_amp,
}
use systems_programming.Shell.Parse.RoundTrip.{blank_last-append, args_from-nil, parseline_lem}
use systems_programming.Shell.Signals.{deliver_all}
use systems_programming.Shell.Eval.{builtin_cmd, World, finish, launch, eval}
use systems_programming.Shell.Eval.Waits.{eval-launch, Absent-getjobpid}

-- A line of spaces and its newline.
abbrev pub blank_line : ℕ → CStr
blank_line n = replicate n b' ' ++ (10 ∷ [])

blank_last-blank : (n : ℕ) → blank_last (blank_line n) ≡ some (replicate n b' ' ++ (b' ' ∷ []))
unfolding blank_last
blank_last-blank n = blank_last-append (replicate n b' ') (10 ∷ []) (b' ' ∷ []) refl

skip_spaces-blank : (n : ℕ) → skip_spaces (replicate n b' ' ++ (b' ' ∷ [])) ≡ []
unfolding skip_spaces
skip_spaces-blank zero = refl
skip_spaces-blank (suc n) = skip_spaces-blank n

-- `parseline` takes a blank line for a background job with no arguments.
parseline-blank : (n : ℕ) → parseline (blank_line n) ≡ ok (true, [])
unfolding strip_amp
parseline-blank n =
    parseline_lem (blank_line n) (replicate n b' ' ++ (b' ' ∷ [])) [] (blank_last-blank n) (
      ap (args_from (suc (length (replicate n b' ' ++ (b' ' ∷ []))))) (skip_spaces-blank n)
      ∙ args_from-nil (suc (length (replicate n b' ' ++ (b' ' ∷ [])))))

-- Every blank line, the empty one included, makes `builtin_cmd` compare the NULL in `argv[0]`.
pub eval-blank_line : (n : ℕ) (s : Shell) (w : World) → eval s (blank_line n) w ≡ fault
unfolding eval builtin_cmd
eval-blank_line n s w = rw (parseline-blank n)

-- A background command that is not built in, with no entry left in the job list, a process that is
-- new to it and no signal pending: `addjob` fails, nobody looks at its result, and `eval` reads
-- through the NULL pointer that `getjobpid` returns.
pub eval_background_full :
    (s : Shell) (cmdline : CStr) (w : World) (cmd : List CStr) (pid : ℕ)
    → length s.jobs ≡ maxjobs
    → ((k : ℕ) → k < maxjobs → pid_of s.jobs k ≢ 0)
    → 0 < pid
    → Absent s.jobs pid
    → builtin_cmd s cmd w ≡ ok none
    → w.forked ≡ some pid
    → w.pending ≡ []
    → parseline cmdline ≡ ok (true, cmd)
    → eval s cmdline w ≡ fault
unfolding launch finish deliver_all
eval_background_full s cmdline w cmd pid size full pos new not_builtin child quiet e =
    let same : (addjob s pid bg cmdline).1.jobs ≡ s.jobs =
      (addjob_full s pid bg cmdline pos no_free).1 in
    eval-launch s cmdline w cmd pid true not_builtin child e
    ∙ rw quiet
        (rw (ap (λ js. getjobpid js pid) same ∙ Absent-getjobpid s.jobs pid pos size new, finish))
  where
    no_free : find_first (pid_is 0) s.jobs ≡ none
    no_free = find_first-eq-none (pid_is 0) s.jobs (λ k lt. ground (arith, full k (omega arith)))
