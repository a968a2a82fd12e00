-- ===== src/Shell/Main.antt =====
-- `main` of tsh.c: the options, and the loop that reads and evaluates lines.
pub mod Laws
use systems_programming.Base.{if◌then◌else◌, Bool, true, false, List, [], ◌∷◌, CStr, codes}
use systems_programming.Shell.Jobs.{Shell, initjobs, say}
use systems_programming.Shell.Parse.{Result, ok, exit, ◌>>=◌}
use systems_programming.Shell.Signals.{Signal, deliver, Progress, returned, waiting}
use systems_programming.Shell.Eval.{World, eval}

-- What `getopt` returns: `-h`, `-v`, `-p`, or something else.
pub data Flag : Type 0 where
  help verbose quiet unknown : Flag

-- What happens while the shell waits in `fgets`: a signal arrives, whose handler runs before `fgets`
-- goes on, or `fgets` returns: a line, with what happens while it runs, the end of the file, or an
-- error.
pub data Input : Type 0 where
  arrives : Signal → Input
  command : CStr → World → Input
  end_of_file : Input
  read_error : Input

-- The loop over the options: `verbose` and `emit_prompt`. `usage` exits with 1.
unfoldable pub options : List Flag → Bool → Bool → Result (Bool × Bool)
options [] v emit_prompt = ok (v, emit_prompt)
options (verbose ∷ flags) v emit_prompt = options flags true emit_prompt
options (quiet ∷ flags) v emit_prompt = options flags v false
options (help ∷ flags) v emit_prompt = exit 1
options (unknown ∷ flags) v emit_prompt = exit 1

unfoldable pub show_prompt : Bool → Shell → Shell
show_prompt emit_prompt s = if emit_prompt then say s (codes "tsh> ") else s

-- The loop behind a prompt, for the given inputs; behind the last one the shell waits for more.
unfoldable pub read_lines : Bool → Shell → List Input → Result Progress
read_lines emit_prompt s [] = ok (returned s)
read_lines emit_prompt s (end_of_file ∷ inputs) = exit 0
read_lines emit_prompt s (read_error ∷ inputs) = exit 1
read_lines emit_prompt s (arrives signal ∷ inputs) =
    deliver s signal >>= λ s'. read_lines emit_prompt s' inputs
read_lines emit_prompt s (command cmdline w ∷ inputs) = eval s cmdline w >>= λ p. elim p [
  | returned s' ↦ read_lines emit_prompt (show_prompt emit_prompt s') inputs
  | waiting s' ↦ ok (waiting s')
]

abbrev pub command_loop : Bool → Shell → List Input → Result Progress
command_loop emit_prompt s inputs = read_lines emit_prompt (show_prompt emit_prompt s) inputs

-- The globals of the shell before `main`.
abbrev pub globals : Shell
unfolding initjobs
globals = record { jobs = initjobs; nextjid = 1; verbose = false; events = [] }

unfoldable pub main : List Flag → List Input → Result Progress
main flags inputs =
    options flags false true >>= λ o. command_loop o.1 (record globals { verbose = o.0 }) inputs
