-- ===== src/Fork.antt =====
-- hw3/fork.c: two processes that share a file and a pipe. A step is one action of either of them; standard
-- output is a terminal, and what is printed there is left out but for the message that came through the pipe.
pub mod Stands
pub mod Output
pub mod Ends
use systems_programming.Base.{◌≡◌, Bool, true, false, Option, none, some, List, [], ◌∷◌, ◌++◌, CStr}

-- A line of fork-output.txt. `said` is a line of the program that the child becomes.
pub data Line : Type 0 where
  before_fork : Line
  section_a : Line
  section_b : Line
  section_c : Line
  section_d : Line
  said : CStr → Line
  end_of_program : Line

-- Whether there is a program to run, whether `execve` succeeds, and what the program prints.
pub record Plan : Type 0 where
  pub given : Bool
  pub runs : Bool
  pub output : List CStr

-- Where the child stands. Its message is in the buffer of `write_pipe` until it calls `exit`.
pub data Child : Type 0 where
  child_a : Child  -- before section A
  child_b : Child  -- before section B
  child_decides : Child  -- before `if (argc <= 1)`
  child_execs : Child  -- before `execve`
  child_runs : List CStr → Child  -- is the program, with these lines to print
  child_exits : Child  -- before `exit`
  child_leaves : Child  -- in `exit`, behind the flush of its buffers
  child_gone : Child

pub data Parent : Type 0 where
  parent_a : Parent  -- before section A
  parent_c : Parent  -- before section C
  parent_reads : Parent  -- before `fgets`
  parent_waits : Parent  -- before `wait`
  parent_gone : Parent

-- What `fgets` left in `message`, as far as it has returned.
pub data Message : Type 0 where
  unread : Message
  hello : Message
  uninitialized : Message

-- The file, whether the message is in the pipe, and what each process has written.
pub record State : Type 0 where
  pub file : List Line
  pub sent : Bool
  pub shown : Message
  pub child : Child
  pub parent : Parent
  pub child_wrote : List Line
  pub parent_wrote : List Line

abbrev pub child_writes : State → Line → Child → State
child_writes s line next = record s {
  file = s.file ++ (line ∷ []);
  child = next;
  child_wrote = s.child_wrote ++ (line ∷ []);
}

abbrev pub parent_writes : State → Line → Parent → State
parent_writes s line next = record s {
  file = s.file ++ (line ∷ []);
  parent = next;
  parent_wrote = s.parent_wrote ++ (line ∷ []);
}

-- `fgets` waits for the message, or for the last descriptor of the pipe to be closed.
pub data Step (plan : Plan) (s : State) : State → Type 0 where
  child_section_a : s.child ≡ child_a → Step plan s (child_writes s section_a child_b)
  child_section_b : s.child ≡ child_b → Step plan s (child_writes s section_b child_decides)
  no_program :
      s.child ≡ child_decides → plan.given ≡ false → Step plan s (record s { child = child_exits })
  program :
      s.child ≡ child_decides → plan.given ≡ true → Step plan s (record s { child = child_execs })
  execve_succeeds :
      s.child ≡ child_execs
      → plan.runs ≡ true
      → Step plan s (record s { child = child_runs plan.output })
  execve_fails :
      s.child ≡ child_execs
      → plan.runs ≡ false
      → Step plan s (child_writes s end_of_program child_exits)
  program_prints :
      {line : CStr} {rest : List CStr}
      → s.child ≡ child_runs (line ∷ rest)
      → Step plan s (child_writes s (said line) (child_runs rest))
  program_ends : s.child ≡ child_runs [] → Step plan s (record s { child = child_gone })
  child_flushes :
      s.child ≡ child_exits → Step plan s (record s { child = child_leaves; sent = true })
  child_exit : s.child ≡ child_leaves → Step plan s (record s { child = child_gone })
  parent_section_a : s.parent ≡ parent_a → Step plan s (parent_writes s section_a parent_c)
  parent_section_c : s.parent ≡ parent_c → Step plan s (parent_writes s section_c parent_reads)
  fgets_line :
      s.parent ≡ parent_reads
      → s.sent ≡ true
      → Step plan s (record s { parent = parent_waits; shown = hello })
  fgets_end :
      s.parent ≡ parent_reads
      → s.sent ≡ false
      → s.child ≡ child_gone
      → Step plan s (record s { parent = parent_waits; shown = uninitialized })
  wait_child :
      s.parent ≡ parent_waits
      → s.child ≡ child_gone
      → Step plan s (record s { parent = parent_gone })

-- Behind `fork`.
abbrev pub forked : State
forked = record {
  file = before_fork ∷ [];
  sent = false;
  shown = unread;
  child = child_a;
  parent = parent_a;
  child_wrote = [];
  parent_wrote = [];
}

pub data Reach (plan : Plan) : State → Type 0 where
  start : Reach plan forked
  later : {s t : State} → Reach plan s → Step plan s t → Reach plan t
