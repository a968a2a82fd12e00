-- ===== src/Tests/Processes.antt =====
-- A run of the two processes without a program; the parent is first.
use systems_programming.Base.{◌+◌, ◌≤◌, ◌≡◌, refl, ◌⊎◌, false, List, [], ◌∷◌, length}
use systems_programming.Fork.{
  Line, before_fork, section_a, section_b, section_c, Plan, child_gone, parent_gone, State, Step,
  child_section_a, child_section_b, no_program, child_flushes, child_exit, parent_section_a,
  parent_section_c, fgets_line, wait_child, Reach, start, later,
}
use systems_programming.Fork.Stands.{tail, message}
use systems_programming.Fork.Output.{Merge, parent_gone-Merge}
use systems_programming.Fork.Ends.{steps, fork_ends}

abbrev alone : Plan
alone = record { given = false; runs = false; output = [] }

ran : (s : State) × Reach alone s
ran = (
  _,
  later
      (later
        (later
          (later
            (later
              (later
                (later (later (later start (parent_section_a refl)) (parent_section_c refl))
                  (child_section_a refl))
                (child_section_b refl))
              (no_program refl refl))
            (child_flushes refl))
          (fgets_line refl refl))
        (child_exit refl))
      (wait_child refl refl),
)

parent_gone-Merge_example :
    (body : List Line) × (ran.0.file ≡ before_fork ∷ body)
    × Merge (section_a ∷ section_b ∷ tail alone) (section_a ∷ section_c ∷ []) body
    × (ran.0.child ≡ child_gone)
    × (ran.0.shown ≡ message alone)
unfolding ran
parent_gone-Merge_example = parent_gone-Merge ran.1 refl

fork_ends_example :
    (steps ran.1 ≤ length alone.output + 10)
    × ((ran.0.parent ≡ parent_gone) ⊎ ((t : State) × Step alone ran.0 t))
fork_ends_example = fork_ends ran.1
