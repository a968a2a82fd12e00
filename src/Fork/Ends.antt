-- ===== src/Fork/Ends.antt =====
-- The two processes of hw3/fork.c come to their end.
use systems_programming.Base.{
  ℕ, suc, ◌+◌, ◌≤◌, ◌<◌, ◌≡◌, refl, ◌⊎◌, inl, inr, Bool-cases, [], ◌∷◌, arith, length, ap,
}
use systems_programming.Fork.{
  Plan, Child, child_a, child_b, child_decides, child_execs, child_runs, child_exits, child_leaves,
  child_gone, Parent, parent_a, parent_c, parent_reads, parent_waits, parent_gone, State, Step,
  child_section_a, child_section_b, no_program, program, execve_succeeds, execve_fails,
  program_prints, program_ends, child_flushes, child_exit, parent_section_a, parent_section_c,
  fgets_line, fgets_end, wait_child, Reach, start, later,
}

module _ (plan : Plan) where
  -- The steps that a process has at most before it.
  abbrev child_left : Child → ℕ
  child_left child_a = length plan.output + 6
  child_left child_b = length plan.output + 5
  child_left child_decides = length plan.output + 4
  child_left child_execs = length plan.output + 3
  child_left (child_runs rest) = length rest + 1
  child_left child_exits = 2
  child_left child_leaves = 1
  child_left child_gone = 0

  abbrev parent_left : Parent → ℕ
  parent_left parent_a = 4
  parent_left parent_c = 3
  parent_left parent_reads = 2
  parent_left parent_waits = 1
  parent_left parent_gone = 0

  abbrev left : State → ℕ
  left s = child_left s.child + parent_left s.parent

  Step-left : {s t : State} → Step plan s t → left t < left s
  Step-left (child_section_a e) = omega (arith, ap child_left e)
  Step-left (child_section_b e) = omega (arith, ap child_left e)
  Step-left (no_program e g) = omega (arith, ap child_left e)
  Step-left (program e g) = omega (arith, ap child_left e)
  Step-left (execve_succeeds e g) = omega (arith, ap child_left e)
  Step-left (execve_fails e g) = omega (arith, ap child_left e)
  Step-left (program_prints e) = omega (arith, ap child_left e)
  Step-left (program_ends e) = omega (arith, ap child_left e)
  Step-left (child_flushes e) = omega (arith, ap child_left e)
  Step-left (child_exit e) = omega (arith, ap child_left e)
  Step-left (parent_section_a e) = omega (arith, ap parent_left e)
  Step-left (parent_section_c e) = omega (arith, ap parent_left e)
  Step-left (fgets_line e q) = omega (arith, ap parent_left e)
  Step-left (fgets_end e q g) = omega (arith, ap parent_left e)
  Step-left (wait_child e g) = omega (arith, ap parent_left e)

  abbrev Next : State → Type 0
  Next s = (t : State) × Step plan s t

  child_next : (s : State) (c : Child) → s.child ≡ c → (c ≡ child_gone) ⊎ Next s
  child_next s child_a e = inr (_, child_section_a e)
  child_next s child_b e = inr (_, child_section_b e)
  child_next s child_decides e = elim (Bool-cases plan.given) [
    | inl g ↦ inr (_, program e g)
    | inr g ↦ inr (_, no_program e g)
  ]
  child_next s child_execs e = elim (Bool-cases plan.runs) [
    | inl g ↦ inr (_, execve_succeeds e g)
    | inr g ↦ inr (_, execve_fails e g)
  ]
  child_next s (child_runs []) e = inr (_, program_ends e)
  child_next s (child_runs (line ∷ rest)) e = inr (_, program_prints e)
  child_next s child_exits e = inr (_, child_flushes e)
  child_next s child_leaves e = inr (_, child_exit e)
  child_next s child_gone e = inl refl

  parent_next :
      (s : State) (p : Parent) → s.parent ≡ p → s.child ≡ child_gone → (p ≡ parent_gone) ⊎ Next s
  parent_next s parent_a e g = inr (_, parent_section_a e)
  parent_next s parent_c e g = inr (_, parent_section_c e)
  parent_next s parent_reads e g = elim (Bool-cases s.sent) [
    | inl q ↦ inr (_, fgets_line e q)
    | inr q ↦ inr (_, fgets_end e q g)
  ]
  parent_next s parent_waits e g = inr (_, wait_child e g)
  parent_next s parent_gone e g = inl refl

  next : (s : State) → (s.parent ≡ parent_gone) ⊎ Next s
  next s = elim (child_next s s.child refl) [
    | inr n ↦ inr n
    | inl g ↦ parent_next s s.parent refl g
  ]

abbrev pub steps : {plan : Plan} {s : State} → Reach plan s → ℕ
steps start = 0
steps (later r st) = suc (steps r)

steps-left :
    {plan : Plan} {s : State} (r : Reach plan s) → steps r + left plan s ≤ length plan.output + 10
steps-left start = omega arith
steps-left {plan} (later r st) = omega (arith, steps-left r, Step-left plan st)

-- In whatever order the two processes run, they make at most ten steps and one for each line of the
-- program, and until the parent has come to its end one of them can make a step.
pub fork_ends :
    {plan : Plan} {s : State} (r : Reach plan s)
    → (steps r ≤ length plan.output + 10)
      × ((s.parent ≡ parent_gone) ⊎ ((t : State) × Step plan s t))
fork_ends {plan} {s} r = (omega (arith, steps-left r), next plan s)
