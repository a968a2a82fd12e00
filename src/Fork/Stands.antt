-- ===== src/Fork/Stands.antt =====
-- What the two processes of hw3/fork.c have written where they stand.
use systems_programming.Base.{
  ◌≡◌, ◌≢◌, Bool, true, false, List, [], ◌∷◌, ◌++◌, map, arith, if◌then◌else◌,
}
use systems_programming.Fork.{
  Line, section_a, section_b, section_c, said, end_of_program, Plan, Child, child_a, child_b,
  child_decides, child_execs, child_runs, child_exits, child_leaves, child_gone, Parent, parent_a,
  parent_c, parent_reads, parent_waits, parent_gone, Message, hello, uninitialized,
}

-- What the child writes behind section B, and what the parent reads from it.
abbrev pub tail : Plan → List Line
tail plan =
    if plan.given then (if plan.runs then map said plan.output else end_of_program ∷ []) else []

abbrev pub message : Plan → Message
message plan = if plan.given then (if plan.runs then uninitialized else hello) else hello

-- What each process has written and done where it stands.
abbrev pub ChildIs : Plan → Child → List Line → Bool → Type 0
ChildIs plan child_a wrote sent = (wrote ≡ []) × (sent ≡ false)
ChildIs plan child_b wrote sent = (wrote ≡ section_a ∷ []) × (sent ≡ false)
ChildIs plan child_decides wrote sent = (wrote ≡ section_a ∷ section_b ∷ []) × (sent ≡ false)
ChildIs plan child_execs wrote sent =
    (wrote ≡ section_a ∷ section_b ∷ []) × (sent ≡ false) × (plan.given ≡ true)
ChildIs plan (child_runs rest) wrote sent =
    (wrote ++ map said rest ≡ section_a ∷ section_b ∷ tail plan)
    × (sent ≡ false)
    × (message plan ≡ uninitialized)
ChildIs plan child_exits wrote sent =
    (wrote ≡ section_a ∷ section_b ∷ tail plan) × (sent ≡ false) × (message plan ≡ hello)
ChildIs plan child_leaves wrote sent =
    (wrote ≡ section_a ∷ section_b ∷ tail plan) × (sent ≡ true) × (message plan ≡ hello)
ChildIs plan child_gone wrote sent =
    (wrote ≡ section_a ∷ section_b ∷ tail plan)
    × (message plan ≡ (if sent then hello else uninitialized))

abbrev pub ParentIs : Plan → Child → Parent → List Line → Message → Type 0
ParentIs plan child parent_a wrote shown = wrote ≡ []
ParentIs plan child parent_c wrote shown = wrote ≡ section_a ∷ []
ParentIs plan child parent_reads wrote shown = wrote ≡ section_a ∷ section_c ∷ []
ParentIs plan child parent_waits wrote shown =
    (wrote ≡ section_a ∷ section_c ∷ []) × (shown ≡ message plan)
ParentIs plan child parent_gone wrote shown =
    (wrote ≡ section_a ∷ section_c ∷ []) × (shown ≡ message plan) × (child ≡ child_gone)

pub sent-hello :
    (plan : Plan) (child : Child) (wrote : List Line) (sent : Bool)
    → ChildIs plan child wrote sent
    → sent ≡ true
    → message plan ≡ hello
sent-hello plan child_leaves wrote sent h e = h.2
sent-hello plan child_gone wrote sent h e = ground arith
sent-hello plan child_exits wrote sent h e = h.2
sent-hello plan (child_runs rest) wrote sent h e = cc
sent-hello plan child_a wrote sent h e = cc
sent-hello plan child_b wrote sent h e = cc
sent-hello plan child_decides wrote sent h e = cc
sent-hello plan child_execs wrote sent h e = cc

-- A step of the child leaves the parent as it is, unless the parent is gone and no such step is left.
pub child_moves :
    (plan : Plan) (old new : Child) (parent : Parent) (wrote : List Line) (shown : Message)
    → old ≢ child_gone
    → ParentIs plan old parent wrote shown
    → ParentIs plan new parent wrote shown
child_moves plan old new parent_a wrote shown ne h = h
child_moves plan old new parent_c wrote shown ne h = h
child_moves plan old new parent_reads wrote shown ne h = h
child_moves plan old new parent_waits wrote shown ne h = h
child_moves plan old new parent_gone wrote shown ne h = absurd (ne h.2)
