-- ===== src/Fork/Output.antt =====
-- What the two processes of hw3/fork.c write to their file.
use mathlib.Core.List.{append-nil, append_assoc}
use systems_programming.Base.{
  ◌≡◌, ◌≢◌, refl, sym, ap, ◌∙◌, Bool, true, List, [], ◌∷◌, ◌++◌, map, arith, subst,
}
use systems_programming.Fork.{
  Line, before_fork, section_a, section_b, section_c, said, end_of_program, Plan, Child, child_a,
  child_b, child_decides, child_execs, child_runs, child_exits, child_leaves, child_gone, Parent,
  parent_a, parent_c, parent_reads, parent_waits, parent_gone, child_writes, parent_writes, State,
  Step, child_section_a, child_section_b, no_program, program, execve_succeeds, execve_fails,
  program_prints, program_ends, child_flushes, child_exit, parent_section_a, parent_section_c,
  fgets_line, fgets_end, wait_child, Reach, start, later,
}
use systems_programming.Fork.Stands.{tail, message, ChildIs, ParentIs, sent-hello, child_moves}

-- `zs` holds the items of `xs` and those of `ys`, each in their order.
pub data Merge {ℓ} {A : Type ℓ} : List A → List A → List A → Type ℓ where
  nil : Merge [] [] []
  left : {xs ys zs : List A} (x : A) → Merge xs ys zs → Merge (x ∷ xs) ys (x ∷ zs)
  right : {xs ys zs : List A} (y : A) → Merge xs ys zs → Merge xs (y ∷ ys) (y ∷ zs)

module _ {ℓ} {A : Type ℓ} where
  left_snoc :
      {xs ys zs : List A} (x : A) → Merge xs ys zs → Merge (xs ++ (x ∷ [])) ys (zs ++ (x ∷ []))
  left_snoc x nil = left x nil
  left_snoc x (left a m) = left a (left_snoc x m)
  left_snoc x (right a m) = right a (left_snoc x m)

  right_snoc :
      {xs ys zs : List A} (y : A) → Merge xs ys zs → Merge xs (ys ++ (y ∷ [])) (zs ++ (y ∷ []))
  right_snoc y nil = right y nil
  right_snoc y (left a m) = left a (right_snoc y m)
  right_snoc y (right a m) = right a (right_snoc y m)

record Inv (plan : Plan) (s : State) : Type 0 where
  body : List Line
  file : s.file ≡ before_fork ∷ body
  merged : Merge s.child_wrote s.parent_wrote body
  child : ChildIs plan s.child s.child_wrote s.sent
  parent : ParentIs plan s.child s.parent s.parent_wrote s.shown

module _ (plan : Plan) (s : State) (v : Inv plan s) where
  -- What holds of the child and of the parent where they are known to stand.
  at_child : (c : Child) → s.child ≡ c → ChildIs plan c s.child_wrote s.sent
  at_child c e = subst (λ t. ChildIs plan t s.child_wrote s.sent) e v.child

  at_parent : (p : Parent) → s.parent ≡ p → ParentIs plan s.child p s.parent_wrote s.shown
  at_parent p e = subst (λ t. ParentIs plan s.child t s.parent_wrote s.shown) e v.parent

  child_steps :
      (old new : Child) (sent : Bool)
      → s.child ≡ old
      → old ≢ child_gone
      → ChildIs plan new s.child_wrote sent
      → Inv plan (record s { child = new; sent = sent })
  child_steps old new sent e ne h = record {
    body = v.body;
    file = v.file;
    merged = v.merged;
    child = h;
    parent =
        child_moves plan s.child new s.parent s.parent_wrote s.shown (λ q. ne (sym e ∙ q)) v.parent;
  }

  child_prints :
      (line : Line) (old new : Child)
      → s.child ≡ old
      → old ≢ child_gone
      → ChildIs plan new (s.child_wrote ++ (line ∷ [])) s.sent
      → Inv plan (child_writes s line new)
  child_prints line old new e ne h = record {
    body = v.body ++ (line ∷ []);
    file = ap (λ t. t ++ (line ∷ [])) v.file;
    merged = left_snoc line v.merged;
    child = h;
    parent =
        child_moves plan s.child new s.parent s.parent_wrote s.shown (λ q. ne (sym e ∙ q)) v.parent;
  }

  parent_prints :
      (line : Line) (new : Parent)
      → ParentIs plan s.child new (s.parent_wrote ++ (line ∷ [])) s.shown
      → Inv plan (parent_writes s line new)
  parent_prints line new h = record {
    body = v.body ++ (line ∷ []);
    file = ap (λ t. t ++ (line ∷ [])) v.file;
    merged = right_snoc line v.merged;
    child = v.child;
    parent = h;
  }

Step-Inv : {plan : Plan} {s t : State} → Step plan s t → Inv plan s → Inv plan t
Step-Inv {plan} {s} (child_section_a e) v =
    child_prints plan s v section_a child_a child_b e (λ q. cc)
      (let (w, u) = at_child plan s v child_a e in (ap (λ t. t ++ (section_a ∷ [])) w, u))
Step-Inv {plan} {s} (child_section_b e) v =
    child_prints plan s v section_b child_b child_decides e (λ q. cc)
      (let (w, u) = at_child plan s v child_b e in (ap (λ t. t ++ (section_b ∷ [])) w, u))
Step-Inv {plan} {s} (no_program e g) v =
    child_steps plan s v child_decides child_exits s.sent e (λ q. cc)
      (let (w, u) = at_child plan s v child_decides e in (ground arith, u, ground arith))
Step-Inv {plan} {s} (program e g) v =
    child_steps plan s v child_decides child_execs s.sent e (λ q. cc)
      (let (w, u) = at_child plan s v child_decides e in (w, u, g))
Step-Inv {plan} {s} (execve_succeeds e g) v =
    child_steps plan s v child_execs (child_runs plan.output) s.sent e (λ q. cc)
      (let (w, u, given) = at_child plan s v child_execs e in
        (ap (λ t. t ++ map said plan.output) w ∙ ground arith, u, ground arith))
Step-Inv {plan} {s} (execve_fails e g) v =
    child_prints plan s v end_of_program child_execs child_exits e (λ q. cc)
      (let (w, u, given) = at_child plan s v child_execs e in
        (ap (λ t. t ++ (end_of_program ∷ [])) w ∙ ground arith, u, ground arith))
Step-Inv {plan} {s} (program_prints {line} {rest} e) v =
    child_prints plan s v (said line) (child_runs (line ∷ rest)) (child_runs rest) e (λ q. cc)
      (let (w, u, lost) = at_child plan s v (child_runs (line ∷ rest)) e in
        (append_assoc s.child_wrote (said line ∷ []) (map said rest) ∙ w, u, lost))
Step-Inv {plan} {s} (program_ends e) v =
    child_steps plan s v (child_runs []) child_gone s.sent e (λ q. cc)
      (let (w, u, lost) = at_child plan s v (child_runs []) e in
        (sym (append-nil s.child_wrote) ∙ w, ground arith))
Step-Inv {plan} {s} (child_flushes e) v =
    child_steps plan s v child_exits child_leaves true e (λ q. cc)
      (let (w, u, kept) = at_child plan s v child_exits e in (w, refl, kept))
Step-Inv {plan} {s} (child_exit e) v =
    child_steps plan s v child_leaves child_gone s.sent e (λ q. cc)
      (let (w, u, kept) = at_child plan s v child_leaves e in (w, ground arith))
Step-Inv {plan} {s} (parent_section_a e) v =
    parent_prints plan s v section_a parent_c
      (ap (λ t. t ++ (section_a ∷ [])) (at_parent plan s v parent_a e))
Step-Inv {plan} {s} (parent_section_c e) v =
    parent_prints plan s v section_c parent_reads
      (ap (λ t. t ++ (section_c ∷ [])) (at_parent plan s v parent_c e))
Step-Inv {plan} {s} (fgets_line e q) v = record {
  body = v.body;
  file = v.file;
  merged = v.merged;
  child = v.child;
  parent = (
    at_parent plan s v parent_reads e,
    sym (sent-hello plan s.child s.child_wrote s.sent v.child q),
  );
}
Step-Inv {plan} {s} (fgets_end e q g) v = record {
  body = v.body;
  file = v.file;
  merged = v.merged;
  child = v.child;
  parent = (
    at_parent plan s v parent_reads e,
    (let (w, kept) = at_child plan s v child_gone g in ground arith),
  );
}
Step-Inv {plan} {s} (wait_child e g) v = record {
  body = v.body;
  file = v.file;
  merged = v.merged;
  child = v.child;
  parent = (let (w, shown) = at_parent plan s v parent_waits e in (w, shown, g));
}

Reach-Inv : {plan : Plan} {s : State} → Reach plan s → Inv plan s
Reach-Inv start = record {
  body = [];
  file = refl;
  merged = nil;
  child = (refl, refl);
  parent = refl;
}
Reach-Inv (later r st) = Step-Inv st (Reach-Inv r)

-- When the parent has come to its end, in whatever order the two processes ran: so has the child; the file
-- has the line before `fork` and then the lines of both processes, each in its order; and the parent
-- got the message of the child, or read an uninitialized array if `execve` has succeeded.
pub parent_gone-Merge :
    {plan : Plan} {s : State}
    → Reach plan s
    → s.parent ≡ parent_gone
    → (body : List Line) × (s.file ≡ before_fork ∷ body)
      × Merge (section_a ∷ section_b ∷ tail plan) (section_a ∷ section_c ∷ []) body
      × (s.child ≡ child_gone)
      × (s.shown ≡ message plan)
parent_gone-Merge {plan} {s} r e =
    let v = Reach-Inv r in
    let (w, shown, gone) = at_parent plan s v parent_gone e in
    let (w', kept) = at_child plan s v child_gone gone in
    (
      v.body,
      v.file,
      subst (λ t. Merge t (section_a ∷ section_c ∷ []) v.body) w'
          (subst (λ t. Merge s.child_wrote t v.body) w v.merged),
      gone,
      shown,
    )
