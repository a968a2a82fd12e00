-- ===== src/Shell/Groups/Keys.antt =====
-- Which processes a key of the terminal reaches, by way of the kernel and of the handlers of tsh.c.
use systems_programming.Base.{
  ℕ, zero, suc, ◌<◌, ◌≡◌, ◌≢◌, ◌==◌, ltb, refl, sym, ap, ◌∙◌, ◌⊎◌, inl, inr, if◌then◌else◌, true,
  false, Bool-cases, some, List, [], ◌∷◌, ◌++◌, map, length, take, drop, set, get_elem?, arith,
  drop-append, drop-length, ap₂,
}
use systems_programming.Shell.Jobs.{Shell, kill, fgpid}
use systems_programming.Shell.Signals.{sigint, sigtstp, sigint_handler, sigtstp_handler}
use systems_programming.Shell.Groups.{
  Stage, early, Process, System, child, send_group, Step, fork, unmask, setpgid, execve_succeeds,
  execve_fails, prints, program_forks, ends, sends, Reach, start, later, Key, ctrl_c, ctrl_z,
  signal_of, handler_of, do_events, press, unmasked, grouped, runs, not_found, leaves,
}

-- A process is in the group of the shell up to `setpgid`, and then in the group of its job.
abbrev Place : ℕ → Process → Type 0
Place group p =
    ((early p.stage ≡ true) × (p.group ≡ group) × (p.job ≡ p.pid))
    ⊎ ((early p.stage ≡ false) × (p.group ≡ p.job))

record IsOwn (group : ℕ) (p : Process) : Type 0 where
  positive : 0 < p.job
  apart : p.job ≢ group
  place : Place group p

abbrev AllOwn : ℕ → List Process → Type 0
AllOwn group [] = Unit
AllOwn group (p ∷ procs) = IsOwn group p × AllOwn group procs

module _ (group : ℕ) where
  AllOwn-get :
      (procs : List Process) (i : ℕ) (p : Process)
      → AllOwn group procs
      → get_elem? procs i ≡ some p
      → IsOwn group p
  AllOwn-get [] i p all e = cc
  AllOwn-get (q ∷ procs) zero p (own, all) e = ground (arith, own)
  AllOwn-get (q ∷ procs) (suc i) p (own, all) e = AllOwn-get procs i p all e

  AllOwn-set :
      (procs : List Process) (i : ℕ) (p : Process)
      → AllOwn group procs
      → IsOwn group p
      → AllOwn group (set procs i p)
  AllOwn-set [] i p all own = tt
  AllOwn-set (q ∷ procs) zero p (old, all) own = (own, all)
  AllOwn-set (q ∷ procs) (suc i) p (old, all) own = (old, AllOwn-set procs i p all own)

  AllOwn-append :
      (procs more : List Process)
      → AllOwn group procs
      → AllOwn group more
      → AllOwn group (procs ++ more)
  AllOwn-append [] more all rest = rest
  AllOwn-append (q ∷ procs) more (own, all) rest = (own, AllOwn-append procs more all rest)

  AllOwn-remove :
      (procs : List Process) (i : ℕ)
      → AllOwn group procs
      → AllOwn group (take i procs ++ drop (suc i) procs)
  AllOwn-remove [] zero all = tt
  AllOwn-remove [] (suc i) all = tt
  AllOwn-remove (q ∷ procs) zero (own, all) = all
  AllOwn-remove (q ∷ procs) (suc i) (own, all) = (own, AllOwn-remove procs i all)

  AllOwn-send_group :
      (procs : List Process) (to signal : ℕ)
      → AllOwn group procs
      → AllOwn group (send_group to signal procs)
  unfolding send_group
  AllOwn-send_group [] to signal all = tt
  AllOwn-send_group (q ∷ procs) to signal (own, all) = (
    elim (Bool-cases (q.group == to)) [
      | inl e ↦ rw e (record { positive = own.positive; apart = own.apart; place = own.place })
      | inr e ↦ rw e own
    ],
    AllOwn-send_group procs to signal all,
  )

-- A process that goes on to a stage on the same side of `setpgid`.
moves :
    (group : ℕ) (p : Process) (stage : Stage)
    → IsOwn group p
    → early stage ≡ early p.stage
    → IsOwn group (record p { stage = stage })
moves group p stage own e = record {
  positive = own.positive;
  apart = own.apart;
  place = elim own.place [
    | inl (there, here, self) ↦ inl (e ∙ there, here, self)
    | inr (past, rest) ↦ inr (e ∙ past, rest)
  ];
}

step_to :
    (group : ℕ) (procs : List Process) (i : ℕ) (p : Process) (stage : Stage)
    → AllOwn group procs
    → get_elem? procs i ≡ some p
    → early stage ≡ early p.stage
    → AllOwn group (set procs i (record p { stage = stage }))
step_to group procs i p stage all at e =
    AllOwn-set group procs i (record p { stage = stage }) all
      (moves group p stage (AllOwn-get group procs i p all at) e)

late : (group : ℕ) (p : Process) → IsOwn group p → early p.stage ≡ false → p.group ≡ p.job
late group p own past = elim own.place [ inl (there, here, self) ↦ cc | inr (_, rest) ↦ rest ]

leader : (group : ℕ) (p : Process) → IsOwn group p → early p.stage ≡ true → p.job ≡ p.pid
leader group p own there = elim own.place [ inl (_, _, e) ↦ e | inr (past, _) ↦ cc ]

Step-AllOwn :
    {s t : System} → Step s t → AllOwn s.shell_group s.procs → AllOwn t.shell_group t.procs
Step-AllOwn {s} (fork pid command fresh) all =
    AllOwn-append s.shell_group s.procs (child s.shell_group pid command ∷ []) all (
      record { positive = fresh.positive; apart = fresh.not_shell; place = inl (refl, refl, refl) },
      tt,
    )
Step-AllOwn {s} (unmask i p at e) all =
    step_to s.shell_group s.procs i p unmasked all at (sym (ap early e))
Step-AllOwn {s} (execve_succeeds i p at e) all =
    step_to s.shell_group s.procs i p runs all at (sym (ap early e))
Step-AllOwn {s} (execve_fails i p at e) all =
    step_to s.shell_group s.procs i p not_found all at (sym (ap early e))
Step-AllOwn {s} (prints i p at e) all =
    step_to s.shell_group s.procs i p leaves all at (sym (ap early e))
Step-AllOwn {s} (setpgid i p at e) all =
    let own = AllOwn-get s.shell_group s.procs i p all at in
    AllOwn-set s.shell_group s.procs i (record p { stage = grouped; group = p.pid }) all
      (record {
        positive = own.positive;
        apart = own.apart;
        place = inr (refl, sym (leader s.shell_group p own (ap early e)));
      })
Step-AllOwn {s} (program_forks i p pid at e fresh) all =
    let own = AllOwn-get s.shell_group s.procs i p all at in
    AllOwn-append s.shell_group s.procs (record p { pid = pid; got = [] } ∷ []) all (
      record {
        positive = own.positive;
        apart = own.apart;
        place = inr (ap early e, late s.shell_group p own (ap early e));
      },
      tt,
    )
Step-AllOwn {s} (ends i) all = AllOwn-remove s.shell_group s.procs i all
Step-AllOwn {s} (sends group signal) all = AllOwn-send_group s.shell_group s.procs group signal all

Reach-AllOwn : {s : System} → Reach s → AllOwn s.shell_group s.procs
Reach-AllOwn (start group) = tt
Reach-AllOwn (later r st) = Step-AllOwn st (Reach-AllOwn r)

-- What the handler for a key sends.
handler_of-events :
    (key : Key) (sh : Shell)
    → drop (length sh.events) (handler_of key sh).events
      ≡ (if ltb 0 (fgpid sh.jobs) then kill (fgpid sh.jobs) (signal_of key) ∷ [] else [])
unfolding sigint_handler sigtstp_handler
handler_of-events ctrl_c sh = elim (Bool-cases (ltb 0 (fgpid sh.jobs))) [
  | inl e ↦ rw e (drop-append sh.events (kill (fgpid sh.jobs) sigint ∷ []))
  | inr e ↦ rw e (drop-length sh.events)
]
handler_of-events ctrl_z sh = elim (Bool-cases (ltb 0 (fgpid sh.jobs))) [
  | inl e ↦ rw e (drop-append sh.events (kill (fgpid sh.jobs) sigtstp ∷ []))
  | inr e ↦ rw e (drop-length sh.events)
]

abbrev hit : ℕ → Process → Process
hit signal p = record p { got = p.got ++ (signal ∷ []) }

-- A process before `setpgid` gets the signal from the terminal. Behind it the process gets the signal
-- from the shell if its job is the one in the foreground, and else nothing.
abbrev pub reached : ℕ → ℕ → Process → Process
reached signal foreground p =
    if early p.stage
    then record p { got = p.got ++ (signal ∷ []) }
    else if p.job == foreground
    then record p { got = p.got ++ (signal ∷ []) }
    else p

module _ (group foreground signal : ℕ) where
  sent_to : ℕ → Process → Process
  sent_to to p = if p.group == to then hit signal p else p

  sent_both :
      (p : Process)
      → foreground ≢ group
      → IsOwn group p
      → sent_to foreground (sent_to group p) ≡ reached signal foreground p
  unfolding sent_to
  sent_both p apart own = elim own.place [
    | inl (there, here, self) ↦
        let yes : (p.group == group) ≡ true = ground arith in
        let no : (p.group == foreground) ≡ false = ground arith in rw (there, yes, no) refl
    | inr (past, leads) ↦
        let no : (p.group == group) ≡ false = ground (arith, own.apart) in
        let same : (p.group == foreground) ≡ (p.job == foreground) =
          ap (λ g. g == foreground) leads in
        rw (past, no, same) refl
  ]

  sent_once :
      (p : Process)
      → ltb 0 foreground ≡ false
      → IsOwn group p
      → sent_to group p ≡ reached signal foreground p
  unfolding sent_to
  sent_once p nobody own = elim own.place [
    | inl (there, here, self) ↦
        let yes : (p.group == group) ≡ true = ground arith in rw (there, yes) refl
    | inr (past, leads) ↦
        let no : (p.group == group) ≡ false = ground (arith, own.apart) in
        let other : (p.job == foreground) ≡ false = ground (arith, own.positive) in
        rw (past, no, other) refl
  ]

  send_both :
      (procs : List Process)
      → foreground ≢ group
      → AllOwn group procs
      → send_group foreground signal (send_group group signal procs)
        ≡ map (reached signal foreground) procs
  unfolding send_group sent_to
  send_both [] apart all = refl
  send_both (p ∷ procs) apart (own, all) =
      ap₂ (λ q qs. q ∷ qs) (sent_both p apart own) (send_both procs apart all)

  send_once :
      (procs : List Process)
      → ltb 0 foreground ≡ false
      → AllOwn group procs
      → send_group group signal procs ≡ map (reached signal foreground) procs
  unfolding send_group sent_to
  send_once [] nobody all = refl
  send_once (p ∷ procs) nobody (own, all) =
      ap₂ (λ q qs. q ∷ qs) (sent_once p nobody own) (send_once procs nobody all)

-- In whatever order the shell, its children and their programs ran: a key reaches exactly the children
-- that have not come to `setpgid`, and the processes of the job in the foreground that are behind it,
-- each of them once. Programs of other jobs get nothing. The group of the shell is not that of a job.
pub press-reached :
    (key : Key) (sh : Shell) (s : System)
    → Reach s
    → fgpid sh.jobs ≢ s.shell_group
    → (press key sh s).procs ≡ map (reached (signal_of key) (fgpid sh.jobs)) s.procs
unfolding press do_events
press-reached key sh s r apart = elim (Bool-cases (ltb 0 (fgpid sh.jobs))) [
  | inl e ↦
      rw (handler_of-events key sh, e)
        (send_both s.shell_group (fgpid sh.jobs) (signal_of key) s.procs apart (Reach-AllOwn r))
  | inr e ↦
      rw (handler_of-events key sh, e)
        (send_once s.shell_group (fgpid sh.jobs) (signal_of key) s.procs e (Reach-AllOwn r))
]
