-- ===== src/Shell/Pipeline.antt =====
-- tinyos_shell.c: how process_line joins the fragments of a command line by pipes.
use disasteros.Common.{ℕ, zero, suc, ◌+◌, Option, none, some, List, [], ◌∷◌, if◌then◌else◌}
use disasteros.Shell.Line.{Word, same_word, Fragments, split_line, fragment}

-- A fragment with its program, as an index into COMMANDS.
pub record Command : Type 0 where
  pub comd : ℕ
  pub argv : List Word

-- The system calls that the shell makes, on the state of the kernel.
pub record Calls (S : Type 0) : Type 0 where
  pub open_null : S → ℕ × S
  pub dup2 : (oldfd newfd : ℕ) → S → S
  pub close : (fd : ℕ) → S → S
  pub pipe : S → (ℕ × ℕ) × S
  pub execute_command : Command → S → ℕ × S
  pub wait_child : (pid : ℕ) → S → S

-- `getprog_byname`, and the same loop in `process_line`, over the names in COMMANDS.
unfoldable pub getprog_byname : (commands : List Word) → (c : ℕ) → Word → Option ℕ
getprog_byname [] c name = none
getprog_byname (cmdname ∷ rest) c name =
    let later = getprog_byname rest (c + 1) name in if same_word cmdname name then some c else later

-- What the check of the fragments finds.
pub data Checked : Type 0 where
  empty_fragment : Checked
  not_found : Word → Checked
  checked : List Command → Checked

abbrev pub and_command : Command → Checked → Checked
and_command c empty_fragment = empty_fragment
and_command c (not_found w) = not_found w
and_command c (checked cs) = checked (c ∷ cs)

-- A fragment that is not empty, by what the search for its program found.
abbrev pub check_command : Word → List Word → Option ℕ → Checked → Checked
check_command w ws none later = not_found w
check_command w ws (some c) later = and_command (record { comd = c; argv = w ∷ ws }) later

-- "Check that no fragment is empty and each has a program"
unfoldable pub check_fragments : (commands : List Word) → List (List Word) → Checked
check_fragments commands [] = checked []
check_fragments commands ([] ∷ rest) = empty_fragment
check_fragments commands ((w ∷ ws) ∷ rest) =
    let later = check_fragments commands rest in
    check_command w ws (getprog_byname commands 0 w) later

module _ {S : Type 0} (k : Calls S) where
  -- `savefid`
  unfoldable pub savefid : (fsaved : ℕ) → S → ℕ × S
  savefid fsaved s = let (savior, s') = k.open_null s in (savior, k.dup2 fsaved savior s')

  -- A fragment that is not the last: the pipe becomes its standard output, and then the standard
  -- input of the shell.
  unfoldable pub middle_stage : Command → S → ℕ × S
  middle_stage c s =
      let ((r, w), s₁) = k.pipe s in
      let (pid, s₂) = k.execute_command c (k.close w (k.dup2 w 1 s₁)) in
      (pid, k.close r (k.dup2 r 0 s₂))

  -- The last fragment.
  unfoldable pub last_stage : (savein saveout : ℕ) → Command → S → ℕ × S
  last_stage savein saveout c s =
      let (pid, s₁) = k.execute_command c (k.close saveout (k.dup2 saveout 1 s)) in
      (pid, k.close savein (k.dup2 savein 0 s₁))

  -- The loop over the fragments, with the children that it starts.
  unfoldable pub stages : (savein saveout : ℕ) → Command → List Command → S → List ℕ × S
  stages savein saveout c [] s = let (pid, s') = last_stage savein saveout c s in (pid ∷ [], s')
  stages savein saveout c (d ∷ cs) s =
      let (pid, s₁) = middle_stage c s in
      let (pids, s₂) = stages savein saveout d cs s₁ in (pid ∷ pids, s₂)

  -- "Construct pipeline", for a first fragment and the others.
  unfoldable pub construct_pipeline : Command → List Command → S → List ℕ × S
  construct_pipeline c cs s =
      let (savein, s₁) = savefid 0 s in
      let (saveout, s₂) = savefid 1 s₁ in stages savein saveout c cs s₂

-- The fragments from `j` on, as the loops look at them.
abbrev pub fragments_from : (n j : ℕ) → Fragments → List Word → List (List Word)
fragments_from zero j g argv = []
fragments_from (suc n) j g argv = fragment j g argv ∷ fragments_from n (j + 1) g argv

-- How `process_line` comes out: it wrote behind the end of an array, it printed a message and returned
-- 0, or it started children and returned 1.
pub data Processed (S : Type 0) : Type 0 where
  overrun : Processed S
  refused : S → Processed S
  launched : S → Processed S

module _ {S : Type 0} (k : Calls S) where
  -- "Wait for the children"
  unfoldable pub wait_children : List ℕ → S → S
  wait_children [] s = s
  wait_children (pid ∷ pids) s = wait_children pids (k.wait_child pid s)

  unfoldable pub launch : List ℕ × S → Processed S
  launch (pids, s) = launched (wait_children pids s)

  -- There is a fragment at least, so that the third clause does not occur.
  unfoldable pub start_line : Checked → S → Processed S
  start_line empty_fragment s = refused s
  start_line (not_found w) s = refused s
  start_line (checked []) s = launched s
  start_line (checked (c ∷ cs)) s = launch (construct_pipeline k c cs s)

  unfoldable pub start_fragments :
      (commands argv : List Word) → Option (ℕ × Fragments) → S → Processed S
  start_fragments commands argv none s = overrun
  start_fragments commands argv (some (frag, g)) s =
      start_line (check_fragments commands (fragments_from frag 0 g argv)) s

  -- `process_line`, but for what it prints.
  unfoldable pub process_line : (commands argv : List Word) → Fragments → S → Processed S
  process_line commands argv f s = start_fragments commands argv (split_line argv f) s
