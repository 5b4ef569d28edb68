-- ===== src/Shell/Process.antt =====
-- tinyos_shell.c: which commands process_line starts for a command line, over any system calls.
use disasteros.Common.{
  ℕ, zero, suc, ◌+◌, Bool, true, false, ◌&&◌, Option, none, some, List, [], ◌∷◌, is_some,
}
use disasteros.Shell.Line.{Word}
use disasteros.Shell.Split.{part}
use disasteros.Shell.Pipeline.{
  Command, Calls, Checked, checked, empty_fragment, not_found, getprog_byname, Processed, refused,
  start_line,
}

-- The parts of a line between its bars, from the part `j` on.
abbrev pub parts : (n j : ℕ) → List Word → List (List Word)
parts zero j argv = []
parts (suc n) j argv = part j argv ∷ parts n (j + 1) argv

-- Whether a part has a first word, and that is the name of a command.
abbrev pub startable : (commands : List Word) → List Word → Bool
startable commands [] = false
startable commands (w ∷ ws) = is_some (getprog_byname commands 0 w)

abbrev pub all_startable : (commands : List Word) → List (List Word) → Bool
all_startable commands [] = true
all_startable commands (p ∷ ps) = startable commands p && all_startable commands ps

abbrev pub index_of : Option ℕ → ℕ
index_of none = 0
index_of (some c) = c

-- The command of a part: its first word's, with the whole part for its arguments.
abbrev pub command_of : (commands : List Word) → List Word → Command
command_of commands [] = record { comd = 0; argv = [] }
command_of commands (w ∷ ws) = record {
  comd = index_of (getprog_byname commands 0 w);
  argv = w ∷ ws;
}

-- The commands that a check gave, if it gave any.
abbrev commands_found : Checked → Option (List Command)
commands_found empty_fragment = none
commands_found (not_found w) = none
commands_found (checked cs) = some cs

abbrev add_found : Command → Option (List Command) → Option (List Command)
add_found c none = none
add_found c (some cs) = some (c ∷ cs)

module _ {S : Type 0} (k : Calls S) where
  abbrev start_found : Option (List Command) → S → Processed S
  start_found none s = refused s
  start_found (some cs) s = start_line k (checked cs) s
