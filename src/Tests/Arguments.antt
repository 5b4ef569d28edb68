-- ===== src/Tests/Arguments.antt =====
-- Examples on the arguments of programs.
use disasteros.Common.{◌+◌, ◌<◌, ◌^◌, ℕ, ◌≡◌, refl, some, [], ◌∷◌, List, arith}
use disasteros.Argv.{Memory, argvlen}
use disasteros.Argv.Layout.{Points, AllStrings}
use disasteros.Argv.Execute.{execute, exec_wrapper, execute-exec_wrapper}

-- A program pointer, and the strings "ls" and "" and "-l".
abbrev ls : List ℕ
ls = 1 ∷ 2 ∷ 3 ∷ 4 ∷ 0 ∷ 0 ∷ 0 ∷ 0 ∷ []

abbrev strings : List (List ℕ)
strings = (108 ∷ 115 ∷ []) ∷ [] ∷ (45 ∷ 108 ∷ []) ∷ []

abbrev blank : Memory
blank = λ _. 255

strings-AllStrings : AllStrings strings
strings-AllStrings =
    ((ground arith, (ground arith, tt)), (tt, ((ground arith, (ground arith, tt)), tt)))

strings_fit : argvlen strings + 8 < 2 ^ 31
unfolding argvlen
strings_fit = omega arith

execute-exec_wrapper_example :
    (ptrs : List ℕ) × (exec_wrapper
        (execute 1000 ls strings blank).0
        1000
        (execute 1000 ls strings blank).1
      ≡ some (ls, 3, ptrs))
    × Points (execute 1000 ls strings blank).1 ptrs strings
execute-exec_wrapper_example =
    execute-exec_wrapper 1000 ls strings blank (execute 1000 ls strings blank).1 1000 refl
      strings-AllStrings strings_fit (λ i l. refl)
