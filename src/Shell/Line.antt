-- ===== src/Shell/Line.antt =====
-- tinyos_shell.c: how process_line takes a command line apart.
use disasteros.Common.{
  ℕ, ◌+◌, Bool, true, false, ◌&&◌, Option, none, some, List, [], ◌∷◌, ltb, ◌==◌, if◌then◌else◌,
  update, length, take, drop,
}

-- A word of a command line, by its bytes.
abbrev pub Word : Type 0
Word = List ℕ

-- `strcmp(a,b)==0`
unfoldable pub same_word : Word → Word → Bool
same_word [] [] = true
same_word [] (b ∷ w) = false
same_word (a ∷ v) [] = false
same_word (a ∷ v) (b ∷ w) = a == b && same_word v w

abbrev pub is_bar : Word → Bool
is_bar w = same_word w (b'|' ∷ [])

-- The arrays `Vargc` and `Vargv`, where a pointer into `argv` is an index.
pub record Fragments : Type 0 where
  pub vargc : ℕ → ℕ
  pub vargv : ℕ → ℕ

-- A word that is not a bar.
abbrev pub add_word : (i frag : ℕ) → Fragments → Fragments
add_word i frag f = record {
  vargc = update f.vargc frag (f.vargc frag + 1);
  vargv = if f.vargc frag + 1 == 1 then update f.vargv frag i else f.vargv;
}

abbrev pub next_fragment : (frag : ℕ) → Fragments → Fragments
next_fragment frag f = record f { vargc = update f.vargc (frag + 1) 0 }

-- The loop that splits the line up, from the word `i` on. The arrays have `argc` elements; `none` is
-- a write behind their end.
unfoldable pub split_loop :
    (argc : ℕ) → List Word → (i frag : ℕ) → Fragments → Option (ℕ × Fragments)
split_loop argc [] i frag f = some (frag, f)
split_loop argc (w ∷ ws) i frag f =
    let bar = split_loop argc ws (i + 1) (frag + 1) (next_fragment frag f) in
    let word = split_loop argc ws (i + 1) frag (add_word i frag f) in
    if is_bar w then (if ltb (frag + 1) argc then bar else none) else word

-- `frag++` behind the loop.
abbrev pub count_last : Option (ℕ × Fragments) → Option (ℕ × Fragments)
count_last none = none
count_last (some (frag, f)) = some (frag + 1, f)

-- The whole of it: the number of fragments, and the arrays. What an array holds at first is
-- anything, as `f`.
unfoldable pub split_line : List Word → Fragments → Option (ℕ × Fragments)
split_line argv f =
    if length argv == 0
    then none
    else count_last (split_loop (length argv) argv 0 0 (record f { vargc = update f.vargc 0 0 }))

-- The words of a fragment, as its program gets them.
abbrev pub fragment : (j : ℕ) → Fragments → List Word → List Word
fragment j f argv = take (f.vargc j) (drop (f.vargv j) argv)
