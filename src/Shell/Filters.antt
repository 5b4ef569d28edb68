-- ===== src/Shell/Filters.antt =====
-- tinyos_shell.c: what WordCount and LineEnum make of a text.
use disasteros.Common.{
  ℕ, ◌+◌, ◌%◌, ◌^◌, ◌≡◌, refl, sym, ap, ◌∙◌, Bool, true, false, not, ◌&&◌, ◌||◌, List, [], ◌∷◌,
  ◌++◌, ◌==◌, if◌then◌else◌, arith, length, count, Bool-cases, inl, inr,
}
use disasteros.Shell.{
  Counts, isblank, inc64, count_char, count_word, count_line, count_blank, word_count_loop,
  word_count, until_eof, line_enum_loop, line_enum,
}

abbrev pub bit : Bool → ℕ
bit b = if b then 1 else 0

abbrev pub is_white : ℕ → Bool
is_white c = isblank c || c == b'\n'

-- Whether a text begins inside a word.
abbrev pub in_word : List ℕ → Bool
in_word [] = false
in_word (c ∷ cs) = not (is_white c)

-- The words of a text, counted at their last characters.
abbrev pub words : List ℕ → ℕ
words [] = 0
words (c ∷ cs) = bit (not (is_white c) && not (in_word cs)) + words cs

-- The newlines that do not stand right behind a word, at the start of a text or behind a white
-- character if `white`.
abbrev pub bare_newlines : (white : Bool) → List ℕ → ℕ
bare_newlines white [] = 0
bare_newlines white (c ∷ cs) = bit (white && c == b'\n') + bare_newlines (is_white c) cs

-- The words that begin in a text, behind a white character or not.
abbrev starts : (white : Bool) → List ℕ → ℕ
starts white [] = 0
starts white (c ∷ cs) = bit (white && not (is_white c)) + starts (is_white c) cs

starts-words :
    (cs : List ℕ) → (starts true cs ≡ words cs) × (starts false cs + bit (in_word cs) ≡ words cs)
starts-words [] = (refl, refl)
starts-words (c ∷ cs) = let (a, b) = starts-words cs in (ground (arith, a, b), ground (arith, a, b))

abbrev u64 : ℕ
u64 = 2 ^ 64

char_lem :
    (c : ℕ) (k : Counts)
    → ((count_char c k).nchar ≡ inc64 k.nchar)
      × ((count_char c k).nline ≡ (if c == b'\n' then inc64 k.nline else k.nline))
      × ((count_char c k).nword ≡ (if k.wspace && not (isblank c) then inc64 k.nword else k.nword))
      × ((count_char c k).wspace ≡ is_white c)
unfolding count_char count_word count_line count_blank
char_lem c k = (ground arith, ground arith, ground arith, ground arith)

loop_lem :
    (cs : List ℕ) (k : Counts)
    → ((word_count_loop cs k).nchar % u64 ≡ (k.nchar + length cs) % u64)
      × ((word_count_loop cs k).nline % u64 ≡ (k.nline + count b'\n' cs) % u64)
      × ((word_count_loop cs k).nword % u64
          ≡ (k.nword + (starts k.wspace cs + bare_newlines k.wspace cs)) % u64)
unfolding word_count_loop
loop_lem [] k = (omega arith, omega arith, omega arith)
loop_lem (c ∷ cs) k =
    let (x, y, z, w) = char_lem c k in
    let (a, b, d) = loop_lem cs (count_char c k) in
    (ground (arith, a, x), ground (arith, b, y), ground (arith, d, z, w))

-- `WordCount` of a text up to its first byte 255, with counters modulo 2 ^ 64: the characters are its
-- length and the lines its newlines. What it gives for the words is the number of words plus the
-- number of newlines that do not stand right behind a word, as those of empty lines.
pub word_count_lem :
    (cs : List ℕ)
    → let text = until_eof cs in
      ((word_count cs).nchar % 2 ^ 64 ≡ length text % 2 ^ 64)
      × ((word_count cs).nline % 2 ^ 64 ≡ count b'\n' text % 2 ^ 64)
      × ((word_count cs).nword % 2 ^ 64 ≡ (words text + bare_newlines true text) % 2 ^ 64)
unfolding word_count
word_count_lem cs =
    let (a, b, d) =
      loop_lem (until_eof cs) (record { nchar = 0; nword = 0; nline = 0; wspace = true }) in
    let (st, _) = starts-words (until_eof cs) in
    (omega (arith, a), omega (arith, b), omega (arith, d, st))

-- The lines of a text, each with its newline; the last one may be without.
abbrev pub cons_first : ℕ → List (List ℕ) → List (List ℕ)
cons_first c [] = (c ∷ []) ∷ []
cons_first c (l ∷ ls) = (c ∷ l) ∷ ls

abbrev pub lines : List ℕ → List (List ℕ)
lines [] = []
lines (c ∷ cs) = let rest = lines cs in if c == b'\n' then (c ∷ []) ∷ rest else cons_first c rest

module _ (label : ℕ → List ℕ) where
  -- The lines with their labels, from the number behind `n` on.
  abbrev pub numbered : (n : ℕ) → List (List ℕ) → List ℕ
  numbered n [] = []
  numbered n (l ∷ ls) = label (inc64 n) ++ (l ++ numbered (inc64 n) ls)

  abbrev continued : (n : ℕ) → List (List ℕ) → List ℕ
  continued n [] = []
  continued n (l ∷ ls) = l ++ numbered n ls

  numbered_first :
      (n c : ℕ) (ls : List (List ℕ))
      → numbered n (cons_first c ls) ≡ label (inc64 n) ++ c ∷ continued (inc64 n) ls
  numbered_first n c [] = refl
  numbered_first n c (l ∷ ls) = refl

  continued_first :
      (n c : ℕ) (ls : List (List ℕ)) → continued n (cons_first c ls) ≡ c ∷ continued n ls
  continued_first n c [] = refl
  continued_first n c (l ∷ ls) = refl

  enum_lem :
      (cs : List ℕ) (n : ℕ)
      → (line_enum_loop label cs true n ≡ numbered n (lines cs))
        × (line_enum_loop label cs false n ≡ continued n (lines cs))
  unfolding line_enum_loop
  enum_lem [] n = (refl, refl)
  enum_lem (c ∷ cs) n = elim (Bool-cases (c == b'\n')) [
    | inl e ↦
        rw e (
          ap (λ t. label (inc64 n) ++ c ∷ t) (enum_lem cs (inc64 n)).0,
          ap (◌∷◌ c) (enum_lem cs n).0,
        )
    | inr e ↦ rw e (
      ap (λ t. label (inc64 n) ++ c ∷ t) (enum_lem cs (inc64 n)).1
          ∙ sym (numbered_first n c (lines cs)),
      ap (◌∷◌ c) (enum_lem cs n).1 ∙ sym (continued_first n c (lines cs)),
    )
  ]

  -- `LineEnum` puts before each line of a text, up to its first byte 255, the label of the line's
  -- number, from 1 on; the lines themselves are as they were.
  pub line_enum_lem : (cs : List ℕ) → line_enum label cs ≡ numbered 0 (lines (until_eof cs))
  unfolding line_enum
  line_enum_lem cs = (enum_lem (until_eof cs) 0).0
