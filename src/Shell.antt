-- ===== src/Shell.antt =====
-- tinyos_shell.c: the programs that filter a text, and the towers of Hanoi. A text is the bytes that
-- `fgetc` gives, up to the end of the file.
pub mod Hanoi
pub mod Filters
pub mod Line
pub mod Split
pub mod Pipeline
pub mod Process
pub mod Remote
pub mod Messages
use disasteros.Common.{
  ℕ, zero, suc, ◌+◌, ◌-◌, ◌*◌, ◌%◌, ◌^◌, Bool, true, false, not, ◌&&◌, ◌||◌, Option, none, some,
  List, [], ◌∷◌, ◌++◌, ltb, leb, ◌==◌, if◌then◌else◌,
}

-- The loops `while((c=fgetc(fin))!=EOF)` keep `c` in a char: the byte 255 ends them too.
unfoldable pub until_eof : List ℕ → List ℕ
until_eof [] = []
until_eof (c ∷ cs) = let rest = until_eof cs in if c == 255 then [] else c ∷ rest

-- `toupper`, `tolower` and `isblank` of the C locale.
abbrev pub toupper : ℕ → ℕ
toupper c = if leb b'a' c && leb c b'z' then c - 32 else c

abbrev pub tolower : ℕ → ℕ
tolower c = if leb b'A' c && leb c b'Z' then c + 32 else c

abbrev pub isblank : ℕ → Bool
isblank c = c == b' ' || c == b'\t'

-- `Capitalize`: what it writes for what it reads.
unfoldable pub capitalize : List ℕ → List ℕ
capitalize [] = []
capitalize (c ∷ cs) = let rest = capitalize cs in if c == 255 then [] else toupper c ∷ rest

-- `LowerCase`
unfoldable pub lower_case : List ℕ → List ℕ
lower_case [] = []
lower_case (c ∷ cs) = let rest = lower_case cs in if c == 255 then [] else tolower c ∷ rest

-- The local variables of `WordCount`; the counters are of type size_t.
pub record Counts : Type 0 where
  pub nchar : ℕ
  pub nword : ℕ
  pub nline : ℕ
  pub wspace : Bool

abbrev pub inc64 : ℕ → ℕ
inc64 n = (n + 1) % 2 ^ 64

-- The first `if` of the loop of `WordCount`,
unfoldable pub count_word : ℕ → Counts → Counts
count_word c k =
    if k.wspace && not (isblank c) then record k { wspace = false; nword = inc64 k.nword } else k

-- the second,
unfoldable pub count_line : ℕ → Counts → Counts
count_line c k = if c == b'\n' then record k { nline = inc64 k.nline; wspace = true } else k

-- the third,
unfoldable pub count_blank : ℕ → Counts → Counts
count_blank c k = if isblank c then record k { wspace = true } else k

-- the whole of its body,
unfoldable pub count_char : ℕ → Counts → Counts
count_char c k = count_blank c (count_line c (count_word c (record k { nchar = inc64 k.nchar })))

-- and the loop.
unfoldable pub word_count_loop : List ℕ → Counts → Counts
word_count_loop [] k = k
word_count_loop (c ∷ cs) k = word_count_loop cs (count_char c k)

-- `WordCount`, but for the printing.
unfoldable pub word_count : List ℕ → Counts
word_count cs =
    word_count_loop (until_eof cs) (record { nchar = 0; nword = 0; nline = 0; wspace = true })

-- `LineEnum`, where `label` is what `fprintf` makes of a line number by "%6zu: ".
module _ (label : ℕ → List ℕ) where
  unfoldable pub line_enum_loop : List ℕ → (atend : Bool) → (count : ℕ) → List ℕ
  line_enum_loop [] atend count = []
  line_enum_loop (c ∷ cs) atend count =
      let next = if atend then inc64 count else count in
      let rest = line_enum_loop cs (c == b'\n') next in
      if atend then label next ++ c ∷ rest else c ∷ rest

  unfoldable pub line_enum : List ℕ → List ℕ
  line_enum cs = line_enum_loop (until_eof cs) true 0

-- `hanoi`: the moves that it prints, each from a tile to a tile.
unfoldable pub hanoi : (n a b c : ℕ) → List (ℕ × ℕ)
hanoi zero a b c = []
hanoi (suc n) a b c = hanoi n a c b ++ (a, b) ∷ hanoi n c b a
