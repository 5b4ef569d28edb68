-- ===== src/Tests/Shell.antt =====
-- The programs of the shell, a command line, and the messages of the remote server.
use disasteros.Common.{
  ◌++◌, take, drop, min, ◌%◌, ◌^◌, true, ℕ, ◌+◌, ◌≡◌, refl, none, some, List, [], ◌∷◌, length,
  count, arith, ◌==◌, if◌then◌else◌,
}
use disasteros.Shell.{hanoi, until_eof, word_count, line_enum}
use disasteros.Shell.Hanoi.{Tiles, play, tower, Piles, hanoi_lem}
use disasteros.Shell.Filters.{words, bare_newlines, numbered, lines, word_count_lem, line_enum_lem}
use disasteros.Shell.Pipeline.{Calls}
use disasteros.Shell.Remote.{
  Channel, request, recv_loop, send_loop, recv_message, receive_args, receive_request,
}
use disasteros.Shell.Messages.{message_loops_lem}
use disasteros.Shell.Line.{Word, Fragments, same_word, split_line}
use disasteros.Shell.Split.{split_line-overflow}

abbrev word_a : Word
word_a = b'a' ∷ []

abbrev word_b : Word
word_b = b'b' ∷ []

abbrev bar : Word
bar = b'|' ∷ []

-- "a | b"
abbrev two_words : List Word
two_words = word_a ∷ bar ∷ word_b ∷ []

abbrev unset : Fragments
unset = record { vargc = λ j. 77; vargv = λ j. 77 }

split_line-overflow_example : split_line (bar ∷ []) unset ≡ none
unfolding same_word
split_line-overflow_example = split_line-overflow (bar ∷ []) unset (omega arith)

abbrev commands : List Word
commands = word_a ∷ word_b ∷ []

-- System calls that count themselves.
abbrev counting : Calls ℕ
counting = record {
  open_null = λ s. (s, s + 1);
  dup2 = λ old new s. s + 1;
  close = λ fd s. s + 1;
  pipe = λ s. ((s, s), s + 1);
  execute_command = λ c s. (s, s + 1);
  wait_child = λ pid s. s + 1;
}

-- "a" and two newlines.
abbrev text : List ℕ
text = b'a' ∷ b'\n' ∷ b'\n' ∷ []

word_count_example :
    ((word_count text).nchar % 2 ^ 64 ≡ length (until_eof text) % 2 ^ 64)
    × ((word_count text).nline % 2 ^ 64 ≡ count b'\n' (until_eof text) % 2 ^ 64)
    × ((word_count text).nword % 2 ^ 64
        ≡ (words (until_eof text) + bare_newlines true (until_eof text)) % 2 ^ 64)
word_count_example = word_count_lem text

-- Two disks on the first of three tiles.
abbrev tiles : Tiles
tiles d = if d == 1 then tower 2 [] else []

tiles-Piles : Piles 1 2 3 (tower 2 []) [] [] tiles tiles
tiles-Piles = record { first = refl; second = refl; third = refl; others = λ d p q r. refl }

hanoi_example :
    (t' : Tiles) × (play (hanoi 2 1 2 3) tiles ≡ some t')
    × Piles 1 2 3 [] (tower 2 []) [] tiles t'
    × (length (hanoi 2 1 2 3) + 1 ≡ 2 ^ 2)
hanoi_example =
    hanoi_lem 2 1 2 3 [] [] [] tiles (omega arith, omega arith, omega arith) (tt, tt, tt)
      tiles-Piles

-- A connection that takes one byte a call, and gives three at most.
abbrev narrow : Channel (List ℕ) (List ℕ)
narrow = record {
  read = λ size r. (take (min size 3) r, drop (min size 3) r);
  write = λ bs w. (1, w ++ take 1 bs);
}

message_loops_example :
    (recv_loop narrow (4 + 3) 4 [] text ≡ recv_loop narrow 4 4 [] text)
    × (send_loop narrow (3 + 3) text 0 [] ≡ send_loop narrow 3 text 0 [])
message_loops_example = message_loops_lem narrow 4 3 text text []

-- A request of two bytes.
abbrev arriving : List ℕ
arriving = 2 ∷ 0 ∷ 0 ∷ 0 ∷ b'a' ∷ 0 ∷ []

arriving_test : (receive_request narrow arriving).0 ≡ request (b'a' ∷ 0 ∷ [])
unfolding receive_request receive_args recv_message recv_loop
arriving_test = refl

abbrev line_label : ℕ → List ℕ
line_label n = n ∷ []

line_enum_example : line_enum line_label text ≡ numbered line_label 0 (lines (until_eof text))
line_enum_example = line_enum_lem line_label text
