-- ===== src/Argv.antt =====
-- util.h: vectors of strings packed into one argument buffer. A C string is the list of its bytes
-- before the terminating zero, and memory is a function from addresses to bytes.
pub mod Execute
pub mod Layout
pub mod Packing
pub mod Counting
use disasteros.Common.{
  ℕ, zero, suc, ◌+◌, Option, none, some, List, [], ◌∷◌, length, ◌==◌, if◌then◌else◌, update, ◌>>=◌,
}

abbrev pub Memory : Type 0
Memory = ℕ → ℕ

-- `argvlen`
unfoldable pub argvlen : (argv : List (List ℕ)) → ℕ
argvlen [] = 0
argvlen (s ∷ argv) = length s + 1 + argvlen argv

-- The variables of the loop of `argvpack`, and the memory it writes.
pub record Cursor : Type 0 where
  pub pos : ℕ
  pub argl : ℕ
  pub mem : Memory

-- `*pos++ = c`
abbrev pub put_byte : (c : ℕ) → Cursor → Cursor
put_byte c k = record k { pos = suc k.pos; mem = update k.mem k.pos c }

-- `while(( *pos++ = *s++ )) argl++`
unfoldable pub pack_string : (s : List ℕ) → Cursor → Cursor
pack_string [] k = put_byte 0 k
pack_string (c ∷ s) k =
    let k' = put_byte c k in
    let rest = pack_string s (record k' { argl = suc k'.argl }) in if c == 0 then k' else rest

-- The loop over the strings.
unfoldable pub pack_strings : (argv : List (List ℕ)) → Cursor → Cursor
pack_strings [] k = k
pack_strings (s ∷ argv) k = pack_strings argv (pack_string s k)

-- `argvpack`: the memory after it, and what it returns. Its counter is an int, which is not bounded here;
-- Execute and RemoteClient do not look at the result.
unfoldable pub argvpack : (args : ℕ) (argv : List (List ℕ)) → Memory → Memory × ℕ
argvpack args argv mem =
    let k = pack_strings argv (record { pos = args; argl = 0; mem = mem }) in
    (k.mem, k.argl + length argv)

-- `argscount`, by the rounds that its loop makes: none for a negative `argl`. Its counters are at most
-- `argl`, which is an int.
unfoldable pub argscount : (argl args : ℕ) → Memory → ℕ
argscount zero args mem = 0
argscount (suc argl) args mem =
    if mem args == 0 then suc (argscount argl (suc args) mem) else argscount argl (suc args) mem

-- `while(*a++)`, on fuel: where it stops, or `none` if the fuel runs out.
unfoldable pub skip_string : (fuel a : ℕ) → Memory → Option ℕ
skip_string zero a mem = none
skip_string (suc fuel) a mem =
    let rest = skip_string fuel (suc a) mem in if mem a == 0 then some (suc a) else rest

-- `argvunpack`: the pointers it stores in `argv`, and the location it returns. Its `argl` is not
-- used; each string has `fuel` steps.
unfoldable pub argvunpack : (fuel argc args : ℕ) → Memory → Option (List ℕ × ℕ)
argvunpack fuel zero args mem = some ([], args)
argvunpack fuel (suc argc) args mem = skip_string fuel args mem >>= λ a.
    argvunpack fuel argc a mem >>= λ (argv, end). some (args ∷ argv, end)
