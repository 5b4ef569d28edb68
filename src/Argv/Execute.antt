-- ===== src/Argv/Execute.antt =====
-- tinyoslib.c: Execute, exec_wrapper and ParseProcInfo, which pass a program and its strings through
-- the argument of a process. A program pointer is its 8 bytes.
use disasteros.Common.{
  ◌^◌, ◌%◌, ℕ, zero, suc, ◌+◌, ◌-◌, ◌≤◌, ◌<◌, ◌≡◌, refl, ap, ap₂, subst, ◌∙◌, Bool, true, false,
  Option, some, List, [], ◌∷◌, length, ltb, if◌then◌else◌, update, update_self, ◌>>=◌, arith,
}
use disasteros.Common.Int.{ℤ, pos, negsuc, minus_one}
use disasteros.Argv.{Memory, argvlen, argvpack, argscount, argvunpack}
use disasteros.Argv.Layout.{Holds, Placed, Points, AllStrings}
use disasteros.Argv.Packing.{argvpack_lem}
use disasteros.Argv.Counting.{argscount_lem, argvunpack_lem}

abbrev sizeof_prog : ℕ
sizeof_prog = 8

-- `memcpy` from and to a variable.
abbrev store : (a : ℕ) (bytes : List ℕ) → Memory → Memory
store a [] mem = mem
store a (b ∷ bytes) mem = store (suc a) bytes (update mem a b)

abbrev load : (n a : ℕ) → Memory → List ℕ
load zero a mem = []
load (suc n) a mem = mem a ∷ load n (suc a) mem

-- A size_t as an `int`.
abbrev pub to_int : ℕ → ℤ
to_int n = if ltb (n % 2 ^ 32) (2 ^ 31) then pos (n % 2 ^ 32) else negsuc (2 ^ 32 - 1 - n % 2 ^ 32)

-- How many rounds a loop makes that counts up to an `int`, and how many bytes a copy of that size has.
abbrev pub extent : ℤ → ℕ
extent (pos n) = n
extent (negsuc n) = 0

-- `Execute`, with its buffer at `args`: the length and the memory with which it calls `Exec`.
unfoldable pub execute : (args : ℕ) (prog : List ℕ) (argv : List (List ℕ)) → Memory → ℤ × Memory
execute args prog argv mem = (
  to_int (argvlen argv + sizeof_prog),
  (argvpack (args + sizeof_prog) argv (store args prog mem)).0,
)

-- `exec_wrapper`: the program it calls, with the count and the pointers it passes to it. The loop of
-- `argscount` runs over what `argl` leaves behind the program, which fewer bytes make negative.
unfoldable pub exec_wrapper : (argl : ℤ) → (args : ℕ) → Memory → Option (List ℕ × ℕ × List ℕ)
exec_wrapper argl args mem =
    let argc = argscount (extent argl - sizeof_prog) (args + sizeof_prog) mem in
    argvunpack (extent argl) argc (args + sizeof_prog) mem >>= λ (argv, end).
    some (load sizeof_prog args mem, argc, argv)

-- `ParseProcInfo`, for a process whose main task is `exec_wrapper` or is not, with `argv` NULL or
-- not: what it returns, and what it stores in `argv`. It stores nothing at `prog`, since its `memcpy`
-- overwrites that pointer.
unfoldable pub parse_proc_info :
    (is_wrapper : Bool) (argl : ℤ) (args : ℕ) (has_argv : Bool) (argc : ℕ)
    → Memory
    → Option (ℤ × List ℕ)
parse_proc_info false argl args has_argv argc mem = some (minus_one, [])
parse_proc_info true argl args has_argv argc mem =
    if ltb 128 (extent argl)
    then some (minus_one, [])
    else if has_argv
    then (argvunpack (extent argl) (if ltb n argc then n else argc) (args + sizeof_prog) mem
        >>= λ (argv, end). some (pos n, argv))
    else some (pos n, [])
  where
    n : ℕ
    n = argscount (extent argl - sizeof_prog) (args + sizeof_prog) mem

-- Memory that holds a copy, `n` bytes at `b` of those at `a`.
abbrev pub Copied : Memory → (a : ℕ) → Memory → (b n : ℕ) → Type 0
Copied mem a mem' b n = (i : ℕ) → i < n → mem' (b + i) ≡ mem (a + i)

Copied-shift :
    (mem : Memory) (a : ℕ) (mem' : Memory) (b : ℕ) {n : ℕ} (k m : ℕ)
    → k + m ≤ n
    → Copied mem a mem' b n
    → Copied mem (a + k) mem' (b + k) m
Copied-shift mem a mem' b k m h c i l =
    ap mem' {x = b + k + i} {y = b + (k + i)} (omega arith)
    ∙ c (k + i) (omega arith)
    ∙ ap mem {x = a + (k + i)} {y = a + k + i} (omega arith)

Copied-tail :
    (mem : Memory) (a : ℕ) (mem' : Memory) (b n : ℕ)
    → Copied mem a mem' b (suc n)
    → (mem' b ≡ mem a) × Copied mem (suc a) mem' (suc b) n
Copied-tail mem a mem' b n c = (
  ap mem' {x = b} {y = b + 0} (omega arith)
      ∙ c 0 (omega arith)
      ∙ ap mem {x = a + 0} {y = a} (omega arith),
  λ i l.
      ap mem' {x = suc b + i} {y = b + suc i} (omega arith)
      ∙ c (suc i) (omega arith)
      ∙ ap mem {x = a + suc i} {y = suc a + i} (omega arith),
)

Holds-Copied :
    (mem : Memory) (a : ℕ) (mem' : Memory) (b : ℕ) (s : List ℕ)
    → Copied mem a mem' b (suc (length s))
    → Holds mem a s
    → Holds mem' b s
Holds-Copied mem a mem' b [] c p = (Copied-tail mem a mem' b 0 c).0 ∙ p
Holds-Copied mem a mem' b (x ∷ s) c p =
    let (first, later) = Copied-tail mem a mem' b (suc (length s)) c in
    (first ∙ p.0, Holds-Copied mem (suc a) mem' (suc b) s later p.1)

Placed-Copied :
    (mem : Memory) (a : ℕ) (mem' : Memory) (b : ℕ) (argv : List (List ℕ))
    → Copied mem a mem' b (argvlen argv)
    → Placed mem a argv
    → Placed mem' b argv
unfolding argvlen
Placed-Copied mem a mem' b [] c p = tt
Placed-Copied mem a mem' b (s ∷ argv) c p = (
  Holds-Copied mem a mem' b s (λ i l. c i (omega arith)) p.0,
  Placed-Copied mem (a + (length s + 1)) mem' (b + (length s + 1)) argv
      (Copied-shift mem a mem' b (length s + 1) (argvlen argv) (omega arith) c) p.1,
)

store_above : (a : ℕ) (bytes : List ℕ) (mem : Memory) (j : ℕ) → j < a → store a bytes mem j ≡ mem j
store_above a [] mem j h = refl
store_above a (b ∷ bytes) mem j h =
    store_above (suc a) bytes (update mem a b) j (omega arith) ∙ ground arith

-- A variable that is copied and read back.
load-store :
    (a : ℕ) (bytes : List ℕ) (mem mem' : Memory) (b : ℕ)
    → Copied (store a bytes mem) a mem' b (length bytes)
    → load (length bytes) b mem' ≡ bytes
load-store a [] mem mem' b c = refl
load-store a (x ∷ bytes) mem mem' b c =
    let (first, later) = Copied-tail (store a (x ∷ bytes) mem) a mem' b (length bytes) c in
    ap₂ ◌∷◌
      (first ∙ store_above (suc a) bytes (update mem a x) a (omega arith) ∙ update_self mem a x)
      (load-store (suc a) bytes (update mem a x) mem' (suc b) later)

to_int_lem : (n : ℕ) → n < 2 ^ 31 → extent (to_int n) ≡ n
to_int_lem n h = let e : n % 2 ^ 32 ≡ n = omega (arith, h) in ground (arith, e, h)

-- What stands in a copy of the buffer of `Execute`.
unpacked :
    (args : ℕ) (prog : List ℕ) (argv : List (List ℕ)) (mem mem' : Memory) (args' : ℕ)
    → length prog ≡ 8
    → AllStrings argv
    → argvlen argv + 8 < 2 ^ 31
    → Copied (execute args prog argv mem).1 args mem' args' (extent (execute args prog argv mem).0)
    → (load 8 args' mem' ≡ prog)
      × (argscount (argvlen argv + 8 - 8) (args' + 8) mem' ≡ length argv)
      × Placed mem' (args' + 8) argv
unfolding execute
unpacked args prog argv mem mem' args' len hs fits copied =
    let size : extent (to_int (argvlen argv + 8)) ≡ argvlen argv + 8 =
      to_int_lem (argvlen argv + 8) fits in
    let whole = subst (λ n. Copied (execute args prog argv mem).1 args mem' args' n) size copied in
    let st = store args prog mem in
    let (_, placed, below) = argvpack_lem (args + 8) argv st hs in
    let here =
      Placed-Copied (argvpack (args + 8) argv st).0 (args + 8) mem' (args' + 8) argv
        (Copied-shift (argvpack (args + 8) argv st).0 args mem' args' 8 (argvlen argv) (omega arith)
          whole)
        placed in
    (
      subst (λ n. load n args' mem' ≡ prog) len
          (load-store args prog mem mem' args'
            (λ i l. copied i (omega arith) ∙ below (args + i) (omega arith))),
      ap (λ n. argscount n (args' + 8) mem') {x = argvlen argv + 8 - 8} {y = argvlen argv}
            (omega arith)
          ∙ argscount_lem argv (args' + 8) mem' hs here,
      here,
    )

-- A program and its strings come through the argument of a process, if together they take up fewer
-- than 2 ^ 31 bytes: whatever bytes they are, on any copy of the buffer that `Execute` hands to `Exec`,
-- `exec_wrapper` calls the same program, with as many arguments, each of which points at the same
-- string.
pub execute-exec_wrapper :
    (args : ℕ) (prog : List ℕ) (argv : List (List ℕ)) (mem mem' : Memory) (args' : ℕ)
    → length prog ≡ 8
    → AllStrings argv
    → argvlen argv + 8 < 2 ^ 31
    → Copied (execute args prog argv mem).1 args mem' args' (extent (execute args prog argv mem).0)
    → (ptrs : List ℕ) × (exec_wrapper (execute args prog argv mem).0 args' mem'
        ≡ some (prog, length argv, ptrs))
      × Points mem' ptrs argv
unfolding execute exec_wrapper
execute-exec_wrapper args prog argv mem mem' args' len hs fits copied =
    let (loaded, counted, placed) = unpacked args prog argv mem mem' args' len hs fits copied in
    let (ptrs, e, points) =
      argvunpack_lem argv (argvlen argv + 8) (args' + 8) mem' hs placed (omega arith) in
    (ptrs, ground (arith, loaded, counted, e), points)

-- `ParseProcInfo` reads the strings back from the arguments of an `Execute` that take up at most 128
-- bytes, kept in the process information: with room for all of them it returns their number, and
-- its `argv` points at each of them.
pub execute-parse_proc_info :
    (args : ℕ) (prog : List ℕ) (argv : List (List ℕ)) (mem mem' : Memory) (args' argc : ℕ)
    → length prog ≡ 8
    → AllStrings argv
    → argvlen argv + 8 < 2 ^ 31
    → length argv ≤ argc
    → extent (execute args prog argv mem).0 ≤ 128
    → Copied (execute args prog argv mem).1 args mem' args' (extent (execute args prog argv mem).0)
    → (ptrs : List ℕ) × (parse_proc_info true (execute args prog argv mem).0 args' true argc mem'
        ≡ some (pos (length argv), ptrs))
      × Points mem' ptrs argv
unfolding execute parse_proc_info
execute-parse_proc_info args prog argv mem mem' args' argc len hs fits room short copied =
    let (loaded, counted, placed) = unpacked args prog argv mem mem' args' len hs fits copied in
    let (ptrs, e, points) =
      argvunpack_lem argv (argvlen argv + 8) (args' + 8) mem' hs placed (omega arith) in
    (ptrs, ground (arith, counted, e), points)
