-- ===== src/Argv/Counting.antt =====
-- util.h: argscount and argvunpack on a buffer where strings stand.
use disasteros.Common.{
  ℕ, zero, suc, ◌+◌, ◌≤◌, ◌<◌, ◌≡◌, ◌≢◌, refl, sym, ap, subst, ◌∙◌, some, List, [], ◌∷◌, length,
  arith,
}
use disasteros.Argv.{Memory, argvlen, argscount, skip_string, argvunpack}
use disasteros.Argv.Layout.{Holds, Placed, Points, IsString, AllStrings}

argscount_zero :
    (n a : ℕ) (mem : Memory) → mem a ≡ 0 → argscount (1 + n) a mem ≡ suc (argscount n (suc a) mem)
unfolding argscount
argscount_zero n a mem h = ground arith

argscount_byte :
    (n a : ℕ) (mem : Memory) → mem a ≢ 0 → argscount (suc n) a mem ≡ argscount n (suc a) mem
unfolding argscount
argscount_byte n a mem h = ground arith

-- The zero of one string, and then those behind it.
count_string :
    (s : List ℕ) (n a : ℕ) (mem : Memory)
    → IsString s
    → Holds mem a s
    → argscount (length s + 1 + n) a mem ≡ suc (argscount n (a + (length s + 1)) mem)
count_string [] n a mem hs p =
    subst (λ q. argscount (1 + n) a mem ≡ suc (argscount n q mem)) {x = suc a} {y = a + 1}
      (omega arith) (argscount_zero n a mem p)
count_string (c ∷ s) n a mem hs p =
    let ne : mem a ≢ 0 = λ e. hs.0 (sym p.0 ∙ e) in
    let next = argscount_byte (length s + 1 + n) a mem ne ∙ count_string s n (suc a) mem hs.1 p.1 in
    let here =
      subst (λ q. argscount (suc (length s + 1 + n)) a mem ≡ suc (argscount n q mem))
        {x = suc a + (length s + 1)} {y = a + (suc (length s) + 1)} (omega arith) next in
    subst (λ q. argscount q a mem ≡ suc (argscount n (a + (suc (length s) + 1)) mem))
      {x = suc (length s + 1 + n)} {y = suc (length s) + 1 + n} (omega arith) here

pub argscount_lem :
    (argv : List (List ℕ)) (a : ℕ) (mem : Memory)
    → AllStrings argv
    → Placed mem a argv
    → argscount (argvlen argv) a mem ≡ length argv
unfolding argscount argvlen
argscount_lem [] a mem hs p = refl
argscount_lem (s ∷ argv) a mem hs p =
    count_string s (argvlen argv) a mem hs.0 p.0
    ∙ ap suc (argscount_lem argv (a + (length s + 1)) mem hs.1 p.1)

skip_string_lem :
    (s : List ℕ) (fuel a : ℕ) (mem : Memory)
    → IsString s
    → Holds mem a s
    → length s < fuel
    → skip_string fuel a mem ≡ some (a + (length s + 1))
unfolding skip_string
skip_string_lem s zero a mem hs p h = absurd (omega arith)
skip_string_lem [] (suc fuel) a mem hs p h = ground arith
skip_string_lem (c ∷ s) (suc fuel) a mem hs p h =
    let rest = skip_string_lem s fuel (suc a) mem hs.1 p.1 (omega arith) in
    ground (arith, p.0, hs.0)

-- `argvunpack` finds the strings that `argvlen` measures, if the fuel is that length.
pub argvunpack_lem :
    (argv : List (List ℕ)) (fuel a : ℕ) (mem : Memory)
    → AllStrings argv
    → Placed mem a argv
    → argvlen argv ≤ fuel
    → (ptrs : List ℕ) × (argvunpack fuel (length argv) a mem ≡ some (ptrs, a + argvlen argv))
      × Points mem ptrs argv
unfolding argvunpack argvlen
argvunpack_lem [] fuel a mem hs p h = ([], ground arith, tt)
argvunpack_lem (s ∷ argv) fuel a mem hs p h =
    let (ptrs, e, q) = argvunpack_lem argv fuel (a + (length s + 1)) mem hs.1 p.1 (omega arith) in
    let skip = skip_string_lem s fuel a mem hs.0 p.0 (omega arith) in
    (a ∷ ptrs, ground (arith, skip, e), (p.0, q))
