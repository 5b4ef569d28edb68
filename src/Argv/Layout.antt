-- ===== src/Argv/Layout.antt =====
-- util.h: what it means that strings stand in memory, one behind the other.
use disasteros.Common.{ℕ, suc, ◌+◌, ◌<◌, ◌≡◌, ◌≢◌, ◌∙◌, List, [], ◌∷◌, length, All, arith}
use disasteros.Argv.{Memory}

-- The string `s` stands at `a`, with its terminating zero.
abbrev pub Holds : Memory → (a : ℕ) (s : List ℕ) → Type 0
Holds mem a [] = mem a ≡ 0
Holds mem a (c ∷ s) = (mem a ≡ c) × Holds mem (suc a) s

-- The strings stand at `a` and behind it, with no gap.
abbrev pub Placed : Memory → (a : ℕ) (argv : List (List ℕ)) → Type 0
Placed mem a [] = Unit
Placed mem a (s ∷ argv) = Holds mem a s × Placed mem (a + (length s + 1)) argv

-- Each pointer points at its string, and there are as many.
abbrev pub Points : Memory → (ptrs : List ℕ) (argv : List (List ℕ)) → Type 0
Points mem [] [] = Unit
Points mem [] (s ∷ argv) = ⊥
Points mem (p ∷ ptrs) [] = ⊥
Points mem (p ∷ ptrs) (s ∷ argv) = Holds mem p s × Points mem ptrs argv

-- A string has no zero byte but the last.
abbrev pub IsString : List ℕ → Type 0
IsString s = All (λ c. c ≢ 0) s

abbrev pub AllStrings : List (List ℕ) → Type 0
AllStrings [] = Unit
AllStrings (s ∷ argv) = IsString s × AllStrings argv

-- What stands below an address stays where only higher addresses are written.
pub Holds-frame :
    {mem mem' : Memory} (a : ℕ) (s : List ℕ) (top : ℕ)
    → a + length s < top
    → ((j : ℕ) → j < top → mem' j ≡ mem j)
    → Holds mem a s
    → Holds mem' a s
Holds-frame a [] top h same p = same a (omega arith) ∙ p
Holds-frame {mem} {mem'} a (c ∷ s) top h same p = (
  same a (omega arith) ∙ p.0,
  Holds-frame {mem = mem} {mem' = mem'} (suc a) s top (omega arith) same p.1,
)
