-- ===== src/Argv/Packing.antt =====
-- util.h: argvpack puts the strings one behind the other, and writes nothing below the buffer.
use disasteros.Common.{
  ℕ, suc, ◌+◌, ◌<◌, ◌≡◌, ◌≢◌, refl, sym, ◌∙◌, List, [], ◌∷◌, length, update, update_self, subst,
  arith,
}
use disasteros.Argv.{Memory, Cursor, argvlen, pack_string, pack_strings, argvpack}
use disasteros.Argv.Layout.{Holds, Placed, IsString, AllStrings, Holds-frame}

pub pack_string-pos :
    (s : List ℕ) (k : Cursor)
    → IsString s
    → ((pack_string s k).pos ≡ k.pos + (length s + 1))
      × ((pack_string s k).argl ≡ k.argl + length s)
unfolding pack_string
pack_string-pos [] k h = ground arith
pack_string-pos (c ∷ s) k h = ground (
  arith,
  pack_string-pos s (record k { pos = suc k.pos; argl = suc k.argl; mem = update k.mem k.pos c })
      h.1,
  h.0,
)

pub pack_string-below :
    (s : List ℕ) (k : Cursor) (j : ℕ) → j < k.pos → (pack_string s k).mem j ≡ k.mem j
unfolding pack_string
pack_string-below [] k j h = ground arith
pack_string-below (c ∷ s) k j h = ground (
  arith,
  pack_string-below s (record k { pos = suc k.pos; argl = suc k.argl; mem = update k.mem k.pos c })
      j (omega arith),
)

-- The loop goes on behind a byte that is not zero.
pack_string-next :
    (c : ℕ) (s : List ℕ) (k : Cursor)
    → c ≢ 0
    → pack_string (c ∷ s) k
      ≡ pack_string s (record k { pos = suc k.pos; argl = suc k.argl; mem = update k.mem k.pos c })
unfolding pack_string
pack_string-next c s k h = ground arith

pack_string-end : (k : Cursor) → (pack_string [] k).mem k.pos ≡ 0
unfolding pack_string
pack_string-end k = ground arith

pack_string-Holds : (s : List ℕ) (k : Cursor) → IsString s → Holds (pack_string s k).mem k.pos s
pack_string-Holds [] k h = pack_string-end k
pack_string-Holds (c ∷ s) k h =
    let k' = record k { pos = suc k.pos; argl = suc k.argl; mem = update k.mem k.pos c } in
    subst (λ q. Holds q.mem k.pos (c ∷ s)) (sym (pack_string-next c s k h.0))
      (
        pack_string-below s k' k.pos (omega arith) ∙ update_self k.mem k.pos c,
        pack_string-Holds s k' h.1,
      )

pack_strings-below :
    (argv : List (List ℕ)) (k : Cursor) (j : ℕ)
    → AllStrings argv
    → j < k.pos
    → (pack_strings argv k).mem j ≡ k.mem j
unfolding pack_strings
pack_strings-below [] k j hs h = refl
pack_strings-below (s ∷ argv) k j hs h =
    let p = (pack_string-pos s k hs.0).0 in
    pack_strings-below argv (pack_string s k) j hs.1 (omega arith) ∙ pack_string-below s k j h

pack_strings-argl :
    (argv : List (List ℕ)) (k : Cursor)
    → AllStrings argv
    → (pack_strings argv k).argl + length argv ≡ k.argl + argvlen argv
unfolding pack_strings argvlen
pack_strings-argl [] k hs = ground arith
pack_strings-argl (s ∷ argv) k hs =
    let p = (pack_string-pos s k hs.0).1 in
    let q = pack_strings-argl argv (pack_string s k) hs.1 in ground arith

pack_strings-Placed :
    (argv : List (List ℕ)) (k : Cursor)
    → AllStrings argv
    → Placed (pack_strings argv k).mem k.pos argv
unfolding pack_strings
pack_strings-Placed [] k hs = tt
pack_strings-Placed (s ∷ argv) k hs =
    let p = (pack_string-pos s k hs.0).0 in
    (
      Holds-frame {mem = (pack_string s k).mem} k.pos s (pack_string s k).pos (omega arith)
          (λ j h. pack_strings-below argv (pack_string s k) j hs.1 h) (pack_string-Holds s k hs.0),
      subst (λ q. Placed (pack_strings argv (pack_string s k)).mem q argv) p
          (pack_strings-Placed argv (pack_string s k) hs.1),
    )

-- `argvpack` returns the length that `argvlen` gives, the strings stand in the buffer one behind the
-- other, and nothing below it is written.
pub argvpack_lem :
    (args : ℕ) (argv : List (List ℕ)) (mem : Memory)
    → AllStrings argv
    → let (mem', argl) = argvpack args argv mem in
      (argl ≡ argvlen argv) × Placed mem' args argv × ((j : ℕ) → j < args → mem' j ≡ mem j)
unfolding argvpack
argvpack_lem args argv mem hs =
    let k : Cursor = record { pos = args; argl = 0; mem = mem } in
    (
      pack_strings-argl argv k hs ∙ ground arith,
      pack_strings-Placed argv k hs,
      λ j h. pack_strings-below argv k j hs h,
    )
