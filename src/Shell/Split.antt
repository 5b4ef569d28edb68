-- ===== src/Shell/Split.antt =====
-- tinyos_shell.c: the fragments of a command line are its parts between the bars.
use disasteros.Common.{
  ℕ, zero, suc, ◌+◌, ◌≡◌, ◌<◌, ◌≤◌, refl, sym, ap, ap₂, ◌∙◌, true, false, none, some, List, [], ◌∷◌,
  ◌++◌, append_assoc, append-nil, ltb, ◌==◌, if◌then◌else◌, update, length, take, drop, arith,
  Bool-cases, inl, inr, length-append,
}
use disasteros.Shell.Line.{
  Word, is_bar, Fragments, add_word, next_fragment, split_loop, split_line, fragment, count_last,
}

-- The number of the bars of a line.
abbrev pub bars : List Word → ℕ
bars [] = 0
bars (w ∷ ws) = let rest = bars ws in if is_bar w then suc rest else rest

-- The part of a line between the bars `j` and `j + 1`, counted from 1; the part 0 is the one before
-- the first bar.
abbrev pub part : (j : ℕ) → List Word → List Word
part j [] = []
part zero (w ∷ ws) = let rest = part zero ws in if is_bar w then [] else w ∷ rest
part (suc j) (w ∷ ws) =
    let here = part j ws in let later = part (suc j) ws in if is_bar w then here else later

slice_lem :
    (pre cur rest : List Word) → take (length cur) (drop (length pre) ((pre ++ cur) ++ rest)) ≡ cur
slice_lem [] [] rest = refl
slice_lem [] (w ∷ ws) rest = ap (◌∷◌ w) (slice_lem [] ws rest)
slice_lem (p ∷ pre) cur rest = slice_lem pre cur rest

-- The state of the loop before the words `rest`: the current fragment has the words `cur`, at the end
-- of those that were read.
record At (all rest : List Word) (i frag : ℕ) (f : Fragments) (pre cur : List Word) : Type 0 where
  whole : all ≡ (pre ++ cur) ++ rest
  index : i ≡ length (pre ++ cur)
  count : f.vargc frag ≡ length cur
  start : 0 < length cur → f.vargv frag ≡ length pre

At-fragment :
    (all rest : List Word) (i frag : ℕ) (f : Fragments) (pre cur : List Word)
    → At all rest i frag f pre cur
    → fragment frag f all ≡ cur
At-fragment all rest i frag f pre [] a = ap (λ n. take n (drop (f.vargv frag) all)) a.count
At-fragment all rest i frag f pre (w ∷ ws) a =
    rw (a.whole, a.count, a.start (omega arith)) (slice_lem pre (w ∷ ws) rest)

At-bar :
    (all ws : List Word) (w : Word) (i frag : ℕ) (f : Fragments) (pre cur : List Word)
    → At all (w ∷ ws) i frag f pre cur
    → At all ws (i + 1) (frag + 1) (next_fragment frag f) ((pre ++ cur) ++ w ∷ []) []
At-bar all ws w i frag f pre cur a = record {
  whole =
      a.whole
      ∙ sym (
          ap (λ l. l ++ ws) (append-nil ((pre ++ cur) ++ w ∷ []))
          ∙ append_assoc (pre ++ cur) (w ∷ []) ws);
  index = omega (
    arith,
    a.index,
    length-append (pre ++ cur) (w ∷ []),
    length-append ((pre ++ cur) ++ w ∷ []) [],
  );
  count = ground arith;
  start = λ h. absurd (omega (arith, h));
}

At-word :
    (all ws : List Word) (w : Word) (i frag : ℕ) (f : Fragments) (pre cur : List Word)
    → At all (w ∷ ws) i frag f pre cur
    → At all ws (i + 1) frag (add_word i frag f) pre (cur ++ w ∷ [])
At-word all ws w i frag f pre cur a =
    let grown = length-append cur (w ∷ []) in
    let split = length-append pre cur in
    record {
      whole =
          a.whole
          ∙ sym (
              ap (λ l. l ++ ws) (sym (append_assoc pre cur (w ∷ [])))
              ∙ append_assoc (pre ++ cur) (w ∷ []) ws);
      index = omega (arith, a.index, split, grown, length-append pre (cur ++ w ∷ []));
      count = ground (arith, a.count, grown);
      start = λ h. ground (arith, a.count, a.start, a.index, split);
    }

-- What the loop makes of the words `rest`.
record Splits (argc : ℕ) (all rest : List Word) (i frag : ℕ) (f : Fragments) (cur : List Word)
    : Type 0 where
  result : Fragments
  runs : split_loop argc rest i frag f ≡ some (frag + bars rest, result)
  before : (j : ℕ) → j < frag → (result.vargc j ≡ f.vargc j) × (result.vargv j ≡ f.vargv j)
  current : fragment frag result all ≡ cur ++ part 0 rest
  behind : (j : ℕ) → j < bars rest → fragment (frag + suc j) result all ≡ part (suc j) rest

parts_behind :
    (all ws : List Word) (frag : ℕ) (g : Fragments)
    → fragment (frag + 1) g all ≡ part 0 ws
    → ((k : ℕ) → k < bars ws → fragment (frag + 1 + suc k) g all ≡ part (suc k) ws)
    → (j : ℕ) → j < suc (bars ws)
    → fragment (frag + suc j) g all ≡ part j ws
parts_behind all ws frag g c b zero h =
    ap (λ n. fragment n g all) {x = frag + suc zero} {y = frag + 1} (omega arith) ∙ c
parts_behind all ws frag g c b (suc j) h =
    ap (λ n. fragment n g all) {x = frag + suc (suc j)} {y = frag + 1 + suc j} (omega arith)
    ∙ b j (omega (arith, h))

loop_lem :
    (argc : ℕ) (all rest : List Word) (i frag : ℕ) (f : Fragments) (pre cur : List Word)
    → At all rest i frag f pre cur
    → frag + bars rest < argc
    → Splits argc all rest i frag f cur
unfolding split_loop
loop_lem argc all [] i frag f pre cur a l = record {
  result = f;
  runs = ap (λ n. some (n, f)) (omega arith);
  before = λ j h. (refl, refl);
  current = At-fragment all [] i frag f pre cur a ∙ sym (append-nil cur);
  behind = λ j h. absurd (omega (arith, h));
}
loop_lem argc all (w ∷ ws) i frag f pre cur a l = elim (Bool-cases (is_bar w)) [
  | inl b ↦
      let n : bars (w ∷ ws) ≡ suc (bars ws) = rw b refl in
      let inside : ltb (frag + 1) argc ≡ true = ground (arith, l, n) in
      let r =
        loop_lem argc all ws (i + 1) (frag + 1) (next_fragment frag f) ((pre ++ cur) ++ w ∷ []) []
          (At-bar all ws w i frag f pre cur a) (omega (arith, l, n)) in
      record {
        result = r.result;
        runs = rw (b, inside) (r.runs ∙ ap (λ m. some (m, r.result)) (omega arith));
        before = λ j h. let (x, y) = r.before j (omega (arith, h)) in (x ∙ ground (arith, h), y);
        current =
            let (x, y) = r.before frag (omega arith) in
            let x' : r.result.vargc frag ≡ f.vargc frag = x ∙ ground arith in
            ap₂ (λ n k. take n (drop k all)) x' y
            ∙ At-fragment all (w ∷ ws) i frag f pre cur a
            ∙ rw b (sym (append-nil cur));
        behind = λ j h.
            rw b (parts_behind all ws frag r.result r.current r.behind j (omega (arith, h, n)));
      }
  | inr b ↦
      let r =
        loop_lem argc all ws (i + 1) frag (add_word i frag f) pre (cur ++ w ∷ [])
          (At-word all ws w i frag f pre cur a) (rw b at l) in
      record {
        result = r.result;
        runs = rw b r.runs;
        before = λ j h. let (x, y) = r.before j h in (x ∙ ground (arith, h), y ∙ ground (arith, h));
        current = r.current ∙ rw b (append_assoc cur (w ∷ []) (part 0 ws));
        behind = λ j h. rw b (r.behind j (rw b at h));
      }
]

overflow :
    (argc : ℕ) (ws : List Word) (i frag : ℕ) (f : Fragments)
    → frag < argc
    → argc ≤ frag + bars ws
    → split_loop argc ws i frag f ≡ none
unfolding split_loop
overflow argc [] i frag f l h = absurd (omega (arith, l, h))
overflow argc (w ∷ ws) i frag f l h = elim (Bool-cases (is_bar w)) [
  | inr b ↦ rw b (overflow argc ws (i + 1) frag (add_word i frag f) l (rw b at h))
  | inl b ↦ elim (Bool-cases (ltb (frag + 1) argc)) [
    | inr e ↦ rw (b, e) refl
    | inl e ↦
        let n : bars (w ∷ ws) ≡ suc (bars ws) = rw b refl in
        rw (b, e)
          (overflow argc ws (i + 1) (frag + 1) (next_fragment frag f) (ground (arith, e))
            (omega (arith, h, n)))
  ]
]

all_parts :
    (argv : List Word) (g : Fragments)
    → fragment 0 g argv ≡ part 0 argv
    → ((k : ℕ) → k < bars argv → fragment (0 + suc k) g argv ≡ part (suc k) argv)
    → (j : ℕ) → j ≤ bars argv
    → fragment j g argv ≡ part j argv
all_parts argv g c b zero h = c
all_parts argv g c b (suc j) h =
    ap (λ n. fragment n g argv) {x = suc j} {y = 0 + suc j} (omega arith) ∙ b j (omega (arith, h))

-- Splitting up a command line with a word that is no bar: the loop stays inside its arrays, and gives
-- one fragment more than there are bars. The fragment `j` is the part of the line behind `j` bars, up
-- to the next one.
pub split_line_lem :
    (argv : List Word) (f : Fragments)
    → bars argv < length argv
    → (g : Fragments) × (split_line argv f ≡ some (bars argv + 1, g))
      × ((j : ℕ) → j ≤ bars argv → fragment j g argv ≡ part j argv)
unfolding split_line
split_line_lem argv f h =
    let f₀ : Fragments = record f { vargc = update f.vargc 0 0 } in
    let e : (length argv == 0) ≡ false = ground (arith, h) in
    let r =
      loop_lem (length argv) argv argv 0 0 f₀ [] []
        (record {
          whole = refl;
          index = refl;
          count = refl;
          start = λ k. absurd (omega (arith, k));
        })
        (omega (arith, h)) in
    (
      r.result,
      rw e (
          ap count_last r.runs
          ∙ ap (λ n. some (n + 1, r.result)) {x = 0 + bars argv} {y = bars argv} (omega arith)),
      all_parts argv r.result r.current r.behind,
    )

-- A command line of nothing but bars makes the loop write behind the end of `Vargc`.
pub split_line-overflow :
    (argv : List Word) (f : Fragments) → length argv ≤ bars argv → split_line argv f ≡ none
unfolding split_line
split_line-overflow argv f h = elim (Bool-cases (length argv == 0)) [
  | inl e ↦ rw e refl
  | inr e ↦
      let l : 0 < length argv = ground (arith, e) in
      rw e (ap count_last (overflow (length argv) argv 0 0 _ l (omega (arith, h))))
]
