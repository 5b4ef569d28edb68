-- ===== src/Shell/Hanoi.antt =====
-- tinyos_shell.c: the moves of hanoi solve the puzzle.
use disasteros.Common.{
  ℕ, zero, suc, ◌+◌, ◌^◌, ◌≡◌, ◌≢◌, ◌≤◌, refl, sym, ap, ◌∙◌, Bool, true, Option, none, some, List,
  [], ◌∷◌, ◌++◌, ltb, if◌then◌else◌, update, arith, length, length-append, ◌>>=◌,
}
use disasteros.Shell.{hanoi}

-- The tiles with their disks, top first; a disk is smaller than another if its number is.
abbrev pub Tiles : Type 0
Tiles = ℕ → List ℕ

-- Whether a disk may go on a pile.
abbrev pub fits : (d : ℕ) → List ℕ → Bool
fits d [] = true
fits d (e ∷ es) = ltb d e

-- The top disk of one tile goes on another tile; `none` is a move against the rules.
abbrev pub lift : (from to : ℕ) → List ℕ → Tiles → Option Tiles
lift from to [] t = none
lift from to (d ∷ ds) t =
    if fits d (t to) then some (update (update t from ds) to (d ∷ t to)) else none

abbrev pub move : ℕ × ℕ → Tiles → Option Tiles
move (from, to) t = lift from to (t from) t

abbrev pub play : List (ℕ × ℕ) → Tiles → Option Tiles
play [] t = some t
play (m ∷ ms) t = move m t >>= play ms

-- A tower of the disks below `n`, on top of a pile.
abbrev pub tower : (n : ℕ) → List ℕ → List ℕ
tower zero pile = pile
tower (suc n) pile = tower n (n ∷ pile)

-- No disk of a pile is smaller than `n`, as far as the top shows.
abbrev pub Above : (n : ℕ) → List ℕ → Type 0
Above n [] = Unit
Above n (e ∷ es) = n ≤ e

>>=-assoc :
    (o : Option Tiles) (f g : Tiles → Option Tiles) → (o >>= (λ t. f t >>= g)) ≡ (o >>= f >>= g)
>>=-assoc none f g = refl
>>=-assoc (some t) f g = refl

play-append : (ms ns : List (ℕ × ℕ)) (t : Tiles) → play (ms ++ ns) t ≡ (play ms t >>= play ns)
play-append [] ns t = refl
play-append (m ∷ ms) ns t =
    ap (λ f. move m t >>= f) (λ i x. play-append ms ns x i)
    ∙ >>=-assoc (move m t) (play ms) (play ns)

Above-weaken : (n : ℕ) (pile : List ℕ) → Above (suc n) pile → Above n pile
Above-weaken n [] h = tt
Above-weaken n (e ∷ es) h = omega (arith, h)

fits-Above : (n : ℕ) (pile : List ℕ) → Above (suc n) pile → fits n pile ≡ true
fits-Above n [] h = refl
fits-Above n (e ∷ es) h = ground (arith, h)

move_lem :
    (n a b : ℕ) (x y : List ℕ) (t : Tiles)
    → t a ≡ n ∷ x
    → t b ≡ y
    → fits n y ≡ true
    → move (a, b) t ≡ some (update (update t a x) b (n ∷ y))
move_lem n a b x y t ea eb h =
    ap (λ l. lift a b l t) ea
    ∙ ap (λ l. if fits n l then some (update (update t a x) b (n ∷ l)) else none) eb
    ∙ rw h refl

-- The piles of three tiles, the others as in `t`.
pub record Piles (a b c : ℕ) (x y z : List ℕ) (t t' : Tiles) : Type 0 where
  pub first : t' a ≡ x
  pub second : t' b ≡ y
  pub third : t' c ≡ z
  pub others : (d : ℕ) → d ≢ a → d ≢ b → d ≢ c → t' d ≡ t d

-- The moves of `hanoi` for a tower of `n` disks, on three tiles with no other disk on top that is
-- smaller, are all by the rules, and take the tower from the tile `a` to the tile `b`, with nothing
-- else changed at their end. There are 2 ^ n - 1 of them.
pub hanoi_lem :
    (n a b c : ℕ) (x y z : List ℕ) (t : Tiles)
    → (a ≢ b) × (a ≢ c) × (b ≢ c)
    → Above n x × Above n y × Above n z
    → Piles a b c (tower n x) y z t t
    → (t' : Tiles) × (play (hanoi n a b c) t ≡ some t')
      × Piles a b c x (tower n y) z t t'
      × (length (hanoi n a b c) + 1 ≡ 2 ^ n)
unfolding hanoi
hanoi_lem zero a b c x y z t d h p = (t, refl, p, refl)
hanoi_lem (suc n) a b c x y z t (ab, ac, bc) (hx, hy, hz) p =
    let wy = Above-weaken n y hy in
    let wz = Above-weaken n z hz in
    let below : n ≤ n = omega arith in
    let (t₁, e₁, p₁, l₁) =
      hanoi_lem n a c b (n ∷ x) z y t (ac, ab, λ e. bc (sym e)) (below, wz, wy)
        (record {
          first = p.first;
          second = p.third;
          third = p.second;
          others = λ u _ _ _. refl;
        }) in
    let t₂ = update (update t₁ a x) b (n ∷ y) in
    let e₂ : move (a, b) t₁ ≡ some t₂ =
      move_lem n a b x y t₁ p₁.first p₁.third (fits-Above n y hy) in
    let (t₃, e₃, p₃, l₃) =
      hanoi_lem n c b a z (n ∷ y) x t₂ (λ e. bc (sym e), λ e. ac (sym e), λ e. ab (sym e))
        (wz, below, Above-weaken n x hx)
        (record {
          first = ground (arith, p₁.second, ac, bc);
          second = ground arith;
          third = ground (arith, ab);
          others = λ u _ _ _. refl;
        }) in
    (
      t₃,
      play-append (hanoi n a c b) ((a, b) ∷ hanoi n c b a) t
          ∙ ap (λ o. o >>= play ((a, b) ∷ hanoi n c b a)) e₁
          ∙ ap (λ o. o >>= play (hanoi n c b a)) e₂
          ∙ e₃,
      record {
        first = p₃.third;
        second = p₃.second;
        third = p₃.first;
        others = λ u ua ub uc. p₃.others u uc ub ua ∙ ground (arith, ua, ub) ∙ p₁.others u ua uc ub;
      },
      omega (arith, length-append (hanoi n a c b) ((a, b) ∷ hanoi n c b a), l₁, l₃),
    )
