-- ===== src/Rlist/Splice.antt =====
-- util.h: rl_splice joins two rings into one, and cuts one into two.
use disasteros.Common.{
  ℕ, ◌≡◌, ◌≢◌, refl, sym, ◌∙◌, subst, ap, List, [], ◌∷◌, ◌++◌, count, count-append, arith,
}
use disasteros.Rlist.{Nodes, rl_splice}
use disasteros.Rlist.Ring.{Reach, Ring, NoDup, IsList, Reach-append, Reach-split}

-- The links that a splice makes, and those it leaves.
spliced :
    (a b : ℕ) (s : Nodes)
    → s.prev (s.next a) ≡ a
    → s.prev (s.next b) ≡ b
    → let s' = rl_splice a b s in
      (s'.next a ≡ s.next b)
      × (s'.next b ≡ s.next a)
      × (s'.prev (s.next b) ≡ a)
      × (s'.prev (s.next a) ≡ b)
unfolding rl_splice
spliced a b s ha hb = ground arith

unspliced :
    (a b j : ℕ) (s : Nodes)
    → s.prev (s.next a) ≡ a
    → s.prev (s.next b) ≡ b
    → s.prev (s.next j) ≡ j
    → j ≢ a
    → j ≢ b
    → let s' = rl_splice a b s in (s'.next j ≡ s.next j) × (s'.prev (s.next j) ≡ j)
unfolding rl_splice
unspliced a b j s ha hb hj na nb =
    let ka : s.next j ≢ s.next a = λ e. na (sym hj ∙ ap s.prev e ∙ ha) in
    let kb : s.next j ≢ s.next b = λ e. nb (sym hj ∙ ap s.prev e ∙ hb) in ground arith

pub Reach-rl_splice :
    (a b : ℕ) (s : Nodes) (x : ℕ) (xs : List ℕ) (y : ℕ)
    → s.prev (s.next a) ≡ a
    → s.prev (s.next b) ≡ b
    → count a xs ≡ 0
    → count b xs ≡ 0
    → Reach s x xs y
    → Reach (rl_splice a b s) x xs y
Reach-rl_splice a b s x [] y ha hb na nb p = p
Reach-rl_splice a b s x (z ∷ xs) y ha hb na nb (e, l, p) =
    let (f, g) = unspliced a b z s ha hb l (ground arith) (ground arith) in
    (
      e,
      ap (rl_splice a b s).prev f ∙ g,
      subst (λ v. Reach (rl_splice a b s) v xs y) (sym f)
          (Reach-rl_splice a b s (s.next z) xs y ha hb (ground arith) (ground arith) p),
    )

-- A ring that holds neither node is as it was.
pub IsList-rl_splice :
    (a b c : ℕ) (s : Nodes) (zs : List ℕ)
    → s.prev (s.next a) ≡ a
    → s.prev (s.next b) ≡ b
    → count a (c ∷ zs) ≡ 0
    → count b (c ∷ zs) ≡ 0
    → IsList s c zs
    → IsList (rl_splice a b s) c zs
IsList-rl_splice a b c s zs ha hb na nb ((l, p), d) =
    let s' = rl_splice a b s in
    let (f, g) = unspliced a b c s ha hb l (ground arith) (ground arith) in
    (
      (
        ap s'.prev f ∙ g,
        subst (λ v. Reach s' v zs c) (sym f)
            (Reach-rl_splice a b s (s.next c) zs c ha hb (ground arith) (ground arith) p),
      ),
      d,
    )

-- The two nodes of a splice stand nowhere else.
apart :
    (a b : ℕ) (xs ys : List ℕ)
    → NoDup (a ∷ ys ++ b ∷ xs)
    → (a ≢ b) × (count a xs ≡ 0) × (count a ys ≡ 0) × (count b xs ≡ 0) × (count b ys ≡ 0)
apart a b xs ys d =
    let da = d a in
    let db = d b in
    let ca = count-append a ys (b ∷ xs) in
    let cb = count-append b ys (b ∷ xs) in
    (λ e. ground arith, ground arith, ground arith, ground arith, ground arith)

-- Two rings become one.
pub splice_join :
    (a b : ℕ) (s : Nodes) (xs ys : List ℕ)
    → Ring s a xs
    → Ring s b ys
    → NoDup (a ∷ ys ++ b ∷ xs)
    → Ring (rl_splice a b s) a (ys ++ b ∷ xs)
splice_join a b s xs ys (ha, p) (hb, q) d =
    let (_, n₁, n₂, n₃, n₄) = apart a b xs ys d in
    let s' = rl_splice a b s in
    let (e, f, g, h) = spliced a b s ha hb in
    let ys' = Reach-rl_splice a b s (s.next b) ys b ha hb n₂ n₄ q in
    let xs' = Reach-rl_splice a b s (s.next a) xs a ha hb n₁ n₃ p in
    (
      ap s'.prev e ∙ g,
      Reach-append s' (s'.next a) b a ys (b ∷ xs) (subst (λ v. Reach s' v ys b) (sym e) ys')
          (refl, ap s'.prev f ∙ h, subst (λ v. Reach s' v xs a) (sym f) xs'),
    )

-- One ring becomes two.
pub splice_cut :
    (a b : ℕ) (s : Nodes) (xs ys : List ℕ)
    → Ring s a (ys ++ b ∷ xs)
    → NoDup (a ∷ ys ++ b ∷ xs)
    → Ring (rl_splice a b s) a xs × Ring (rl_splice a b s) b ys
splice_cut a b s xs ys (ha, r) d =
    let (_, n₁, n₂, n₃, n₄) = apart a b xs ys d in
    let s' = rl_splice a b s in
    let (q, hb, p) = Reach-split s (s.next a) a ys b xs r in
    let (e, f, g, h) = spliced a b s ha hb in
    let ys' = Reach-rl_splice a b s (s.next a) ys b ha hb n₂ n₄ q in
    let xs' = Reach-rl_splice a b s (s.next b) xs a ha hb n₁ n₃ p in
    (
      (ap s'.prev e ∙ g, subst (λ v. Reach s' v xs a) (sym e) xs'),
      (ap s'.prev f ∙ h, subst (λ v. Reach s' v ys b) (sym f) ys'),
    )
