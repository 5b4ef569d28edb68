-- ===== src/Rlist/Lists.antt =====
-- util.h: the operations on lists, as operations on the sequences of their nodes.
use disasteros.Common.{
  ℕ, ◌≤◌, ◌≡◌, refl, sym, ◌∙◌, subst, ap, List, [], ◌∷◌, ◌++◌, append_assoc, ◌⊎◌, inl, inr, count,
  count-append, arith,
}
use disasteros.Rlist.{
  Nodes, rl_splice, rlist_push_front, rlist_push_back, rlist_pop_front, rlist_pop_back,
  rlist_remove,
}
use disasteros.Rlist.Ring.{Ring, NoDup, IsList, Ring-rotate, IsList-next, IsList-prev}
use disasteros.Rlist.Splice.{splice_join, splice_cut}

pub snoc_cases : (xs : List ℕ) → (xs ≡ []) ⊎ ((ys : List ℕ) × (y : ℕ) × (xs ≡ ys ++ y ∷ []))
snoc_cases [] = inl refl
snoc_cases (x ∷ xs) = elim (snoc_cases xs) [
  | inl e ↦ inr ([], x, ap (◌∷◌ x) e)
  | inr (ys, y, e) ↦ inr (x ∷ ys, y, ap (◌∷◌ x) e)
]

push_empty :
    (l n : ℕ) (s : Nodes) (ys : List ℕ)
    → Ring s l []
    → Ring s n ys
    → NoDup (l ∷ ys ++ n ∷ [])
    → IsList (rl_splice l n s) l (ys ++ n ∷ [])
push_empty l n s ys p q d = (splice_join l n s [] ys p q d, d)

-- A node that moves to the other side of a ring.
pub NoDup-rotate : (a b : ℕ) (xs ys : List ℕ) → NoDup (a ∷ xs ++ b ∷ ys) → NoDup (b ∷ ys ++ a ∷ xs)
NoDup-rotate a b xs ys d j =
    let dj = d j in
    let c = count-append j xs (b ∷ ys) in let c' = count-append j ys (a ∷ xs) in ground arith

pub IsList-rotate :
    (s : Nodes) (a b : ℕ) (xs ys : List ℕ) → IsList s a (xs ++ b ∷ ys) → IsList s b (ys ++ a ∷ xs)
IsList-rotate s a b xs ys (p, d) = (Ring-rotate s a b xs ys p, NoDup-rotate a b xs ys d)

-- `rlist_push_front` puts the nodes of the second ring before those of the list.
pub push_front_lem :
    (l n : ℕ) (s : Nodes) (xs ys : List ℕ)
    → Ring s l xs
    → Ring s n ys
    → NoDup (l ∷ ys ++ n ∷ xs)
    → IsList (rlist_push_front l n s) l (ys ++ n ∷ xs)
unfolding rlist_push_front
push_front_lem l n s xs ys p q d = (splice_join l n s xs ys p q d, d)

push_last :
    (l n z : ℕ) (s : Nodes) (zs ys : List ℕ)
    → IsList s l (zs ++ z ∷ [])
    → Ring s n ys
    → NoDup (l ∷ (zs ++ z ∷ []) ++ (ys ++ n ∷ []))
    → IsList (rl_splice z n s) l ((zs ++ z ∷ []) ++ (ys ++ n ∷ []))
push_last l n z s zs ys p q d =
    let joined =
      splice_join z n s (l ∷ zs) ys (Ring-rotate s l z zs [] p.0) q (λ j. NoDup_last j (d j)) in
    let back =
      Ring-rotate (rl_splice z n s) z l (ys ++ n ∷ []) zs
        (subst (Ring (rl_splice z n s) z) (sym (append_assoc ys (n ∷ []) (l ∷ zs))) joined) in
    (subst (Ring (rl_splice z n s) l) (sym (append_assoc zs (z ∷ []) (ys ++ n ∷ []))) back, d)
  where
    NoDup_last :
        (j : ℕ)
        → count j (l ∷ (zs ++ z ∷ []) ++ (ys ++ n ∷ [])) ≤ 1
        → count j (z ∷ ys ++ n ∷ l ∷ zs) ≤ 1
    NoDup_last j h =
        let c₁ = count-append j (zs ++ z ∷ []) (ys ++ n ∷ []) in
        let c₂ = count-append j zs (z ∷ []) in
        let c₃ = count-append j ys (n ∷ []) in
        let c₄ = count-append j ys (n ∷ l ∷ zs) in ground arith

-- `rlist_push_back` puts the nodes of the second ring behind those of the list, and its own node
-- last; other lists stay as they are.
pub push_back_lem :
    (l n : ℕ) (s : Nodes) (xs ys : List ℕ)
    → IsList s l xs
    → Ring s n ys
    → NoDup (l ∷ xs ++ (ys ++ n ∷ []))
    → IsList (rlist_push_back l n s) l (xs ++ (ys ++ n ∷ []))
unfolding rlist_push_back
push_back_lem l n s xs ys p q d = elim (snoc_cases xs) [
  | inl e ↦
      let p' = subst (IsList s l) e p in
      let last : s.prev l ≡ l = ap s.prev (sym p'.0.1) ∙ p'.0.0 in
      let d' = subst (λ v. NoDup (l ∷ v ++ (ys ++ n ∷ []))) e d in
      subst (λ v. IsList (rl_splice (s.prev l) n s) l (v ++ (ys ++ n ∷ []))) (sym e)
        (subst (λ v. IsList (rl_splice v n s) l (ys ++ n ∷ [])) (sym last)
          (push_empty l n s ys p'.0 q d'))
  | inr (zs, z, e) ↦
      let p' = subst (IsList s l) e p in
      let d' = subst (λ v. NoDup (l ∷ v ++ (ys ++ n ∷ []))) e d in
      subst (λ v. IsList (rl_splice (s.prev l) n s) l (v ++ (ys ++ n ∷ []))) (sym e)
        (subst (λ v. IsList (rl_splice v n s) l ((zs ++ z ∷ []) ++ (ys ++ n ∷ [])))
          (sym (IsList-prev s l z zs p')) (push_last l n z s zs ys p' q d'))
]

-- `rlist_pop_front` of a list that is not empty takes its first node off and returns it; that node is
-- a ring by itself.
pub pop_front_lem :
    (l x : ℕ) (s : Nodes) (xs : List ℕ)
    → IsList s l (x ∷ xs)
    → ((rlist_pop_front l s).0 ≡ x)
      × IsList (rlist_pop_front l s).1 l xs
      × IsList (rlist_pop_front l s).1 x []
unfolding rlist_pop_front
pop_front_lem l x s xs (p, d) =
    let (f, g) = splice_cut l x s xs [] p d in
    subst (λ v. (v ≡ x) × IsList (rl_splice l v s) l xs × IsList (rl_splice l v s) x [])
      (sym (IsList-next s l x xs (p, d)))
      (refl, (f, λ j. NoDup_drop j (d j)), (g, λ j. ground arith))
  where
    NoDup_drop : (j : ℕ) → count j (l ∷ x ∷ xs) ≤ 1 → count j (l ∷ xs) ≤ 1
    NoDup_drop j h = ground arith

-- `rlist_pop_back` takes the node of the list itself out of the ring: it returns the last node, but
-- leaves the list empty, and the other nodes in a ring with the one that is returned.
pub pop_back_lem :
    (l x : ℕ) (s : Nodes) (xs : List ℕ)
    → IsList s l (xs ++ x ∷ [])
    → ((rlist_pop_back l s).0 ≡ x)
      × IsList (rlist_pop_back l s).1 l []
      × IsList (rlist_pop_back l s).1 x xs
unfolding rlist_pop_back
pop_back_lem l x s xs (p, d) =
    let (f, g) = splice_cut l x s [] xs p d in
    subst (λ v. (v ≡ x) × IsList (rl_splice l v s) l [] × IsList (rl_splice l v s) x xs)
      (sym (IsList-prev s l x xs (p, d)))
      (refl, (f, λ j. ground arith), (g, λ j. NoDup_drop j (d j)))
  where
    NoDup_drop : (j : ℕ) → count j (l ∷ xs ++ x ∷ []) ≤ 1 → count j (x ∷ xs) ≤ 1
    NoDup_drop j h = let c = count-append j xs (x ∷ []) in ground arith

pub remove_last :
    (x z : ℕ) (s : Nodes) (qs : List ℕ)
    → IsList s x (qs ++ z ∷ [])
    → Ring (rlist_remove x s) x [] × Ring (rlist_remove x s) z qs
unfolding rlist_remove
remove_last x z s qs (p, d) =
    subst (λ v. Ring (rl_splice x v s) x [] × Ring (rl_splice x v s) z qs)
      (sym (IsList-prev s x z qs (p, d))) (splice_cut x z s [] qs p d)
