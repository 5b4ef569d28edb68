-- ===== src/Rlist/Removal.antt =====
-- util.h: a node that leaves its list wherever it stands, and the two lists that become one.
use disasteros.Common.{
  ℕ, sym, ap, ◌∙◌, subst, List, [], ◌∷◌, ◌++◌, append-nil, append_assoc, inl, inr, count-append,
  arith,
}
use disasteros.Rlist.{
  Nodes, rlist_push_front, rlist_push_back, rlist_remove, rlist_append, rlist_prepend,
}
use disasteros.Rlist.Ring.{Ring, NoDup, IsList, Ring-rotate}
use disasteros.Rlist.Lists.{snoc_cases, push_front_lem, push_back_lem, remove_last, IsList-rotate}

NoDup-less : (l x : ℕ) (xs ys : List ℕ) → NoDup (l ∷ xs ++ x ∷ ys) → NoDup (l ∷ xs ++ ys)
NoDup-less l x xs ys d j =
    let h = d j in
    let c = count-append j xs (x ∷ ys) in let c' = count-append j xs ys in ground arith

-- `rlist_remove` of a node of a list takes it out of the list, wherever it stands, and makes it a ring
-- by itself.
pub remove_lem :
    (l x : ℕ) (s : Nodes) (xs ys : List ℕ)
    → IsList s l (xs ++ x ∷ ys)
    → IsList (rlist_remove x s) l (xs ++ ys) × IsList (rlist_remove x s) x []
remove_lem l x s xs ys h =
    let single : NoDup (x ∷ []) = λ j. ground arith in
    elim (snoc_cases xs) [
      | inl e ↦
          let h' = subst (λ v. IsList s l (v ++ x ∷ ys)) e h in
          let (f, g) = remove_last x l s ys (IsList-rotate s l x [] ys h') in
          (
            (subst (λ v. Ring (rlist_remove x s) l (v ++ ys)) (sym e) g, NoDup-less l x xs ys h.1),
            (f, single),
          )
      | inr (zs, z, e) ↦
          let turned = IsList-rotate s l x xs ys h in
          let assoc = ap (λ v. ys ++ l ∷ v) e ∙ sym (append_assoc ys (l ∷ zs) (z ∷ [])) in
          let (f, g) = remove_last x z s (ys ++ l ∷ zs) (subst (IsList s x) assoc turned) in
          let back = Ring-rotate (rlist_remove x s) z l ys zs g in
          let assoc' = sym (append_assoc zs (z ∷ []) ys) ∙ ap (λ v. v ++ ys) (sym e) in
          ((subst (Ring (rlist_remove x s) l) assoc' back, NoDup-less l x xs ys h.1), (f, single))
    ]

-- `rlist_append` puts the nodes of the second list, in order, behind those of the first, and leaves the
-- second empty.
pub append_lem :
    (ldest lsrc : ℕ) (s : Nodes) (xs ys : List ℕ)
    → IsList s ldest xs
    → IsList s lsrc ys
    → NoDup (ldest ∷ xs ++ (ys ++ lsrc ∷ []))
    → IsList (rlist_append ldest lsrc s) ldest (xs ++ ys)
      × IsList (rlist_append ldest lsrc s) lsrc []
unfolding rlist_append
append_lem ldest lsrc s xs ys p q d =
    let pushed = push_back_lem ldest lsrc s xs ys p q.0 d in
    let s' = rlist_push_back ldest lsrc s in
    let (f, g) =
      remove_lem ldest lsrc s' (xs ++ ys) []
        (subst (IsList s' ldest) (sym (append_assoc xs ys (lsrc ∷ []))) pushed) in
    (subst (IsList (rlist_remove lsrc s') ldest) (append-nil (xs ++ ys)) f, g)

-- `rlist_prepend` puts them before those of the first.
pub prepend_lem :
    (ldest lsrc : ℕ) (s : Nodes) (xs ys : List ℕ)
    → IsList s ldest xs
    → IsList s lsrc ys
    → NoDup (ldest ∷ ys ++ lsrc ∷ xs)
    → IsList (rlist_prepend ldest lsrc s) ldest (ys ++ xs)
      × IsList (rlist_prepend ldest lsrc s) lsrc []
unfolding rlist_prepend
prepend_lem ldest lsrc s xs ys p q d =
    remove_lem ldest lsrc (rlist_push_front ldest lsrc s) ys xs
      (push_front_lem ldest lsrc s xs ys p.0 q.0 d)
