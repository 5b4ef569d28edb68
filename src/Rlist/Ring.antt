-- ===== src/Rlist/Ring.antt =====
-- util.h: what a ring of nodes is.
use disasteros.Common.{ℕ, ◌≤◌, ◌≡◌, refl, sym, subst, List, [], ◌∷◌, ◌++◌, count}
use disasteros.Rlist.{Nodes}

-- Following `next` from `x` gives the nodes `xs` and then `y`, and the successor of each of them
-- points back at it.
abbrev pub Reach : Nodes → (x : ℕ) (xs : List ℕ) (y : ℕ) → Type 0
Reach s x [] y = x ≡ y
Reach s x (z ∷ xs) y = (x ≡ z) × (s.prev (s.next z) ≡ z) × Reach s (s.next z) xs y

-- The ring through `a`, with the nodes `xs` behind it.
abbrev pub Ring : Nodes → (a : ℕ) (xs : List ℕ) → Type 0
Ring s a xs = (s.prev (s.next a) ≡ a) × Reach s (s.next a) xs a

-- No node stands twice.
abbrev pub NoDup : List ℕ → Type 0
NoDup xs = (j : ℕ) → count j xs ≤ 1

-- `a` stands for the sequence `xs`.
abbrev pub IsList : Nodes → (a : ℕ) (xs : List ℕ) → Type 0
IsList s a xs = Ring s a xs × NoDup (a ∷ xs)

pub Reach-append :
    (s : Nodes) (x y z : ℕ) (xs ys : List ℕ)
    → Reach s x xs y
    → Reach s y ys z
    → Reach s x (xs ++ ys) z
Reach-append s x y z [] ys p q = subst (λ v. Reach s v ys z) (sym p) q
Reach-append s x y z (v ∷ xs) ys (e, l, p) q = (e, l, Reach-append s (s.next v) y z xs ys p q)

pub Reach-split :
    (s : Nodes) (x z : ℕ) (xs : List ℕ) (b : ℕ) (ys : List ℕ)
    → Reach s x (xs ++ b ∷ ys) z
    → Reach s x xs b × (s.prev (s.next b) ≡ b) × Reach s (s.next b) ys z
Reach-split s x z [] b ys p = p
Reach-split s x z (v ∷ xs) b ys (e, l, p) =
    let (q, r, t) = Reach-split s (s.next v) z xs b ys p in ((e, l, q), r, t)

-- A ring can be read from any of its nodes.
pub Ring-rotate :
    (s : Nodes) (a b : ℕ) (xs ys : List ℕ) → Ring s a (xs ++ b ∷ ys) → Ring s b (ys ++ a ∷ xs)
Ring-rotate s a b xs ys (l, p) =
    let (q, m, r) = Reach-split s (s.next a) a xs b ys p in
    (m, Reach-append s (s.next b) a b ys (a ∷ xs) r (refl, l, q))

-- The first and the last node of a list.
pub IsList-next : (s : Nodes) (a x : ℕ) (xs : List ℕ) → IsList s a (x ∷ xs) → s.next a ≡ x
IsList-next s a x xs h = h.0.1.0

pub IsList-prev : (s : Nodes) (a x : ℕ) (xs : List ℕ) → IsList s a (xs ++ x ∷ []) → s.prev a ≡ x
IsList-prev s a x xs h =
    let (_, l, e) = Reach-split s (s.next a) a xs x [] h.0.1 in subst (λ v. s.prev v ≡ x) e l
