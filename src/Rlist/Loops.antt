-- ===== src/Rlist/Loops.antt =====
-- util.h: the loops that walk through a list, against the sequence of its nodes.
use disasteros.Common.{
  ℕ, zero, suc, ◌+◌, ◌%◌, ◌<◌, ◌≡◌, sym, ◌∙◌, subst, Bool, true, false, ◌&&◌, some, List, [], ◌∷◌,
  length, count, ◌==◌, if◌then◌else◌, arith,
}
use disasteros.Rlist.{Nodes, len_loop, rlist_len, find_loop, rlist_find, equal_loop, rlist_equal}
use disasteros.Rlist.Ring.{Reach, IsList}

-- A node before the end is not the end.
not_end : (a x : ℕ) (xs : List ℕ) → count a (x ∷ xs) ≡ 0 → ((x == a) ≡ false) × (count a xs ≡ 0)
not_end a x xs h = (ground arith, ground arith)

-- The node of a list is none of its elements.
pub no_self : (s : Nodes) (a : ℕ) (xs : List ℕ) → IsList s a xs → count a xs ≡ 0
no_self s a xs h = let d = h.1 a in ground arith

len_loop_lem :
    (fuel l p c : ℕ) (s : Nodes) (xs : List ℕ)
    → Reach s p xs l
    → count l xs ≡ 0
    → length xs < fuel
    → c < 4294967296
    → len_loop fuel l p c s ≡ some ((c + length xs) % 4294967296)
unfolding len_loop
len_loop_lem zero l p c s xs r d h b = absurd (omega arith)
len_loop_lem (suc fuel) l p c s [] r d h b = ground (arith, r)
len_loop_lem (suc fuel) l p c s (x ∷ xs) (e, m, r) d h b =
    let (ne, d') = not_end l x xs d in
    let later =
      len_loop_lem fuel l (s.next p) ((c + 1) % 4294967296) s xs
        (subst (λ v. Reach s (s.next v) xs l) (sym e) r) d' (omega arith) (omega arith) in
    let sum : ((c + 1) % 4294967296 + length xs) % 4294967296 ≡ (c + suc (length xs)) % 4294967296 =
      omega arith in
    ground (arith, later, sum, e, ne)

-- `rlist_len` counts the nodes, modulo the range of its counter, if the fuel exceeds their number.
pub rlist_len_lem :
    (fuel l : ℕ) (s : Nodes) (xs : List ℕ)
    → IsList s l xs
    → length xs < fuel
    → rlist_len fuel l s ≡ some (length xs % 4294967296)
unfolding rlist_len
rlist_len_lem fuel l s xs h b =
    len_loop_lem fuel l (s.next l) 0 s xs h.0.1 (no_self s l xs h) b (omega arith) ∙ ground arith

-- The first node of a sequence with a given key.
abbrev pub first_with : (num : ℕ → ℕ) (key fail : ℕ) → List ℕ → ℕ
first_with num key fail [] = fail
first_with num key fail (x ∷ xs) = if num x == key then x else first_with num key fail xs

find_loop_lem :
    (fuel l key fail p : ℕ) (s : Nodes) (xs : List ℕ)
    → Reach s p xs l
    → count l xs ≡ 0
    → length xs < fuel
    → find_loop fuel l key fail p s ≡ some (first_with s.num key fail xs)
unfolding find_loop
find_loop_lem zero l key fail p s xs r d h = absurd (omega arith)
find_loop_lem (suc fuel) l key fail p s [] r d h = ground (arith, r)
find_loop_lem (suc fuel) l key fail p s (x ∷ xs) (e, m, r) d h =
    let (ne, d') = not_end l x xs d in
    let later =
      find_loop_lem fuel l key fail (s.next p) s xs (subst (λ v. Reach s (s.next v) xs l) (sym e) r)
        d' (omega arith) in
    ground (arith, later, e, ne)

-- `rlist_find` returns the first node of the list with the key, and `fail` if there is none.
pub rlist_find_lem :
    (fuel l key fail : ℕ) (s : Nodes) (xs : List ℕ)
    → IsList s l xs
    → length xs < fuel
    → rlist_find fuel l key fail s ≡ some (first_with s.num key fail xs)
unfolding rlist_find
rlist_find_lem fuel l key fail s xs h b =
    find_loop_lem fuel l key fail (s.next l) s xs h.0.1 (no_self s l xs h) b

-- The keys of two sequences, compared one by one.
abbrev pub same_keys : (num : ℕ → ℕ) → (xs ys : List ℕ) → Bool
same_keys num [] [] = true
same_keys num [] (y ∷ ys) = false
same_keys num (x ∷ xs) [] = false
same_keys num (x ∷ xs) (y ∷ ys) = num x == num y && same_keys num xs ys

equal_loop_lem :
    (fuel l1 l2 p q : ℕ) (s : Nodes) (xs ys : List ℕ)
    → Reach s p xs l1
    → Reach s q ys l2
    → count l1 xs ≡ 0
    → count l2 ys ≡ 0
    → length xs < fuel
    → equal_loop fuel l1 l2 p q s ≡ some (same_keys s.num xs ys)
unfolding equal_loop
equal_loop_lem zero l1 l2 p q s xs ys r t d d' h = absurd (omega arith)
equal_loop_lem (suc fuel) l1 l2 p q s [] [] r t d d' h = ground (arith, r, t)
equal_loop_lem (suc fuel) l1 l2 p q s [] (y ∷ ys) r (e, m, t) d d' h =
    let (ne, _) = not_end l2 y ys d' in ground (arith, r, e, ne)
equal_loop_lem (suc fuel) l1 l2 p q s (x ∷ xs) [] (e, m, r) t d d' h =
    let (ne, _) = not_end l1 x xs d in ground (arith, t, e, ne)
equal_loop_lem (suc fuel) l1 l2 p q s (x ∷ xs) (y ∷ ys) (e, m, r) (e', m', t) d d' h =
    let (ne, k) = not_end l1 x xs d in
    let (ne', k') = not_end l2 y ys d' in
    let later =
      equal_loop_lem fuel l1 l2 (s.next p) (s.next q) s xs ys
        (subst (λ v. Reach s (s.next v) xs l1) (sym e) r)
        (subst (λ v. Reach s (s.next v) ys l2) (sym e') t) k k' (omega arith) in
    ground (arith, later, e, e', ne, ne')

-- `rlist_equal` compares the keys of the two lists, one by one.
pub rlist_equal_lem :
    (fuel l1 l2 : ℕ) (s : Nodes) (xs ys : List ℕ)
    → IsList s l1 xs
    → IsList s l2 ys
    → length xs < fuel
    → rlist_equal fuel l1 l2 s ≡ some (same_keys s.num xs ys)
unfolding rlist_equal
rlist_equal_lem fuel l1 l2 s xs ys h h' b =
    equal_loop_lem fuel l1 l2 (s.next l1) (s.next l2) s xs ys h.0.1 h'.0.1 (no_self s l1 xs h)
      (no_self s l2 ys h') b
