-- ===== src/Rlist.antt =====
-- util.h: intrusive lists. A node is its address; a list is a ring through a node that holds no
-- element, and an operation takes the links of all nodes to the new ones.
pub mod Ring
pub mod Lists
pub mod Removal
pub mod Loops
pub mod Splice
use disasteros.Common.{
  ℕ, zero, suc, ◌+◌, ◌%◌, ◌^◌, Bool, true, false, ◌||◌, not, Option, none, some, ◌==◌,
  if◌then◌else◌, update,
}

-- `rlnode`, with `num` for the key of each node; the other names of the union are of the same word.
pub record Nodes : Type 0 where
  pub num : ℕ → ℕ
  pub prev : ℕ → ℕ
  pub next : ℕ → ℕ

-- `rlnode_new`
unfoldable pub rlnode_new : (p : ℕ) → Nodes → Nodes
rlnode_new p s = record s { prev = update s.prev p p; next = update s.next p p }

-- `rlnode_init`
unfoldable pub rlnode_init : (p ptr : ℕ) → Nodes → Nodes
rlnode_init p ptr s = record (rlnode_new p s) { num = update s.num p ptr }

-- `rlnode_swap`, of the pointers in the fields of the nodes `i` and `j`.
abbrev pub rlnode_swap : (ℕ → ℕ) → (i j : ℕ) → ℕ → ℕ
rlnode_swap f i j = update (update f i (f j)) j (f i)

-- `rl_splice`; it returns `b`.
unfoldable pub rl_splice : (a b : ℕ) → Nodes → Nodes
rl_splice a b s = record s {
  prev = rlnode_swap s.prev (s.next a) (s.next b);
  next = rlnode_swap s.next a b;
}

-- `rlist_remove`; it returns `a`.
unfoldable pub rlist_remove : (a : ℕ) → Nodes → Nodes
rlist_remove a s = rl_splice a (s.prev a) s

-- `is_rlist_empty`
unfoldable pub is_rlist_empty : (a : ℕ) → Nodes → Bool
is_rlist_empty a s = a == s.next a

-- `rlist_push_front`
unfoldable pub rlist_push_front : (list node : ℕ) → Nodes → Nodes
rlist_push_front list node s = rl_splice list node s

-- `rlist_push_back`
unfoldable pub rlist_push_back : (list node : ℕ) → Nodes → Nodes
rlist_push_back list node s = rl_splice (s.prev list) node s

-- `rlist_pop_front`, with the node it returns.
unfoldable pub rlist_pop_front : (list : ℕ) → Nodes → ℕ × Nodes
rlist_pop_front list s = (s.next list, rl_splice list (s.next list) s)

-- `rlist_pop_back`, with the node it returns.
unfoldable pub rlist_pop_back : (list : ℕ) → Nodes → ℕ × Nodes
rlist_pop_back list s = (s.prev list, rl_splice list (s.prev list) s)

-- The loop of `rlist_len`, on fuel, with its counter, an unsigned int.
unfoldable pub len_loop : (fuel list p count : ℕ) → Nodes → Option ℕ
len_loop zero list p count s = none
len_loop (suc fuel) list p count s =
    let rest = len_loop fuel list (s.next p) ((count + 1) % 4294967296) s in
    if p == list then some count else rest

-- `rlist_len`
unfoldable pub rlist_len : (fuel list : ℕ) → Nodes → Option ℕ
rlist_len fuel list s = len_loop fuel list (s.next list) 0 s

-- The loop of `rlist_equal`, on fuel.
unfoldable pub equal_loop : (fuel l1 l2 i1 i2 : ℕ) → Nodes → Option Bool
equal_loop zero l1 l2 i1 i2 s = none
equal_loop (suc fuel) l1 l2 i1 i2 s =
    let rest = equal_loop fuel l1 l2 (s.next i1) (s.next i2) s in
    if i1 == l1
    then some (i2 == l2)
    else if i2 == l2 || not (s.num i1 == s.num i2)
    then some false
    else rest

-- `rlist_equal`
unfoldable pub rlist_equal : (fuel l1 l2 : ℕ) → Nodes → Option Bool
rlist_equal fuel l1 l2 s = equal_loop fuel l1 l2 (s.next l1) (s.next l2) s

-- `rlist_append`
unfoldable pub rlist_append : (ldest lsrc : ℕ) → Nodes → Nodes
rlist_append ldest lsrc s = rlist_remove lsrc (rlist_push_back ldest lsrc s)

-- `rlist_prepend`
unfoldable pub rlist_prepend : (ldest lsrc : ℕ) → Nodes → Nodes
rlist_prepend ldest lsrc s = rlist_remove lsrc (rlist_push_front ldest lsrc s)

-- The loop of `rlist_find`, on fuel.
unfoldable pub find_loop : (fuel list key fail i : ℕ) → Nodes → Option ℕ
find_loop zero list key fail i s = none
find_loop (suc fuel) list key fail i s =
    let rest = find_loop fuel list key fail (s.next i) s in
    if i == list then some fail else if s.num i == key then some i else rest

-- `rlist_find`
unfoldable pub rlist_find : (fuel list key fail : ℕ) → Nodes → Option ℕ
rlist_find fuel list key fail s = find_loop fuel list key fail (s.next list) s

-- The loop of `rlist_select`, on fuel.
unfoldable pub select_loop : (fuel lsrc ldest : ℕ) (pred : ℕ → Bool) (i : ℕ) → Nodes → Option Nodes
select_loop zero lsrc ldest pred i s = none
select_loop (suc fuel) lsrc ldest pred i s =
    let moved =
      select_loop fuel lsrc ldest pred i
        (rlist_push_back ldest (s.next i) (rlist_remove (s.next i) s)) in
    let kept = select_loop fuel lsrc ldest pred (s.next i) s in
    if s.next i == lsrc then some s else if pred (s.next i) then moved else kept

-- `rlist_select`, with a predicate that reads the node alone.
unfoldable pub rlist_select : (fuel lsrc ldest : ℕ) (pred : ℕ → Bool) → Nodes → Option Nodes
rlist_select fuel lsrc ldest pred s = select_loop fuel lsrc ldest pred lsrc s
