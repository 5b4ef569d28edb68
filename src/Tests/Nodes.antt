-- ===== src/Tests/Nodes.antt =====
-- Examples on intrusive lists: two lists, with nodes 10 and 20, of the elements 1, 2 and 3.
use disasteros.Common.{◌≡◌, ◌*◌, refl, [], ◌∷◌, ◌==◌, if◌then◌else◌, arith}
use disasteros.Rlist.{Nodes, rlist_append, rlist_pop_back}
use disasteros.Rlist.Ring.{NoDup, IsList}
use disasteros.Rlist.Lists.{pop_back_lem}
use disasteros.Rlist.Removal.{append_lem}

abbrev nodes : Nodes
nodes = record {
  num = λ i. i * 100;
  prev = λ i.
      if i == 10 then 2 else if i == 2 then 1 else if i == 1 then 10 else if i == 20 then 3 else 20;
  next = λ i.
      if i == 10 then 1 else if i == 1 then 2 else if i == 2 then 10 else if i == 20 then 3 else 20;
}

first-NoDup : NoDup (10 ∷ 1 ∷ 2 ∷ [])
first-NoDup j = ground arith

first-IsList : IsList nodes 10 (1 ∷ 2 ∷ [])
first-IsList = ((refl, (refl, refl, (refl, refl, refl))), first-NoDup)

second-NoDup : NoDup (20 ∷ 3 ∷ [])
second-NoDup j = ground arith

second-IsList : IsList nodes 20 (3 ∷ [])
second-IsList = ((refl, (refl, refl, refl)), second-NoDup)

both-NoDup : NoDup (10 ∷ 1 ∷ 2 ∷ 3 ∷ 20 ∷ [])
both-NoDup j = ground arith

append_example :
    IsList (rlist_append 10 20 nodes) 10 (1 ∷ 2 ∷ 3 ∷ []) × IsList (rlist_append 10 20 nodes) 20 []
append_example = append_lem 10 20 nodes (1 ∷ 2 ∷ []) (3 ∷ []) first-IsList second-IsList both-NoDup

pop_back_example :
    ((rlist_pop_back 10 nodes).0 ≡ 2)
    × IsList (rlist_pop_back 10 nodes).1 10 []
    × IsList (rlist_pop_back 10 nodes).1 2 (1 ∷ [])
pop_back_example = pop_back_lem 10 2 nodes (1 ∷ []) first-IsList
