-- ===== src/Tests/Rings.antt =====
-- The lists of include/list.hh at concrete inputs.
use double_take.Prelude.{ℕ, ◌≡◌, refl, none, some, [], ◌∷◌, ◌==◌, if◌then◌else◌}
use double_take.Links.{Links, list_insert_list, list_link, list_retrieve_all_items}
use double_take.Links.Ring.{IsRing}
use double_take.Links.Queue.{enqueue, dequeue, run, run_list, Fits, run-run_list}
use double_take.Links.Whole.{list_insert_list-link, list_retrieve_all_items-IsRing}

-- Nodes that are lists of their own.
abbrev alone : Links
alone = record { next = λ q. q; prev = λ q. q }

alone-IsRing : (head : ℕ) → IsRing alone head []
alone-IsRing head = record { chain = (refl, refl); distinct = (refl, refl) }

-- The list at 1 has the nodes 5 and 6, the one at 2 the node 9.
abbrev linked : Links
linked = record {
  next = λ q.
      if q == 1
      then 5
      else if q == 5
      then 6
      else if q == 6
      then 1
      else if q == 2
      then 9
      else if q == 9
      then 2
      else q;
  prev = λ q.
      if q == 1
      then 6
      else if q == 5
      then 1
      else if q == 6
      then 5
      else if q == 2
      then 9
      else if q == 9
      then 2
      else q;
}

two_nodes-IsRing : IsRing linked 1 (5 ∷ 6 ∷ [])
two_nodes-IsRing = record {
  chain = (refl, refl, (refl, refl, (refl, refl)));
  distinct = (refl, (refl, (refl, refl)));
}

run-run_list_example :
    ((run alone 1 (dequeue ∷ enqueue 5 ∷ enqueue 6 ∷ dequeue ∷ [])).0 ≡ none ∷ some 5 ∷ [])
    × IsRing (run alone 1 (dequeue ∷ enqueue 5 ∷ enqueue 6 ∷ dequeue ∷ [])).1 1 (6 ∷ [])
unfolding run run_list Fits
run-run_list_example =
    run-run_list alone 1 [] (dequeue ∷ enqueue 5 ∷ enqueue 6 ∷ dequeue ∷ []) (alone-IsRing 1)
      (refl, (refl, refl))

list_insert_list-link_example : list_insert_list linked 2 1 ≡ list_link linked 1 2
list_insert_list-link_example = list_insert_list-link linked 2 1

list_retrieve_all_items-IsRing_example :
    IsRing (list_retrieve_all_items linked 3 1) 3 (5 ∷ 6 ∷ [])
    × IsRing (list_retrieve_all_items linked 3 1) 1 []
list_retrieve_all_items-IsRing_example =
    list_retrieve_all_items-IsRing linked 3 1 5 (6 ∷ []) two_nodes-IsRing refl
