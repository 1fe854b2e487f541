-- ===== src/RbTree/Tests.antt =====
-- Runs of the red-black tree, and the theorems about it at trees of seven nodes.
use lightframe.Common.{ℕ, zero, suc, ◌*◌, ◌≡◌, refl, Option, none, some, true, List, [], ◌∷◌, arith}
use lightframe.Pool
use lightframe.Pool.{
  Pool, blank, create_index, build_loop, build_index_list, at, set_next, set_prev, set_used,
  set_next_of, set_prev_of, append_node, or_id, is_full, same_id, destroy_index, detach,
  check_pointer,
}
use lightframe.Pool.Holds.{Holds}
use lightframe.Pool.Fresh.{initialize-Holds}
use lightframe.Pool.Create.{create_lem}
use lightframe.RbTree.{RbTree, initialize, insert, insert_at, erase_node, erase_key, erase_cut}
use lightframe.RbTree.Insert.{
  link_node, insert_rebalance, insert_loop, insert_round, insert_left, insert_right, lift_left,
  lift_right, recolor, blacken_root,
}
use lightframe.RbTree.Rotate.{
  rotate_left, rotate_right, turn_left, turn_right, hang_right, hang_left,
}
use lightframe.RbTree.Erase.{
  cut_node, cut_one, cut_two, take_over, erase_rebalance, erase_loop, erase_round, erase_left,
  erase_right, mend_left, mend_right, close_left, close_right, sink,
}
use lightframe.RbTree.Nodes.{
  red, black, Node, blank_node, first, next, prev, find_node, find_loop, find_insert_position,
  position_loop, is_red, set_color, set_color_of, set_root, set_parent, set_left, set_right,
  set_entry, set_parent_of, put, next_up, min_node, reached, reset_node,
}
use lightframe.RbTree.Shapes.{Tree, leaf, node, ids}
use lightframe.RbTree.Entries.{entries, put_entry}
use lightframe.RbTree.Holds.{IsRbTree}
use lightframe.RbTree.Grow.{insert-put_entry}
use lightframe.RbTree.Find.{Found, find_node_lem}
use lightframe.RbTree.Steps.{next_prev}
use lightframe.RbTree.Fill.{insert_all, put_all, insert_all-put_all}
use lightframe.RbTree.EraseRed.{erase_node-red}
use lightframe.RbTree.Loose.{erase_node_loose}

-- A sound tree of three nodes: the keys 3, 4 and 5, with 4 at the root
abbrev take_one : Pool → Pool
take_one p = (create_index blank 7 true p).1

abbrev three_pool : Pool
three_pool = take_one (take_one (take_one (Pool.initialize blank 7 true).1))

three_pool-Holds : Holds blank 7 three_pool (3 ∷ 4 ∷ 5 ∷ 6 ∷ []) (0 ∷ 1 ∷ 2 ∷ [])
three_pool-Holds =
    let h0 = (initialize-Holds blank 7 true (omega arith) (omega arith)).1 in
    let h1 = (create_lem blank 7 true _ 0 (1 ∷ 2 ∷ 3 ∷ 4 ∷ 5 ∷ 6 ∷ []) [] h0).1 in
    let h2 = (create_lem blank 7 true _ 1 (2 ∷ 3 ∷ 4 ∷ 5 ∷ 6 ∷ []) (0 ∷ []) h1).1 in
    (create_lem blank 7 true _ 2 (3 ∷ 4 ∷ 5 ∷ 6 ∷ []) (0 ∷ 1 ∷ []) h2).1

abbrev outer_node : ℕ → Node
outer_node k = record {
  color = red;
  parent = some 1;
  left = none;
  right = none;
  key = k;
  object = 10 * k;
}

abbrev root_node : Node
root_node = record {
  color = black;
  parent = none;
  left = some 0;
  right = some 2;
  key = 4;
  object = 40;
}

abbrev three_nodes : ℕ → Node
three_nodes zero = outer_node 3
three_nodes (suc zero) = root_node
three_nodes (suc (suc zero)) = outer_node 5
three_nodes (suc (suc (suc n))) = blank_node

abbrev three : RbTree
three = record { pool = three_pool; shape = record { root = some 1; nodes = three_nodes } }

abbrev three_tree : Tree
three_tree = node (node leaf 0 leaf) 1 (node leaf 2 leaf)

three-IsRbTree : IsRbTree blank 7 three three_tree (3 ∷ 4 ∷ 5 ∷ 6 ∷ []) (0 ∷ 1 ∷ 2 ∷ [])
three-IsRbTree = record {
  pool = three_pool-Holds;
  links = (refl, refl, (refl, refl, refl, refl), (refl, refl, refl, refl));
  members = λ j. omega arith;
  sizes = refl;
  height = 1;
  balanced = (
    λ q. cc,
    0,
    refl,
    (λ q. (tt, tt), 0, refl, refl, refl),
    (λ q. (tt, tt), 0, refl, refl, refl),
  );
  black_root = refl;
  sorted = omega arith;
}

insert-put_entry_example :
    (t' : RbTree) × (tree' : Tree) × (insert blank 7 4 41 three ≡ some (some 3, t'))
    × IsRbTree blank 7 t' tree' (4 ∷ 5 ∷ 6 ∷ []) (0 ∷ 1 ∷ 2 ∷ 3 ∷ [])
    × (entries t'.shape.nodes (ids tree')
        ≡ put_entry (3, 4, 41) (entries three_nodes (0 ∷ 1 ∷ 2 ∷ [])))
insert-put_entry_example =
    insert-put_entry blank 7 three three_tree 3 (4 ∷ 5 ∷ 6 ∷ []) (0 ∷ 1 ∷ 2 ∷ []) 4 41
      three-IsRbTree

find_node_lem_example :
    (r : Option ℕ) × (find_node 8 5 three.shape ≡ some r) × Found three_nodes 5 (0 ∷ 1 ∷ 2 ∷ []) r
find_node_lem_example =
    find_node_lem blank 7 three three_tree (3 ∷ 4 ∷ 5 ∷ 6 ∷ []) (0 ∷ 1 ∷ 2 ∷ []) three-IsRbTree 5

next_prev_example : (next 8 1 three.shape ≡ some (some 2)) × (prev 8 1 three.shape ≡ some (some 0))
next_prev_example =
    next_prev blank 7 three three_tree (3 ∷ 4 ∷ 5 ∷ 6 ∷ []) (0 ∷ 1 ∷ 2 ∷ []) three-IsRbTree (0 ∷ [])
      (2 ∷ []) 1 refl

erase_node-red_example :
    (t' : RbTree) × (tree' : Tree) × (erase_node blank 7 2 three ≡ some t')
    × IsRbTree blank 7 t' tree' (3 ∷ 4 ∷ 5 ∷ 6 ∷ 2 ∷ []) (0 ∷ 1 ∷ [])
    × (ids tree' ≡ 0 ∷ 1 ∷ [])
    × (entries t'.shape.nodes (0 ∷ 1 ∷ []) ≡ entries three_nodes (0 ∷ 1 ∷ []))
erase_node-red_example =
    erase_node-red blank 7 three three_tree (3 ∷ 4 ∷ 5 ∷ 6 ∷ []) (0 ∷ 1 ∷ []) [] 2 three-IsRbTree
      (0 ∷ 1 ∷ []) [] refl refl refl

insert_all-put_all_example :
    (t' : RbTree) × (tree' : Tree) × (fs : List ℕ) × (us' : List ℕ) × (insert_all blank 7
        ((4, 40) ∷ (1, 10) ∷ (3, 30) ∷ (4, 41) ∷ (2, 20) ∷ [])
        (initialize blank 7)
      ≡ some t')
    × IsRbTree blank 7 t' tree' fs us'
    × (entries t'.shape.nodes (ids tree')
        ≡ put_all 0 ((4, 40) ∷ (1, 10) ∷ (3, 30) ∷ (4, 41) ∷ (2, 20) ∷ []) [])
insert_all-put_all_example =
    insert_all-put_all blank 7 ((4, 40) ∷ (1, 10) ∷ (3, 30) ∷ (4, 41) ∷ (2, 20) ∷ []) (omega arith)
      (omega arith) (omega arith)

erase_node_loose_example :
    (t' : RbTree) × (erase_node blank 7 4 three ≡ some t')
    × (t'.shape.root ≡ none)
    × (t'.pool ≡ three_pool)
erase_node_loose_example =
    erase_node_loose blank 7 4 three three_pool-Holds.allocated
      (λ h. three_pool-Holds.free_list.flags.1.0) refl refl refl

-- The keys from left to right, by First and Next, in n steps at most
walk : ℕ → Option (Option ℕ) → RbTree → List ℕ
walk zero o t = []
walk (suc n) none t = []
walk (suc n) (some none) t = []
walk (suc n) (some (some i)) t = (t.shape.nodes i).key ∷ walk n (next 8 i t.shape) t

keys : Option RbTree → List ℕ
keys none = []
keys (some t) = walk 8 (first 8 t.shape) t

put_key : ℕ → Option RbTree → Option RbTree
put_key k none = none
put_key k (some t) = elim (insert blank 7 k (10 * k) t) [ none ↦ none | some (o, t') ↦ some t' ]

drop_key : ℕ → Option RbTree → Option RbTree
drop_key k none = none
drop_key k (some t) = erase_key blank 7 8 k t

abbrev six : Option RbTree
six =
    put_key 6
      (put_key 2 (put_key 5 (put_key 3 (put_key 1 (put_key 4 (some (initialize blank 7)))))))

six_keys : keys six ≡ 1 ∷ 2 ∷ 3 ∷ 4 ∷ 5 ∷ 6 ∷ []
unfolding walk keys put_key create_index Pool.initialize build_loop build_index_list at set_next
    set_prev set_used set_next_of set_prev_of append_node or_id is_full same_id initialize insert
    insert_at find_insert_position position_loop link_node insert_rebalance insert_loop insert_round
    insert_left insert_right lift_left lift_right recolor blacken_root is_red set_color set_color_of
    set_root set_parent set_left set_right set_entry set_parent_of put rotate_left rotate_right
    turn_left turn_right hang_right first next next_up min_node reached
six_keys = refl

six_erased : keys (drop_key 1 (drop_key 3 (drop_key 4 six))) ≡ 2 ∷ 5 ∷ 6 ∷ []
unfolding walk keys put_key drop_key create_index Pool.initialize build_loop build_index_list at
    set_next set_prev set_used set_next_of set_prev_of append_node or_id is_full same_id initialize
    insert insert_at find_insert_position position_loop link_node insert_rebalance insert_loop
    insert_round insert_left insert_right lift_left lift_right recolor blacken_root is_red set_color
    set_color_of set_root set_parent set_left set_right set_entry set_parent_of put rotate_left
    rotate_right turn_left turn_right hang_right first next next_up min_node reached erase_key
    erase_node erase_cut cut_node cut_one cut_two take_over hang_left reset_node destroy_index
    detach check_pointer find_node find_loop erase_rebalance erase_loop erase_round erase_left
    erase_right mend_left mend_right close_left close_right sink
six_erased = refl
