-- ===== src/Pool/Tests.antt =====
-- Runs of the pool, and the theorems about it at concrete inputs: pools of three nodes.
use lightframe.Common.{◌≡◌, refl, true, some, [], ◌∷◌, arith, ok, err, invalid_object_index}
use lightframe.Pool.{
  Index, Pool, initialize, create_index, destroy_index, destroy_object, get_index, blank,
  build_loop, build_index_list, at, set_next, set_prev, set_used, set_next_of, set_prev_of,
  append_node, detach, or_id, is_full, is_empty, check_index, check_pointer, same_id,
}
use lightframe.Pool.Holds.{Holds}
use lightframe.Pool.Fresh.{initialize-Holds}
use lightframe.Pool.Create.{create_lem}
use lightframe.Pool.Destroy.{destroy_lem, destroy_refuses}

abbrev new : Pool
new = (initialize blank 3 true).1

abbrev one : Pool
one = (create_index blank 3 true new).1

abbrev two : Pool
two = (create_index blank 3 true one).1

abbrev three : Pool
three = (create_index blank 3 true two).1

two_heads : (two.used_head ≡ some 0) × (two.used_tail ≡ some 1) × (two.free_head ≡ some 2)
unfolding create_index initialize build_loop build_index_list at set_next set_prev set_used
    set_next_of set_prev_of is_full same_id append_node or_id
two_heads = (refl, refl, refl)

new_empty : is_empty blank 3 true new ≡ true
unfolding initialize is_empty
new_empty = refl

back_heads :
    let back = (destroy_index blank 3 true 0 two).1 in
    (back.used_head ≡ some 1) × (back.free_head ≡ some 2) × (back.free_tail ≡ some 0)
unfolding create_index initialize build_loop build_index_list at set_next set_prev set_used
    set_next_of set_prev_of is_full same_id append_node or_id check_pointer destroy_index detach
back_heads = (refl, refl, refl)

new-Holds : Holds blank 3 new (0 ∷ 1 ∷ 2 ∷ []) []
new-Holds = (initialize-Holds blank 3 true (omega arith) (omega arith)).1

one-Holds : Holds blank 3 one (1 ∷ 2 ∷ []) (0 ∷ [])
one-Holds = (create_lem blank 3 true new 0 (1 ∷ 2 ∷ []) [] new-Holds).1

two-Holds : Holds blank 3 two (2 ∷ []) (0 ∷ 1 ∷ [])
two-Holds = (create_lem blank 3 true one 1 (2 ∷ []) (0 ∷ []) one-Holds).1

three-Holds : Holds blank 3 three [] (0 ∷ 1 ∷ 2 ∷ [])
three-Holds = (create_lem blank 3 true two 2 [] (0 ∷ 1 ∷ []) two-Holds).1

initialize-Holds_example :
    ((initialize blank 3 true).0 ≡ ok)
    × Holds blank 3 (initialize blank 3 true).1 (0 ∷ 1 ∷ 2 ∷ []) []
initialize-Holds_example = initialize-Holds blank 3 true (omega arith) (omega arith)

create_lem_example :
    ((create_index blank 3 true two).0 ≡ some 2)
    × Holds blank 3 (create_index blank 3 true two).1 [] (0 ∷ 1 ∷ 2 ∷ [])
create_lem_example = create_lem blank 3 true two 2 [] (0 ∷ 1 ∷ []) two-Holds

-- The node between the two others leaves.
destroy_lem_example :
    ((destroy_index blank 3 true 1 three).0 ≡ ok)
    × Holds blank 3 (destroy_index blank 3 true 1 three).1 (1 ∷ []) (0 ∷ 2 ∷ [])
destroy_lem_example = destroy_lem blank 3 three 1 [] (0 ∷ []) (2 ∷ []) three-Holds true

-- The id CAPACITY, where what follows the array looks like a used node.
abbrev beyond : Index
beyond = record blank { used = true }

destroy_refuses_example :
    (destroy_index beyond 3 true 3 new ≡ (err invalid_object_index, new))
    × (destroy_object beyond 3 true 3 new ≡ (err invalid_object_index, new))
destroy_refuses_example =
    destroy_refuses beyond 3 true 3 new new-Holds.allocated (λ h. absurd (omega (arith, h)))

past_end : get_index beyond 3 true 3 new ≡ some 3
unfolding get_index check_index initialize build_loop build_index_list at set_next
past_end = refl
