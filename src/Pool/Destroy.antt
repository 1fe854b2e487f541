-- ===== src/Pool/Destroy.antt =====
-- common/common_pool.h: DestroyIndex and DestroyObject on a sound pool.
use mathlib.Core.Bool.{false≢true}
use lightframe.Common.{
  ℕ, ◌+◌, ◌-◌, ◌%◌, ◌^◌, ◌<◌, ◌≡◌, refl, ap, ◌∙◌, Bool, true, false, ◌==◌, none, some, List, [],
  ◌∷◌, ◌++◌, arith, length, length-append, if◌then◌else◌, leb, ok, err, ◌&&◌, invalid_object_index,
  object_index_not_used, invalid_argument,
}
use native.Mathlib.Decide.{dec_lt}
use lightframe.Pool.Links.{at_out}
use lightframe.Pool.{
  Index, Pool, at, set_used, append_node, prepend_node, detach, check_pointer, check_index,
  get_index, destroy_index, destroy_object,
}
use lightframe.Pool.Links.{first_or, last_or}
use lightframe.Pool.Moves.{
  kept-detach, length-detach, length-append_node, kept-append_node, length-prepend_node,
  kept-prepend_node,
}
use lightframe.Pool.Joins.{
  Run, first_or-append, last_or-append, or_id-last, join_end, join_end_other, join_start,
  join_start_other,
}
use lightframe.Pool.Holds.{Holds, length-set_used, index-set_used}
use lightframe.Pool.Leaves.{
  i_in, i_used, here, kept, used-Run, free-Run, off, head_without, tail_without,
}

module _ (past : Index) (cap : ℕ) (p : Pool) (i : ℕ) (fs us ws : List ℕ)
    (v : Holds past cap p fs (us ++ i ∷ ws)) where
  length_out : length (detach past i p.arr) ≡ cap
  length_out = length-detach past i p.arr ∙ v.allocated

  i_flag : (at past (detach past i p.arr) i).used ≡ true
  i_flag = (kept past cap p i fs us ws v) i ∙ (i_used past cap p i fs us ws v)

  -- The pool after a DestroyIndex of i, where RECYCLETOTAIL is `recycle`.
  abbrev freed : Bool → List ℕ
  freed recycle = if recycle then fs ++ i ∷ [] else i ∷ fs

  abbrev freed_arr : Bool → List Index
  freed_arr recycle = set_used past i false (
      if recycle
      then append_node past i (last_or none fs) (some i) (detach past i p.arr)
      else prepend_node past i (first_or none fs) (some i) (detach past i p.arr))

  abbrev destroyed : Bool → Pool
  destroyed recycle = record {
    object_count = (p.object_count + (2 ^ 32 - 1)) % 2 ^ 32;
    free_count = (p.free_count + 1) % 2 ^ 32;
    free_head = first_or none (freed recycle);
    free_tail = last_or none (freed recycle);
    used_head = first_or none (us ++ ws);
    used_tail = last_or none (us ++ ws);
    arr = freed_arr recycle;
  }

  check_pointer-ok : (recycle : Bool) → check_pointer past cap recycle i p ≡ ok
  unfolding check_pointer
  check_pointer-ok recycle =
      let f : leb cap i ≡ false = ground (arith, (i_in past cap p i fs us ws v)) in
      rw (f, (i_used past cap p i fs us ws v)) refl

  destroy_index-destroyed :
      (recycle : Bool) → destroy_index past cap recycle i p ≡ (ok, destroyed recycle)
  unfolding destroy_index
  destroy_index-destroyed true =
      rw (destroy_index, check_pointer-ok true)
        (rw
          (
            v.ids i (i_in past cap p i fs us ws v),
            (here past cap p i fs us ws v).0,
            (here past cap p i fs us ws v).1,
            v.free_list.first_in,
            v.free_list.last_in,
            v.used_list.first_in,
            v.used_list.last_in,
            head_without i us ws v.used_list.distinct,
            tail_without i us ws v.used_list.distinct,
            first_or-append fs i,
            last_or-append fs i,
          )
          refl)
  destroy_index-destroyed false =
      rw (destroy_index, check_pointer-ok false)
        (rw
          (
            v.ids i (i_in past cap p i fs us ws v),
            (here past cap p i fs us ws v).0,
            (here past cap p i fs us ws v).1,
            v.free_list.first_in,
            v.free_list.last_in,
            v.used_list.first_in,
            v.used_list.last_in,
            head_without i us ws v.used_list.distinct,
            tail_without i us ws v.used_list.distinct,
            or_id-last fs i,
          )
          refl)

  ids_out : (recycle : Bool) (j : ℕ) → j < cap → (at past (freed_arr recycle) j).index ≡ some j
  ids_out true j h =
      index-set_used past _ i false j
      ∙ kept-append_node past (λ (m : Index). m.index) (λ m q. refl) (λ m q. refl) i
          (last_or none fs) (some i) (detach past i p.arr) j
      ∙ kept-detach past (λ (m : Index). m.index) (λ m q. refl) (λ m q. refl) i p.arr j
      ∙ v.ids j h
  ids_out false j h =
      index-set_used past _ i false j
      ∙ kept-prepend_node past (λ (m : Index). m.index) (λ m q. refl) (λ m q. refl) i
          (first_or none fs) (some i) (detach past i p.arr) j
      ∙ kept-detach past (λ (m : Index). m.index) (λ m q. refl) (λ m q. refl) i p.arr j
      ∙ v.ids j h

  allocated_out : (recycle : Bool) → length (freed_arr recycle) ≡ cap
  allocated_out true =
      length-set_used past _ i false
      ∙ length-append_node past i (last_or none fs) (some i) (detach past i p.arr)
      ∙ length_out
  allocated_out false =
      length-set_used past _ i false
      ∙ length-prepend_node past i (first_or none fs) (some i) (detach past i p.arr)
      ∙ length_out

  free_out : (recycle : Bool) → Run past cap (freed_arr recycle) false (freed recycle)
  free_out true =
      join_end past cap (detach past i p.arr) false true false≢true i fs (us ++ ws)
        (i_in past cap p i fs us ws v) length_out i_flag (free-Run past cap p i fs us ws v)
        (used-Run past cap p i fs us ws v) (off past cap p i fs us ws v)
  free_out false =
      join_start past cap (detach past i p.arr) false true false≢true i fs (us ++ ws)
        (i_in past cap p i fs us ws v) length_out i_flag (free-Run past cap p i fs us ws v)
        (used-Run past cap p i fs us ws v) (off past cap p i fs us ws v)

  used_out : (recycle : Bool) → Run past cap (freed_arr recycle) true (us ++ ws)
  used_out true =
      join_end_other past cap (detach past i p.arr) false true false≢true i fs (us ++ ws)
        (i_in past cap p i fs us ws v) length_out i_flag (free-Run past cap p i fs us ws v)
        (used-Run past cap p i fs us ws v) (off past cap p i fs us ws v)
  used_out false =
      join_start_other past cap (detach past i p.arr) false true false≢true i fs (us ++ ws)
        (i_in past cap p i fs us ws v) length_out i_flag (free-Run past cap p i fs us ws v)
        (used-Run past cap p i fs us ws v) (off past cap p i fs us ws v)

  length-freed : (recycle : Bool) → length (freed recycle) ≡ length fs + 1
  length-freed true = omega (arith, length-append fs (i ∷ []))
  length-freed false = omega arith

  destroyed-Holds : (recycle : Bool) → Holds past cap (destroyed recycle) (freed recycle) (us ++ ws)
  destroyed-Holds recycle =
      let l = length-freed recycle in
      let m = length-append us (i ∷ ws) in
      let m' = length-append us ws in
      record {
        allocated = allocated_out recycle;
        small = v.small;
        ids = ids_out recycle;
        free_list = free_out recycle;
        used_list = used_out recycle;
        free_counted = omega (arith, l, v.free_counted, v.whole, v.small);
        used_counted = omega (arith, m, m', v.used_counted, v.whole, v.small);
        whole = omega (arith, l, m, m', v.whole);
      }

  -- DestroyIndex of a used node of a sound pool succeeds and leaves a sound pool: the node leaves its
  -- place among the used nodes, whose order stays, and becomes the last of the free nodes where
  -- RECYCLETOTAIL is set, and the first where it is not.
  pub destroy_lem :
      (recycle : Bool)
      → let (ret, p') = destroy_index past cap recycle i p in
        (ret ≡ ok) × Holds past cap p' (if recycle then fs ++ i ∷ [] else i ∷ fs) (us ++ ws)
  destroy_lem recycle = rw (destroy_index-destroyed recycle) (refl, destroyed-Holds recycle)

-- DestroyIndex and DestroyObject of a node that is not used, or of an id past the array, return an
-- error and change nothing. DestroyObject returns E_INVALIDARGUMENT, except at the id CAPACITY where
-- the flag that it reads past the array is set: there DestroyIndex refuses the node.
pub destroy_refuses :
    (past : Index) (cap : ℕ) (recycle : Bool) (i : ℕ) (p : Pool)
    → length p.arr ≡ cap
    → (i < cap → (at past p.arr i).used ≡ false)
    → (destroy_index past cap recycle i p
        ≡ (err (if leb cap i then invalid_object_index else object_index_not_used), p))
      × (destroy_object past cap recycle i p
          ≡ (err (if (i == cap) && past.used then invalid_object_index else invalid_argument), p))
unfolding destroy_index destroy_object get_index check_index check_pointer
destroy_refuses past cap recycle i p l h = elim (dec_lt i cap) [
  | yes q ↦ let u = h q in ground (arith, u)
  | no q ↦
      let e = at_out past p.arr i (omega (arith, l, q)) in
      let u = ap (λ (m : Index). m.used) e in ground (arith, u)
]
