-- ===== src/Pool/Create.antt =====
-- common/common_pool.h: CreateIndex on a sound pool.
use mathlib.Core.Bool.{true≢false}
use lightframe.Common.{
  ℕ, ◌+◌, ◌-◌, ◌%◌, ◌^◌, ◌≡◌, ◌≢◌, refl, sym, ◌∙◌, Bool, true, false, ◌==◌, none, some, List, [],
  ◌∷◌, ◌++◌, arith, length-append, if◌then◌else◌,
}
use lightframe.Pool.{
  Index, Pool, set_used, append_node, same_id, or_id, is_full, create_index, set_prev_of,
}
use lightframe.Pool.Links.{All, first_or, last, last_or, Linked-set_prev_of, relink_prev, All-last}
use lightframe.Pool.Moves.{
  kept-set_prev_of, length-set_prev_of, length-append_node, kept-append_node,
}
use lightframe.Pool.Joins.{Run, first_or-append, last_or-append, join_end, join_end_other}
use lightframe.Pool.Holds.{Flagged-kept, length-set_used, index-set_used, Holds, flags_apart_first}

-- The tail of a list whose first node leaves.
tail_after :
    (i : ℕ) (xs : List ℕ)
    → All (λ y. i ≢ y) xs
    → (if same_id (some (last i xs)) (some i) then first_or none xs else some (last i xs))
      ≡ last_or none xs
unfolding same_id
tail_after i [] a = ground arith
tail_after i (y ∷ ys) a = let n = All-last _ y ys a in ground (arith, n)

module _ (past : Index) (cap : ℕ) (recycle : Bool) (p : Pool) where
  -- the pool after a CreateIndex that hands out i
  abbrev created : ℕ → List ℕ → List ℕ → Pool
  created i fs us = record {
    object_count = (p.object_count + 1) % 2 ^ 32;
    free_count = (p.free_count + (2 ^ 32 - 1)) % 2 ^ 32;
    free_head = first_or none fs;
    free_tail = last_or none fs;
    used_head = or_id (first_or none us) (some i);
    used_tail = some i;
    arr = set_used past i true (
        append_node past i (last_or none us) (some i)
          (set_prev_of past (first_or none fs) none p.arr));
  }

  create_index-created :
      (i : ℕ) (fs us : List ℕ)
      → Holds past cap p (i ∷ fs) us
      → create_index past cap recycle p ≡ (some i, created i fs us)
  unfolding create_index is_full
  create_index-created i fs us v =
      let f : (p.object_count == cap) ≡ false = ground (arith, v.used_counted, v.whole) in
      rw (f, v.free_list.first_in)
        (rw
          (
            v.ids i v.free_list.inside.0,
            v.free_list.links.1,
            v.free_list.last_in,
            v.used_list.first_in,
            v.used_list.last_in,
            tail_after i fs v.free_list.distinct.0,
          )
          refl)

  created-Holds :
      (i : ℕ) (fs us : List ℕ)
      → Holds past cap p (i ∷ fs) us
      → Holds past cap (created i fs us) fs (us ++ i ∷ [])
  created-Holds i fs us v =
      let fl = v.free_list in
      let ul = v.used_list in
      let arr1 = set_prev_of past (first_or none fs) none p.arr in
      let kept =
        kept-set_prev_of past (λ (m : Index). m.used) (λ m p. refl) (first_or none fs) none p.arr in
      let free-Run : Run past cap arr1 false fs = record {
        inside = fl.inside.1;
        distinct = fl.distinct.1;
        flags = Flagged-kept past p.arr arr1 false fs kept fl.flags.1;
        links =
            relink_prev past p.arr (some i) none fs none fl.distinct.1 (rw v.allocated fl.inside.1)
              fl.links.2;
        first_in = refl;
        last_in = refl;
      } in
      let used-Run : Run past cap arr1 true us = record {
        inside = ul.inside;
        distinct = ul.distinct;
        flags = Flagged-kept past p.arr arr1 true us kept ul.flags;
        links =
            Linked-set_prev_of past p.arr (first_or none fs) none none us none
              (flags_apart_first past p.arr false true fs us (λ q. true≢false (sym q)) fl.flags.1
                ul.flags)
              ul.links;
        first_in = refl;
        last_in = refl;
      } in
      let len1 = length-set_prev_of past (first_or none fs) none p.arr ∙ v.allocated in
      let e1 = kept i ∙ fl.flags.0 in
      let n = true≢false in
      let joined =
        join_end past cap arr1 true false n i us fs fl.inside.0 len1 e1 used-Run free-Run
          fl.distinct.0 in
      let rest =
        join_end_other past cap arr1 true false n i us fs fl.inside.0 len1 e1 used-Run free-Run
          fl.distinct.0 in
      record {
        allocated =
            length-set_used past _ i true
            ∙ length-append_node past i (last_or none us) (some i) arr1
            ∙ len1;
        small = v.small;
        ids = λ j h.
            index-set_used past _ i true j
            ∙ kept-append_node past (λ (m : Index). m.index) (λ m p. refl) (λ m p. refl) i
                (last_or none us) (some i) arr1 j
            ∙ kept-set_prev_of past (λ (m : Index). m.index) (λ m p. refl) (first_or none fs) none
                p.arr j
            ∙ v.ids j h;
        free_list = rest;
        used_list = record {
          inside = joined.inside;
          distinct = joined.distinct;
          flags = joined.flags;
          links = joined.links;
          first_in = sym (first_or-append us i);
          last_in = sym (last_or-append us i);
        };
        free_counted = omega (arith, v.free_counted, v.whole, v.small);
        used_counted = omega (arith, v.used_counted, v.whole, v.small, length-append us (i ∷ []));
        whole = omega (arith, v.whole, length-append us (i ∷ []));
      }

  -- CreateIndex of a sound pool with a free node hands out the first free node, and leaves a sound
  -- pool in which that node is the last of the used ones.
  pub create_lem :
      (i : ℕ) (fs us : List ℕ)
      → Holds past cap p (i ∷ fs) us
      → let (r, p') = create_index past cap recycle p in
        (r ≡ some i) × Holds past cap p' fs (us ++ i ∷ [])
  create_lem i fs us v = rw (create_index-created i fs us v) (refl, created-Holds i fs us v)

  -- CreateIndex of a sound pool without a free node gives NULL and changes nothing.
  pub create_full :
      (us : List ℕ) → Holds past cap p [] us → create_index past cap recycle p ≡ (none, p)
  unfolding create_index is_full
  create_full us v =
      let f : (p.object_count == cap) ≡ true = ground (arith, v.used_counted, v.whole) in rw f refl
