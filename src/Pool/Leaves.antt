-- ===== src/Pool/Leaves.antt =====
-- common/common_pool.h: a used node of a sound pool leaves its list.
use mathlib.Core.Bool.{true≢false}
use lightframe.Common.{
  ℕ, ◌<◌, ◌≡◌, ◌≢◌, refl, sym, true, false, ◌==◌, none, some, List, [], ◌∷◌, ◌++◌, append-nil,
  arith, if◌then◌else◌,
}
use lightframe.Pool.{Index, Pool, at, detach, same_id}
use lightframe.Pool.Links.{
  All, Distinct, first_or, last, last_or, Apart, Linked, All-map, All-split, All-append, All-last,
  Distinct-split, Distinct-append, apart_last, apart_head, Linked-split, Linked-set_next_of,
  Linked-set_prev_of,
}
use lightframe.Pool.Moves.{kept-detach, detach_links, detach_calls}
use lightframe.Pool.Joins.{Run}
use lightframe.Pool.Holds.{Holds, flags_apart_last, flags_apart_first, Flagged-kept}

last_or-later : (xs : List ℕ) (y : ℕ) (ys : List ℕ) → last_or none (xs ++ y ∷ ys) ≡ some (last y ys)
last_or-later [] y ys = refl
last_or-later (x ∷ []) y ys = refl
last_or-later (x ∷ z ∷ zs) y ys = last_or-later (z ∷ zs) y ys

-- The two ends of a list whose node i leaves.
pub head_without :
    (i : ℕ) (xs ys : List ℕ)
    → Distinct (xs ++ i ∷ ys)
    → (if same_id (first_or none (xs ++ i ∷ ys)) (some i)
        then first_or none ys
        else first_or none (xs ++ i ∷ ys))
      ≡ first_or none (xs ++ ys)
unfolding same_id
head_without i [] ys d = ground arith
head_without i (x ∷ xs) ys d = let n = (All-split _ xs (i ∷ ys) d.0).1.0 in ground (arith, n)

pub tail_without :
    (i : ℕ) (xs ys : List ℕ)
    → Distinct (xs ++ i ∷ ys)
    → (if same_id (last_or none (xs ++ i ∷ ys)) (some i)
        then last_or none xs
        else last_or none (xs ++ i ∷ ys))
      ≡ last_or none (xs ++ ys)
unfolding same_id
tail_without i xs [] d =
    let e : (i == i) ≡ true = ground arith in rw (last_or-later xs i [], e, append-nil xs) refl
tail_without i xs (y ∷ ys) d =
    let n = All-last _ y ys (Distinct-split xs (i ∷ y ∷ ys) d).1.0 in
    let e : (last y ys == i) ≡ false = ground (arith, n) in
    rw (last_or-later xs i (y ∷ ys), last_or-later xs y ys, e) refl

module _ (past : Index) (cap : ℕ) (p : Pool) (i : ℕ) (fs us ws : List ℕ)
    (v : Holds past cap p fs (us ++ i ∷ ws)) where
  pub i_in : i < cap
  i_in = (All-split _ us (i ∷ ws) v.used_list.inside).1.0

  pub i_used : (at past p.arr i).used ≡ true
  i_used = (All-split _ us (i ∷ ws) v.used_list.flags).1.0

  parts : Distinct us × Distinct (i ∷ ws) × All (λ x. All (λ y. x ≢ y) (i ∷ ws)) us
  parts = Distinct-split us (i ∷ ws) v.used_list.distinct

  pub here : Linked past p.arr (last_or none us) (i ∷ ws) none
  here = (Linked-split past p.arr none us (i ∷ ws) none v.used_list.links).1

  before : Apart (last_or none us) (i ∷ ws)
  before = apart_last us (i ∷ ws) parts.2

  pub kept : (j : ℕ) → (at past (detach past i p.arr) j).used ≡ (at past p.arr j).used
  kept = kept-detach past (λ (m : Index). m.used) (λ m q. refl) (λ m q. refl) i p.arr

  -- The rest of the used list, once i is detached.
  pub used-Run : Run past cap (detach past i p.arr) true (us ++ ws)
  used-Run =
      let ul = v.used_list in
      let ins = All-split _ us (i ∷ ws) ul.inside in
      let flg = All-split _ us (i ∷ ws) ul.flags in
      record {
        inside = All-append _ us ws ins.0 ins.1.1;
        distinct =
            Distinct-append us ws parts.0 parts.1.1
              (All-map us (λ x (q : All (λ y. x ≢ y) (i ∷ ws)). q.1) parts.2);
        flags = Flagged-kept past p.arr _ true (us ++ ws) kept (All-append _ us ws flg.0 flg.1.1);
        links = detach_links past i p.arr us ws ul.distinct (rw v.allocated ul.inside) ul.links;
        first_in = refl;
        last_in = refl;
      }

  -- The free list is not touched.
  pub free-Run : Run past cap (detach past i p.arr) false fs
  free-Run =
      let fl = v.free_list in
      let flg = All-split _ us (i ∷ ws) v.used_list.flags in
      record {
        inside = fl.inside;
        distinct = fl.distinct;
        flags = Flagged-kept past p.arr _ false fs kept fl.flags;
        links = rw (detach_calls past i p.arr us ws (apart_head _ i ws before) v.used_list.links) (
            Linked-set_prev_of past _ (first_or none ws) (last_or none us) none fs none
              (flags_apart_first past p.arr true false ws fs true≢false flg.1.1 fl.flags)
              (Linked-set_next_of past p.arr (last_or none us) (first_or none ws) none fs none
                (flags_apart_last past p.arr true false us fs true≢false flg.0 fl.flags) fl.links));
        first_in = refl;
        last_in = refl;
      }

  -- i is none of the used nodes that are left
  pub off : Apart (some i) (us ++ ws)
  off =
      All-append _ us ws (All-map us (λ x (q : All (λ y. x ≢ y) (i ∷ ws)) e. q.0 (sym e)) parts.2)
        parts.1.0
