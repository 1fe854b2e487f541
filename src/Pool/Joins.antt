-- ===== src/Pool/Joins.antt =====
-- common/common_pool.h: a node changes its flag and joins the other list: the two lists after it.
use lightframe.Common.{ℕ, ◌<◌, ◌≡◌, ◌≢◌, refl, sym, Bool, none, some, List, [], ◌∷◌, ◌++◌, length}
use lightframe.Pool.{Index, at, set_used, append_node, prepend_node, or_id}
use lightframe.Pool.Links.{
  All, first_or, last_or, Apart, All-map, All-append, Linked-set_used, Distinct-append,
}
use lightframe.Pool.Moves.{
  append_node_links, append_node_apart, length-append_node, kept-append_node, prepend_node_links,
  prepend_node_apart, length-prepend_node, kept-prepend_node,
}
use lightframe.Pool.Holds.{
  Listed, flags_apart, flags_apart_last, flags_apart_first, Flagged-set_used, used-set_used,
  Flagged-kept,
}

pub last_or-append : (xs : List ℕ) (i : ℕ) → last_or none (xs ++ i ∷ []) ≡ some i
last_or-append [] i = refl
last_or-append (x ∷ []) i = refl
last_or-append (x ∷ y ∷ ys) i = last_or-append (y ∷ ys) i

pub first_or-append :
    (xs : List ℕ) (i : ℕ) → first_or none (xs ++ i ∷ []) ≡ or_id (first_or none xs) (some i)
unfolding or_id
first_or-append [] i = refl
first_or-append (x ∷ xs) i = refl

pub or_id-last : (xs : List ℕ) (i : ℕ) → or_id (last_or none xs) (some i) ≡ last_or none (i ∷ xs)
unfolding or_id
or_id-last [] i = refl
or_id-last (x ∷ xs) i = refl

-- One list of a pool, with its ends where they are.
abbrev pub Run : Index → ℕ → List Index → Bool → List ℕ → Type 0
Run past cap arr b xs = Listed past cap arr b (first_or none xs) (last_or none xs) xs

module _ (past : Index) (cap : ℕ) (arr : List Index) (b c : Bool) (n : b ≢ c) (i : ℕ)
    (xs ys : List ℕ) (r : i < cap) (l : length arr ≡ cap) (e : (at past arr i).used ≡ c)
    (rx : Run past cap arr b xs) (ry : Run past cap arr c ys) (a : Apart (some i) ys) where
  n' : c ≢ b
  n' q = n (sym q)

  off : Apart (some i) xs
  off = flags_apart past arr c b i xs n' e rx.flags

  off-each : All (λ x. All (λ y. x ≢ y) (i ∷ [])) xs
  off-each = All-map xs (λ j q. ((λ s. q (sym s)), tt)) off

  -- The list that i joins at its end.
  pub join_end :
      Run past cap
        (set_used past i b (append_node past i (last_or none xs) (some i) arr))
        b
        (xs ++ i ∷ [])
  join_end =
      let arr' = append_node past i (last_or none xs) (some i) arr in
      let kept =
        kept-append_node past (λ (m : Index). m.used) (λ m p. refl) (λ m p. refl) i
          (last_or none xs) (some i) arr in
      let r' : i < length arr' =
        rw (length-append_node past i (last_or none xs) (some i) arr, l) r in
      record {
        inside = All-append _ xs (i ∷ []) rx.inside (r, tt);
        distinct = Distinct-append xs (i ∷ []) rx.distinct (tt, tt) off-each;
        flags =
            All-append _ xs (i ∷ [])
              (Flagged-set_used past arr' i b b xs off
                (Flagged-kept past arr arr' b xs kept rx.flags))
              (used-set_used past arr' i b r', tt);
        links = Linked-set_used past arr' i b none (xs ++ i ∷ []) none (
            append_node_links past i arr xs rx.distinct (rw l rx.inside) (rw l r) off
              (flags_apart_last past arr b c xs (i ∷ []) n rx.flags (e, tt)) rx.links);
        first_in = refl;
        last_in = refl;
      }

  -- The list that it does not join.
  pub join_end_other :
      Run past cap (set_used past i b (append_node past i (last_or none xs) (some i) arr)) c ys
  join_end_other =
      let arr' = append_node past i (last_or none xs) (some i) arr in
      let kept =
        kept-append_node past (λ (m : Index). m.used) (λ m p. refl) (λ m p. refl) i
          (last_or none xs) (some i) arr in
      record {
        inside = ry.inside;
        distinct = ry.distinct;
        flags =
            Flagged-set_used past arr' i b c ys a (Flagged-kept past arr arr' c ys kept ry.flags);
        links = Linked-set_used past arr' i b none ys none (
            append_node_apart past i (last_or none xs) (some i) arr none ys none a
              (flags_apart_last past arr b c xs ys n rx.flags ry.flags) ry.links);
        first_in = refl;
        last_in = refl;
      }

  -- The list that i joins at its start.
  pub join_start :
      Run past cap
        (set_used past i b (prepend_node past i (first_or none xs) (some i) arr))
        b
        (i ∷ xs)
  join_start =
      let arr' = prepend_node past i (first_or none xs) (some i) arr in
      let kept =
        kept-prepend_node past (λ (m : Index). m.used) (λ m p. refl) (λ m p. refl) i
          (first_or none xs) (some i) arr in
      let r' : i < length arr' =
        rw (length-prepend_node past i (first_or none xs) (some i) arr, l) r in
      record {
        inside = (r, rx.inside);
        distinct = (off, rx.distinct);
        flags = (
          used-set_used past arr' i b r',
          Flagged-set_used past arr' i b b xs off (Flagged-kept past arr arr' b xs kept rx.flags),
        );
        links = Linked-set_used past arr' i b none (i ∷ xs) none (
            prepend_node_links past i arr xs rx.distinct (rw l rx.inside) (rw l r) off
              (flags_apart_first past arr b c xs (i ∷ []) n rx.flags (e, tt)) rx.links);
        first_in = refl;
        last_in = refl;
      }

  pub join_start_other :
      Run past cap (set_used past i b (prepend_node past i (first_or none xs) (some i) arr)) c ys
  join_start_other =
      let arr' = prepend_node past i (first_or none xs) (some i) arr in
      let kept =
        kept-prepend_node past (λ (m : Index). m.used) (λ m p. refl) (λ m p. refl) i
          (first_or none xs) (some i) arr in
      record {
        inside = ry.inside;
        distinct = ry.distinct;
        flags =
            Flagged-set_used past arr' i b c ys a (Flagged-kept past arr arr' c ys kept ry.flags);
        links = Linked-set_used past arr' i b none ys none (
            prepend_node_apart past i (first_or none xs) (some i) arr none ys none a
              (flags_apart_first past arr b c xs ys n rx.flags ry.flags) ry.links);
        first_in = refl;
        last_in = refl;
      }
