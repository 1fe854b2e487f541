-- ===== src/Pool/Walk.antt =====
-- common/common_pool.h: the used nodes one after another (First, Last, Next, Prev, GetRandomIndex), and
-- the additional data of a node.
use lightframe.Common.{
  ℕ, zero, suc, ◌%◌, ◌<◌, ◌≡◌, refl, ap, ap₂, ◌∙◌, false, Option, some, none, List, [], ◌∷◌, arith,
  length, get_or, set, get_or-set, ◌==◌, leb, if◌then◌else◌, Status, ok, err, unknown,
}
use lightframe.Pool.{Index, Pool, at}
use lightframe.Pool.Links.{Linked, first_or, at-set}
use lightframe.Pool.Holds.{Holds}

-- First, Last and a node's Next and Prev give NULL for enmInvalidObjectID.
pub first : Pool → Option ℕ
first p = p.used_head

pub last_used : Pool → Option ℕ
last_used p = p.used_tail

module _ (past : Index) where
  pub next_node : ℕ → Pool → Option ℕ
  next_node i p = (at past p.arr i).next

  pub prev_node : ℕ → Pool → Option ℕ
  prev_node i p = (at past p.arr i).prev

  -- the loop of GetRandomIndex, with n steps left
  pub random_loop : ℕ → Option ℕ → Pool → Option ℕ
  random_loop zero c p = c
  random_loop (suc n) none p = none
  random_loop (suc n) (some i) p = random_loop n (next_node i p) p

  -- GetRandomIndex; `rand` is the number that rand() gives.
  pub random_index : ℕ → Pool → Option ℕ
  random_index rand p =
      if p.object_count == 0 then none else random_loop (rand % p.object_count) (first p) p

  -- CIndex::GetAdditionalData with the caller's value, and CIndex::SetAdditionalData, at an index that
  -- is not negative.
  pub get_additional_data : ℕ → ℕ → ℕ → Pool → Status × ℕ
  get_additional_data i n v p =
      if leb 4 n then (err unknown, v) else (ok, get_or (at past p.arr i).additional n 0)

  pub set_additional_data : ℕ → ℕ → ℕ → Pool → Status × Pool
  set_additional_data i n v p =
      if leb 4 n
      then (err unknown, p)
      else let node = at past p.arr i in
        (ok, record p { arr = set p.arr i (record node { additional = set node.additional n v }) })

  random_loop_lem :
      (p : Pool) (n : ℕ) (xs : List ℕ) (o : Option ℕ)
      → Linked past p.arr o xs none
      → n < length xs
      → random_loop n (first_or none xs) p ≡ some (get_or xs n 0)
  unfolding random_loop next_node
  random_loop_lem p n [] o h l = absurd (omega arith)
  random_loop_lem p zero (x ∷ xs) o h l = refl
  random_loop_lem p (suc n) (x ∷ xs) o h l =
      rw h.1 (random_loop_lem p n xs (some x) h.2 (omega arith))

  -- GetRandomIndex of a sound pool with used nodes gives the used node, in the order of their creation,
  -- whose place is the random number modulo their number; of a pool without any it gives NULL.
  pub random_index_lem :
      (size rand : ℕ) (p : Pool) (fs us : List ℕ)
      → Holds past size p fs us
      → random_index rand p
        ≡ (if length us == 0 then none else some (get_or us (rand % length us) 0))
  unfolding random_index first
  random_index_lem size rand p fs [] v = ground (arith, v.used_counted)
  random_index_lem size rand p fs (u ∷ us) v =
      let n = length (u ∷ us) in
      let l : rand % n < n = grind arith in
      let t : (p.object_count == 0) ≡ false = ground (arith, v.used_counted) in
      let z : (n == 0) ≡ false = ground arith in
      rw (t, z)
        (ap₂ (λ a b. random_loop a b p) (ap (◌%◌ rand) v.used_counted) v.used_list.first_in
          ∙ random_loop_lem p (rand % n) (u ∷ us) none v.used_list.links l)

  -- What SetAdditionalData stores GetAdditionalData reads back.
  pub get-set_additional_data :
      (i n v w : ℕ) (p : Pool)
      → i < length p.arr
      → n < 4
      → length (at past p.arr i).additional ≡ 4
      → get_additional_data i n w (set_additional_data i n v p).1 ≡ (ok, v)
  unfolding get_additional_data set_additional_data
  get-set_additional_data i n v w p a b l =
      let node = at past p.arr i in
      let e = at-set past p.arr i (record node { additional = set node.additional n v }) a in
      let t : leb 4 n ≡ false = ground arith in
      rw (t, e) (ap (λ k. (ok, k)) (ground (arith, get_or-set node.additional n n v 0)))
