-- ===== src/RbTree/Rounds.antt =====
-- common/common_rbtree.h: which branch a round of InsertRebalance takes.
use lightframe.Common.{ℕ, suc, ◌≡◌, ◌≢◌, refl, Option, none, some, true, false, arith}
use lightframe.Pool.{same_id}
use lightframe.RbTree.Nodes.{red, black, Shape, is_red}
use lightframe.RbTree.Rotate.{rotate_left, rotate_right}
use lightframe.RbTree.Insert.{
  insert_loop, insert_round, insert_left, insert_right, lift_left, lift_right, recolor,
}

pub same_id_ne : (o : Option ℕ) (i : ℕ) → o ≢ some i → same_id o (some i) ≡ false
unfolding same_id
same_id_ne none i n = refl
same_id_ne (some j) i n = ground arith

pub same_id_self : (i : ℕ) → same_id (some i) (some i) ≡ true
unfolding same_id
same_id_self i = ground arith

pub is_red-red : (s : Shape) (p : ℕ) → (s.nodes p).color ≡ red → is_red (some p) s ≡ true
unfolding is_red
is_red-red s p h = rw (h, is_red) refl

pub is_red-black : (s : Shape) (p : ℕ) → (s.nodes p).color ≡ black → is_red (some p) s ≡ false
unfolding is_red
is_red-black s p h = rw (h, is_red) refl

module _ (s : Shape) (i p g : ℕ) where
  pub insert_round_left :
      (s.nodes p).parent ≡ some g
      → (s.nodes g).left ≡ some p
      → insert_round i p s ≡ insert_left i p g s
  unfolding insert_round
  insert_round_left e h = rw (e, insert_round, h, same_id_self p) refl

  pub insert_round_right :
      (s.nodes p).parent ≡ some g
      → (s.nodes g).left ≢ some p
      → insert_round i p s ≡ insert_right i p g s
  unfolding insert_round
  insert_round_right e h = rw (e, insert_round, same_id_ne (s.nodes g).left p h) refl

  pub insert_left-recolor :
      is_red (s.nodes g).right s ≡ true
      → insert_left i p g s ≡ some (recolor p g (s.nodes g).right s)
  unfolding insert_left
  insert_left-recolor e = rw (e, insert_left) refl

  pub insert_left_outer :
      is_red (s.nodes g).right s ≡ false
      → (s.nodes p).right ≢ some i
      → insert_left i p g s ≡ lift_left i p g s
  unfolding insert_left
  insert_left_outer e h = rw (e, insert_left, same_id_ne (s.nodes p).right i h) refl

  pub insert_left_inner :
      (s' : Shape)
      → is_red (s.nodes g).right s ≡ false
      → (s.nodes p).right ≡ some i
      → rotate_left p s ≡ some s'
      → insert_left i p g s ≡ lift_left p i g s'
  unfolding insert_left
  insert_left_inner s' e h k = rw (e, insert_left, h, same_id_self i, k) refl

  pub insert_right-recolor :
      is_red (s.nodes g).left s ≡ true
      → insert_right i p g s ≡ some (recolor p g (s.nodes g).left s)
  unfolding insert_right
  insert_right-recolor e = rw (e, insert_right) refl

  pub insert_right_outer :
      is_red (s.nodes g).left s ≡ false
      → (s.nodes p).left ≢ some i
      → insert_right i p g s ≡ lift_right i p g s
  unfolding insert_right
  insert_right_outer e h = rw (e, insert_right, same_id_ne (s.nodes p).left i h) refl

  pub insert_right_inner :
      (s' : Shape)
      → is_red (s.nodes g).left s ≡ false
      → (s.nodes p).left ≡ some i
      → rotate_right p s ≡ some s'
      → insert_right i p g s ≡ lift_right p i g s'
  unfolding insert_right
  insert_right_inner s' e h k = rw (e, insert_right, h, same_id_self i, k) refl

module _ (n i : ℕ) (s : Shape) where
  pub insert_loop_stop : is_red (s.nodes i).parent s ≡ false → insert_loop (suc n) i s ≡ some s
  unfolding insert_loop
  insert_loop_stop e = rw (e, insert_loop) refl

  pub insert_loop_step :
      (p j : ℕ) (s' : Shape)
      → (s.nodes i).parent ≡ some p
      → (s.nodes p).color ≡ red
      → insert_round i p s ≡ some (j, s')
      → insert_loop (suc n) i s ≡ insert_loop n j s'
  unfolding insert_loop
  insert_loop_step p j s' e h k = rw (e, insert_loop, is_red-red s p h, e, k) refl
