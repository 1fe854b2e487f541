-- ===== src/Heap/Find.antt =====
-- common/common_heap.h: Find, Erase by key, and Initialize.
use native.Mathlib.Decide.{ℕ_discrete}
use lightframe.Common.{
  bool_cases, ℕ, zero, suc, ◌+◌, ◌^◌, ◌<◌, ◌≤◌, ◌≡◌, ◌≢◌, refl, sym, ap, ◌∙◌, Option, some, none,
  List, [], ◌∷◌, ◌++◌, arith, length, length-append, length-replicate, get_or, set, ◌==◌, true,
  false, ok, sub32, inl, inr,
}
use mathlib.Core.Path.{subst}
use lightframe.Pool.{Index, Pool, destroy_index}
use lightframe.Pool.Destroy.{destroy_lem}
use lightframe.Pool.Fresh.{count, initialize-Holds}
use lightframe.Heap.{Heap, Slots, slot, rank, is_empty, find, find_loop, erase_key, initialize}
use lightframe.Heap.Swap.{In, slot_injective}
use lightframe.Heap.Down.{shift_down_stays}
use lightframe.Heap.Holds.{IsHeap}
use lightframe.Heap.Remove.{In-split}

-- The loop finds the first slot with the key, from i on, or there is none.
find_loop_lem :
    (keys : List ℕ) (k key i : ℕ) (s : Slots) (j : ℕ)
    → find_loop keys k key i s ≡ some j
    → (i ≤ j) × (j < i + k) × (rank keys s j ≡ key)
unfolding find_loop
find_loop_lem keys zero key i s j e = cc
find_loop_lem keys (suc k) key i s j e = elim (bool_cases (rank keys s i == key)) [
  | inl q ↦ ground (arith, rw q at e)
  | inr q ↦
      let r = find_loop_lem keys k key (i + 1) s j (rw q at e) in
      (omega (arith, r.0), omega (arith, r.1), r.2)
]

find_loop_absent :
    (keys : List ℕ) (k key i : ℕ) (s : Slots) (j : ℕ)
    → find_loop keys k key i s ≡ none
    → i ≤ j
    → j < i + k
    → rank keys s j ≢ key
unfolding find_loop
find_loop_absent keys zero key i s j e a b = absurd (omega arith)
find_loop_absent keys (suc k) key i s j e a b = elim (bool_cases (rank keys s i == key)) [
  | inl q ↦ cc (rw q at e)
  | inr q ↦ elim (ℕ_discrete i j) [
    | yes t ↦ rw (← t) (ground arith)
    | no t ↦ find_loop_absent keys k key (i + 1) s j (rw q at e) (omega arith) (omega arith)
  ]
]

-- The loop stops at the key, however many rounds are left.
find_loop_rounds :
    (keys : List ℕ) (k k' key i : ℕ) (s : Slots) (j : ℕ)
    → find_loop keys k key i s ≡ some j
    → j < i + k'
    → find_loop keys k' key i s ≡ some j
unfolding find_loop
find_loop_rounds keys zero k' key i s j e l = cc
find_loop_rounds keys (suc k) zero key i s j e l =
    let r = find_loop_lem keys (suc k) key i s j e in absurd (omega (arith, r.0))
find_loop_rounds keys (suc k) (suc k') key i s j e l = elim (bool_cases (rank keys s i == key)) [
  | inl q ↦ rw q (rw q at e)
  | inr q ↦ rw q (find_loop_rounds keys k k' key (i + 1) s j (rw q at e) (omega arith))
]

set_same : (xs : List ℕ) (i d : ℕ) → set xs i (get_or xs i d) ≡ xs
set_same [] i d = refl
set_same (x ∷ xs) zero d = refl
set_same (x ∷ xs) (suc i) d = ap (◌∷◌ x) (set_same xs i d)

module _ (past : Index) (cap : ℕ) (h : Heap) where
  -- What Find promises: a node of the key where it gives one, and none has the key where it does not.
  abbrev pub Finds : ℕ → List ℕ → Option ℕ → Type 0
  Finds key us none = (x : ℕ) → In x us → get_or h.keys x 0 ≢ key
  Finds key us (some x) = In x us × (get_or h.keys x 0 ≡ key)

  find_cases :
      (key : ℕ) (fs us : List ℕ)
      → IsHeap past cap h fs us
      → (r : Option ℕ) → find_loop h.keys h.pool.object_count key 0 h.slots ≡ r
      → Finds key us (elim r [ none ↦ none | some i ↦ some (slot h.slots i) ])
  find_cases key fs us v none e = λ x k.
      let f = v.placed.found x k in
      let l : f.0 < 0 + h.pool.object_count = omega (arith, v.pool_in.used_counted, f.1) in
      let d = find_loop_absent h.keys h.pool.object_count key 0 h.slots f.0 e (omega arith) l in
      rw (← f.2) d
  find_cases key fs us v (some i) e =
      let r = find_loop_lem h.keys h.pool.object_count key 0 h.slots i e in
      (v.placed.held i (omega (arith, r.1, v.pool_in.used_counted)), r.2)

  -- Find on a sound heap gives a node of the heap with the key, and NULL only where no node has it.
  pub find_lem :
      (key : ℕ) (fs us : List ℕ) → IsHeap past cap h fs us → Finds key us (find past cap key h)
  unfolding find
  find_lem key fs us v = find_cases key fs us v _ refl

  erase_key_run :
      (m key i : ℕ)
      → find_loop h.keys h.pool.object_count key 0 h.slots ≡ some i
      → (destroy_index past cap true (slot h.slots i) h.pool).1.object_count ≡ m
      → m ≡ i + 1
      → m < 2 ^ 31
      → erase_key past cap key h
        ≡ some (record h { pool = (destroy_index past cap true (slot h.slots i) h.pool).1 })
  unfolding erase_key is_empty
  erase_key_run m key i e d l b =
      let n0 : (m == 0) ≡ false = ground (arith, l) in
      let n1 : (i == m) ≡ false = ground (arith, l) in
      let z : sub32 m 1 ≡ i = omega arith in
      let t = set_same h.slots.node_at i 0 in
      let stays = shift_down_stays h.keys m i h.slots (λ c y w q. absurd (omega arith)) in
      rw (erase_key, e) (rw (d, n0, n1, z, t) (rw stays refl))

  find_run :
      (key i : ℕ) (p : Pool)
      → find_loop h.keys p.object_count key 0 h.slots ≡ some i
      → find past cap key (record h { pool = p }) ≡ some (slot h.slots i)
  unfolding find
  find_run key i p e = rw (find, e) refl

  -- Erase by key of a sound heap, where the node x with the key stands in the last slot but one, frees
  -- that node but leaves it in the heap, where Find gives it again; the last node y is lost instead.
  pub erase_key_keeps :
      (key m x y : ℕ) (fs us : List ℕ)
      → IsHeap past cap h fs us
      → length us ≡ m + 2
      → find_loop h.keys (m + 2) key 0 h.slots ≡ some m
      → slot h.slots m ≡ x
      → slot h.slots (m + 1) ≡ y
      → (h' : Heap) × (erase_key past cap key h ≡ some h')
        × (h'.pool ≡ (destroy_index past cap true x h.pool).1)
        × (find past cap key h' ≡ some x)
        × ((i : ℕ) → i < h'.pool.object_count → slot h'.slots i ≢ y)
  erase_key_keeps key m x y fs us v l e a b =
      let (before, later, split) = In-split x us (rw a at (v.placed.held m (omega arith))) in
      let v' = subst (λ t. IsHeap past cap h fs t) split v in
      let n : length (before ++ x ∷ later) ≡ m + 2 = ap length (sym split) ∙ l in
      let p = (destroy_index past cap true x h.pool).1 in
      let count : p.object_count ≡ m + 1 =
        (destroy_lem past cap h.pool x fs before later v'.pool_in true).1.used_counted
        ∙ omega (arith, n, length-append before (x ∷ later), length-append before later) in
      let found = rw (← l, ← v.pool_in.used_counted) at e in
      let again = find_loop_rounds h.keys (m + 2) (m + 1) key 0 h.slots m e (omega arith) in
      (
        record h { pool = p },
        rw a at (
            erase_key_run (m + 1) key m found (rw a count) refl
              (omega (arith, l, v.placed.room, v.pool_in.small))),
        refl,
        rw a at (find_run key m p (rw count again)),
        λ i r q.
            let k =
              slot_injective v.placed i (m + 1) (omega (arith, count)) (omega arith) (q ∙ sym b) in
            absurd (omega (arith, k, count)),
      )

-- Initialize gives a sound heap without a node in use.
pub initialize-IsHeap :
    (past : Index) (cap : ℕ) (old : List ℕ)
    → 0 < cap
    → cap < 2 ^ 31
    → length old ≡ cap
    → let (ret, h') = initialize past cap old in (ret ≡ ok) × IsHeap past cap h' (count 0 cap) []
unfolding initialize
initialize-IsHeap past cap old z s l = (
  refl,
  record {
    pool_in = (initialize-Holds past cap true z s).1;
    keyed = length-replicate cap 0;
    placed = record {
      slotted = l;
      indexed = length-replicate cap none;
      room = omega arith;
      inside = λ i a. absurd (omega arith);
      back = λ i a. absurd (omega arith);
      held = λ i a. absurd (omega arith);
      found = λ x k. elim k [ ];
    };
    ordered = λ c a b. absurd (omega arith);
  },
)
