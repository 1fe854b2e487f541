-- ===== src/CodeQueue/Holds.antt =====
-- common/common_codequeue.h: what a queue holds, and its sizes.
use lightframe.Common.{
  ℕ, ◌+◌, ◌-◌, ◌%◌, ◌^◌, ◌≤◌, ◌<◌, ◌≡◌, refl, sym, ap, ◌∙◌, Bool, true, false, List, [], ◌∷◌, ◌++◌,
  append-nil, append_assoc, arith, length, length-append, length-replicate, leb, ◌==◌,
  if◌then◌else◌, add32, sub32, ok,
}
use lightframe.Codec.{memory}
use lightframe.Codec.Words.{wire, length-wire, memory-arrange, length-arrange}
use lightframe.Ring.{mod_once, ring}
use lightframe.CodeQueue.{
  Queue, initialize, get_free_size, get_free_info, get_used_size, get_used_info, is_full, is_empty,
}

-- A packet as it lies in the ring.
abbrev pub frame : Bool → List ℕ → List ℕ
frame big packet = memory big 4 (length packet) ++ packet

abbrev pub frames : Bool → List (List ℕ) → List ℕ
frames big [] = []
frames big (p ∷ ps) = frame big p ++ frames big ps

abbrev AllNonempty : List (List ℕ) → Type 0
AllNonempty [] = Unit
AllNonempty (p ∷ ps) = (0 < length p) × AllNonempty ps

-- The queue is sound, and holds exactly the packets `ps`, the oldest first.
pub record Holds (big : Bool) (cap : ℕ) (q : Queue) (ps : List (List ℕ)) : Type 0 where
  pub large : 8 < cap
  pub small : cap ≤ 2 ^ 31
  pub allocated : cap ≤ length q.buffer
  pub head_in : q.head < cap
  pub tail_in : q.tail < cap
  pub tail_at : q.tail ≡ (q.head + length (frames big ps)) % cap
  pub reserved : length (frames big ps) + 8 ≤ cap
  pub bytes : ring cap q.buffer q.head (length (frames big ps)) ≡ frames big ps
  pub nonempty : AllNonempty ps

pub length-memory : (big : Bool) (w v : ℕ) → length (memory big w v) ≡ w
length-memory big w v =
    rw (memory-arrange big w v) (length-arrange big (wire w v) ∙ length-wire w v)

pub length-frame : (big : Bool) (p : List ℕ) → length (frame big p) ≡ 4 + length p
length-frame big p =
    length-append (memory big 4 (length p)) p
    ∙ ap (λ k. k + length p) (length-memory big 4 (length p))

pub frames-append :
    (big : Bool) (ps : List (List ℕ)) (p : List ℕ)
    → frames big (ps ++ p ∷ []) ≡ frames big ps ++ frame big p
frames-append big [] p = append-nil (frame big p)
frames-append big (x ∷ ps) p =
    ap (λ rest. frame big x ++ rest) (frames-append big ps p)
    ∙ sym (append_assoc (frame big x) (frames big ps) (frame big p))

pub AllNonempty-append :
    (ps : List (List ℕ)) (p : List ℕ) → AllNonempty ps → 0 < length p → AllNonempty (ps ++ p ∷ [])
AllNonempty-append [] p h k = (k, tt)
AllNonempty-append (x ∷ ps) p h k = (h.0, AllNonempty-append ps p h.1 k)

abbrev holds_nothing : List (List ℕ) → Bool
holds_nothing [] = true
holds_nothing (p ∷ ps) = false

pub length-frames :
    (big : Bool) (p : List ℕ) (ps : List (List ℕ))
    → length (frames big (p ∷ ps)) ≡ 4 + length p + length (frames big ps)
length-frames big p ps =
    length-append (frame big p) (frames big ps)
    ∙ ap (λ k. k + length (frames big ps)) (length-frame big p)

leb-frames : (big : Bool) (ps : List (List ℕ)) → leb (length (frames big ps)) 0 ≡ holds_nothing ps
leb-frames big [] = refl
leb-frames big (p ∷ ps) = le→leb_false (omega (arith, length-frames big p ps))
  where
    le→leb_false : 0 < length (frames big (p ∷ ps)) → leb (length (frames big (p ∷ ps))) 0 ≡ false
    le→leb_false h = ground arith

-- Initialize makes a queue that holds nothing.
pub initialize-Holds :
    (big : Bool) (cap : ℕ)
    → 8 < cap
    → cap ≤ 2 ^ 31
    → ((initialize big cap).0 ≡ ok) × Holds big cap (initialize big cap).1 []
unfolding initialize
initialize-Holds big cap h k =
    let z : (0 + 0) % cap ≡ 0 = ground (arith, mod_once (0 + 0) cap) in
    (
      refl,
      record {
        large = h;
        small = k;
        allocated = omega (arith, length-replicate {A = ℕ} cap 0);
        head_in = omega arith;
        tail_in = omega arith;
        tail_at = sym z;
        reserved = omega arith;
        bytes = refl;
        nonempty = tt;
      },
    )

module _ (cap head tail n : ℕ) (large : 8 < cap) (small : cap ≤ 2 ^ 31) (head_in : head < cap) where
  used_modulo : n < cap → tail ≡ (head + n) % cap → sub32 (add32 tail cap) head % cap ≡ n
  used_modulo h e =
      let b : tail < cap = rw e (ground (arith, mod_once (head + n) cap)) in
      let x : sub32 (add32 tail cap) head ≡ tail + cap - head = omega arith in
      rw x (ground (arith, mod_once (head + n) cap, mod_once (tail + cap - head) cap))

  free_modulo :
      n < cap
      → tail ≡ (head + n) % cap
      → (if head == tail then cap else sub32 (add32 head cap) tail % cap) ≡ cap - n
  free_modulo h e =
      let b : tail < cap = rw e (ground (arith, mod_once (head + n) cap)) in
      let x : sub32 (add32 head cap) tail ≡ head + cap - tail = omega arith in
      rw x (ground (arith, mod_once (head + n) cap, mod_once (head + cap - tail) cap))

module _ (big : Bool) (cap : ℕ) (q : Queue) (ps : List (List ℕ)) (v : Holds big cap q ps) where
  pub used_info : get_used_info big cap q ≡ (q.head, q.tail, length (frames big ps))
  unfolding get_used_info
  used_info =
      let n = length (frames big ps) in
      let u =
        used_modulo cap q.head q.tail n v.large v.small v.head_in
          (omega (arith, v.reserved, v.large)) v.tail_at in
      ground (arith, u)

  pub free_info : get_free_info big cap q ≡ (q.head, q.tail, cap - length (frames big ps) - 8)
  unfolding get_free_info
  free_info =
      let n = length (frames big ps) in
      let u =
        free_modulo cap q.head q.tail n v.large v.small v.head_in
          (omega (arith, v.reserved, v.large)) v.tail_at in
      ground (arith, u)

  nothing_used : leb (length (frames big ps)) 0 ≡ holds_nothing ps
  nothing_used = leb-frames big ps

  -- The sizes that the queue computes from its two places are the bytes that its packets take, and what
  -- they leave of the capacity, less the reserve; it is empty exactly if it holds no packet.
  pub sizes :
      (get_used_size big cap q ≡ length (frames big ps))
      × (get_free_size big cap q ≡ cap - length (frames big ps) - 8)
      × (is_empty big cap q ≡ holds_nothing ps)
      × (is_full big cap q ≡ leb (cap - length (frames big ps) - 8) 0)
  unfolding get_used_size get_free_size is_empty is_full
  sizes =
      let n = length (frames big ps) in
      let b : n < cap = omega (arith, v.reserved, v.large) in
      let u = used_modulo cap q.head q.tail n v.large v.small v.head_in b v.tail_at in
      let f = free_modulo cap q.head q.tail n v.large v.small v.head_in b v.tail_at in
      let used : get_used_size big cap q ≡ n = ground (arith, u) in
      let free : get_free_size big cap q ≡ cap - n - 8 = ground (arith, f) in
      (used, free, ap (λ k. leb k 0) used ∙ nothing_used, ap (λ k. leb k 0) free)
