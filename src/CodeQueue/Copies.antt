-- ===== src/CodeQueue/Copies.antt =====
-- common/common_codequeue.h: the loops and the split copies are ring reads and ring writes.
use lightframe.Common.{
  ℕ, zero, suc, ◌+◌, ◌-◌, ◌%◌, ◌≤◌, ◌<◌, ◌≡◌, ◌∙◌, Bool, List, arith, get_or, set, read, write,
  length-read,
}
use lightframe.Ring.{mod_once, ring, put_ring, step, ring-read, put_ring-write}
use lightframe.Ring.Blocks.{put_ring-two, ring-two}
use lightframe.CodeQueue.{store_loop, load_loop, copy_in, copy_out}

add_rest : (k len : ℕ) → k < len → k + (len - k) ≡ len
add_rest k len h = omega arith

module _ (big : Bool) (cap : ℕ) where
  -- Storing bytes one by one is storing them round the ring.
  pub store_loop-put_ring :
      (n : ℕ) (p : List ℕ) (i : ℕ) (buf : List ℕ) (t : ℕ)
      → t < cap
      → n < cap
      → store_loop big cap n p i buf t ≡ (put_ring cap buf t (read p i n), (t + n) % cap)
  unfolding store_loop read
  store_loop-put_ring zero p i buf t b c =
      let e : (t + zero) % cap ≡ t = ground (arith, mod_once (t + zero) cap) in rw e
  store_loop-put_ring (suc n) p i buf t b c =
      let b' : (t + 1) % cap < cap = ground (arith, mod_once (t + 1) cap) in
      store_loop-put_ring n p (i + 1) (set buf t (get_or p i 0)) ((t + 1) % cap) b' (omega arith)
      ∙ rw (step cap t n b (omega arith))

  -- Loading bytes one by one is reading them round the ring.
  pub load_loop-ring :
      (n : ℕ) (buf : List ℕ) (i : ℕ) (p : List ℕ) (h : ℕ)
      → h < cap
      → n < cap
      → load_loop big cap n buf i p h ≡ (write p i (ring cap buf h n), (h + n) % cap)
  unfolding load_loop write
  load_loop-ring zero buf i p h b c =
      let e : (h + zero) % cap ≡ h = ground (arith, mod_once (h + zero) cap) in rw e
  load_loop-ring (suc n) buf i p h b c =
      let b' : (h + 1) % cap < cap = ground (arith, mod_once (h + 1) cap) in
      load_loop-ring n buf (i + 1) (set p i (get_or buf h 0)) ((h + 1) % cap) b' (omega arith)
      ∙ rw (step cap h n b (omega arith))

  pub copy_in-put_ring :
      (buf : List ℕ) (head t : ℕ) (bytes : List ℕ) (len : ℕ)
      → t < cap
      → len ≤ cap
      → (t < head → t + len ≤ cap)
      → copy_in big cap buf head t bytes len ≡ put_ring cap buf t (read bytes 0 len)
  unfolding copy_in
  copy_in-put_ring buf head t bytes len b c free = ground (
    arith,
    length-read bytes 0 len,
    put_ring-write cap buf t (read bytes 0 len),
    put_ring-two cap buf t bytes (cap - t) (len - (cap - t)),
    add_rest (cap - t) len,
  )

  pub copy_out-ring :
      (buf : List ℕ) (tail h : ℕ) (out : List ℕ) (len : ℕ)
      → h < cap
      → len ≤ cap
      → (h < tail → h + len ≤ cap)
      → copy_out big cap buf tail h out len ≡ write out 0 (ring cap buf h len)
  unfolding copy_out
  copy_out-ring buf tail h out len b c used = ground (
    arith,
    ring-read cap buf h len,
    ring-two cap buf h out (cap - h) (len - (cap - h)),
    add_rest (cap - h) len,
  )
