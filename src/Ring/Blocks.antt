-- ===== src/Ring/Blocks.antt =====
-- A block that passes the end of the array, as the code copies it: in two parts.
use lightframe.Common.{
  ℕ, ◌+◌, ◌%◌, ◌≤◌, ◌<◌, ◌≡◌, sym, ◌∙◌, List, arith, length, ◌⊎◌, inl, inr, get_or,
  get_or-write_before, get_or-write_after, array_ext, read, write, length-read, read-add,
  write-append,
}
use lightframe.Ring.{
  get_or-ring, length-ring, mod_once, ring, put_ring, ring-read, put_ring-write, ring-add,
  put_ring-append,
}

module _ (cap : ℕ) where
  -- A block that passes the end goes in as two blocks, and comes out as two blocks.
  pub put_ring-two :
      (buf : List ℕ) (t : ℕ) (bytes : List ℕ) (k m : ℕ)
      → t < cap
      → t + k ≡ cap
      → m ≤ cap
      → write (write buf t (read bytes 0 k)) 0 (read bytes k m)
        ≡ put_ring cap buf t (read bytes 0 (k + m))
  put_ring-two buf t bytes k m b c d =
      let xs = read bytes 0 k in
      let lx = length-read bytes 0 k in
      let ly = length-read bytes k m in
      let z : 0 + k ≡ k = omega arith in
      let w : (t + k) % cap ≡ 0 = ground (arith, mod_once (t + k) cap) in
      sym (
        rw (read-add bytes 0 k m, z)
          (put_ring-append cap buf t xs (read bytes k m) b (omega (arith, lx))
            ∙ rw (lx, w)
                (rw (put_ring-write cap buf t xs (omega (arith, lx)))
                  (put_ring-write cap (write buf t xs) 0 (read bytes k m) (omega (arith, ly))))))

  pub ring-two :
      (buf : List ℕ) (h : ℕ) (out : List ℕ) (k m : ℕ)
      → h < cap
      → h + k ≡ cap
      → m ≤ cap
      → write (write out 0 (read buf h k)) k (read buf 0 m) ≡ write out 0 (ring cap buf h (k + m))
  ring-two buf h out k m b c d =
      let z : 0 + k ≡ k = omega arith in
      let w : (h + k) % cap ≡ 0 = ground (arith, mod_once (h + k) cap) in
      sym (
        rw (
          ring-add cap buf h k m b (omega arith),
          w,
          ring-read cap buf h k (omega arith),
          ring-read cap buf 0 m (omega arith),
          write-append out 0 (read buf h k) (read buf 0 m),
          length-read buf h k,
          z,
        ))

  -- A block written outside a stretch of the ring leaves the stretch alone.
  pub ring-write_apart :
      (buf : List ℕ) (off : ℕ) (ws : List ℕ) (h n : ℕ)
      → h < cap
      → n ≤ cap
      → ((i : ℕ) → i < n → ((h + i) % cap < off) ⊎ (off + length ws ≤ (h + i) % cap))
      → ring cap (write buf off ws) h n ≡ ring cap buf h n
  ring-write_apart buf off ws h n p q apart =
      let buf' = write buf off ws in
      array_ext _ _ 0 (length-ring cap buf' h n ∙ sym (length-ring cap buf h n)) λ i r.
        let i' : i < n = omega (arith, length-ring cap buf' h n) in
        let same : get_or buf' ((h + i) % cap) 0 ≡ get_or buf ((h + i) % cap) 0 =
          elim (apart i i') [
            | inl before ↦ get_or-write_before buf off ws ((h + i) % cap) before
            | inr after ↦ get_or-write_after buf off ws ((h + i) % cap) after
          ] in
        get_or-ring cap buf' h n i p q i' ∙ same ∙ sym (get_or-ring cap buf h n i p q i')
